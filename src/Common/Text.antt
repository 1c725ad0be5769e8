-- ===== src/Common/Text.antt =====
-- Functions of package strings on Unicode texts, as an interface: what they return on texts of printable
-- ASCII is all that is stated of them.
use Prim.Native.Nat.{ℕ, ◌+◌, ◌≤◌}
use mathlib.Core.Path.{◌≡◌, refl, ap, ◌∙◌}
use mathlib.Core.Bool.{◌&&◌}
use mathlib.Core.List.{[], ◌∷◌, map}
use native.Mathlib.Omega.{arith}
use feature_flag_service.Common.Tests.{leb, if◌then◌else◌}
use feature_flag_service.Common.Lists.{All}
use feature_flag_service.Common.Strings.{Bytes}

-- strings.TrimSpace and strings.ToLower
pub record TextLib : Type 0 where
  pub trim_space : Bytes → Bytes
  pub to_lower : Bytes → Bytes

abbrev pub lower_byte : ℕ → ℕ
lower_byte c = if leb b'A' c && leb c b'Z' then c + 32 else c

-- No space, no control character, and one byte for each character.
abbrev pub IsPrintable : ℕ → Type 0
IsPrintable c = (b'!' ≤ c) × (c ≤ b'~')

pub record IsTextLib (t : TextLib) : Type 0 where
  pub trims : (s : Bytes) → All IsPrintable s → t.trim_space s ≡ s
  pub lowers : (s : Bytes) → All IsPrintable s → t.to_lower s ≡ map lower_byte s

-- An instance for the tests: the same on texts of ASCII.
abbrev trim_start : Bytes → Bytes
trim_start [] = []
trim_start (c ∷ s) = if leb c b' ' then trim_start s else (c ∷ s)

abbrev before : ℕ → Bytes → Bytes
before c [] = if leb c b' ' then [] else (c ∷ [])
before c (d ∷ s) = c ∷ (d ∷ s)

abbrev trim_end : Bytes → Bytes
trim_end [] = []
trim_end (c ∷ s) = before c (trim_end s)

trim_end-same : (s : Bytes) → All IsPrintable s → trim_end s ≡ s
trim_end-same [] h = refl
trim_end-same (c ∷ []) h = ground (arith, h.0)
trim_end-same (c ∷ (d ∷ s)) h = rw (trim_end-same (d ∷ s) h.1) refl

trim_start-same : (s : Bytes) → All IsPrintable s → trim_start s ≡ s
trim_start-same [] h = refl
trim_start-same (c ∷ s) h = ground (arith, h.0)

abbrev pub ascii : TextLib
ascii = record { trim_space = λ s. trim_start (trim_end s); to_lower = map lower_byte }

pub ascii-IsTextLib : IsTextLib ascii
ascii-IsTextLib = record {
  trims = λ s h. ap trim_start (trim_end-same s h) ∙ trim_start-same s h;
  lowers = λ s h. refl;
}
