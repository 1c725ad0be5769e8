-- ===== src/Common/Strings.antt =====
-- Go strings as lists of bytes, with the functions of package strings that the program calls.
use Prim.Native.Nat.{ℕ}
use Prim.Native.Char.{code}
use Prim.Native.String.{String}
use mathlib.Core.Path.{◌≡◌, refl}
use mathlib.Core.Logic.{◌≢◌, ◌↔◌}
use mathlib.Core.Bool.{Bool, true, false, ◌&&◌, ◌||◌}
use mathlib.Core.Option.{Option, none, some}
use mathlib.Core.List.{List, [], ◌∷◌, ◌++◌}
use native.Mathlib.Omega.{arith}
use feature_flag_service.Common.Tests.{◌==◌, if◌then◌else◌}
use feature_flag_service.Common.Lists.{All}

abbrev pub Bytes : Type 0
Bytes = List ℕ

-- A string literal of the source; the literals are ASCII.
abbrev pub codes : String → Bytes
codes String.[] = []
codes (String.◌∷◌ c s) = code c ∷ codes s

unfoldable pub str_eq : Bytes → Bytes → Bool
str_eq [] [] = true
str_eq (a ∷ s) (b ∷ t) = (a == b) && str_eq s t
str_eq [] (b ∷ t) = false
str_eq (a ∷ s) [] = false

pub str_eq_iff : (s t : Bytes) → (str_eq s t ≡ true) ↔ (s ≡ t)
unfolding str_eq
str_eq_iff [] [] = ground arith
str_eq_iff (a ∷ s) (b ∷ t) = ground (arith, str_eq_iff s t)
str_eq_iff [] (b ∷ t) = ground arith
str_eq_iff (a ∷ s) [] = ground arith

pub str_eq_refl : (s : Bytes) → str_eq s s ≡ true
str_eq_refl s = (str_eq_iff s s).1 refl

unfoldable pub is_empty : Bytes → Bool
is_empty [] = true
is_empty (c ∷ s) = false

abbrev pub cut_at : ℕ → ℕ → Bytes → Option (Bytes × Bytes) → Option (Bytes × Bytes)
cut_at c a s none = if a == c then some ([], s) else none
cut_at c a s (some (p, q)) = if a == c then some ([], s) else some (a ∷ p, q)

-- `s[:i]` and `s[i+1:]` at `i = strings.IndexByte(s, c)`; `none` where the index is -1.
unfoldable pub cut : ℕ → Bytes → Option (Bytes × Bytes)
cut c [] = none
cut c (a ∷ s) = cut_at c a s (cut c s)

-- No byte of the string is `c`.
abbrev pub Avoids : ℕ → Bytes → Type 0
Avoids c = All (λ a. a ≢ c)

-- strings.HasPrefix and strings.Contains, their second argument first.
unfoldable pub has_prefix : Bytes → Bytes → Bool
has_prefix [] s = true
has_prefix (a ∷ p) [] = false
has_prefix (a ∷ p) (b ∷ s) = (a == b) && has_prefix p s

unfoldable pub contains : Bytes → Bytes → Bool
unfolding has_prefix
contains sub [] = has_prefix sub []
contains sub (b ∷ s) = has_prefix sub (b ∷ s) || contains sub s

-- The text up to the first `c`, and the rest behind it.
pub cut-append : (c : ℕ) (p q : Bytes) → Avoids c p → cut c (p ++ (c ∷ q)) ≡ some (p, q)
unfolding cut
cut-append c [] q h = ground arith
cut-append c (a ∷ p) q h = ground (arith, cut-append c p q)

pub cut-none : (c : ℕ) (s : Bytes) → Avoids c s → cut c s ≡ none
unfolding cut
cut-none c [] h = refl
cut-none c (a ∷ s) h = ground (arith, cut-none c s)

abbrev pub IsSplit : ℕ → Bytes → Bytes → Bytes → Type 0
IsSplit c s p q = (s ≡ p ++ (c ∷ q)) × Avoids c p

cut_step :
    (c a : ℕ) (s p q : Bytes) (r : Option (Bytes × Bytes))
    → ((p' q' : Bytes) → r ≡ some (p', q') → IsSplit c s p' q')
    → cut_at c a s r ≡ some (p, q)
    → IsSplit c (a ∷ s) p q
cut_step c a s [] q none ih h = ground arith
cut_step c a s (b ∷ p) q none ih h = ground arith
cut_step c a s [] q (some (p', q')) ih h = ground arith
cut_step c a s (b ∷ p) q (some (p', q')) ih h = ground (arith, ih p' q' refl)

-- What `cut` finds is a split of the text at its first `c`.
pub cut_sound : (c : ℕ) (s p q : Bytes) → cut c s ≡ some (p, q) → IsSplit c s p q
unfolding cut
cut_sound c [] p q h = absurd (cc)
cut_sound c (a ∷ s) p q h = cut_step c a s p q (cut c s) (cut_sound c s) h

pub cut-Avoids : (c : ℕ) (s : Bytes) → cut c s ≡ none → Avoids c s
unfolding cut
cut-Avoids c [] h = tt
cut-Avoids c (a ∷ s) h = ground (arith, cut-Avoids c s)
