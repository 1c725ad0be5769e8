-- ===== src/Common/Decimal.antt =====
-- Decimal text: strconv.FormatInt and strconv.AppendInt in base 10, and the value of digits.
use Prim.Native.Nat.{ℕ, zero, suc, ◌+◌, ◌-◌, ◌*◌, ◌/◌, ◌%◌, ◌≤◌, ◌<◌}
use mathlib.Core.Path.{◌≡◌, refl}
use mathlib.Core.List.{[], ◌∷◌, ◌++◌}
use native.Mathlib.Omega.{arith}
use feature_flag_service.Common.Tests.{ltb, if◌then◌else◌}
use feature_flag_service.Common.Lists.{All, All-append}
use feature_flag_service.Common.Ints.{ℤ, pos, negsuc}
use feature_flag_service.Common.Strings.{Bytes, Avoids}

-- The digits of `n`, the last one first taken; `suc n` rounds are enough.
decimal_fuel : ℕ → ℕ → Bytes
decimal_fuel zero n = []
decimal_fuel (suc f) n =
    let front = decimal_fuel f (n / 10) in
    if ltb n 10 then (48 + n) ∷ [] else front ++ (48 + n % 10) ∷ []

unfoldable pub decimal : ℕ → Bytes
unfolding decimal_fuel
decimal n = decimal_fuel (suc n) n

unfoldable pub format_int : ℤ → Bytes
unfolding decimal
format_int (pos n) = decimal n
format_int (negsuc n) = b'-' ∷ decimal (suc n)

-- The number that a run of digits denotes, after the digits in `acc`.
unfoldable pub value_from : ℕ → Bytes → ℕ
value_from acc [] = acc
value_from acc (c ∷ s) = value_from (acc * 10 + (c - 48)) s

abbrev pub IsDigit : ℕ → Type 0
IsDigit c = (48 ≤ c) × (c ≤ 57)

pub value_from-append :
    (acc : ℕ) (s t : Bytes) → value_from acc (s ++ t) ≡ value_from (value_from acc s) t
unfolding value_from
value_from-append acc [] t = refl
value_from-append acc (c ∷ s) t = value_from-append (acc * 10 + (c - 48)) s t

value_from-decimal_fuel : (f n : ℕ) → n < f → value_from 0 (decimal_fuel f n) ≡ n
unfolding decimal_fuel value_from
value_from-decimal_fuel zero n h = absurd (omega arith)
value_from-decimal_fuel (suc f) n h = ground (
  arith,
  value_from-append 0 (decimal_fuel f (n / 10)) ((48 + n % 10) ∷ []),
  value_from-decimal_fuel f (n / 10),
)

-- The digits of `n` denote `n`.
pub value_from-decimal : (n : ℕ) → value_from 0 (decimal n) ≡ n
unfolding decimal
value_from-decimal n = value_from-decimal_fuel (suc n) n (omega arith)

decimal_fuel-IsDigit : (f n : ℕ) → All IsDigit (decimal_fuel f n)
unfolding decimal_fuel
decimal_fuel-IsDigit zero n = tt
decimal_fuel-IsDigit (suc f) n = ground (
  arith,
  decimal_fuel-IsDigit f (n / 10),
  All-append IsDigit (decimal_fuel f (n / 10)) ((48 + n % 10) ∷ []),
)

pub decimal-IsDigit : (n : ℕ) → All IsDigit (decimal n)
unfolding decimal
decimal-IsDigit n = decimal_fuel-IsDigit (suc n) n

pub digits-Avoids : (c : ℕ) (s : Bytes) → 57 < c → All IsDigit s → Avoids c s
digits-Avoids c [] h d = tt
digits-Avoids c (a ∷ s) h d = (omega arith, digits-Avoids c s h d.1)

decimal_test : format_int (negsuc 1204) ≡ b'-' ∷ b'1' ∷ b'2' ∷ b'0' ∷ b'5' ∷ []
unfolding format_int
decimal_test = refl
