-- ===== src/Core/Semver/Numeric.antt =====
-- Numeric identifiers compare by value, though the code parses neither.
use feature_flag_service.Common.{
  ap, ℕ, zero, suc, ◌+◌, ◌-◌, ◌*◌, ◌<◌, ◌≤◌, ◌≡◌, [], ◌∷◌, Bytes, length, value_from, All, IsDigit,
  arith, true, is_empty,
}
use feature_flag_service.Core.Semver.{
  cmp_nat, lex_compare, all_digits, is_numeric_identifier, compare_numeric, compare_identifier,
}

power : ℕ → ℕ
power zero = 1
power (suc n) = 10 * power n

-- A run of digits behind `acc` lies in the interval of its length.
value_from_bounds :
    (acc : ℕ) (s : Bytes)
    → All IsDigit s
    → (acc * power (length s) ≤ value_from acc s)
      × (value_from acc s < (acc + 1) * power (length s))
unfolding power value_from
value_from_bounds acc [] h = omega arith
value_from_bounds acc (c ∷ s) h =
    let ih = value_from_bounds (acc * 10 + (c - 48)) s h.1 in
    let digit : (c - 48) * power (length s) ≤ 9 * power (length s) = grind arith in omega arith

-- Behind a smaller `acc` a run of the same length has a smaller value.
value_from_mono :
    (a b : ℕ) (s t : Bytes)
    → a < b
    → length s ≡ length t
    → All IsDigit s
    → All IsDigit t
    → value_from a s < value_from b t
value_from_mono a b s t h e ds dt =
    let lo = value_from_bounds a s ds in
    let hi = value_from_bounds b t dt in
    let step : (a + 1) * power (length s) ≤ b * power (length s) = grind arith in
    let same_power : power (length s) ≡ power (length t) = ap power e in grind arith

lex_compare-value :
    (acc : ℕ) (s t : Bytes)
    → length s ≡ length t
    → All IsDigit s
    → All IsDigit t
    → lex_compare cmp_nat s t ≡ cmp_nat (value_from acc s) (value_from acc t)
unfolding lex_compare value_from
lex_compare-value acc [] [] e ds dt = ground arith
lex_compare-value acc [] (d ∷ t) e ds dt = absurd (omega arith)
lex_compare-value acc (c ∷ s) [] e ds dt = absurd (omega arith)
lex_compare-value acc (c ∷ s) (d ∷ t) e ds dt = ground (
  arith,
  lex_compare-value (acc * 10 + (c - 48)) s t,
  value_from_mono (acc * 10 + (c - 48)) (acc * 10 + (d - 48)) s t,
  value_from_mono (acc * 10 + (d - 48)) (acc * 10 + (c - 48)) t s,
)

all_digits-IsDigit : (s : Bytes) → all_digits s ≡ true → All IsDigit s
unfolding all_digits
all_digits-IsDigit [] h = tt
all_digits-IsDigit (c ∷ s) h = ground (arith, all_digits-IsDigit s)

power_mono : (m n : ℕ) → m ≤ n → power m ≤ power n
unfolding power
power_mono zero zero h = omega arith
power_mono zero (suc n) h = omega (arith, power_mono zero n (omega arith))
power_mono (suc m) zero h = absurd (omega arith)
power_mono (suc m) (suc n) h = omega (arith, power_mono m n (omega arith))

numeric-IsDigit : (s : Bytes) → is_numeric_identifier s ≡ true → All IsDigit s
unfolding is_numeric_identifier
numeric-IsDigit [] h = tt
numeric-IsDigit (c ∷ s) h = all_digits-IsDigit (c ∷ s) (ground arith)

-- A numeric identifier of two bytes or more begins with no zero.
leading_digit : (c : ℕ) (s : Bytes) → is_numeric_identifier (c ∷ s) ≡ true → 0 < length s → 49 ≤ c
unfolding is_numeric_identifier is_empty
leading_digit c [] h k = absurd (omega arith)
leading_digit c (d ∷ s) h k = ground arith

-- The shorter of two numeric identifiers has the smaller value: the longer has no leading zero.
value_from_shorter :
    (s t : Bytes)
    → is_numeric_identifier t ≡ true
    → All IsDigit s
    → 0 < length s
    → length s < length t
    → value_from 0 s < value_from 0 t
unfolding value_from
value_from_shorter s [] ht ds some_s h = absurd (omega arith)
value_from_shorter s (d ∷ t) ht ds some_s h =
    let lead = leading_digit d t ht (omega arith) in
    let hi = (value_from_bounds 0 s ds).1 in
    let lo = (value_from_bounds (0 * 10 + (d - 48)) t (numeric-IsDigit (d ∷ t) ht).1).0 in
    let wide = power_mono (length s) (length t) (omega arith) in
    let first : 1 * power (length t) ≤ (0 * 10 + (d - 48)) * power (length t) = grind arith in
    omega arith

numeric_nonempty : (s : Bytes) → is_numeric_identifier s ≡ true → 0 < length s
unfolding is_numeric_identifier
numeric_nonempty [] h = absurd (cc)
numeric_nonempty (c ∷ s) h = omega arith

-- Two numeric identifiers compare as the numbers that they denote, of any length.
pub compare_identifier-numeric :
    (s t : Bytes)
    → is_numeric_identifier s ≡ true
    → is_numeric_identifier t ≡ true
    → compare_identifier s t ≡ cmp_nat (value_from 0 s) (value_from 0 t)
unfolding compare_identifier compare_numeric
compare_identifier-numeric s t hs ht =
    let ds = numeric-IsDigit s hs in
    let dt = numeric-IsDigit t ht in
    ground (
      arith,
      hs,
      ht,
      λ (e : length s ≡ length t). lex_compare-value 0 s t e ds dt,
      λ (h : length s < length t). value_from_shorter s t ht ds (numeric_nonempty s hs) h,
      λ (h : length t < length s). value_from_shorter t s hs dt (numeric_nonempty t ht) h,
    )
