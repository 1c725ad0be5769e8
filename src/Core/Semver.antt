-- ===== src/Core/Semver.antt =====
-- internal/core/semver.go: parsing and precedence of semantic versions. The -1, 0 and +1 of the
-- source's comparisons are `less`, `same` and `greater`. The two loops over dot-separated
-- identifiers consume at least one byte a round, and run on the length of the text as fuel.
pub mod Order
pub mod Identifiers
pub mod Precedence
pub mod Numeric
mod Examples
use feature_flag_service.Common.{
  ℕ, zero, suc, ◌^◌, Bool, true, false, not, ◌&&◌, ◌||◌, Bytes, length, is_empty, cut, value_from,
  List, [], ◌∷◌, Option, none, some, ltb, leb, ◌==◌, if◌then◌else◌, ◌>>=◌,
}

pub data Cmp : Type 0 where
  less same greater : Cmp

pub record Semver : Type 0 where
  pub major : ℕ
  pub minor : ℕ
  pub patch : ℕ
  pub pre : Bytes
  pub has_pre : Bool

unfoldable pub is_digit : ℕ → Bool
is_digit c = leb b'0' c && leb c b'9'

unfoldable pub all_digits : Bytes → Bool
unfolding is_digit
all_digits [] = true
all_digits (c ∷ s) = is_digit c && all_digits s

unfoldable pub is_numeric_identifier : Bytes → Bool
unfolding all_digits
is_numeric_identifier [] = false
is_numeric_identifier (c ∷ s) = all_digits (c ∷ s) && (is_empty s || not (c == b'0'))

-- `none` is a text with no dot.
abbrev pub or_whole : Bytes → Option (Bytes × Bytes) → Bytes × Bytes
or_whole s none = (s, [])
or_whole s (some (id, rest)) = (id, rest)

unfoldable pub next_identifier : Bytes → Bytes × Bytes
next_identifier s = or_whole s (cut b'.' s)

unfoldable pub is_identifier_byte : ℕ → Bool
unfolding is_digit
is_identifier_byte c =
    is_digit c || leb b'A' c && leb c b'Z' || leb b'a' c && leb c b'z' || c == b'-'

unfoldable pub all_identifier_bytes : Bytes → Bool
unfolding is_identifier_byte
all_identifier_bytes [] = true
all_identifier_bytes (c ∷ s) = is_identifier_byte c && all_identifier_bytes s

-- One round of the loop of `validDotIdentifiers`, on the identifier that it took.
unfoldable pub valid_identifier : Bytes → Bool → Bool
unfolding all_identifier_bytes is_numeric_identifier
valid_identifier id numeric_strict =
    not (is_empty id)
    && all_identifier_bytes id
    && not (numeric_strict && all_digits id && not (is_numeric_identifier id))

unfoldable pub valid_fuel : ℕ → Bytes → Bool → Bool
valid_fuel zero s numeric_strict = false
valid_fuel (suc f) s numeric_strict = elim (cut b'.' s) [
  | none ↦ valid_identifier s numeric_strict
  | some (id, rest) ↦ valid_identifier id numeric_strict && valid_fuel f rest numeric_strict
]

unfoldable pub valid_dot_identifiers : Bytes → Bool → Bool
unfolding valid_fuel valid_identifier
valid_dot_identifiers s numeric_strict =
    if is_empty s then false else valid_fuel (suc (length s)) s numeric_strict

-- strconv.ParseUint(field, 10, 64) on a numeric identifier
unfoldable pub parse_uint : Bytes → Option ℕ
parse_uint field = let n = value_from 0 field in if ltb n (2 ^ 64) then some n else none

unfoldable pub numeric_field : Bytes → Bytes → Option (ℕ × Bytes)
unfolding parse_uint is_numeric_identifier
numeric_field field rest =
    if is_numeric_identifier field then (do n ← parse_uint field; some (n, rest)) else none

-- `takeNumericField(s, '.')` and `takeNumericField(s, 0)`
unfoldable pub take_numeric_field : Bytes → Option (ℕ × Bytes)
unfolding numeric_field
take_numeric_field s = do (field, rest) ← cut b'.' s; numeric_field field rest

unfoldable pub take_last_field : Bytes → Option (ℕ × Bytes)
unfolding numeric_field
take_last_field s = numeric_field s []

unfoldable pub drop_build : Bytes → Option Bytes
drop_build s = elim (cut b'+' s) [
  | none ↦ some s
  | some (front, build) ↦ if valid_dot_identifiers build false then some front else none
]

-- The core triple, the prerelease and `hasPre`.
unfoldable pub split_pre : Bytes → Option (Bytes × Bytes × Bool)
split_pre s = elim (cut b'-' s) [
  | none ↦ some (s, [], false)
  | some (front, pre) ↦ if valid_dot_identifiers pre true then some (front, pre, true) else none
]

unfoldable pub parse_semver : Bytes → Option Semver
unfolding drop_build split_pre take_numeric_field take_last_field cut valid_dot_identifiers
    value_from
parse_semver s = if is_empty s then none else do
  front ← drop_build s
  (core, pre, has_pre) ← split_pre front
  (major, s1) ← take_numeric_field core
  (minor, s2) ← take_numeric_field s1
  (patch, s3) ← take_last_field s2
  some (record { major = major; minor = minor; patch = patch; pre = pre; has_pre = has_pre })

-- cmpUint64, and cmpInt on lengths
abbrev pub cmp_nat : ℕ → ℕ → Cmp
cmp_nat a b = if ltb a b then less else if ltb b a then greater else same

-- `if c := first; c != 0 { return c }; return second`
abbrev pub and_then : Cmp → Cmp → Cmp
and_then same second = second
and_then less second = less
and_then greater second = greater

-- strings.Compare, for any comparison of the elements.
unfoldable pub lex_compare {ℓ} : {A : Type ℓ} → (A → A → Cmp) → List A → List A → Cmp
lex_compare c [] [] = same
lex_compare c [] (y ∷ ys) = less
lex_compare c (x ∷ xs) [] = greater
lex_compare c (x ∷ xs) (y ∷ ys) = and_then (c x y) (lex_compare c xs ys)

unfoldable pub compare_numeric : Bytes → Bytes → Cmp
unfolding lex_compare
compare_numeric a b =
    if length a == length b then lex_compare cmp_nat a b else cmp_nat (length a) (length b)

unfoldable pub compare_identifier : Bytes → Bytes → Cmp
unfolding compare_numeric
compare_identifier a b =
    if is_numeric_identifier a
    then (if is_numeric_identifier b then compare_numeric a b else less)
    else (if is_numeric_identifier b then greater else lex_compare cmp_nat a b)

unfoldable pub compare_prerelease_fuel : ℕ → Bytes → Bytes → Cmp
compare_prerelease_fuel zero x y = same
compare_prerelease_fuel (suc f) [] [] = same
compare_prerelease_fuel (suc f) [] (b ∷ y) = less
compare_prerelease_fuel (suc f) (a ∷ x) [] = greater
compare_prerelease_fuel (suc f) (a ∷ x) (b ∷ y) =
    let (xi, xr) = next_identifier (a ∷ x) in
    let (yi, yr) = next_identifier (b ∷ y) in
    and_then (compare_identifier xi yi) (compare_prerelease_fuel f xr yr)

unfoldable pub compare_prerelease : Bytes → Bytes → Cmp
unfolding compare_prerelease_fuel next_identifier compare_identifier
compare_prerelease x y = compare_prerelease_fuel (suc (length x)) x y

-- The `switch` on the two `hasPre`.
unfoldable pub compare_pre : Semver → Semver → Cmp
compare_pre a b =
    if a.has_pre
    then (if b.has_pre then compare_prerelease a.pre b.pre else less)
    else (if b.has_pre then greater else same)

unfoldable pub compare_semver : Semver → Semver → Cmp
unfolding compare_pre compare_prerelease
compare_semver a b =
    and_then (cmp_nat a.major b.major)
      (and_then (cmp_nat a.minor b.minor) (and_then (cmp_nat a.patch b.patch) (compare_pre a b)))
