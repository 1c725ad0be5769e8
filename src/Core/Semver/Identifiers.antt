-- ===== src/Core/Semver/Identifiers.antt =====
-- Identifiers and prereleases: the comparison of one identifier, and the loop over two prereleases
-- against the comparison of the lists of their identifiers.
use feature_flag_service.Common.{
  ℕ, zero, suc, ◌<◌, ◌≡◌, refl, sym, ap, ◌∙◌, fun_ext, List, [], ◌∷◌, ◌++◌, Bytes, length,
  length-append, cut, cut_sound, cut-Avoids, Avoids, Option, none, some, arith, ◌==◌, if◌then◌else◌,
  subst,
}
use feature_flag_service.Core.Semver.{
  Cmp, cmp_nat, and_then, lex_compare, compare_numeric, compare_identifier, or_whole,
  next_identifier, compare_prerelease_fuel, compare_prerelease,
}
use feature_flag_service.Core.Semver.Order.{
  IsOrder, Separates, cmp_nat-IsOrder, cmp_nat-Separates, and_then-IsOrder, pullback-IsOrder,
  lex_compare-IsOrder, lex_compare-Separates,
}

abbrev compare_bytes : Bytes → Bytes → Cmp
compare_bytes = lex_compare cmp_nat

compare_bytes-IsOrder : IsOrder compare_bytes
compare_bytes-IsOrder = lex_compare-IsOrder cmp_nat cmp_nat-IsOrder

-- Comparing by length and then by bytes.
by_length : Bytes → Bytes → Cmp
by_length a b = and_then (cmp_nat (length a) (length b)) (compare_bytes a b)

compare_numeric-eq : (a b : Bytes) → compare_numeric a b ≡ by_length a b
unfolding compare_numeric by_length
compare_numeric-eq a b = ground arith

by_length-IsOrder : IsOrder by_length
unfolding by_length
by_length-IsOrder =
    and_then-IsOrder (λ a b. cmp_nat (length a) (length b)) compare_bytes
      (pullback-IsOrder length cmp_nat cmp_nat-IsOrder) compare_bytes-IsOrder

compare_numeric-IsOrder : IsOrder compare_numeric
compare_numeric-IsOrder =
    subst IsOrder (sym (fun_ext λ a. fun_ext λ b. compare_numeric-eq a b)) by_length-IsOrder

pub compare_identifier-IsOrder : IsOrder compare_identifier
unfolding compare_identifier
compare_identifier-IsOrder = record {
  flips = λ a b. ground (arith, compare_numeric-IsOrder.flips a b, compare_bytes-IsOrder.flips a b);
  trans = λ a b d h k.
      ground (arith, compare_numeric-IsOrder.trans a b d, compare_bytes-IsOrder.trans a b d);
  congruent = λ a b d h.
      ground
        (arith, compare_numeric-IsOrder.congruent a b d, compare_bytes-IsOrder.congruent a b d);
}

pub compare_identifier-Separates : Separates compare_identifier
unfolding compare_identifier compare_numeric
compare_identifier-Separates a b h =
    ground (arith, lex_compare-Separates cmp_nat cmp_nat-Separates a b)

-- The dot-separated identifiers of a prerelease, a final empty one left out.
abbrev push : ℕ → List Bytes → List Bytes
push c [] = (c ∷ []) ∷ []
push c (id ∷ ids) = (c ∷ id) ∷ ids

unfoldable pub identifiers : Bytes → List Bytes
identifiers [] = []
identifiers (c ∷ s) = let rest = identifiers s in if c == b'.' then [] ∷ rest else push c rest

identifiers-nil : identifiers [] ≡ []
unfolding identifiers
identifiers-nil = refl

identifiers-append :
    (p q : Bytes) → Avoids b'.' p → identifiers (p ++ (b'.' ∷ q)) ≡ p ∷ identifiers q
unfolding identifiers
identifiers-append [] q h = refl
identifiers-append (c ∷ p) q h = ground (arith, identifiers-append p q h.1)

identifiers-one : (c : ℕ) (p : Bytes) → Avoids b'.' (c ∷ p) → identifiers (c ∷ p) ≡ (c ∷ p) ∷ []
unfolding identifiers
identifiers-one c [] h = ground arith
identifiers-one c (d ∷ p) h = ground (arith, identifiers-one d p h.1)

-- A round of the loop takes the first identifier off, and text with it.
abbrev Takes : Bytes → Bytes × Bytes → Type 0
Takes s (id, rest) = (identifiers s ≡ id ∷ identifiers rest) × (length rest < length s)

length-split : (c : ℕ) (s p q : Bytes) → s ≡ p ++ (c ∷ q) → length q < length s
length-split c s p q e = rw e (omega (arith, length-append p (c ∷ q)))

or_whole_lem :
    (c : ℕ) (s : Bytes) (r : Option (Bytes × Bytes))
    → cut b'.' (c ∷ s) ≡ r
    → Takes (c ∷ s) (or_whole (c ∷ s) r)
or_whole_lem c s none e = (
  identifiers-one c s (cut-Avoids b'.' (c ∷ s) e) ∙ ap (λ t. (c ∷ s) ∷ t) (sym identifiers-nil),
  omega arith,
)
or_whole_lem c s (some (id, rest)) e =
    let (split, front) = cut_sound b'.' (c ∷ s) id rest e in
    (
      ap identifiers split ∙ identifiers-append id rest front,
      length-split b'.' (c ∷ s) id rest split,
    )

next_identifier_lem : (c : ℕ) (s : Bytes) → Takes (c ∷ s) (next_identifier (c ∷ s))
unfolding next_identifier
next_identifier_lem c s = or_whole_lem c s (cut b'.' (c ∷ s)) refl

-- The loop over two prereleases compares the lists of their identifiers; fuel above the length of
-- the first is enough.
compare_prerelease_fuel-eq :
    (f : ℕ) (x y : Bytes)
    → length x < f
    → compare_prerelease_fuel f x y ≡ lex_compare compare_identifier (identifiers x) (identifiers y)
unfolding compare_prerelease_fuel lex_compare
compare_prerelease_fuel-eq zero x y h = absurd (omega arith)
compare_prerelease_fuel-eq (suc f) [] [] h = rw identifiers-nil
compare_prerelease_fuel-eq (suc f) [] (b ∷ y) h = rw (identifiers-nil, (next_identifier_lem b y).0)
compare_prerelease_fuel-eq (suc f) (a ∷ x) [] h = rw (identifiers-nil, (next_identifier_lem a x).0)
compare_prerelease_fuel-eq (suc f) (a ∷ x) (b ∷ y) h =
    let shorter = (next_identifier_lem a x).1 in
    rw ((next_identifier_lem a x).0, (next_identifier_lem b y).0)
      (ap (and_then (compare_identifier _ _)) (
        compare_prerelease_fuel-eq f (next_identifier (a ∷ x)).1 (next_identifier (b ∷ y)).1
          (omega arith)))

-- `comparePrerelease` compares the identifiers of its arguments one by one, a list that is a prefix
-- of another first.
pub compare_prerelease-eq :
    (x y : Bytes)
    → compare_prerelease x y ≡ lex_compare compare_identifier (identifiers x) (identifiers y)
unfolding compare_prerelease
compare_prerelease-eq x y = compare_prerelease_fuel-eq (suc (length x)) x y (omega arith)

pub compare_prerelease-IsOrder : IsOrder compare_prerelease
compare_prerelease-IsOrder =
    subst IsOrder (sym (fun_ext λ x. fun_ext λ y. compare_prerelease-eq x y)) (
      pullback-IsOrder identifiers _
        (lex_compare-IsOrder compare_identifier compare_identifier-IsOrder))
