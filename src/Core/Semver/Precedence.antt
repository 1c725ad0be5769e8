-- ===== src/Core/Semver/Precedence.antt =====
-- Precedence of versions: the laws of an order, and when two versions tie.
use feature_flag_service.Common.{
  ◌≡◌, refl, ◌↔◌, List, Bytes, Option, none, some, arith, if◌then◌else◌, subst,
}
use feature_flag_service.Core.Semver.{
  Cmp, less, same, greater, Semver, cmp_nat, lex_compare, compare_identifier, compare_pre,
  compare_semver,
}
use feature_flag_service.Core.Semver.Order.{
  flip, IsOrder, cmp_nat-IsOrder, and_then-IsOrder, pullback-IsOrder, lex_compare-IsOrder,
  lex_compare-Separates,
}
use feature_flag_service.Core.Semver.Identifiers.{
  identifiers, compare_prerelease-eq, compare_prerelease-IsOrder, compare_identifier-IsOrder,
  compare_identifier-Separates,
}

compare_pre-IsOrder : IsOrder compare_pre
unfolding compare_pre
compare_pre-IsOrder = record {
  flips = λ a b. ground (arith, compare_prerelease-IsOrder.flips a.pre b.pre);
  trans = λ a b d h k. ground (arith, compare_prerelease-IsOrder.trans a.pre b.pre d.pre);
  congruent = λ a b d h. ground (arith, compare_prerelease-IsOrder.congruent a.pre b.pre d.pre);
}

compare_semver-IsOrder : IsOrder compare_semver
unfolding compare_semver
compare_semver-IsOrder =
    and_then-IsOrder _ _ (pullback-IsOrder (λ (v : Semver). v.major) cmp_nat cmp_nat-IsOrder) (
      and_then-IsOrder _ _ (pullback-IsOrder (λ (v : Semver). v.minor) cmp_nat cmp_nat-IsOrder) (
        and_then-IsOrder _ _ (pullback-IsOrder (λ (v : Semver). v.patch) cmp_nat cmp_nat-IsOrder)
          compare_pre-IsOrder))

-- Comparing the other way round gives the opposite sign.
pub compare_semver-flip : (a b : Semver) → compare_semver b a ≡ flip (compare_semver a b)
compare_semver-flip a b = compare_semver-IsOrder.flips a b

-- Precedence is transitive.
pub compare_semver_trans :
    (a b c : Semver)
    → compare_semver a b ≡ less
    → compare_semver b c ≡ less
    → compare_semver a c ≡ less
compare_semver_trans a b c h k = compare_semver-IsOrder.trans a b c h k

-- The identifiers of the prerelease, where there is one.
abbrev pub pre_identifiers : Semver → Option (List Bytes)
pre_identifiers v = if v.has_pre then some (identifiers v.pre) else none

lex_same : (x y : List Bytes) → (lex_compare compare_identifier x y ≡ same) ↔ (x ≡ y)
lex_same x y = (
  lex_compare-Separates compare_identifier compare_identifier-Separates x y,
  (λ e. subst (λ z. lex_compare compare_identifier x z ≡ same) e (self x)),
)
  where
    self_of : (c : Cmp) → c ≡ flip c → c ≡ same
    self_of same h = refl
    self_of less h = absurd (cc)
    self_of greater h = absurd (cc)

    self : (z : List Bytes) → lex_compare compare_identifier z z ≡ same
    self z =
        self_of _ ((lex_compare-IsOrder compare_identifier compare_identifier-IsOrder).flips z z)

-- Two versions tie exactly if they have the same triple and the same prerelease identifiers, or none.
pub compare_semver_same_iff :
    (a b : Semver)
    → (compare_semver a b ≡ same) ↔ (
        (a.major ≡ b.major)
        × (a.minor ≡ b.minor)
        × (a.patch ≡ b.patch)
        × (pre_identifiers a ≡ pre_identifiers b))
unfolding compare_semver compare_pre
compare_semver_same_iff a b =
    ground
      (arith, compare_prerelease-eq a.pre b.pre, lex_same (identifiers a.pre) (identifiers b.pre))
