-- ===== src/Config/Premerge/Base/Sound.antt =====
-- What a base layer that its validation accepts is.
use feature_flag_service.Common.{
  ◌≡◌, refl, ◌⊎◌, true, false, not, ◌&&◌, Bytes, is_empty, List, [], ◌∷◌, Option, none, some, All,
  arith,
}
use feature_flag_service.Core.Value.{value_type, type_eq, is_unknown, parse_value_type}
use feature_flag_service.Core.Value.Laws.{type_eq_iff}
use feature_flag_service.Config.Layer.{
  layer_base, BaseFlag, BaseLayer, WireRollout, parse_evaluation_order,
}
use feature_flag_service.Config.Findings.{is_rejection, rejections, when}
use feature_flag_service.Config.Merge.Fields.{field_name, field_rules}
use feature_flag_service.Config.Resolved.{member}
use feature_flag_service.Config.Resolved.Sound.{split_clean, when_unmade}
use feature_flag_service.Config.Premerge.{is_flag_key}
use feature_flag_service.Config.Premerge.Clean.{InRange, range_lem}
use feature_flag_service.Config.Premerge.Rules.{validate_rule_list}
use feature_flag_service.Config.Premerge.Rules.Sound.{
  IsSoundWireRule, DistinctIds, validate_rule_list-IsSoundWireRule,
}
use feature_flag_service.Config.Premerge.Base.{
  rollout_out_of_range, missing_findings, base_type_findings, base_flag_findings,
  base_flags_findings, validate_base,
}

abbrev pub RolloutInRange : Option WireRollout → Type 0
RolloutInRange none = Unit
RolloutInRange (some r) = InRange (some r.basis_points)

pub record IsSoundBaseFlag (f : BaseFlag) : Type 0 where
  pub complete : f.missing ≡ []
  pub key_known : is_flag_key f.key ≡ true
  pub type_known : (parse_value_type f.type).1 ≡ true
  pub default_typed : value_type f.default_value ≡ (parse_value_type f.type).0
  pub off_typed :
      (is_unknown f.off_value ≡ true) ⊎ (value_type f.off_value ≡ (parse_value_type f.type).0)
  pub order_known : (parse_evaluation_order f.evaluation_order).1 ≡ true
  pub rules_sound : All IsSoundWireRule f.rules
  pub ids_distinct : DistinctIds [] f.rules
  pub rollout_in_range : RolloutInRange f.rollout

-- No key twice, and none of `seen`.
abbrev pub DistinctFlags : List Bytes → List BaseFlag → Type 0
DistinctFlags seen [] = Unit
DistinctFlags seen (f ∷ flags) = (member f.key seen ≡ false) × DistinctFlags (f.key ∷ seen) flags

missing_findings-empty :
    (key : Bytes) (missing : List Bytes)
    → rejections (missing_findings key missing) ≡ []
    → missing ≡ []
unfolding missing_findings rejections
missing_findings-empty key [] h = refl
missing_findings-empty key (m ∷ missing) h = absurd (cc)

rollout_range : (ro : Option WireRollout) → rollout_out_of_range ro ≡ false → RolloutInRange ro
rollout_range none h = tt
rollout_range (some r) h = range_lem (some r.basis_points) h

record IsTyped (f : BaseFlag) : Type 0 where
  type_known : (parse_value_type f.type).1 ≡ true
  default_typed : value_type f.default_value ≡ (parse_value_type f.type).0
  off_typed :
      (is_unknown f.off_value ≡ true) ⊎ (value_type f.off_value ≡ (parse_value_type f.type).0)

base_type-IsTyped : (f : BaseFlag) → rejections (base_type_findings f) ≡ [] → IsTyped f
unfolding base_type_findings is_rejection
base_type-IsTyped f h =
    let typ = (parse_value_type f.type).0 in
    let (h1, k1) = split_clean (when (not (parse_value_type f.type).1) _) _ h in
    let (h2, h3) =
      split_clean
        (when ((parse_value_type f.type).1 && not (type_eq (value_type f.default_value) typ)) _) _
        k1 in
    let known = when_unmade (not (parse_value_type f.type).1) _ refl h1 in
    let default_ok = when_unmade _ _ refl h2 in
    let off_ok = when_unmade _ _ refl h3 in
    record {
      type_known = ground (arith, known);
      default_typed =
          ground (arith, known, default_ok, type_eq_iff (value_type f.default_value) typ);
      off_typed = ground (arith, known, off_ok, type_eq_iff (value_type f.off_value) typ);
    }

base_flag-IsSoundBaseFlag :
    (seen : List Bytes) (f : BaseFlag)
    → rejections (base_flag_findings seen f) ≡ []
    → IsSoundBaseFlag f × (member f.key seen ≡ false)
unfolding base_flag_findings is_rejection
base_flag-IsSoundBaseFlag seen f h =
    let (h1, k1) = split_clean (missing_findings f.key f.missing) _ h in
    let (h2, k2) = split_clean (when (not (is_flag_key f.key)) _) _ k1 in
    let (h3, k3) = split_clean (when (member f.key seen) _) _ k2 in
    let (h4, k4) = split_clean (base_type_findings f) _ k3 in
    let (h5, k5) = split_clean (when (not (parse_evaluation_order f.evaluation_order).1) _) _ k4 in
    let (h6, k6) = split_clean (when (is_empty f.owner) _) _ k5 in
    let (h7, h8) =
      split_clean (validate_rule_list [] layer_base f.key (field_name field_rules) _ f.rules) _
        k6 in
    let typed = base_type-IsTyped f h4 in
    let rules =
      validate_rule_list-IsSoundWireRule [] layer_base f.key (field_name field_rules) _ refl f.rules
        h7 in
    let key = when_unmade (not (is_flag_key f.key)) _ refl h2 in
    let order = when_unmade (not (parse_evaluation_order f.evaluation_order).1) _ refl h5 in
    (
      record {
        complete = missing_findings-empty f.key f.missing h1;
        key_known = ground (arith, key);
        type_known = typed.type_known;
        default_typed = typed.default_typed;
        off_typed = typed.off_typed;
        order_known = ground (arith, order);
        rules_sound = rules.0;
        ids_distinct = rules.1;
        rollout_in_range = rollout_range f.rollout (when_unmade _ _ refl h8);
      },
      when_unmade _ _ refl h3,
    )

base_flags-All :
    (seen : List Bytes) (flags : List BaseFlag)
    → rejections (base_flags_findings seen flags) ≡ []
    → All IsSoundBaseFlag flags × DistinctFlags seen flags
unfolding base_flags_findings
base_flags-All seen [] h = (tt, tt)
base_flags-All seen (f ∷ flags) h =
    let (here, later) = split_clean (base_flag_findings seen f) _ h in
    let first = base_flag-IsSoundBaseFlag seen f here in
    let rest = base_flags-All (f.key ∷ seen) flags later in ((first.0, rest.0), (first.1, rest.1))

-- A base layer without a rejection has distinct, well-formed keys; each flag is complete, its type,
-- order and rules are known and well-formed, its default has its type, its off value too or is left
-- out, and a rollout's size is from 0 to 10000.
pub validate_base-IsSoundBaseFlag :
    (l : BaseLayer)
    → rejections (validate_base (some l)) ≡ []
    → All IsSoundBaseFlag l.flags × DistinctFlags [] l.flags
unfolding validate_base
validate_base-IsSoundBaseFlag l h = base_flags-All [] l.flags h
