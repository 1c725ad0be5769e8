-- ===== src/Config/Resolved.antt =====
-- `validateResolved` of internal/config/validate.go: the checks on a merged flag.
pub mod Sound
pub mod Answers
use feature_flag_service.Common.{
  ℕ, suc, ◌+◌, ℤ, pos, ltb_ℤ, Bool, true, false, not, ◌&&◌, ◌||◌, Bytes, codes, str_eq, decimal,
  List, [], ◌∷◌, ◌++◌, Option, none, some, if◌then◌else◌, map,
}
use feature_flag_service.Core.Value.{
  Value, ValueType, type_unknown, type_eq, value_type, is_unknown,
}
use feature_flag_service.Core.Model.{
  Rule, Rollout, Flag, EvaluationOrder, order_unspecified, order_rules_first,
}
use feature_flag_service.Core.Bucket.{bucket_space}
use feature_flag_service.Config.Opt.{Opt, value, is_value, or_else, get}
use feature_flag_service.Config.Layer.{
  LayerId, layer_overlay, layer_ops, WireRule, BaseFlag, OverlayFlag, OpsOverride,
  rule_mode_replace, rule_mode_append,
}
use feature_flag_service.Config.Findings.{Finding, Findings, severity_reject_flag, when}
use feature_flag_service.Config.Merge.Fields.{
  Field, field_type, field_default_value, field_off_value, field_rules, field_evaluation_order,
  field_basis_points, field_on_value, field_rollout_off_value, field_name, Layers,
}

unfoldable pub member : Bytes → List Bytes → Bool
member k [] = false
member k (j ∷ keys) = str_eq j k || member k keys

abbrev pub reject : Bytes → Bytes → Bytes → LayerId → Bytes → Finding
reject id key env layer field = record {
  rule_id = id;
  flag = key;
  env = env;
  layer = layer;
  field = field;
  severity = severity_reject_flag;
}

abbrev pub is_unspecified : EvaluationOrder → Bool
is_unspecified order_unspecified = true
is_unspecified order_rules_first = false

abbrev pub has_rules : List Rule → Bool
has_rules [] = false
has_rules (r ∷ rules) = true

abbrev pub has_rollout : Option Rollout → Bool
has_rollout none = false
has_rollout (some r) = true

module _ (env : Bytes) (f : Flag) (layers : Layers) where
  -- The closure `add`, which looks the field's layer up.
  abbrev pub reject_field : Bytes → Field → Finding
  reject_field id field = reject id f.key env (layers field) (field_name field)

  -- M03, over the appended rules.
  unfoldable pub clash_findings : List Bytes → List WireRule → Findings
  clash_findings base_ids [] = []
  clash_findings base_ids (r ∷ rules) =
      when (member r.id base_ids)
        (reject (codes "M03") f.key env layer_overlay (field_name field_rules))
      ++ clash_findings base_ids rules

  abbrev pub rule_path : ℕ → Bytes → Bytes
  rule_path i suffix = field_name field_rules ++ (codes "[" ++ (decimal i ++ (codes "]" ++ suffix)))

  -- M04 and M06, over the resolved rules from index `i`, with the ids seen.
  unfoldable pub rule_findings : ℕ → List Bytes → List Rule → Findings
  rule_findings i seen [] = []
  rule_findings i seen (r ∷ rules) =
      when (member r.id seen)
        (reject (codes "M04") f.key env (layers field_rules) (rule_path i (codes ".id")))
      ++ (when (not (type_eq (value_type r.value) f.type))
            (reject (codes "M06") f.key env (layers field_rules) (rule_path i (codes ".value")))
          ++ rule_findings (i + 1) (r.id ∷ seen) rules)

  unfoldable pub default_findings : Findings
  default_findings =
      when (not (type_eq (value_type f.default_value) f.type))
        (reject_field (codes "M01") field_default_value)
      ++ when (not (type_eq (value_type f.off_value) f.type))
          (reject_field (codes "M01") field_off_value)

  -- M05, M17 and M18
  unfoldable pub rollout_findings : Rollout → Findings
  rollout_findings ro =
      when (ltb_ℤ ro.basis_points (pos 0) || ltb_ℤ (pos bucket_space) ro.basis_points)
        (reject_field (codes "M05") field_basis_points)
      ++ (when (is_unknown ro.on_value) (reject_field (codes "M17") field_on_value)
          ++ (when (is_unknown ro.off_value) (reject_field (codes "M17") field_rollout_off_value)
              ++ (when
                    (not (is_unknown ro.on_value) && not (type_eq (value_type ro.on_value) f.type))
                    (reject_field (codes "M18") field_on_value)
                  ++ when
                      (not (is_unknown ro.off_value)
                        && not (type_eq (value_type ro.off_value) f.type))
                      (reject_field (codes "M18") field_rollout_off_value))))

  -- M19
  unfoldable pub no_rollout_findings : Option OpsOverride → Findings
  no_rollout_findings none = []
  no_rollout_findings (some ops) =
      when (is_value ops.basis_points)
        (reject (codes "M19") f.key env layer_ops (field_name field_basis_points))

  abbrev pub size_findings : Option OpsOverride → Option Rollout → Findings
  size_findings ops (some ro) = rollout_findings ro
  size_findings ops none = no_rollout_findings ops

  -- M09
  unfoldable pub order_findings : Findings
  order_findings =
      when (has_rules f.rules && has_rollout f.rollout && is_unspecified f.evaluation_order)
        (reject_field (codes "M09") field_evaluation_order)

-- The rules that the overlay appends.
unfoldable pub appended_rules : Option OverlayFlag → List WireRule
appended_rules none = []
appended_rules (some ov) = elim ov.rules [
  | value rules ↦
      if str_eq (or_else ov.rules_mode rule_mode_replace) rule_mode_append then rules else []
  | _ ↦ []
]

unfoldable pub validate_resolved :
    Bytes → Flag → BaseFlag → Option OverlayFlag → Option OpsOverride → Layers → Findings
validate_resolved env f base ov ops layers =
    if type_eq f.type type_unknown
    then reject_field env f layers (codes "M20") field_type ∷ []
    else (default_findings env f layers
        ++ (clash_findings env f layers (map (λ (r : WireRule). r.id) base.rules)
              (appended_rules ov)
            ++ (rule_findings env f layers 0 [] f.rules
                ++ (size_findings env f layers ops f.rollout ++ order_findings env f layers))))
