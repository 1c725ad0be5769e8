-- ===== src/Config/Examples.antt =====
-- Merging and validation on concrete layers.
use feature_flag_service.Common.{
  ◌≡◌, refl, true, false, pos, Bytes, codes, [], ◌∷◌, none, some, if◌then◌else◌, str_eq, ℕ, ◌^◌,
  is_empty, map,
}
use feature_flag_service.Core.Value.{
  bool, string, unset, type_bool, type_eq, value_type, is_unknown,
}
use feature_flag_service.Core.Model.{
  Rule, op_in, logic_and, parse_operator, Flag, order_rules_first,
}
use feature_flag_service.Core.Context.{EvalContext}
use feature_flag_service.Core.Trace.{returns}
use feature_flag_service.Core.Evaluator.{Snapshot}
use feature_flag_service.Config.Opt.{absent, value, or_else}
use feature_flag_service.Config.Layer.{
  layer_base, layer_overlay, layer_ops, WireRule, BaseFlag, OverlayFlag, OpsOverride,
  rule_mode_append, parse_logic_op, wire_rules_to_core, wire_rule_to_core, wire_condition_to_core,
  to_core,
}
use feature_flag_service.Config.Findings.{Finding, rejections}
use feature_flag_service.Config.Merge.{merge_flag, Merged}
use feature_flag_service.Config.Merge.Fields.{
  field_rules, field_basis_points, field_bucket_namespace,
}
use feature_flag_service.Config.Merge.Provenance.{IsTruthful, merge_flag-IsTruthful}
use feature_flag_service.Config.Merge.Spec.{spec_base, spec_ops, spec_overlay, merge_flag-eq-spec}
use feature_flag_service.Config.Merge.{overlay_rules}
use feature_flag_service.Config.Resolved.{
  validate_resolved, default_findings, clash_findings, appended_rules, member, rule_findings,
  rollout_findings, order_findings,
}
use feature_flag_service.Config.Resolved.Sound.{IsWellFormed, validate_resolved-IsWellFormed}

abbrev country_rule : Bytes → WireRule
country_rule id = record {
  id = id;
  conditions =
      record {
        attribute = codes "country";
        op = codes "in";
        values = string (codes "IN") ∷ [];
        negate = false;
      }
      ∷ [];
  combiner = codes "and";
  value = bool true;
}

abbrev base_flag : BaseFlag
base_flag = record {
  key = codes "checkout";
  type = codes "bool";
  owner = codes "payments";
  description = [];
  enabled = true;
  default_value = bool false;
  off_value = unset;
  rules = country_rule (codes "r-1") ∷ [];
  rollout = some (record {
    basis_points = pos 2500;
    bucket_namespace = codes "ns";
    bucket_by = [];
    on_value = bool true;
    off_value = bool false;
  });
  evaluation_order = codes "rules_first";
  missing = [];
}

abbrev prod : OverlayFlag
prod = record {
  key = codes "checkout";
  type = absent;
  enabled = absent;
  default_value = absent;
  off_value = absent;
  rules = value (country_rule (codes "r-2") ∷ []);
  rules_mode = value rule_mode_append;
  rollout = value (record {
    basis_points = value (pos 5000);
    bucket_namespace = absent;
    bucket_by = absent;
    on_value = absent;
    off_value = absent;
  });
  evaluation_order = absent;
}

abbrev throttle : OpsOverride
throttle = record {
  key = codes "checkout";
  enabled = absent;
  basis_points = value (pos 100);
  expires_at = absent;
  reason = codes "incident";
  owner = codes "on-call";
  disallowed = [];
}

resolved : Merged
unfolding merge_flag
resolved = merge_flag base_flag (some prod) (some throttle)

resolved_namespace_layer : resolved.layers field_bucket_namespace ≡ layer_base
unfolding resolved to_core
resolved_namespace_layer = refl

resolved_size_layer : resolved.layers field_basis_points ≡ layer_ops
unfolding resolved to_core
resolved_size_layer = refl

resolved_rules_layer : resolved.layers field_rules ≡ layer_overlay
unfolding resolved to_core
resolved_rules_layer = refl

resolved_off_value : resolved.flag.off_value ≡ bool false
unfolding resolved to_core is_unknown
resolved_off_value = refl

abbrev merged_rule : Bytes → Rule
merged_rule id = record {
  id = id;
  conditions =
      record {
        attribute = codes "country";
        op = op_in;
        values = string (codes "IN") ∷ [];
        negate = false;
      }
      ∷ [];
  combiner = logic_and;
  value = bool true;
}

abbrev merged : Flag
merged = record {
  key = codes "checkout";
  type = type_bool;
  enabled = true;
  default_value = bool false;
  off_value = bool false;
  rules = merged_rule (codes "r-1") ∷ merged_rule (codes "r-2") ∷ [];
  rollout = some (record {
    basis_points = pos 100;
    bucket_namespace = codes "ns";
    bucket_by = [];
    on_value = bool true;
    off_value = bool false;
  });
  evaluation_order = order_rules_first;
}

merged_rules : resolved.flag.rules ≡ merged.rules
unfolding resolved to_core wire_rules_to_core wire_rule_to_core wire_condition_to_core
    parse_operator parse_logic_op overlay_rules or_else str_eq is_empty
merged_rules = refl

merged_rollout : resolved.flag.rollout ≡ merged.rollout
unfolding resolved to_core
merged_rollout = refl

merged_accepted :
    rejections (
      validate_resolved (codes "prod") merged base_flag (some prod) (some throttle) resolved.layers)
    ≡ []
unfolding validate_resolved rejections type_eq default_findings value_type clash_findings is_unknown
    appended_rules or_else member rule_findings rollout_findings order_findings str_eq
merged_accepted = refl

merge_flag-eq-spec_example :
    resolved.flag ≡ spec_ops (some throttle) (spec_overlay (some prod) (spec_base base_flag))
unfolding resolved
merge_flag-eq-spec_example = merge_flag-eq-spec base_flag (some prod) (some throttle)

validate_resolved-IsWellFormed_example : IsWellFormed merged
validate_resolved-IsWellFormed_example =
    validate_resolved-IsWellFormed (codes "prod") merged resolved.layers base_flag (some prod)
      (some throttle) merged_accepted

abbrev sum : Bytes → ℕ
sum key = 2 ^ 62

abbrev snapshot : Snapshot
snapshot = record {
  generation = returns (pos 3);
  flag = λ key. returns (if str_eq key merged.key then (some merged, true) else (none, false));
}

abbrev visitor : EvalContext
visitor = record { user_id = codes "u-42"; tenant_id = []; attributes = [] }

snapshot_found : snapshot.flag (codes "checkout") ≡ returns (some merged, true)
unfolding str_eq
snapshot_found = refl

-- An overlay that appends a rule with an id of the base: the collision and the duplicate are told.
abbrev clashing : OverlayFlag
clashing = record prod { rules = value (country_rule (codes "r-1") ∷ []) }

abbrev twice : Flag
twice = record merged { rules = merged_rule (codes "r-1") ∷ merged_rule (codes "r-1") ∷ [] }

clashing_rejected :
    map
      (λ (f : Finding). f.rule_id)
      (validate_resolved (codes "prod") twice base_flag (some clashing) none resolved.layers)
    ≡ codes "M03" ∷ codes "M04" ∷ []
unfolding validate_resolved rejections type_eq default_findings value_type clash_findings is_unknown
    appended_rules or_else member rule_findings rollout_findings order_findings str_eq
clashing_rejected = refl

merge_flag-IsTruthful_example : IsTruthful (some prod) (some throttle) resolved.layers
unfolding resolved
merge_flag-IsTruthful_example = merge_flag-IsTruthful base_flag (some prod) (some throttle)
