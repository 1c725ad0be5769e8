-- ===== src/Config/Premerge/Examples.antt =====
-- The checks of one layer on concrete layers.
use feature_flag_service.Common.{
  ◌≡◌, ◌≢◌, refl, true, false, pos, codes, is_empty, str_eq, [], ◌∷◌, some, All, map,
}
use feature_flag_service.Core.Value.{
  bool, string, unset, is_unknown, type_eq, value_type, parse_value_type,
}
use feature_flag_service.Core.Model.{parse_operator}
use feature_flag_service.Core.Context.{EvalContext}
use feature_flag_service.Core.Trace.{tri_bad_op}
use feature_flag_service.Core.Matcher.{match_condition}
use feature_flag_service.Config.Opt.{absent, null, value, get, is_null, is_absent, is_value}
use feature_flag_service.Config.Layer.{
  layer_base, WireCondition, WireRule, BaseLayer, OverlayLayer, OpsOverride, OpsLayer,
  wire_condition_to_core, parse_logic_op, parse_evaluation_order, rule_mode_append,
}
use feature_flag_service.Config.Findings.{Finding, rejections, severity_reject_global}
use feature_flag_service.Config.Resolved.{member}
use feature_flag_service.Config.Premerge.{is_flag_key}
use feature_flag_service.Config.Premerge.Rules.{
  validate_rule_list, rules_findings, wire_rule_findings, conditions_findings, condition_findings,
  value_findings,
}
use feature_flag_service.Config.Premerge.Rules.Sound.{
  IsSoundWireRule, DistinctIds, validate_rule_list-IsSoundWireRule,
}
use feature_flag_service.Config.Premerge.Rules.Decided.{match_condition-accepted}
use feature_flag_service.Config.Premerge.Base.{
  validate_base, base_flags_findings, base_flag_findings, base_type_findings, missing_findings,
}
use feature_flag_service.Config.Premerge.Base.Sound.{
  IsSoundBaseFlag, DistinctFlags, validate_base-IsSoundBaseFlag,
}
use feature_flag_service.Config.Premerge.Overlay.{
  validate_overlay, overlay_flags_findings, overlay_flag_findings, overlay_rule_findings,
  mode_findings, overlay_rollout_findings,
}
use feature_flag_service.Config.Premerge.Ops.{
  validate_ops, overrides_findings, override_findings, disallowed_findings, expiry_findings,
}

abbrev country_is_india : WireCondition
country_is_india = record {
  attribute = codes "country";
  op = codes "in";
  values = string (codes "IN") ∷ [];
  negate = false;
}

abbrev rule : WireRule
rule = record {
  id = codes "r-1";
  conditions = country_is_india ∷ [];
  combiner = [];
  value = bool true;
}

rule_list_clean :
    rejections (
      validate_rule_list [] layer_base
        (codes "a")
        (codes "rules")
        severity_reject_global
        (rule ∷ []))
    ≡ []
unfolding validate_rule_list rules_findings wire_rule_findings conditions_findings
    condition_findings value_findings rejections is_empty member parse_logic_op parse_operator
    is_unknown str_eq
rule_list_clean = refl

validate_rule_list-IsSoundWireRule_example :
    All IsSoundWireRule (rule ∷ []) × DistinctIds [] (rule ∷ [])
unfolding rejections
validate_rule_list-IsSoundWireRule_example =
    validate_rule_list-IsSoundWireRule [] layer_base (codes "a") (codes "rules")
      severity_reject_global refl (rule ∷ []) rule_list_clean

abbrev visitor : EvalContext
visitor = record { user_id = codes "u-42"; tenant_id = []; attributes = [] }

match_condition-accepted_example :
    (match_condition (some (wire_condition_to_core country_is_india)) visitor).1 ≢ tri_bad_op
match_condition-accepted_example =
    match_condition-accepted country_is_india visitor
      validate_rule_list-IsSoundWireRule_example.0.0.sound.0

abbrev catalogue : BaseLayer
catalogue = record {
  schema_version = pos 1;
  flags =
      record {
        key = codes "a";
        type = codes "bool";
        owner = codes "o";
        description = [];
        enabled = true;
        default_value = bool false;
        off_value = unset;
        rules = rule ∷ [];
        rollout = some (record {
          basis_points = pos 50;
          bucket_namespace = [];
          bucket_by = [];
          on_value = bool true;
          off_value = bool false;
        });
        evaluation_order = codes "rules_first";
        missing = [];
      }
      ∷ [];
}

catalogue_clean : rejections (validate_base (some catalogue)) ≡ []
unfolding validate_base base_flags_findings base_flag_findings base_type_findings missing_findings
    is_flag_key parse_value_type parse_evaluation_order value_type type_eq validate_rule_list
    rules_findings wire_rule_findings conditions_findings condition_findings value_findings
    rejections is_empty member parse_logic_op parse_operator is_unknown str_eq
catalogue_clean = refl

validate_base-IsSoundBaseFlag_example :
    All IsSoundBaseFlag catalogue.flags × DistinctFlags [] catalogue.flags
validate_base-IsSoundBaseFlag_example = validate_base-IsSoundBaseFlag catalogue catalogue_clean

abbrev throttle : OpsOverride
throttle = record {
  key = codes "a";
  enabled = absent;
  basis_points = value (pos 100);
  expires_at = value (pos 5000);
  reason = codes "incident";
  owner = codes "on-call";
  disallowed = [];
}

abbrev overrides : OpsLayer
overrides = record { schema_version = pos 1; environment = codes "prod"; overrides = throttle ∷ [] }

overrides_clean : rejections (validate_ops (some overrides) (pos 1000)) ≡ []
unfolding validate_ops overrides_findings override_findings disallowed_findings expiry_findings get
    is_value is_flag_key is_empty member rejections
overrides_clean = refl

-- An overlay that restates the type, and sets a mode without rules.
abbrev restating : OverlayLayer
restating = record {
  schema_version = pos 1;
  environment = codes "prod";
  flags =
      record {
        key = codes "a";
        type = value (codes "bool");
        enabled = null;
        default_value = absent;
        off_value = absent;
        rules = absent;
        rules_mode = value rule_mode_append;
        rollout = absent;
        evaluation_order = absent;
      }
      ∷ [];
}

restating_found :
    map (λ (f : Finding). f.rule_id) (validate_overlay (some restating))
    ≡ codes "O02" ∷ codes "O04" ∷ codes "O03" ∷ []
unfolding validate_overlay overlay_flags_findings overlay_flag_findings overlay_rule_findings
    overlay_rollout_findings mode_findings get is_null is_absent is_flag_key is_empty member
restating_found = refl
