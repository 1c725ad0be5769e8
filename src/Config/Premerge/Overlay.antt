-- ===== src/Config/Premerge/Overlay.antt =====
-- `ValidateOverlay` of internal/config/validate.go.
use feature_flag_service.Common.{
  Bool, true, false, not, ◌&&◌, Bytes, codes, str_eq, is_empty, List, [], ◌∷◌, ◌++◌, Option, none,
  some, if◌then◌else◌,
}
use feature_flag_service.Config.Opt.{Opt, absent, null, value, get, is_absent, is_null}
use feature_flag_service.Config.Layer.{
  layer_overlay, OverlayFlag, OverlayLayer, OverlayRollout, WireRule, parse_evaluation_order,
  rule_mode_replace, rule_mode_append,
}
use feature_flag_service.Config.Findings.{
  Finding, Findings, severity_reject_flag, severity_reject_env, when,
}
use feature_flag_service.Config.Merge.Fields.{
  Field, field_key, field_type, field_enabled, field_default_value, field_off_value,
  field_evaluation_order, field_rules, field_rules_mode, field_basis_points, field_bucket_namespace,
  field_bucket_by, field_on_value, field_rollout_off_value, field_name,
}
use feature_flag_service.Config.Resolved.{member}
use feature_flag_service.Config.Premerge.{is_flag_key, given_out_of_range}
use feature_flag_service.Config.Premerge.Rules.{validate_rule_list}

-- An order that is there and does not parse.
abbrev pub unparsed_order : Option Bytes → Bool
unparsed_order none = false
unparsed_order (some v) = not (parse_evaluation_order v).1

module _ (env key : Bytes) where
  -- The closure `add`, with the severity of this layer.
  abbrev pub tell_overlay : Bytes → Field → Finding
  tell_overlay id field = record {
    rule_id = id;
    flag = key;
    env = env;
    layer = layer_overlay;
    field = field_name field;
    severity = severity_reject_flag;
  }

  -- The loop over the scalars that may not be null.
  abbrev pub null_findings : List (Field × Bool) → Findings
  null_findings [] = []
  null_findings ((field, is_set_null) ∷ scalars) =
      when is_set_null (tell_overlay (codes "O04") field) ++ null_findings scalars

  -- The `switch` on the mode of rules that are set.
  unfoldable pub mode_findings : Option Bytes → Bool → Findings
  mode_findings none rules_null = tell_overlay (codes "O03") field_rules_mode ∷ []
  mode_findings (some mode) rules_null =
      if not (str_eq mode rule_mode_replace) && not (str_eq mode rule_mode_append)
      then tell_overlay (codes "O03") field_rules_mode ∷ []
      else when (rules_null && str_eq mode rule_mode_append)
          (tell_overlay (codes "O03") field_rules)

  unfoldable pub overlay_rule_findings : Opt (List WireRule) → Opt Bytes → Findings
  overlay_rule_findings absent mode =
      when (not (is_absent mode)) (tell_overlay (codes "O03") field_rules_mode)
  overlay_rule_findings null mode = mode_findings (get mode) true
  overlay_rule_findings (value rules) mode =
      mode_findings (get mode) false
      ++ validate_rule_list env layer_overlay key (field_name field_rules) severity_reject_flag
          rules

  unfoldable pub overlay_rollout_findings : Option OverlayRollout → Findings
  overlay_rollout_findings none = []
  overlay_rollout_findings (some r) =
      null_findings (
        (field_basis_points, is_null r.basis_points)
        ∷ (field_bucket_namespace, is_null r.bucket_namespace)
        ∷ (field_bucket_by, is_null r.bucket_by)
        ∷ (field_on_value, is_null r.on_value)
        ∷ (field_rollout_off_value, is_null r.off_value)
        ∷ [])
      ++ when (given_out_of_range (get r.basis_points))
          (tell_overlay (codes "O05") field_basis_points)

-- One flag, with the keys seen before it.
unfoldable pub overlay_flag_findings : Bytes → List Bytes → OverlayFlag → Findings
overlay_flag_findings env seen f =
    when (not (is_flag_key f.key)) (tell_overlay env f.key (codes "O01") field_key)
    ++ (when (member f.key seen) (tell_overlay env f.key (codes "O11") field_key)
        ++ (when (not (is_absent f.type)) (tell_overlay env f.key (codes "O02") field_type)
            ++ (null_findings env f.key (
                  (field_enabled, is_null f.enabled)
                  ∷ (field_default_value, is_null f.default_value)
                  ∷ (field_off_value, is_null f.off_value)
                  ∷ (field_evaluation_order, is_null f.evaluation_order)
                  ∷ (field_rules_mode, is_null f.rules_mode)
                  ∷ [])
                ++ (overlay_rule_findings env f.key f.rules f.rules_mode
                    ++ (when (unparsed_order (get f.evaluation_order))
                          (tell_overlay env f.key (codes "O12") field_evaluation_order)
                        ++ overlay_rollout_findings env f.key (get f.rollout))))))

unfoldable pub overlay_flags_findings : Bytes → List Bytes → List OverlayFlag → Findings
overlay_flags_findings env seen [] = []
overlay_flags_findings env seen (f ∷ flags) =
    overlay_flag_findings env seen f ++ overlay_flags_findings env (f.key ∷ seen) flags

-- O00; the finding names no flag and no environment.
abbrev pub unnamed_overlay : Bytes → Findings
unnamed_overlay env = when (is_empty env) (record {
  rule_id = codes "O00";
  flag = [];
  env = [];
  layer = layer_overlay;
  field = codes "environment";
  severity = severity_reject_env;
})

unfoldable pub validate_overlay : Option OverlayLayer → Findings
validate_overlay none = []
validate_overlay (some l) =
    unnamed_overlay l.environment ++ overlay_flags_findings l.environment [] l.flags
