-- ===== src/Config/Premerge/Base.antt =====
-- `ValidateBase` of internal/config/validate.go. The layer's environment is the empty text.
pub mod Sound
use feature_flag_service.Common.{
  Bool, true, false, not, ◌&&◌, ◌||◌, Bytes, codes, is_empty, List, [], ◌∷◌, ◌++◌, Option, none,
  some,
}
use feature_flag_service.Core.Value.{Value, value_type, type_eq, is_unknown, parse_value_type}
use feature_flag_service.Config.Layer.{
  layer_base, BaseFlag, BaseLayer, WireRollout, parse_evaluation_order,
}
use feature_flag_service.Config.Findings.{
  Finding, Findings, Severity, severity_warn, severity_reject_global, when,
}
use feature_flag_service.Config.Merge.Fields.{
  Field, field_key, field_type, field_default_value, field_off_value, field_evaluation_order,
  field_owner, field_rules, field_basis_points, field_name,
}
use feature_flag_service.Config.Resolved.{member}
use feature_flag_service.Config.Premerge.{is_flag_key, out_of_range}
use feature_flag_service.Config.Premerge.Rules.{validate_rule_list}

abbrev pub rollout_out_of_range : Option WireRollout → Bool
rollout_out_of_range none = false
rollout_out_of_range (some r) = out_of_range r.basis_points

module _ (key : Bytes) where
  -- The closure `add`.
  abbrev pub tell_base : Bytes → Bytes → Severity → Finding
  tell_base id field sev = record {
    rule_id = id;
    flag = key;
    env = [];
    layer = layer_base;
    field = field;
    severity = sev;
  }

  abbrev pub reject_base : Bytes → Field → Finding
  reject_base id field = tell_base id (field_name field) severity_reject_global

  -- B00
  unfoldable pub missing_findings : List Bytes → Findings
  missing_findings [] = []
  missing_findings (m ∷ missing) =
      tell_base (codes "B00") m severity_reject_global ∷ missing_findings missing

-- B02 to B04
unfoldable pub base_type_findings : BaseFlag → Findings
base_type_findings f =
    let (typ, known) = parse_value_type f.type in
    when (not known) (reject_base f.key (codes "B02") field_type)
    ++ (when (known && not (type_eq (value_type f.default_value) typ))
          (reject_base f.key (codes "B03") field_default_value)
        ++ when
            (known && (not (is_unknown f.off_value) && not (type_eq (value_type f.off_value) typ)))
            (reject_base f.key (codes "B04") field_off_value))

-- One flag, with the keys seen before it.
unfoldable pub base_flag_findings : List Bytes → BaseFlag → Findings
base_flag_findings seen f =
    missing_findings f.key f.missing
    ++ (when (not (is_flag_key f.key)) (reject_base f.key (codes "B01") field_key)
        ++ (when (member f.key seen) (reject_base f.key (codes "B12") field_key)
            ++ (base_type_findings f
                ++ (when (not (parse_evaluation_order f.evaluation_order).1)
                      (reject_base f.key (codes "B18") field_evaluation_order)
                    ++ (when (is_empty f.owner)
                          (tell_base f.key (codes "B13") (field_name field_owner) severity_warn)
                        ++ (validate_rule_list [] layer_base f.key (field_name field_rules)
                              severity_reject_global f.rules
                            ++ when (rollout_out_of_range f.rollout)
                                (reject_base f.key (codes "B08") field_basis_points)))))))

unfoldable pub base_flags_findings : List Bytes → List BaseFlag → Findings
base_flags_findings seen [] = []
base_flags_findings seen (f ∷ flags) =
    base_flag_findings seen f ++ base_flags_findings (f.key ∷ seen) flags

unfoldable pub validate_base : Option BaseLayer → Findings
validate_base none = []
validate_base (some l) = base_flags_findings [] l.flags
