-- ===== src/Config/Premerge/Rules.antt =====
-- `validateRuleList` of internal/config/validate.go, for any layer.
pub mod Sound
pub mod Decided
use feature_flag_service.Common.{
  ℕ, ◌+◌, ◌==◌, Bool, true, false, not, ◌&&◌, ◌||◌, Bytes, codes, is_empty, decimal, length, List,
  [], ◌∷◌, ◌++◌, if◌then◌else◌,
}
use feature_flag_service.Core.Value.{Value, is_unknown}
use feature_flag_service.Core.Model.{Operator, op_exists, op_in, parse_operator}
use feature_flag_service.Config.Layer.{LayerId, WireCondition, WireRule, parse_logic_op}
use feature_flag_service.Config.Findings.{Finding, Findings, Severity, when}
use feature_flag_service.Config.Resolved.{member}

-- The operand counts that the operator refuses.
abbrev pub bad_count : Operator → ℕ → Bool
bad_count op_exists n = not (n == 0)
bad_count op_in n = n == 0
bad_count _ n = not (n == 1)

-- `len(r.Conditions) == 0`
abbrev pub lacks_conditions : List WireCondition → Bool
lacks_conditions [] = true
lacks_conditions (c ∷ conditions) = false

abbrev pub indexed : Bytes → Bytes → ℕ → Bytes
indexed path name i = path ++ (name ++ (codes "[" ++ (decimal i ++ codes "]")))

module _ (env : Bytes) (layer : LayerId) (flag_key field : Bytes) (sev : Severity) where
  abbrev pub tell : Bytes → Bytes → Finding
  tell id path = record {
    rule_id = id;
    flag = flag_key;
    env = env;
    layer = layer;
    field = path;
    severity = sev;
  }

  -- The values of a condition, from index `k`.
  unfoldable pub value_findings : Bytes → ℕ → List Value → Findings
  value_findings path k [] = []
  value_findings path k (v ∷ values) =
      when (is_unknown v) (tell (codes "B07") (indexed path (codes ".values") k))
      ++ value_findings path (k + 1) values

  -- One condition; an unknown operator ends its checks.
  unfoldable pub condition_findings : Bytes → WireCondition → Findings
  condition_findings path c =
      when (is_empty c.attribute) (tell (codes "B07") (path ++ codes ".attribute"))
      ++ (if not (parse_operator c.op).1
          then tell (codes "B06") (path ++ codes ".op") ∷ []
          else (when (bad_count (parse_operator c.op).0 (length c.values))
                (tell (codes "B07") (path ++ codes ".values"))
              ++ value_findings path 0 c.values))

  unfoldable pub conditions_findings : Bytes → ℕ → List WireCondition → Findings
  conditions_findings path j [] = []
  conditions_findings path j (c ∷ conditions) =
      condition_findings (indexed path (codes ".conditions") j) c
      ++ conditions_findings path (j + 1) conditions

  -- One rule, with the ids seen before it.
  unfoldable pub wire_rule_findings : Bytes → List Bytes → WireRule → Findings
  wire_rule_findings path seen r =
      when (is_empty r.id || member r.id seen) (tell (codes "B05") (path ++ codes ".id"))
      ++ (when (not (parse_logic_op r.combiner).1) (tell (codes "B17") (path ++ codes ".combiner"))
          ++ (when (lacks_conditions r.conditions)
                (tell (codes "B07") (path ++ codes ".conditions"))
              ++ conditions_findings path 0 r.conditions))

  -- From index `i`.
  unfoldable pub rules_findings : ℕ → List Bytes → List WireRule → Findings
  rules_findings i seen [] = []
  rules_findings i seen (r ∷ rules) =
      wire_rule_findings (indexed [] field i) seen r ++ rules_findings (i + 1) (r.id ∷ seen) rules

  unfoldable pub validate_rule_list : List WireRule → Findings
  validate_rule_list rules = rules_findings 0 [] rules
