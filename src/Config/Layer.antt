-- ===== src/Config/Layer.antt =====
-- internal/config/layer.go: the wire types of the three layers and the small parsers. Instants are
-- nanoseconds since the epoch.
use feature_flag_service.Common.{
  ℤ, pos, Bool, true, false, Bytes, codes, str_eq, is_empty, List, Option, none, some, map,
  if◌then◌else◌, ◌||◌,
}
use feature_flag_service.Core.Value.{Value}
use feature_flag_service.Core.Model.{
  Condition, Rule, Rollout, LogicOp, logic_and, logic_or, EvaluationOrder, order_unspecified,
  order_rules_first, parse_operator,
}
use feature_flag_service.Config.Opt.{Opt}

pub data LayerId : Type 0 where
  layer_none layer_base layer_overlay layer_ops : LayerId

pub record WireCondition : Type 0 where
  pub attribute : Bytes
  pub op : Bytes
  pub values : List Value
  pub negate : Bool

pub record WireRule : Type 0 where
  pub id : Bytes
  pub conditions : List WireCondition
  pub combiner : Bytes
  pub value : Value

pub record WireRollout : Type 0 where
  pub basis_points : ℤ
  pub bucket_namespace : Bytes
  pub bucket_by : Bytes
  pub on_value : Value
  pub off_value : Value

-- `toCore`, on a pointer that may be nil
unfoldable pub to_core : Option WireRollout → Option Rollout
to_core none = none
to_core (some r) = some (record {
  basis_points = r.basis_points;
  bucket_namespace = r.bucket_namespace;
  bucket_by = r.bucket_by;
  on_value = r.on_value;
  off_value = r.off_value;
})

pub record OverlayRollout : Type 0 where
  pub basis_points : Opt ℤ
  pub bucket_namespace : Opt Bytes
  pub bucket_by : Opt Bytes
  pub on_value : Opt Value
  pub off_value : Opt Value

pub record BaseFlag : Type 0 where
  pub key : Bytes
  pub type : Bytes
  pub owner : Bytes
  pub description : Bytes
  pub enabled : Bool
  pub default_value : Value
  pub off_value : Value
  pub rules : List WireRule
  pub rollout : Option WireRollout
  pub evaluation_order : Bytes
  pub missing : List Bytes

pub record OverlayFlag : Type 0 where
  pub key : Bytes
  pub type : Opt Bytes
  pub enabled : Opt Bool
  pub default_value : Opt Value
  pub off_value : Opt Value
  pub rules : Opt (List WireRule)
  pub rules_mode : Opt Bytes
  pub rollout : Opt OverlayRollout
  pub evaluation_order : Opt Bytes

pub record OpsOverride : Type 0 where
  pub key : Bytes
  pub enabled : Opt Bool
  pub basis_points : Opt ℤ
  pub expires_at : Opt ℤ
  pub reason : Bytes
  pub owner : Bytes
  pub disallowed : List Bytes

-- RuleModeReplace and RuleModeAppend
abbrev pub rule_mode_replace : Bytes
rule_mode_replace = codes "replace"

abbrev pub rule_mode_append : Bytes
rule_mode_append = codes "append"

unfoldable pub parse_logic_op : Bytes → LogicOp × Bool
parse_logic_op s =
    if is_empty s || str_eq s (codes "and")
    then (logic_and, true)
    else if str_eq s (codes "or")
    then (logic_or, true)
    else (logic_and, false)

unfoldable pub parse_evaluation_order : Bytes → EvaluationOrder × Bool
parse_evaluation_order s =
    if is_empty s
    then (order_unspecified, true)
    else if str_eq s (codes "rules_first") || str_eq s (codes "rules_then_rollout")
    then (order_rules_first, true)
    else (order_unspecified, false)

-- The two loops of `wireRulesToCore` of merge.go.
unfoldable pub wire_condition_to_core : WireCondition → Condition
wire_condition_to_core c = record {
  attribute = c.attribute;
  op = (parse_operator c.op).0;
  values = c.values;
  negate = c.negate;
}

unfoldable pub wire_rule_to_core : WireRule → Rule
wire_rule_to_core r = record {
  id = r.id;
  conditions = map wire_condition_to_core r.conditions;
  combiner = (parse_logic_op r.combiner).0;
  value = r.value;
}

unfoldable pub wire_rules_to_core : List WireRule → List Rule
wire_rules_to_core rules = map wire_rule_to_core rules

pub record BaseLayer : Type 0 where
  pub schema_version : ℤ
  pub flags : List BaseFlag

pub record OverlayLayer : Type 0 where
  pub schema_version : ℤ
  pub environment : Bytes
  pub flags : List OverlayFlag

pub record OpsLayer : Type 0 where
  pub schema_version : ℤ
  pub environment : Bytes
  pub overrides : List OpsOverride

-- MaxOpsOverrideTTL and OpsOverrideTTLWarn, 30 days and 72 hours in nanoseconds
abbrev pub max_ops_override_ttl : ℤ
max_ops_override_ttl = pos 2592000000000000

abbrev pub ops_override_ttl_warn : ℤ
ops_override_ttl_warn = pos 259200000000000
