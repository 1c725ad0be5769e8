-- ===== src/Core/Model.antt =====
-- internal/core/model.go, reason.go and result.go: flags, rules, rollouts, reasons and results.
-- A slice is a list, so a nil slice and an empty one are the same here, as they are to `range` and
-- `len`; a pointer that may be nil is an `Option`.
pub mod Wire
use feature_flag_service.Common.{
  ℕ, ℤ, negsuc, Bool, true, false, Bytes, codes, str_eq, List, Option, if◌then◌else◌,
}
use feature_flag_service.Core.Value.{Value, ValueType}

pub data Operator : Type 0 where
  op_unknown op_equals op_in op_contains op_greater_than op_greater_or_equal op_less_than
        op_less_or_equal op_exists op_semver_equal op_semver_greater_than op_semver_less_than :
      Operator

unfoldable pub operator_string : Operator → Bytes
operator_string op_equals = codes "eq"
operator_string op_in = codes "in"
operator_string op_contains = codes "contains"
operator_string op_greater_than = codes "gt"
operator_string op_greater_or_equal = codes "gte"
operator_string op_less_than = codes "lt"
operator_string op_less_or_equal = codes "lte"
operator_string op_exists = codes "exists"
operator_string op_semver_equal = codes "semver_eq"
operator_string op_semver_greater_than = codes "semver_gt"
operator_string op_semver_less_than = codes "semver_lt"
operator_string op_unknown = codes "unknown"

unfoldable pub parse_operator : Bytes → Operator × Bool
parse_operator s =
    if str_eq s (codes "eq")
    then (op_equals, true)
    else if str_eq s (codes "in")
    then (op_in, true)
    else if str_eq s (codes "contains")
    then (op_contains, true)
    else if str_eq s (codes "gt")
    then (op_greater_than, true)
    else if str_eq s (codes "gte")
    then (op_greater_or_equal, true)
    else if str_eq s (codes "lt")
    then (op_less_than, true)
    else if str_eq s (codes "lte")
    then (op_less_or_equal, true)
    else if str_eq s (codes "exists")
    then (op_exists, true)
    else if str_eq s (codes "semver_eq")
    then (op_semver_equal, true)
    else if str_eq s (codes "semver_gt")
    then (op_semver_greater_than, true)
    else if str_eq s (codes "semver_lt")
    then (op_semver_less_than, true)
    else (op_unknown, false)

pub data LogicOp : Type 0 where
  logic_and logic_or : LogicOp

unfoldable pub logic_string : LogicOp → Bytes
logic_string logic_or = codes "or"
logic_string logic_and = codes "and"

pub record Condition : Type 0 where
  pub attribute : Bytes
  pub op : Operator
  pub values : List Value
  pub negate : Bool

pub record Rule : Type 0 where
  pub id : Bytes
  pub conditions : List Condition
  pub combiner : LogicOp
  pub value : Value

pub record Rollout : Type 0 where
  pub basis_points : ℤ
  pub bucket_namespace : Bytes
  pub bucket_by : Bytes
  pub on_value : Value
  pub off_value : Value

pub data EvaluationOrder : Type 0 where
  order_unspecified order_rules_first : EvaluationOrder

unfoldable pub order_string : EvaluationOrder → Bytes
order_string order_rules_first = codes "rules_first"
order_string order_unspecified = codes "unspecified"

pub record Flag : Type 0 where
  pub key : Bytes
  pub type : ValueType
  pub enabled : Bool
  pub default_value : Value
  pub off_value : Value
  pub rules : List Rule
  pub rollout : Option Rollout
  pub evaluation_order : EvaluationOrder

pub data Reason : Type 0 where
  reason_unknown rule_match rollout_in rollout_out fallthrough disabled flag_not_found type_mismatch
        missing_subject error :
      Reason

unfoldable pub reason_string : Reason → Bytes
reason_string rule_match = codes "RULE_MATCH"
reason_string rollout_in = codes "ROLLOUT_IN"
reason_string rollout_out = codes "ROLLOUT_OUT"
reason_string fallthrough = codes "FALLTHROUGH"
reason_string disabled = codes "DISABLED"
reason_string flag_not_found = codes "FLAG_NOT_FOUND"
reason_string type_mismatch = codes "TYPE_MISMATCH"
reason_string missing_subject = codes "MISSING_SUBJECT"
reason_string error = codes "ERROR"
reason_string reason_unknown = codes "UNKNOWN"

unfoldable pub is_fallback : Reason → Bool
is_fallback flag_not_found = true
is_fallback type_mismatch = true
is_fallback missing_subject = true
is_fallback error = true
is_fallback _ = false

pub record Result : Type 0 where
  pub value : Value
  pub reason : Reason
  pub rule_id : Bytes
  pub bucket : ℤ
  pub generation : ℤ

abbrev pub no_bucket : ℤ
no_bucket = negsuc 0
