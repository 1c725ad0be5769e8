-- ===== src/Core/Model/Wire.antt =====
-- The wire names of types and operators.
use feature_flag_service.Common.{◌≡◌, ◌≢◌, refl, ◌↔◌, true, Bytes, codes, str_eq, str_eq_iff, arith}
use feature_flag_service.Core.Value.{ValueType, type_unknown, type_string_of, parse_value_type}
use feature_flag_service.Core.Model.{Operator, op_unknown, operator_string, parse_operator}

parse_operator-operator_string :
    (o : Operator) → o ≢ op_unknown → parse_operator (operator_string o) ≡ (o, true)
unfolding parse_operator operator_string str_eq
parse_operator-operator_string op_unknown h = absurd (h refl)
parse_operator-operator_string _ h = refl

operator_string-parse_operator :
    (s : Bytes) (o : Operator) → parse_operator s ≡ (o, true) → operator_string o ≡ s
unfolding parse_operator operator_string
operator_string-parse_operator s o h = ground (
  arith,
  str_eq_iff s (codes "eq"),
  str_eq_iff s (codes "in"),
  str_eq_iff s (codes "contains"),
  str_eq_iff s (codes "gt"),
  str_eq_iff s (codes "gte"),
  str_eq_iff s (codes "lt"),
  str_eq_iff s (codes "lte"),
  str_eq_iff s (codes "exists"),
  str_eq_iff s (codes "semver_eq"),
  str_eq_iff s (codes "semver_gt"),
  str_eq_iff s (codes "semver_lt"),
)

known : (s : Bytes) (o : Operator) → parse_operator s ≡ (o, true) → o ≢ op_unknown
unfolding parse_operator
known s o h = ground arith

-- A text parses as an operator exactly if that operator is not OpUnknown and the text is its name.
pub parse_operator_iff :
    (s : Bytes) (o : Operator)
    → (parse_operator s ≡ (o, true)) ↔ ((o ≢ op_unknown) × (operator_string o ≡ s))
parse_operator_iff s o = (
  (λ h. (known s o h, operator_string-parse_operator s o h)),
  (λ h. rw (← h.1) (parse_operator-operator_string o h.0)),
)

pub parse_value_type-type_string_of :
    (t : ValueType) → t ≢ type_unknown → parse_value_type (type_string_of t) ≡ (t, true)
unfolding parse_value_type type_string_of str_eq
parse_value_type-type_string_of type_unknown h = absurd (h refl)
parse_value_type-type_string_of _ h = refl
