-- ===== src/Config/Premerge/Rules/Decided.antt =====
-- What the engine finds in the conditions that validation accepted.
use feature_flag_service.Common.{
  ◌≡◌, ◌≢◌, refl, inl, inr, ℤ, Bool, true, false, Bytes, length, List, [], ◌∷◌, Option, none, some,
  arith, Bool-cases, Option-cases,
}
use feature_flag_service.Core.Value.{Value}
use feature_flag_service.Core.Model.{
  Condition, Operator, op_unknown, op_equals, op_in, op_contains, op_greater_than,
  op_greater_or_equal, op_less_than, op_less_or_equal, op_exists, op_semver_equal,
  op_semver_greater_than, op_semver_less_than, parse_operator,
}
use feature_flag_service.Core.Context.{EvalContext, attribute}
use feature_flag_service.Core.Trace.{tri_bad_op}
use feature_flag_service.Core.Semver.{Semver, Cmp, compare_semver}
use feature_flag_service.Core.Matcher.{
  match_condition, decide_condition, collapse, compare_value, match_equals, match_in, match_in_loop,
  match_contains, match_ordered, match_semver, order_ints, order_semver, compare_parsed, operand,
  is_exists,
}
use feature_flag_service.Config.Layer.{WireCondition, wire_condition_to_core}
use feature_flag_service.Config.Premerge.Rules.{bad_count}
use feature_flag_service.Config.Premerge.Rules.Sound.{IsSoundCondition}

match_equals-operand : (v w : Value) (vals : List Value) → match_equals v (w ∷ vals) ≢ tri_bad_op
unfolding match_equals operand
match_equals-operand v w vals e = ground arith

match_in_loop-decided :
    (v : Value) (vals : List Value) (b : Bool) → match_in_loop v vals b ≢ tri_bad_op
unfolding match_in_loop
match_in_loop-decided v [] b e = ground arith
match_in_loop-decided v (w ∷ vals) b e =
    ground (arith, match_in_loop-decided v vals true, match_in_loop-decided v vals b)

match_in-decided : (v : Value) (vals : List Value) → match_in v vals ≢ tri_bad_op
unfolding match_in
match_in-decided v [] e = cc
match_in-decided v (w ∷ vals) e = match_in_loop-decided v (w ∷ vals) false e

match_contains-operand :
    (v w : Value) (vals : List Value) → match_contains v (w ∷ vals) ≢ tri_bad_op
unfolding match_contains operand
match_contains-operand v w vals e = ground arith

-- The operators that `matchOrdered` and `matchSemver` are called on.
abbrev orders : Operator → Bool
orders op_greater_than = true
orders op_greater_or_equal = true
orders op_less_than = true
orders op_less_or_equal = true
orders _ = false

abbrev compares_versions : Operator → Bool
compares_versions op_semver_equal = true
compares_versions op_semver_greater_than = true
compares_versions op_semver_less_than = true
compares_versions _ = false

order_ints-decided : (op : Operator) (a b : ℤ) → orders op ≡ true → order_ints op a b ≢ tri_bad_op
unfolding order_ints
order_ints-decided op a b h e = ground arith

match_ordered-operand :
    (op : Operator) (v w : Value) (vals : List Value)
    → orders op ≡ true
    → match_ordered op v (w ∷ vals) ≢ tri_bad_op
unfolding match_ordered operand
match_ordered-operand op v w vals h e = ground (arith, order_ints-decided op)

order_semver-decided :
    (op : Operator) (c : Cmp) → compares_versions op ≡ true → order_semver op c ≢ tri_bad_op
unfolding order_semver
order_semver-decided op c h e = ground arith

compare_parsed-decided :
    (op : Operator) (a b : Option Semver)
    → compares_versions op ≡ true
    → compare_parsed op a b ≢ tri_bad_op
unfolding compare_parsed
compare_parsed-decided op (some a) (some b) h e = order_semver-decided op (compare_semver a b) h e
compare_parsed-decided op (some a) none h e = cc
compare_parsed-decided op none b h e = cc

match_semver-operand :
    (op : Operator) (v w : Value) (vals : List Value)
    → compares_versions op ≡ true
    → match_semver op v (w ∷ vals) ≢ tri_bad_op
unfolding match_semver operand
match_semver-operand op v w vals h e = ground (arith, compare_parsed-decided op)

parse_operator-known : (s : Bytes) → (parse_operator s).1 ≡ true → (parse_operator s).0 ≢ op_unknown
unfolding parse_operator
parse_operator-known s h e = ground arith

compare_value-counted :
    (op : Operator) (v : Value) (vals : List Value)
    → op ≢ op_unknown
    → is_exists op ≡ false
    → bad_count op (length vals) ≡ false
    → compare_value op v vals ≢ tri_bad_op
unfolding compare_value
compare_value-counted op_in v vals known other h e = match_in-decided v vals e
compare_value-counted op v [] known other h e = ground arith
compare_value-counted op_unknown v (w ∷ vals) known other h e = known refl
compare_value-counted op_exists v (w ∷ vals) known other h e = cc
compare_value-counted op_equals v (w ∷ vals) known other h e = match_equals-operand v w vals e
compare_value-counted op_contains v (w ∷ vals) known other h e = match_contains-operand v w vals e
compare_value-counted op_greater_than v (w ∷ vals) known other h e =
    match_ordered-operand op_greater_than v w vals refl e
compare_value-counted op_greater_or_equal v (w ∷ vals) known other h e =
    match_ordered-operand op_greater_or_equal v w vals refl e
compare_value-counted op_less_than v (w ∷ vals) known other h e =
    match_ordered-operand op_less_than v w vals refl e
compare_value-counted op_less_or_equal v (w ∷ vals) known other h e =
    match_ordered-operand op_less_or_equal v w vals refl e
compare_value-counted op_semver_equal v (w ∷ vals) known other h e =
    match_semver-operand op_semver_equal v w vals refl e
compare_value-counted op_semver_greater_than v (w ∷ vals) known other h e =
    match_semver-operand op_semver_greater_than v w vals refl e
compare_value-counted op_semver_less_than v (w ∷ vals) known other h e =
    match_semver-operand op_semver_less_than v w vals refl e

decide_condition-counted :
    (c : Condition) (ctx : EvalContext)
    → c.op ≢ op_unknown
    → bad_count c.op (length c.values) ≡ false
    → decide_condition c ctx ≢ tri_bad_op
unfolding decide_condition
decide_condition-counted c ctx known h e = elim (Bool-cases (is_exists c.op)) [
  | inl exists ↦ ground arith
  | inr other ↦ elim (Option-cases (attribute ctx c.attribute)) [
    | inl missing ↦ ground arith
    | inr (v, found) ↦ ground (arith, compare_value-counted c.op v c.values known other h)
  ]
]

-- A condition that validation accepted is never found misconfigured by the engine: whatever the
-- subject, its outcome is not the one for an unknown operator or a missing operand.
pub match_condition-accepted :
    (c : WireCondition) (ctx : EvalContext)
    → IsSoundCondition c
    → (match_condition (some (wire_condition_to_core c)) ctx).1 ≢ tri_bad_op
unfolding match_condition collapse wire_condition_to_core
match_condition-accepted c ctx h e = ground (
  arith,
  decide_condition-counted (wire_condition_to_core c) ctx (parse_operator-known c.op h.op_known)
      h.counted,
)
