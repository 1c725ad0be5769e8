-- ===== src/Core/Matcher.antt =====
-- internal/core/matcher.go: conditions and rules, on three-valued outcomes. The condition observer
-- is an interface: a call of it may panic, and the calls made are kept in order.
pub mod Negation
pub mod Operators
pub mod Rules
use feature_flag_service.Common.{
  ◌≡◌, Bool, true, false, not, ◌&&◌, ◌||◌, Bytes, contains, ℤ, ltb_ℤ, leb_ℤ, List, [], ◌∷◌, Option,
  none, some, if◌then◌else◌,
}
use feature_flag_service.Core.Value.{Value, value_type, type_eq, equal, as_string, as_int}
use feature_flag_service.Core.Model.{
  Operator, op_equals, op_in, op_contains, op_greater_than, op_greater_or_equal, op_less_than,
  op_less_or_equal, op_exists, op_semver_equal, op_semver_greater_than, op_semver_less_than,
  Condition, Rule, LogicOp, logic_or, logic_and,
}
use feature_flag_service.Core.Context.{EvalContext, attribute}
use feature_flag_service.Core.Trace.{
  Tri, tri_false, tri_true, tri_absent, tri_bad_type, tri_bad_value, tri_bad_op, Observation, Run,
  returns, Traced, pure, ◌>>=◌,
}
use feature_flag_service.Core.Semver.{
  Cmp, less, same, greater, Semver, parse_semver, compare_semver,
}

unfoldable pub decided : Tri → Bool
decided tri_true = true
decided tri_false = true
decided _ = false

unfoldable pub countable : Tri → Bool
countable tri_bad_type = true
countable tri_bad_value = true
countable tri_bad_op = true
countable _ = false

abbrev pub tri_of : Bool → Tri
tri_of true = tri_true
tri_of false = tri_false

unfoldable pub operand : List Value → Option Value
operand [] = none
operand (v ∷ vals) = some v

unfoldable pub match_equals : Value → List Value → Tri
unfolding operand type_eq value_type equal
match_equals v vals = elim (operand vals) [
  | none ↦ tri_bad_op
  | some want ↦
      if not (type_eq (value_type v) (value_type want)) then tri_bad_type else tri_of (equal v want)
]

-- The loop of `matchIn`, with `sawComparable`.
unfoldable pub match_in_loop : Value → List Value → Bool → Tri
match_in_loop v [] saw_comparable = if not saw_comparable then tri_bad_type else tri_false
match_in_loop v (w ∷ vals) saw_comparable =
    let next = match_in_loop v vals true in
    let skip = match_in_loop v vals saw_comparable in
    if not (type_eq (value_type w) (value_type v))
    then skip
    else if equal v w
    then tri_true
    else next

unfoldable pub match_in : Value → List Value → Tri
unfolding match_in_loop type_eq value_type equal
match_in v [] = tri_false
match_in v (w ∷ vals) = match_in_loop v (w ∷ vals) false

unfoldable pub match_contains : Value → List Value → Tri
unfolding operand as_string contains
match_contains v vals = elim (operand vals) [
  | none ↦ tri_bad_op
  | some want ↦ elim (as_string v) [
    | none ↦ tri_bad_type
    | some s ↦ elim (as_string want) [ none ↦ tri_bad_type | some sub ↦ tri_of (contains sub s) ]
  ]
]

unfoldable pub order_ints : Operator → ℤ → ℤ → Tri
order_ints op_greater_than a b = tri_of (ltb_ℤ b a)
order_ints op_greater_or_equal a b = tri_of (leb_ℤ b a)
order_ints op_less_than a b = tri_of (ltb_ℤ a b)
order_ints op_less_or_equal a b = tri_of (leb_ℤ a b)
order_ints _ a b = tri_bad_op

unfoldable pub match_ordered : Operator → Value → List Value → Tri
unfolding operand as_int order_ints
match_ordered op v vals = elim (operand vals) [
  | none ↦ tri_bad_op
  | some want ↦ elim (as_int v) [
    | none ↦ tri_bad_type
    | some a ↦ elim (as_int want) [ none ↦ tri_bad_type | some b ↦ order_ints op a b ]
  ]
]

unfoldable pub order_semver : Operator → Cmp → Tri
order_semver op_semver_equal same = tri_true
order_semver op_semver_greater_than greater = tri_true
order_semver op_semver_less_than less = tri_true
order_semver op_semver_equal _ = tri_false
order_semver op_semver_greater_than _ = tri_false
order_semver op_semver_less_than _ = tri_false
order_semver _ _ = tri_bad_op

-- Both parsed, then compared.
unfoldable pub compare_parsed : Operator → Option Semver → Option Semver → Tri
unfolding order_semver
compare_parsed op (some av) (some bv) = order_semver op (compare_semver av bv)
compare_parsed op (some av) none = tri_bad_value
compare_parsed op none _ = tri_bad_value

unfoldable pub match_semver : Operator → Value → List Value → Tri
unfolding operand as_string compare_parsed
match_semver op v vals = elim (operand vals) [
  | none ↦ tri_bad_op
  | some want ↦ elim (as_string v) [
    | none ↦ tri_bad_type
    | some a ↦ elim (as_string want) [
      | none ↦ tri_bad_type
      | some b ↦ compare_parsed op (parse_semver a) (parse_semver b)
    ]
  ]
]

-- The final `switch` of `decideCondition`, on an attribute that is present.
unfoldable pub compare_value : Operator → Value → List Value → Tri
unfolding match_equals match_in match_contains match_ordered match_semver
compare_value op_equals v vals = match_equals v vals
compare_value op_in v vals = match_in v vals
compare_value op_contains v vals = match_contains v vals
compare_value op_greater_than v vals = match_ordered op_greater_than v vals
compare_value op_greater_or_equal v vals = match_ordered op_greater_or_equal v vals
compare_value op_less_than v vals = match_ordered op_less_than v vals
compare_value op_less_or_equal v vals = match_ordered op_less_or_equal v vals
compare_value op_semver_equal v vals = match_semver op_semver_equal v vals
compare_value op_semver_greater_than v vals = match_semver op_semver_greater_than v vals
compare_value op_semver_less_than v vals = match_semver op_semver_less_than v vals
compare_value _ v vals = tri_bad_op

abbrev pub is_exists : Operator → Bool
is_exists op_exists = true
is_exists _ = false

unfoldable pub decide_condition : Condition → EvalContext → Tri
decide_condition c ctx = elim (attribute ctx c.attribute) [
  | none ↦ if is_exists c.op then tri_false else tri_absent
  | some v ↦ if is_exists c.op then tri_true else compare_value c.op v c.values
]

unfoldable pub collapse : Bool → Tri → Bool × Tri
collapse negate tri_true = (not negate, tri_true)
collapse negate tri_false = (negate, tri_false)
collapse negate outcome = (false, outcome)

-- `none` is a nil condition.
unfoldable pub match_condition : Option Condition → EvalContext → Bool × Tri
unfolding collapse
match_condition none ctx = (false, tri_bad_op)
match_condition (some c) ctx = collapse c.negate (decide_condition c ctx)

-- The method `ObserveUndecidable`; it may panic.
abbrev pub ConditionObserver : Type 0
ConditionObserver = Observation → Run (Unit {0})

-- The observer never panics.
abbrev pub IsQuiet : Option ConditionObserver → Type 0
IsQuiet none = Unit
IsQuiet (some obs) = (o : Observation) → obs o ≡ returns tt

unfoldable pub observe : Option ConditionObserver → Bytes → Bytes → Bytes → Tri → Traced (Unit {0})
unfolding countable
observe none flag_key rule_id name outcome = pure tt
observe (some obs) flag_key rule_id name outcome =
    let seen : Observation = record {
      flag_key = flag_key;
      rule_id = rule_id;
      attribute = name;
      outcome = outcome;
    } in
    if not (countable outcome) then pure tt else (obs seen, seen ∷ [])

-- The two loops of `MatchRule`; `any` is that of LogicOr.
unfoldable pub match_loop :
    Bool → Bytes → Bytes → List Condition → EvalContext → Option ConditionObserver → Traced Bool
match_loop any flag_key rule_id [] ctx obs = pure (not any)
match_loop any flag_key rule_id (c ∷ conditions) ctx obs =
    let (matched, outcome) = match_condition (some c) ctx in
    let rest = match_loop any flag_key rule_id conditions ctx obs in
    observe obs flag_key rule_id c.attribute outcome >>= λ _.
    if any then (if matched then pure true else rest) else (if matched then rest else pure false)

abbrev pub is_or : LogicOp → Bool
is_or logic_or = true
is_or logic_and = false

-- `none` is a nil rule.
unfoldable pub match_rule :
    Bytes → Option Rule → EvalContext → Option ConditionObserver → Traced Bool
unfolding match_loop observe
match_rule flag_key none ctx obs = pure false
match_rule flag_key (some r) ctx obs =
    match_loop (is_or r.combiner) flag_key r.id r.conditions ctx obs
