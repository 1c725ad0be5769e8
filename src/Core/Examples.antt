-- ===== src/Core/Examples.antt =====
-- The engine on concrete flags: runs of the definitions, and the theorems at inputs that meet their
-- hypotheses.
use feature_flag_service.Common.{
  not, str_eq_refl, ap, ltb_ℤ, is_empty, ℕ, ◌≡◌, ◌≢◌, refl, inr, true, false, ◌^◌, ◌<◌, Bytes,
  codes, pos, [], ◌∷◌, none, some, arith, if◌then◌else◌, str_eq, lookup, decimal,
}
use feature_flag_service.Core.Value.{
  bool, string, type_bool, value_type, equal, type_eq, is_unknown, value_string,
}
use feature_flag_service.Core.Model.{
  Condition, Rule, Rollout, Flag, Result, op_in, logic_and, order_rules_first, rollout_in,
  rollout_out, rule_match, disabled, no_bucket, reason_unknown,
}
use feature_flag_service.Core.Context.{EvalContext, attribute, shorthand}
use feature_flag_service.Core.Trace.{returns, panics}
use feature_flag_service.Core.Matcher.{
  ConditionObserver, match_condition, decided, match_rule, decide_condition, compare_value,
}
use feature_flag_service.Core.Matcher.Negation.{negated, match_condition-negated}
use feature_flag_service.Core.Bucket.{
  namespace_key, namespace_of, subject_of, xx_bucket, compose_key,
}
use feature_flag_service.Core.Bucket.Keys.{namespace_key-injective}
use feature_flag_service.Core.Evaluator.{
  Snapshot, Evaluator, evaluate, new, with_generation, evaluate_at, evaluate_found, evaluate_flag,
  recovered, first_match, by_rule, after_rules, rollout_stage, rollout_result, finish, result_of,
}
use feature_flag_service.Core.Evaluator.Contract.{Served, evaluate-Served, value_type-evaluate}
use feature_flag_service.Core.Evaluator.Decision.{
  decision, first_rule, rule_holds, total, evaluate-eq-decision,
}
use feature_flag_service.Core.Evaluator.Ramp.{ramped, key_for, shipped, Holds, SameAnswer, ramp_up}
use feature_flag_service.Core.Evaluator.Percent.{IsRolling, bucket_number, rollout_exact}

abbrev in_india : Condition
in_india = record {
  attribute = codes "country";
  op = op_in;
  values = string (codes "IN") ∷ [];
  negate = false;
}

abbrev india_rule : Rule
india_rule = record {
  id = codes "r-country";
  conditions = in_india ∷ [];
  combiner = logic_and;
  value = bool true;
}

abbrev quarter : Rollout
quarter = record {
  basis_points = pos 2500;
  bucket_namespace = [];
  bucket_by = [];
  on_value = bool true;
  off_value = bool false;
}

abbrev checkout : Flag
checkout = record {
  key = codes "checkout";
  type = type_bool;
  enabled = true;
  default_value = bool true;
  off_value = bool false;
  rules = india_rule ∷ [];
  rollout = some quarter;
  evaluation_order = order_rules_first;
}

abbrev user : EvalContext
user = record { user_id = codes "u-42"; tenant_id = []; attributes = [] }

abbrev indian : EvalContext
indian = record user { attributes = (codes "country", string (codes "IN")) ∷ [] }

abbrev snapshot_of : Flag → Snapshot
snapshot_of f = record {
  generation = returns (pos 7);
  flag = λ key. returns (if str_eq key f.key then (some f, true) else (none, false));
}

-- A hash that puts every key in bucket 2500.
abbrev fixed_hash : Bytes → ℕ
fixed_hash key = 2 ^ 62

fixed_hash_range : (key : Bytes) → fixed_hash key < 2 ^ 64
fixed_hash_range key = omega arith

abbrev silent : ConditionObserver
silent o = returns tt

abbrev engine : Evaluator
engine = shipped fixed_hash (some silent)

-- What the engine answers about a flag, for a caller that asks for a bool.
run : Flag → EvalContext → Result
unfolding evaluate with_generation evaluate_at evaluate_found evaluate_flag recovered first_match
    by_rule after_rules rollout_stage rollout_result finish new match_rule match_condition
    decide_condition compare_value attribute shorthand lookup str_eq type_eq value_type equal
    namespace_key subject_of namespace_of compose_key is_unknown value_string is_empty
run f ctx = (evaluate engine (some (snapshot_of f)) f.key ctx type_bool (bool false)).0

targeted : run checkout indian ≡ record {
  value = bool true;
  reason = rule_match;
  rule_id = codes "r-country";
  bucket = no_bucket;
  generation = pos 7;
}
unfolding run
targeted = refl

out_at_2500 : run checkout user ≡ result_of (bool false) rollout_out (pos 2500) (pos 7)
unfolding run
out_at_2500 = refl

in_at_2501 :
    run (ramped checkout quarter (pos 2501)) user
    ≡ result_of (bool true) rollout_in (pos 2500) (pos 7)
unfolding run
in_at_2501 = refl

off_when_disabled :
    run (record checkout { enabled = false }) indian
    ≡ result_of (bool false) disabled no_bucket (pos 7)
unfolding run
off_when_disabled = refl

-- The theorems at inputs that meet their hypotheses.
snapshot_of-Holds : (f : Flag) → Holds (snapshot_of f) f.key f (pos 7)
snapshot_of-Holds f = record { generation = refl; found = rw str_eq_refl }

match_condition-negated_example :
    ((match_condition (some (negated in_india)) user).1 ≡ (match_condition (some in_india) user).1)
    × ((match_condition (some (negated in_india)) user).0 ≡ (
        if decided (match_condition (some in_india) user).1
        then not (match_condition (some in_india) user).0
        else (match_condition (some in_india) user).0))
    × ((if decided (match_condition (some in_india) user).1
          then false
          else (match_condition (some in_india) user).0)
        ≡ false)
match_condition-negated_example = match_condition-negated in_india user

absent : attribute user (codes "country") ≡ none
unfolding attribute shorthand lookup str_eq
absent = refl

-- Another flag that opts into the bucket space of `checkout`.
abbrev rider : Flag
rider = record checkout {
  key = codes "rider";
  rollout = some (record quarter { bucket_namespace = codes "checkout" });
}

key_of_checkout : namespace_key (some checkout) user ≡ some (codes "8:checkout:u-42")
unfolding namespace_key subject_of namespace_of compose_key attribute shorthand lookup str_eq
    is_unknown value_string decimal is_empty
key_of_checkout = refl

key_of_rider : namespace_key (some rider) user ≡ some (codes "8:checkout:u-42")
unfolding namespace_key subject_of namespace_of compose_key attribute shorthand lookup str_eq
    is_unknown value_string decimal is_empty
key_of_rider = refl

namespace_key-injective_example :
    (namespace_of checkout ≡ namespace_of rider)
    × (subject_of checkout user ≡ subject_of rider user)
namespace_key-injective_example =
    namespace_key-injective checkout rider user user (codes "8:checkout:u-42") key_of_checkout
      key_of_rider

abbrev answer : Flag → EvalContext → Result
answer f ctx =
    (evaluate engine (some (snapshot_of f)) (codes "checkout") ctx type_bool (bool false)).0

evaluate-Served_example :
    ((answer checkout user).reason ≢ reason_unknown)
    × Served (snapshot_of checkout) (codes "checkout") type_bool (bool false) (answer checkout user)
evaluate-Served_example =
    evaluate-Served engine (snapshot_of checkout) (codes "checkout") user type_bool (bool false)

value_type-evaluate_example : value_type (answer checkout user).value ≡ type_bool
unfolding value_type
value_type-evaluate_example =
    value_type-evaluate engine (some (snapshot_of checkout)) (codes "checkout") user type_bool
      (bool false) (λ e. cc) refl

evaluate-eq-decision_example :
    (evaluate
      (total key_for (xx_bucket fixed_hash) (some silent))
      (some (snapshot_of checkout))
      (codes "checkout")
      indian
      type_bool
      (bool false)).0
    ≡ decision key_for
        (xx_bucket fixed_hash)
        (some checkout, true)
        indian
        type_bool
        (bool false)
        (pos 7)
evaluate-eq-decision_example =
    evaluate-eq-decision key_for (xx_bucket fixed_hash) (some silent) (snapshot_of checkout)
      (some checkout, true) (codes "checkout") indian type_bool (bool false) (pos 7) (λ o. refl)
      refl (snapshot_of-Holds checkout).found

ramp_up_example :
    SameAnswer
      (answer (ramped checkout quarter (pos 2501)) user)
      (answer (ramped checkout quarter (pos 9000)) user)
unfolding run evaluate
ramp_up_example =
    ramp_up fixed_hash (some silent) (snapshot_of (ramped checkout quarter (pos 2501)))
      (snapshot_of (ramped checkout quarter (pos 9000))) (codes "checkout") checkout quarter
      (pos 2501) (pos 9000) (pos 7) (pos 7) user type_bool (bool false) (λ o. refl) (omega arith)
      (snapshot_of-Holds (ramped checkout quarter (pos 2501)))
      (snapshot_of-Holds (ramped checkout quarter (pos 9000)))
      (ap (λ (r : Result). r.reason) in_at_2501)

checkout-IsRolling : IsRolling checkout quarter user type_bool (codes "u-42")
unfolding value_type first_rule rule_holds match_condition decide_condition subject_of attribute
    shorthand lookup str_eq is_unknown value_string
checkout-IsRolling = record {
  rolling = refl;
  enabled = refl;
  wanted = inr refl;
  on_typed = refl;
  off_typed = refl;
  untargeted = refl;
  subject_known = refl;
}

rollout_exact_example : answer checkout user ≡ (
    if ltb_ℤ (pos (bucket_number fixed_hash checkout (codes "u-42"))) (pos 2500)
    then result_of
        (bool true)
        rollout_in
        (pos (bucket_number fixed_hash checkout (codes "u-42")))
        (pos 7)
    else result_of
        (bool false)
        rollout_out
        (pos (bucket_number fixed_hash checkout (codes "u-42")))
        (pos 7))
rollout_exact_example =
    rollout_exact fixed_hash fixed_hash_range (some silent) (λ o. refl) (snapshot_of checkout)
      (codes "checkout") checkout quarter (pos 7) user type_bool (bool false) (codes "u-42")
      (snapshot_of-Holds checkout) checkout-IsRolling

abbrev zero_flag : Flag
zero_flag = ramped checkout quarter (pos 0)

zero_flag-IsRolling :
    IsRolling zero_flag (record quarter { basis_points = pos 0 }) user type_bool (codes "u-42")
unfolding value_type first_rule rule_holds match_condition decide_condition subject_of attribute
    shorthand lookup str_eq is_unknown value_string
zero_flag-IsRolling = record {
  rolling = refl;
  enabled = refl;
  wanted = inr refl;
  on_typed = refl;
  off_typed = refl;
  untargeted = refl;
  subject_known = refl;
}

-- An evaluator whose parts are nil or panic.
abbrev broken : Evaluator
broken = record { strategy = none; hasher = none; observer = some (λ o. panics) }

abbrev dark : Flag
dark = record checkout { enabled = false }
