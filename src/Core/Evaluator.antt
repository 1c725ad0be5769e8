-- ===== src/Core/Evaluator.antt =====
-- internal/core/evaluator.go, over the interfaces of contract.go: `Evaluate` with its stages and its
-- panic boundary. The interfaces `Snapshot`, `BucketKeyStrategy` and `Hasher` are records of their
-- methods, each of which may panic; a nil interface is `none`, and a call through it panics.
pub mod Contract
pub mod Decision
pub mod Ramp
pub mod Percent
pub mod Order
use feature_flag_service.Common.{
  ℕ, Bool, true, false, not, ◌&&◌, ◌||◌, Bytes, ℤ, pos, ltb_ℤ, leb_ℤ, List, [], ◌∷◌, Option, none,
  some, if◌then◌else◌,
}
use feature_flag_service.Core.Value.{Value, ValueType, type_unknown, type_eq, value_type}
use feature_flag_service.Core.Model.{
  Rule, Rollout, Flag, Reason, reason_unknown, rule_match, rollout_in, rollout_out, fallthrough,
  disabled, flag_not_found, type_mismatch, missing_subject, error, Result, no_bucket,
}
use feature_flag_service.Core.Context.{EvalContext}
use feature_flag_service.Core.Trace.{
  Observation, Run, returns, panics, Traced, pure, lift, after, ◌>>=◌,
}
use feature_flag_service.Core.Matcher.{ConditionObserver, match_rule}
use feature_flag_service.Core.Bucket.{bucket_space, namespace_key, xx_bucket}

-- `Snapshot` of contract.go; `flag` returns the pointer and `ok`.
pub record Snapshot : Type 0 where
  pub generation : Run ℤ
  pub flag : Bytes → Run (Option Flag × Bool)

abbrev pub BucketKeyStrategy : Type 0
BucketKeyStrategy = Flag → EvalContext → Run (Option Bytes)

abbrev pub Hasher : Type 0
Hasher = Bytes → Run ℤ

pub record Evaluator : Type 0 where
  pub strategy : Option BucketKeyStrategy
  pub hasher : Option Hasher
  pub observer : Option ConditionObserver

-- `Option`: what each of the three constructors of options closes over.
pub data EvaluatorOption : Type 0 where
  with_bucket_key_strategy : Option BucketKeyStrategy → EvaluatorOption
  with_hasher : Option Hasher → EvaluatorOption
  with_condition_observer : Option ConditionObserver → EvaluatorOption

unfoldable pub apply_option : Evaluator → EvaluatorOption → Evaluator
apply_option e (with_bucket_key_strategy (some s)) = record e { strategy = some s }
apply_option e (with_bucket_key_strategy none) = e
apply_option e (with_hasher (some h)) = record e { hasher = some h }
apply_option e (with_hasher none) = e
apply_option e (with_condition_observer o) = record e { observer = o }

-- The loop of `New`; a nil option is skipped.
unfoldable pub apply_options : Evaluator → List (Option EvaluatorOption) → Evaluator
unfolding apply_option
apply_options e [] = e
apply_options e (some opt ∷ opts) = apply_options (apply_option e opt) opts
apply_options e (none ∷ opts) = apply_options e opts

unfoldable pub shipped_strategy : BucketKeyStrategy
unfolding namespace_key
shipped_strategy flag ctx = returns (namespace_key (some flag) ctx)

unfoldable pub shipped_hasher : (Bytes → ℕ) → Hasher
unfolding xx_bucket
shipped_hasher sum64 key = returns (xx_bucket sum64 key)

-- `New`, where `sum64` is xxhash.Sum64String
unfoldable pub new : (Bytes → ℕ) → List (Option EvaluatorOption) → Evaluator
unfolding apply_options shipped_strategy shipped_hasher
new sum64 opts =
    apply_options
      (record {
        strategy = some shipped_strategy;
        hasher = some (shipped_hasher sum64);
        observer = none;
      })
      opts

-- A result with no rule.
abbrev pub result_of : Value → Reason → ℤ → ℤ → Result
result_of value reason bucket gen = record {
  value = value;
  reason = reason;
  rule_id = [];
  bucket = bucket;
  generation = gen;
}

abbrev pub fail_safe : Value → Reason → ℤ → Result
fail_safe caller_default reason gen = result_of caller_default reason no_bucket gen

-- S9
unfoldable pub finish : Flag → Result → Value → Result
finish flag res caller_default =
    if not (type_eq (value_type res.value) flag.type)
    then result_of caller_default type_mismatch res.bucket res.generation
    else res

-- S6a: the first rule that matches.
unfoldable pub first_match :
    Bytes → List Rule → EvalContext → Option ConditionObserver → Traced (Option Rule)
first_match flag_key [] ctx obs = pure none
first_match flag_key (r ∷ rules) ctx obs =
    let rest = first_match flag_key rules ctx obs in
    match_rule flag_key (some r) ctx obs >>= λ matched. if matched then pure (some r) else rest

abbrev pub rule_result : Flag → Rule → Value → ℤ → Result
rule_result flag r caller_default gen =
    finish flag
      (record {
        value = r.value;
        reason = rule_match;
        rule_id = r.id;
        bucket = no_bucket;
        generation = gen;
      })
      caller_default

-- The end of S6b, on the bucket that the hasher returned.
unfoldable pub rollout_result : Flag → Rollout → Value → ℤ → ℤ → Result
rollout_result flag ro caller_default gen bucket =
    if ltb_ℤ bucket (pos 0) || leb_ℤ (pos bucket_space) bucket
    then fail_safe caller_default error gen
    else if ltb_ℤ bucket ro.basis_points
    then finish flag (result_of ro.on_value rollout_in bucket gen) caller_default
    else finish flag (result_of ro.off_value rollout_out bucket gen) caller_default

abbrev pub key_of : Option BucketKeyStrategy → Flag → EvalContext → Run (Option Bytes)
key_of none flag ctx = panics
key_of (some strategy) flag ctx = strategy flag ctx

abbrev pub bucket_of : Option Hasher → Bytes → Run ℤ
bucket_of none key = panics
bucket_of (some hasher) key = hasher key

-- S6b
unfoldable pub rollout_stage : Evaluator → Flag → Rollout → EvalContext → Value → ℤ → Run Result
rollout_stage e flag ro ctx caller_default gen = after (key_of e.strategy flag ctx) λ found.
    elim found [
      | none ↦ returns (fail_safe caller_default missing_subject gen)
      | some key ↦
          after (bucket_of e.hasher key)
            λ bucket. returns (rollout_result flag ro caller_default gen bucket)
    ]

-- S6b and S6c, for subjects that no rule matched: the rollout, if there is one.
unfoldable pub after_rules :
    Evaluator → Flag → Option Rollout → EvalContext → Value → ℤ → Run Result
after_rules e flag (some ro) ctx caller_default gen = rollout_stage e flag ro ctx caller_default gen
after_rules e flag none ctx caller_default gen =
    returns (finish flag (result_of flag.default_value fallthrough no_bucket gen) caller_default)

-- S6, on the rule that matched, if one did.
unfoldable pub by_rule : Evaluator → Flag → EvalContext → Value → ℤ → Option Rule → Run Result
by_rule e flag ctx caller_default gen (some r) = returns (rule_result flag r caller_default gen)
by_rule e flag ctx caller_default gen none = after_rules e flag flag.rollout ctx caller_default gen

-- S4 to S6, on a flag that was found.
unfoldable pub evaluate_flag :
    Evaluator → Flag → EvalContext → ValueType → Value → ℤ → Traced Result
evaluate_flag e flag ctx want caller_default gen =
    if not (type_eq want type_unknown) && not (type_eq want flag.type)
    then pure (fail_safe caller_default type_mismatch gen)
    else if not flag.enabled
    then pure (finish flag (result_of flag.off_value disabled no_bucket gen) caller_default)
    else (first_match flag.key flag.rules ctx e.observer >>= λ matched.
        lift (by_rule e flag ctx caller_default gen matched))

-- S3: the lookup; a miss, a nil flag in the index, and a flag.
unfoldable pub evaluate_found :
    Evaluator → Option Flag × Bool → EvalContext → ValueType → Value → ℤ → Traced Result
evaluate_found e (flag, false) ctx want caller_default gen =
    pure (fail_safe caller_default flag_not_found gen)
evaluate_found e (none, true) ctx want caller_default gen =
    pure (fail_safe caller_default error gen)
evaluate_found e (some flag, true) ctx want caller_default gen =
    evaluate_flag e flag ctx want caller_default gen

abbrev is_reason_unknown : Reason → Bool
is_reason_unknown reason_unknown = true
is_reason_unknown _ = false

-- S1: the deferred function, which sees a panic or the result returned.
unfoldable pub recovered : Value → ℤ → Run Result → Result
recovered caller_default gen panics = fail_safe caller_default error gen
recovered caller_default gen (returns res) =
    if is_reason_unknown res.reason then fail_safe caller_default error gen else res

-- From S2 on, with the generation known.
unfoldable pub evaluate_at :
    Evaluator → Snapshot → Bytes → EvalContext → ValueType → Value → ℤ → Traced Result
evaluate_at e snap key ctx want caller_default gen =
    lift (snap.flag key) >>= λ found. evaluate_found e found ctx want caller_default gen

-- S2, on what `Generation` did.
unfoldable pub with_generation :
    Evaluator
    → Snapshot
    → Bytes
    → EvalContext
    → ValueType
    → Value
    → Run ℤ
    → Result × List Observation
with_generation e snap key ctx want caller_default panics =
    (fail_safe caller_default error (pos 0), [])
with_generation e snap key ctx want caller_default (returns gen) = (
  recovered caller_default gen (evaluate_at e snap key ctx want caller_default gen).0,
  (evaluate_at e snap key ctx want caller_default gen).1,
)

-- `Evaluator.Evaluate`: the result, and the calls of the observer.
unfoldable pub evaluate :
    Evaluator
    → Option Snapshot
    → Bytes
    → EvalContext
    → ValueType
    → Value
    → Result × List Observation
evaluate e none key ctx want caller_default = (fail_safe caller_default error (pos 0), [])
evaluate e (some snap) key ctx want caller_default =
    with_generation e snap key ctx want caller_default snap.generation
