-- ===== src/Core/Evaluator/Order.antt =====
-- The order of the stages: the type asked for is checked before the flag's switch, and the switch
-- before rules and rollout, whatever the strategy, the hasher and the observer do.
use feature_flag_service.Common.{
  ◌≡◌, ◌≢◌, ap, ◌∙◌, false, Bytes, ℤ, List, [], some, arith, ◌⊎◌, if◌then◌else◌,
}
use feature_flag_service.Core.Value.{Value, ValueType, type_unknown, type_eq, value_type}
use feature_flag_service.Core.Model.{
  Flag, Result, type_mismatch, disabled, no_bucket, reason_unknown,
}
use feature_flag_service.Core.Context.{EvalContext}
use feature_flag_service.Core.Trace.{Observation, returns, Traced, continue}
use feature_flag_service.Core.Evaluator.{
  Snapshot, Evaluator, finish, result_of, fail_safe, evaluate_flag, evaluate_found, evaluate_at,
  recovered, with_generation, evaluate,
}
use feature_flag_service.Core.Evaluator.Contract.{type_eq→eq, recovered-returns}
use feature_flag_service.Core.Evaluator.Ramp.{Holds}
use feature_flag_service.Core.Evaluator.Percent.{not_asked_wrongly}

-- A call whose flag stage makes no observation is settled by that stage.
evaluate_settled :
    (e : Evaluator) (snap : Snapshot) (key : Bytes) (flag : Flag) (gen : ℤ) (ctx : EvalContext)
    (want : ValueType) (d : Value) (res : Result)
    → Holds snap key flag gen
    → evaluate_flag e flag ctx want d gen ≡ (returns res, [])
    → res.reason ≢ reason_unknown
    → evaluate e (some snap) key ctx want d ≡ (res, [])
unfolding evaluate with_generation evaluate_at evaluate_found
evaluate_settled e snap key flag gen ctx want d res held stage reasoned =
    ap (with_generation e snap key ctx want d) held.generation
    ∙ ap {A = Traced Result} {B = Result × List Observation} (λ t. (recovered d gen t.0, t.1))
        at_flag
    ∙ ap {A = Result} (λ r. (r, [])) (recovered-returns d gen res reasoned)
  where
    at_flag : evaluate_at e snap key ctx want d gen ≡ (returns res, [])
    at_flag = ap (λ f. continue f [] (λ x. evaluate_found e x ctx want d gen)) held.found ∙ stage

evaluate_flag-wrong :
    (e : Evaluator) (flag : Flag) (gen : ℤ) (ctx : EvalContext) (want : ValueType) (d : Value)
    → want ≢ type_unknown
    → want ≢ flag.type
    → evaluate_flag e flag ctx want d gen ≡ (returns (fail_safe d type_mismatch gen), [])
unfolding evaluate_flag
evaluate_flag-wrong e flag gen ctx want d asked other =
    ground (arith, type_eq→eq want type_unknown, type_eq→eq want flag.type)

-- What a flag answers when it is off.
abbrev pub off_result : Flag → Value → ℤ → Result
off_result flag d gen =
    if type_eq (value_type flag.off_value) flag.type
    then result_of flag.off_value disabled no_bucket gen
    else result_of d type_mismatch no_bucket gen

off_result-reasoned :
    (flag : Flag) (d : Value) (gen : ℤ) → (off_result flag d gen).reason ≢ reason_unknown
off_result-reasoned flag d gen = ground arith

evaluate_flag-off :
    (e : Evaluator) (flag : Flag) (gen : ℤ) (ctx : EvalContext) (want : ValueType) (d : Value)
    → (want ≡ type_unknown) ⊎ (want ≡ flag.type)
    → flag.enabled ≡ false
    → evaluate_flag e flag ctx want d gen ≡ (returns (off_result flag d gen), [])
unfolding evaluate_flag finish
evaluate_flag-off e flag gen ctx want d wanted off =
    ground (arith, not_asked_wrongly want flag.type wanted, off)

-- A caller who asks for a type that is not the flag's gets its default with TYPE_MISMATCH and no
-- bucket, whether the flag is on or off, and no condition is observed.
pub wrong_type :
    (e : Evaluator) (snap : Snapshot) (key : Bytes) (flag : Flag) (gen : ℤ) (ctx : EvalContext)
    (want : ValueType) (d : Value)
    → Holds snap key flag gen
    → want ≢ type_unknown
    → want ≢ flag.type
    → evaluate e (some snap) key ctx want d ≡ (fail_safe d type_mismatch gen, [])
wrong_type e snap key flag gen ctx want d held asked other =
    evaluate_settled e snap key flag gen ctx want d _ held
      (evaluate_flag-wrong e flag gen ctx want d asked other) (λ h. cc)

-- A flag that is switched off answers its off value with DISABLED, or the caller's default with
-- TYPE_MISMATCH if that value has not the flag's type; no condition is observed.
pub switched_off :
    (e : Evaluator) (snap : Snapshot) (key : Bytes) (flag : Flag) (gen : ℤ) (ctx : EvalContext)
    (want : ValueType) (d : Value)
    → Holds snap key flag gen
    → (want ≡ type_unknown) ⊎ (want ≡ flag.type)
    → flag.enabled ≡ false
    → evaluate e (some snap) key ctx want d ≡ (off_result flag d gen, [])
switched_off e snap key flag gen ctx want d held wanted off =
    evaluate_settled e snap key flag gen ctx want d _ held
      (evaluate_flag-off e flag gen ctx want d wanted off) (off_result-reasoned flag d gen)
