-- ===== src/Core/Evaluator/Contract.antt =====
-- What every call of `Evaluate` keeps to, whatever its interfaces do, panics included.
use feature_flag_service.Common.{
  Bool-cases, Bool, true, false, ◌≡◌, ◌≢◌, refl, sym, subst, ◌⊎◌, inl, inr, Bytes, ℤ, Option, none,
  some, arith, List, [],
}
use feature_flag_service.Core.Value.{Value, ValueType, type_unknown, type_eq, value_type}
use feature_flag_service.Core.Model.{
  Rule, Rollout, Flag, reason_unknown, rollout_in, rollout_out, disabled, Result, is_fallback,
  no_bucket,
}
use feature_flag_service.Core.Context.{EvalContext}
use feature_flag_service.Core.Trace.{
  Run, returns, panics, Traced, Observation, after, continue, lift,
}
use feature_flag_service.Core.Evaluator.{
  Snapshot, Evaluator, finish, first_match, rollout_result, rollout_stage, after_rules, by_rule,
  evaluate_flag, evaluate_found, evaluate_at, key_of, bucket_of, recovered, with_generation,
  evaluate, result_of,
}

pub type_eq→eq : (a b : ValueType) → type_eq a b ≡ true → a ≡ b
unfolding type_eq
type_eq→eq a b h = ground arith

-- A result that `Evaluate` may return: it has a reason; a fallback reason comes with the caller's
-- default, and any other with a value of the type `t`.
pub record Keeps (caller_default : Value) (t : ValueType) (res : Result) : Type 0 where
  pub reasoned : res.reason ≢ reason_unknown
  pub fallback : is_fallback res.reason ≡ true → res.value ≡ caller_default
  pub typed : is_fallback res.reason ≡ false → value_type res.value ≡ t

abbrev pub RunKeeps : Value → ValueType → ℤ → Run Result → Type 0
RunKeeps d t gen panics = Unit
RunKeeps d t gen (returns res) = Keeps d t res × (res.generation ≡ gen)

finish-Keeps :
    (flag : Flag) (res : Result) (d : Value)
    → res.reason ≢ reason_unknown
    → is_fallback res.reason ≡ false
    → Keeps d flag.type (finish flag res d) × ((finish flag res d).generation ≡ res.generation)
unfolding finish is_fallback
finish-Keeps flag res d h k = ground (arith, type_eq→eq (value_type res.value) flag.type)

rollout_result-Keeps :
    (flag : Flag) (ro : Rollout) (d : Value) (gen bucket : ℤ)
    → RunKeeps d flag.type gen (returns (rollout_result flag ro d gen bucket))
unfolding rollout_result is_fallback
rollout_result-Keeps flag ro d gen bucket = ground (
  arith,
  finish-Keeps flag (result_of ro.on_value rollout_in bucket gen) d,
  finish-Keeps flag (result_of ro.off_value rollout_out bucket gen) d,
)

RunKeeps-after :
    {A : Type 0} (d : Value) (t : ValueType) (gen : ℤ) (r : Run A) (f : A → Run Result)
    → ((a : A) → RunKeeps d t gen (f a))
    → RunKeeps d t gen (after r f)
RunKeeps-after d t gen panics f h = tt
RunKeeps-after d t gen (returns a) f h = h a

RunKeeps-bind :
    {A : Type 0} (d : Value) (t : ValueType) (gen : ℤ) (r : Run A) (log : List Observation)
    (f : A → Traced Result)
    → ((a : A) → RunKeeps d t gen (f a).0)
    → RunKeeps d t gen (continue r log f).0
RunKeeps-bind d t gen panics log f h = tt
RunKeeps-bind d t gen (returns a) log f h = h a

rollout_stage-RunKeeps :
    (e : Evaluator) (flag : Flag) (ro : Rollout) (ctx : EvalContext) (d : Value) (gen : ℤ)
    → RunKeeps d flag.type gen (rollout_stage e flag ro ctx d gen)
unfolding rollout_stage is_fallback
rollout_stage-RunKeeps e flag ro ctx d gen =
    RunKeeps-after d flag.type gen (key_of e.strategy flag ctx) _ (elim [
      | none ↦ ground arith
      | some key ↦
          RunKeeps-after d flag.type gen (bucket_of e.hasher key) _
            (rollout_result-Keeps flag ro d gen)
    ])

after_rules-RunKeeps :
    (e : Evaluator) (flag : Flag) (ro : Option Rollout) (ctx : EvalContext) (d : Value) (gen : ℤ)
    → RunKeeps d flag.type gen (after_rules e flag ro ctx d gen)
unfolding after_rules is_fallback
after_rules-RunKeeps e flag none ctx d gen = finish-Keeps flag _ d (cc) refl
after_rules-RunKeeps e flag (some ro) ctx d gen = rollout_stage-RunKeeps e flag ro ctx d gen

by_rule-RunKeeps :
    (e : Evaluator) (flag : Flag) (ctx : EvalContext) (d : Value) (gen : ℤ) (r : Option Rule)
    → RunKeeps d flag.type gen (by_rule e flag ctx d gen r)
unfolding by_rule is_fallback
by_rule-RunKeeps e flag ctx d gen none = after_rules-RunKeeps e flag flag.rollout ctx d gen
by_rule-RunKeeps e flag ctx d gen (some r) = finish-Keeps flag _ d (cc) refl

evaluate_flag-RunKeeps :
    (e : Evaluator) (flag : Flag) (ctx : EvalContext) (want : ValueType) (d : Value) (gen : ℤ)
    → RunKeeps d flag.type gen (evaluate_flag e flag ctx want d gen).0
unfolding evaluate_flag is_fallback
evaluate_flag-RunKeeps e flag ctx want d gen = ground (
  arith,
  finish-Keeps flag (result_of flag.off_value disabled no_bucket gen) d,
  RunKeeps-bind d flag.type gen (first_match flag.key flag.rules ctx e.observer).0
      (first_match flag.key flag.rules ctx e.observer).1
      (λ matched. lift (by_rule e flag ctx d gen matched)) (by_rule-RunKeeps e flag ctx d gen),
)

-- Where a result comes from: the caller's default, or a flag of the snapshot, and then the value has
-- the flag's type, which is the type asked for if one was.
pub data Served (snap : Snapshot) (key : Bytes) (want : ValueType) (d : Value) (res : Result)
    : Type 0 where
  defaulted : is_fallback res.reason ≡ true → res.value ≡ d → Served snap key want d res
  configured :
      (flag : Flag)
      → snap.flag key ≡ returns (some flag, true)
      → is_fallback res.reason ≡ false
      → value_type res.value ≡ flag.type
      → (want ≡ type_unknown) ⊎ (want ≡ flag.type)
      → Served snap key want d res

Keeps-Served :
    (snap : Snapshot) (key : Bytes) (want : ValueType) (d : Value) (flag : Flag) (res : Result)
    → snap.flag key ≡ returns (some flag, true)
    → (want ≡ type_unknown) ⊎ (want ≡ flag.type)
    → Keeps d flag.type res
    → Served snap key want d res
Keeps-Served snap key want d flag res found wanted k = elim (Bool-cases (is_fallback res.reason)) [
  | inl fb ↦ defaulted fb (k.fallback fb)
  | inr no_fb ↦ configured flag found no_fb (k.typed no_fb) wanted
]

-- The stages, with what was asked for.
abbrev pub RunServed : Snapshot → Bytes → ValueType → Value → ℤ → Run Result → Type 0
RunServed snap key want d gen panics = Unit
RunServed snap key want d gen (returns res) =
    (res.reason ≢ reason_unknown) × Served snap key want d res × (res.generation ≡ gen)

RunKeeps-RunServed :
    (snap : Snapshot) (key : Bytes) (want : ValueType) (d : Value) (gen : ℤ) (flag : Flag)
    (r : Run Result)
    → snap.flag key ≡ returns (some flag, true)
    → (want ≡ type_unknown) ⊎ (want ≡ flag.type)
    → RunKeeps d flag.type gen r
    → RunServed snap key want d gen r
RunKeeps-RunServed snap key want d gen flag panics found wanted k = tt
RunKeeps-RunServed snap key want d gen flag (returns res) found wanted k =
    (k.0.reasoned, Keeps-Served snap key want d flag res found wanted k.0, k.1)

evaluate_flag-RunServed :
    (e : Evaluator) (snap : Snapshot) (key : Bytes) (ctx : EvalContext) (want : ValueType)
    (d : Value) (gen : ℤ) (flag : Flag)
    → snap.flag key ≡ returns (some flag, true)
    → RunServed snap key want d gen (evaluate_flag e flag ctx want d gen).0
evaluate_flag-RunServed e snap key ctx want d gen flag found =
    elim (Bool-cases (type_eq want type_unknown)) [
      | inl any ↦ served (inl (type_eq→eq want type_unknown any))
      | inr some_type ↦ elim (Bool-cases (type_eq want flag.type)) [
        | inl same ↦ served (inr (type_eq→eq want flag.type same))
        | inr other ↦
            unfold evaluate_flag is_fallback in
            rw (some_type, other) ((λ e. cc), defaulted refl refl, refl)
      ]
    ]
  where
    served :
        (want ≡ type_unknown) ⊎ (want ≡ flag.type)
        → RunServed snap key want d gen (evaluate_flag e flag ctx want d gen).0
    served wanted =
        RunKeeps-RunServed snap key want d gen flag _ found wanted
          (evaluate_flag-RunKeeps e flag ctx want d gen)

pub evaluate_at-RunServed :
    (e : Evaluator) (snap : Snapshot) (key : Bytes) (ctx : EvalContext) (want : ValueType)
    (d : Value) (gen : ℤ)
    → RunServed snap key want d gen (evaluate_at e snap key ctx want d gen).0
unfolding evaluate_at
evaluate_at-RunServed e snap key ctx want d gen = go (snap.flag key) refl
  where
    go :
        (found : Run (Option Flag × Bool))
        → snap.flag key ≡ found
        → RunServed snap key want d gen (continue found [] λ f. evaluate_found e f ctx want d gen).0
    go panics h = tt
    go (returns (flag, false)) h =
        unfold evaluate_found is_fallback in ((λ e. cc), defaulted refl refl, refl)
    go (returns (none, true)) h =
        unfold evaluate_found is_fallback in ((λ e. cc), defaulted refl refl, refl)
    go (returns (some flag, true)) h =
        unfold evaluate_found in evaluate_flag-RunServed e snap key ctx want d gen flag h

pub recovered-returns :
    (d : Value) (gen : ℤ) (res : Result)
    → res.reason ≢ reason_unknown
    → recovered d gen (returns res) ≡ res
unfolding recovered
recovered-returns d gen res h = ground arith

-- The panic boundary turns any run into a result of the same kind.
recovered-RunServed :
    (snap : Snapshot) (key : Bytes) (want : ValueType) (d : Value) (gen : ℤ) (r : Run Result)
    → RunServed snap key want d gen r
    → RunServed snap key want d gen (returns (recovered d gen r))
unfolding recovered is_fallback
recovered-RunServed snap key want d gen panics h = ((λ e. cc), defaulted refl refl, refl)
recovered-RunServed snap key want d gen (returns res) h =
    subst (λ r. RunServed snap key want d gen (returns r)) (sym (recovered-returns d gen res h.0)) h

served_at :
    (e : Evaluator) (snap : Snapshot) (key : Bytes) (ctx : EvalContext) (want : ValueType)
    (d : Value) (gen : ℤ)
    → RunServed snap key want d gen
        (returns (recovered d gen (evaluate_at e snap key ctx want d gen).0))
served_at e snap key ctx want d gen =
    recovered-RunServed snap key want d gen _ (evaluate_at-RunServed e snap key ctx want d gen)

with_generation-Served :
    (e : Evaluator) (snap : Snapshot) (key : Bytes) (ctx : EvalContext) (want : ValueType)
    (d : Value) (r : Run ℤ)
    → let res = (with_generation e snap key ctx want d r).0 in
      (res.reason ≢ reason_unknown) × Served snap key want d res
unfolding with_generation is_fallback
with_generation-Served e snap key ctx want d panics = ((λ e. cc), defaulted refl refl)
with_generation-Served e snap key ctx want d (returns gen) =
    let h = served_at e snap key ctx want d gen in (h.0, h.1)

-- Whatever the interfaces do, panics included, a call returns a result with a reason; it carries the
-- caller's default under a fallback reason, and otherwise a value of the type of the flag that the
-- snapshot holds under the key, which is the type asked for if one was.
pub evaluate-Served :
    (e : Evaluator) (snap : Snapshot) (key : Bytes) (ctx : EvalContext) (want : ValueType)
    (d : Value)
    → let res = (evaluate e (some snap) key ctx want d).0 in
      (res.reason ≢ reason_unknown) × Served snap key want d res
unfolding evaluate
evaluate-Served e snap key ctx want d = with_generation-Served e snap key ctx want d snap.generation

-- Where the snapshot tells its generation, the result carries it, also after a panic.
pub generation-evaluate :
    (e : Evaluator) (snap : Snapshot) (key : Bytes) (ctx : EvalContext) (want : ValueType)
    (d : Value) (gen : ℤ)
    → snap.generation ≡ returns gen
    → (evaluate e (some snap) key ctx want d).0.generation ≡ gen
unfolding evaluate with_generation
generation-evaluate e snap key ctx want d gen h =
    subst (λ r. (with_generation e snap key ctx want d r).0.generation ≡ gen) (sym h)
      (served_at e snap key ctx want d gen).2

-- A caller who asks for the type of its own default gets a value of that type, whatever happens.
pub value_type-evaluate :
    (e : Evaluator) (snap : Option Snapshot) (key : Bytes) (ctx : EvalContext) (want : ValueType)
    (d : Value)
    → want ≢ type_unknown
    → value_type d ≡ want
    → value_type (evaluate e snap key ctx want d).0.value ≡ want
value_type-evaluate e none key ctx want d asked typed = unfold evaluate in typed
value_type-evaluate e (some snap) key ctx want d asked typed =
    elim (evaluate-Served e snap key ctx want d).1 [
      | defaulted fb eq ↦ rw eq typed
      | configured flag found fb same wanted ↦ elim wanted [
        | inl any ↦ absurd (asked any)
        | inr eq ↦ cc
      ]
    ]
