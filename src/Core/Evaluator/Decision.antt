-- ===== src/Core/Evaluator/Decision.antt =====
-- Evaluation as a function of its inputs alone: where no interface panics, `Evaluate` is `decision`,
-- which has no trace, no panic and no observer, and takes the first rule that holds.
use feature_flag_service.Common.{
  Bool, true, false, not, ◌&&◌, ◌||◌, ◌≡◌, refl, ap, ◌∙◌, Bytes, ℤ, List, [], ◌∷◌, Option, none,
  some, if◌then◌else◌, arith, subst,
}
use feature_flag_service.Core.Value.{Value, ValueType, type_unknown, type_eq}
use feature_flag_service.Core.Model.{
  Condition, Rule, Rollout, Flag, fallthrough, disabled, flag_not_found, type_mismatch,
  missing_subject, error, Result, no_bucket,
}
use feature_flag_service.Core.Context.{EvalContext}
use feature_flag_service.Core.Trace.{Tri, returns, Traced, continue, ◌>>=◌, lift}
use feature_flag_service.Core.Matcher.{
  ConditionObserver, IsQuiet, match_condition, observe, match_loop, match_rule, is_or,
}
use feature_flag_service.Core.Evaluator.{
  Snapshot, Evaluator, result_of, fail_safe, rule_result, finish, first_match, rollout_result,
  rollout_stage, after_rules, by_rule, evaluate_flag, evaluate_found, evaluate_at, recovered,
  with_generation, evaluate,
}
use feature_flag_service.Core.Evaluator.Contract.{
  RunServed, evaluate_at-RunServed, recovered-returns,
}

-- A rule holds if all of its conditions match, or under LogicOr if any does.
unfoldable pub holds_all : EvalContext → List Condition → Bool
holds_all ctx [] = true
holds_all ctx (c ∷ cs) = (match_condition (some c) ctx).0 && holds_all ctx cs

unfoldable pub holds_any : EvalContext → List Condition → Bool
holds_any ctx [] = false
holds_any ctx (c ∷ cs) = (match_condition (some c) ctx).0 || holds_any ctx cs

unfoldable pub rule_holds : EvalContext → Rule → Bool
unfolding holds_all holds_any
rule_holds ctx r =
    if is_or r.combiner then holds_any ctx r.conditions else holds_all ctx r.conditions

unfoldable pub first_rule : EvalContext → List Rule → Option Rule
first_rule ctx [] = none
first_rule ctx (r ∷ rules) = if rule_holds ctx r then some r else first_rule ctx rules

observe-returns :
    (obs : Option ConditionObserver) (k i a : Bytes) (t : Tri)
    → IsQuiet obs
    → (observe obs k i a t).0 ≡ returns tt
unfolding observe
observe-returns none k i a t q = refl
observe-returns (some f) k i a t q =
    ground (arith, q (record { flag_key = k; rule_id = i; attribute = a; outcome = t }))

-- The outcome of a bind whose first part returns.
bind-returns :
    {A B : Type 0} (m : Traced A) (f : A → Traced B) (a : A)
    → m.0 ≡ returns a
    → (m >>= f).0 ≡ (f a).0
bind-returns m f a h = ap (λ r. (continue r m.1 f).0) h

match_loop-returns :
    (any : Bool) (k i : Bytes) (cs : List Condition) (ctx : EvalContext)
    (obs : Option ConditionObserver)
    → IsQuiet obs
    → (match_loop any k i cs ctx obs).0
      ≡ returns (if any then holds_any ctx cs else holds_all ctx cs)
unfolding match_loop holds_any holds_all
match_loop-returns any k i [] ctx obs q = ground arith
match_loop-returns any k i (c ∷ cs) ctx obs q =
    bind-returns (observe obs k i c.attribute (match_condition (some c) ctx).1) _ tt
      (observe-returns obs k i c.attribute (match_condition (some c) ctx).1 q)
    ∙ ground (arith, match_loop-returns any k i cs ctx obs q)

match_rule-returns :
    (k : Bytes) (r : Rule) (ctx : EvalContext) (obs : Option ConditionObserver)
    → IsQuiet obs
    → (match_rule k (some r) ctx obs).0 ≡ returns (rule_holds ctx r)
unfolding match_rule rule_holds
match_rule-returns k r ctx obs q =
    match_loop-returns (is_or r.combiner) k r.id r.conditions ctx obs q

first_match-returns :
    (k : Bytes) (rules : List Rule) (ctx : EvalContext) (obs : Option ConditionObserver)
    → IsQuiet obs
    → (first_match k rules ctx obs).0 ≡ returns (first_rule ctx rules)
unfolding first_match first_rule
first_match-returns k [] ctx obs q = refl
first_match-returns k (r ∷ rules) ctx obs q =
    bind-returns (match_rule k (some r) ctx obs) _ (rule_holds ctx r)
      (match_rule-returns k r ctx obs q)
    ∙ ground (arith, first_match-returns k rules ctx obs q)

-- What is decided of a flag, given the key strategy and the hash as functions.
module _ (key_for : Flag → EvalContext → Option Bytes) (bucket_for : Bytes → ℤ) where
  unfoldable pub key_decision : Flag → Rollout → Value → ℤ → Option Bytes → Result
  key_decision flag ro d gen none = fail_safe d missing_subject gen
  key_decision flag ro d gen (some key) = rollout_result flag ro d gen (bucket_for key)

  unfoldable pub rollout_decision : Flag → Option Rollout → EvalContext → Value → ℤ → Result
  rollout_decision flag none ctx d gen =
      finish flag (result_of flag.default_value fallthrough no_bucket gen) d
  rollout_decision flag (some ro) ctx d gen = key_decision flag ro d gen (key_for flag ctx)

  unfoldable pub rule_decision : Flag → EvalContext → Value → ℤ → Option Rule → Result
  rule_decision flag ctx d gen (some r) = rule_result flag r d gen
  rule_decision flag ctx d gen none = rollout_decision flag flag.rollout ctx d gen

  unfoldable pub flag_decision : Flag → EvalContext → ValueType → Value → ℤ → Result
  flag_decision flag ctx want d gen =
      if not (type_eq want type_unknown) && not (type_eq want flag.type)
      then fail_safe d type_mismatch gen
      else if not flag.enabled
      then finish flag (result_of flag.off_value disabled no_bucket gen) d
      else rule_decision flag ctx d gen (first_rule ctx flag.rules)

  unfoldable pub decision : Option Flag × Bool → EvalContext → ValueType → Value → ℤ → Result
  decision (flag, false) ctx want d gen = fail_safe d flag_not_found gen
  decision (none, true) ctx want d gen = fail_safe d error gen
  decision (some flag, true) ctx want d gen = flag_decision flag ctx want d gen

  -- An evaluator of these functions.
  abbrev pub total : Option ConditionObserver → Evaluator
  total obs = record {
    strategy = some (λ flag ctx. returns (key_for flag ctx));
    hasher = some (λ key. returns (bucket_for key));
    observer = obs;
  }

  after_rules-returns :
      (obs : Option ConditionObserver) (flag : Flag) (ro : Option Rollout) (ctx : EvalContext)
      (d : Value) (gen : ℤ)
      → after_rules (total obs) flag ro ctx d gen ≡ returns (rollout_decision flag ro ctx d gen)
  unfolding after_rules rollout_stage rollout_decision key_decision
  after_rules-returns obs flag none ctx d gen = refl
  after_rules-returns obs flag (some ro) ctx d gen = ground arith

  by_rule-returns :
      (obs : Option ConditionObserver) (flag : Flag) (ctx : EvalContext) (d : Value) (gen : ℤ)
      (r : Option Rule)
      → by_rule (total obs) flag ctx d gen r ≡ returns (rule_decision flag ctx d gen r)
  unfolding by_rule rule_decision
  by_rule-returns obs flag ctx d gen (some r) = refl
  by_rule-returns obs flag ctx d gen none = after_rules-returns obs flag flag.rollout ctx d gen

  evaluate_flag-returns :
      (obs : Option ConditionObserver) (flag : Flag) (ctx : EvalContext) (want : ValueType)
      (d : Value) (gen : ℤ)
      → IsQuiet obs
      → (evaluate_flag (total obs) flag ctx want d gen).0
        ≡ returns (flag_decision flag ctx want d gen)
  unfolding evaluate_flag flag_decision
  evaluate_flag-returns obs flag ctx want d gen q = ground (
    arith,
    bind-returns (first_match flag.key flag.rules ctx obs)
        (λ matched. lift (by_rule (total obs) flag ctx d gen matched)) (first_rule ctx flag.rules)
        (first_match-returns flag.key flag.rules ctx obs q),
    by_rule-returns obs flag ctx d gen (first_rule ctx flag.rules),
  )

  evaluate_found-returns :
      (obs : Option ConditionObserver) (found : Option Flag × Bool) (ctx : EvalContext)
      (want : ValueType) (d : Value) (gen : ℤ)
      → IsQuiet obs
      → (evaluate_found (total obs) found ctx want d gen).0
        ≡ returns (decision found ctx want d gen)
  unfolding evaluate_found decision
  evaluate_found-returns obs (flag, false) ctx want d gen q = refl
  evaluate_found-returns obs (none, true) ctx want d gen q = refl
  evaluate_found-returns obs (some flag, true) ctx want d gen q =
      evaluate_flag-returns obs flag ctx want d gen q

  evaluate_at-returns :
      (obs : Option ConditionObserver) (snap : Snapshot) (found : Option Flag × Bool) (key : Bytes)
      (ctx : EvalContext) (want : ValueType) (d : Value) (gen : ℤ)
      → IsQuiet obs
      → snap.flag key ≡ returns found
      → (evaluate_at (total obs) snap key ctx want d gen).0
        ≡ returns (decision found ctx want d gen)
  unfolding evaluate_at
  evaluate_at-returns obs snap found key ctx want d gen q hf =
      bind-returns (lift (snap.flag key)) (λ f. evaluate_found (total obs) f ctx want d gen) found
        hf
      ∙ evaluate_found-returns obs found ctx want d gen q

  -- Where the snapshot answers, and strategy, hasher and observer do not panic, the result is
  -- `decision`: the observer does not bear on it, and the first rule in order that holds decides.
  pub evaluate-eq-decision :
      (obs : Option ConditionObserver) (snap : Snapshot) (found : Option Flag × Bool) (key : Bytes)
      (ctx : EvalContext) (want : ValueType) (d : Value) (gen : ℤ)
      → IsQuiet obs
      → snap.generation ≡ returns gen
      → snap.flag key ≡ returns found
      → (evaluate (total obs) (some snap) key ctx want d).0 ≡ decision found ctx want d gen
  unfolding evaluate with_generation
  evaluate-eq-decision obs snap found key ctx want d gen q hg hf =
      let at_found = evaluate_at-returns obs snap found key ctx want d gen q hf in
      ap (λ r. (with_generation (total obs) snap key ctx want d r).0) hg
      ∙ ap (recovered d gen) at_found
      ∙ recovered-returns d gen (decision found ctx want d gen)
          (subst (RunServed snap key want d gen) at_found
            (evaluate_at-RunServed (total obs) snap key ctx want d gen)).0
