-- ===== src/Core/Evaluator/Ramp.antt =====
-- Percentage rollouts as their size changes: the evaluator as `New` builds it, with the shipped
-- strategy and hasher.
use feature_flag_service.Common.{
  ℕ, true, ◌≡◌, refl, Bytes, ℤ, ◌≤ℤ◌, [], ◌∷◌, Option, none, some, arith,
}
use feature_flag_service.Core.Value.{Value, ValueType}
use feature_flag_service.Core.Model.{Rollout, Flag, Reason, rollout_in, rollout_out, Rule, Result}
use feature_flag_service.Core.Context.{EvalContext}
use feature_flag_service.Core.Trace.{returns}
use feature_flag_service.Core.Matcher.{ConditionObserver, IsQuiet}
use feature_flag_service.Core.Bucket.{namespace_key, subject_of, namespace_of, xx_bucket}
use feature_flag_service.Core.Evaluator.{
  Snapshot, Evaluator, finish, rollout_result, new, with_condition_observer, evaluate,
}
use feature_flag_service.Core.Evaluator.Decision.{
  key_decision, first_rule, rollout_decision, rule_decision, flag_decision, decision,
  evaluate-eq-decision,
}

-- The flag with this rollout at `bp` basis points.
abbrev pub ramped : Flag → Rollout → ℤ → Flag
ramped flag ro bp = record flag { rollout = some (record ro { basis_points = bp }) }

-- What stays the same for a subject while a rollout grows.
pub record SameAnswer (res res' : Result) : Type 0 where
  pub reason : res'.reason ≡ res.reason
  pub value : res'.value ≡ res.value
  pub bucket : res'.bucket ≡ res.bucket

module _ (flag : Flag) (ro : Rollout) (d : Value) (bp bp' gen gen' : ℤ) (grows : bp ≤ℤ bp') where
  rollout_result-grows :
      (bucket : ℤ)
      → (rollout_result (ramped flag ro bp) (record ro { basis_points = bp }) d gen bucket).reason
        ≡ rollout_in
      → SameAnswer
          (rollout_result (ramped flag ro bp) (record ro { basis_points = bp }) d gen bucket)
          (rollout_result (ramped flag ro bp') (record ro { basis_points = bp' }) d gen' bucket)
  unfolding rollout_result finish
  rollout_result-grows bucket h = ground arith

  rollout_result-shrinks :
      (bucket : ℤ)
      → (rollout_result
          (ramped flag ro bp')
          (record ro { basis_points = bp' })
          d
          gen'
          bucket).reason
        ≡ rollout_out
      → SameAnswer
          (rollout_result (ramped flag ro bp') (record ro { basis_points = bp' }) d gen' bucket)
          (rollout_result (ramped flag ro bp) (record ro { basis_points = bp }) d gen bucket)
  unfolding rollout_result finish
  rollout_result-shrinks bucket h = ground arith

-- The shipped strategy does not read the size of the rollout.
unfoldable pub key_for : Flag → EvalContext → Option Bytes
key_for flag ctx = namespace_key (some flag) ctx

module _ (hash : Bytes → ℤ) (flag : Flag) (ro : Rollout) (d : Value) (gen gen' : ℤ) (bp bp' : ℤ)
    (r : Reason) where
  -- The answers under `r` at `bp` are given at `bp'` too.
  abbrev Carries : (ℤ → ℤ → Result) → Type 0
  Carries f = (f bp gen).reason ≡ r → SameAnswer (f bp gen) (f bp' gen')

  module _
      (step : (b : ℤ)
        → Carries
            (λ p g. rollout_result (ramped flag ro p) (record ro { basis_points = p }) d g b)) where
    key_decision-Carries :
        (k : Option Bytes)
        → Carries (λ p g.
          key_decision key_for hash (ramped flag ro p) (record ro { basis_points = p }) d g k)
    unfolding key_decision
    key_decision-Carries none h = record { reason = refl; value = refl; bucket = refl }
    key_decision-Carries (some k) h = step (hash k) h

    rollout_decision-Carries :
        (ctx : EvalContext)
        → Carries (λ p g.
          rollout_decision key_for hash
            (ramped flag ro p)
            (some (record ro { basis_points = p }))
            ctx
            d
            g)
    unfolding rollout_decision key_for namespace_key subject_of namespace_of
    rollout_decision-Carries ctx h = key_decision-Carries (key_for (ramped flag ro bp) ctx) h

    rule_decision-Carries :
        (ctx : EvalContext) (m : Option Rule)
        → Carries (λ p g. rule_decision key_for hash (ramped flag ro p) ctx d g m)
    unfolding rule_decision finish
    rule_decision-Carries ctx (some rule) h = ground arith
    rule_decision-Carries ctx none h = rollout_decision-Carries ctx h

    flag_decision-Carries :
        (ctx : EvalContext) (want : ValueType)
        → Carries (λ p g. flag_decision key_for hash (ramped flag ro p) ctx want d g)
    unfolding flag_decision finish
    flag_decision-Carries ctx want h =
        ground (arith, rule_decision-Carries ctx (first_rule ctx flag.rules))

-- An evaluator as `New` builds it, and a snapshot that holds the flag at a size of its rollout.
abbrev pub shipped : (Bytes → ℕ) → Option ConditionObserver → Evaluator
shipped sum64 obs = new sum64 (some (with_condition_observer obs) ∷ [])

pub record Holds (snap : Snapshot) (key : Bytes) (flag : Flag) (gen : ℤ) : Type 0 where
  pub generation : snap.generation ≡ returns gen
  pub found : snap.flag key ≡ returns (some flag, true)

pub shipped-decision :
    (sum64 : Bytes → ℕ) (obs : Option ConditionObserver) (snap : Snapshot) (key : Bytes)
    (flag : Flag) (gen : ℤ) (ctx : EvalContext) (want : ValueType) (d : Value)
    → IsQuiet obs
    → Holds snap key flag gen
    → (evaluate (shipped sum64 obs) (some snap) key ctx want d).0
      ≡ flag_decision key_for (xx_bucket sum64) flag ctx want d gen
unfolding new key_for decision
shipped-decision sum64 obs snap key flag gen ctx want d q held =
    evaluate-eq-decision key_for (xx_bucket sum64) obs snap (some flag, true) key ctx want d gen q
      held.generation held.found

module _ (sum64 : Bytes → ℕ) (obs : Option ConditionObserver) (snap snap' : Snapshot) (key : Bytes)
    (flag : Flag) (ro : Rollout) (bp bp' gen gen' : ℤ) (ctx : EvalContext) (want : ValueType)
    (d : Value) (quiet : IsQuiet obs) (grows : bp ≤ℤ bp')
    (held : Holds snap key (ramped flag ro bp) gen)
    (held' : Holds snap' key (ramped flag ro bp') gen') where
  abbrev small : Result
  small = (evaluate (shipped sum64 obs) (some snap) key ctx want d).0

  abbrev large : Result
  large = (evaluate (shipped sum64 obs) (some snap') key ctx want d).0

  small-eq : small ≡ flag_decision key_for (xx_bucket sum64) (ramped flag ro bp) ctx want d gen
  small-eq = shipped-decision sum64 obs snap key _ gen ctx want d quiet held

  large-eq : large ≡ flag_decision key_for (xx_bucket sum64) (ramped flag ro bp') ctx want d gen'
  large-eq = shipped-decision sum64 obs snap' key _ gen' ctx want d quiet held'

  -- Growing a rollout from `bp` to `bp'` basis points loses nobody: a subject inside it at `bp` has
  -- the same value, reason and bucket at `bp'`.
  pub ramp_up : small.reason ≡ rollout_in → SameAnswer small large
  ramp_up h =
      rw (small-eq, large-eq)
        (flag_decision-Carries (xx_bucket sum64) flag ro d gen gen' bp bp' rollout_in
          (rollout_result-grows flag ro d bp bp' gen gen' grows) ctx want (rw small-eq at h))

  -- Shrinking a rollout from `bp'` to `bp` basis points lets nobody in: a subject outside it at `bp'`
  -- has the same value, reason and bucket at `bp`.
  pub ramp_down : large.reason ≡ rollout_out → SameAnswer large small
  ramp_down h =
      rw (small-eq, large-eq)
        (flag_decision-Carries (xx_bucket sum64) flag ro d gen' gen bp' bp rollout_out
          (rollout_result-shrinks flag ro d bp bp' gen gen' grows) ctx want (rw large-eq at h))
