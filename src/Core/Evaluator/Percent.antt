-- ===== src/Core/Evaluator/Percent.antt =====
-- What a rollout answers for a subject that no rule matched, at every size, 0% and 100% included.
use feature_flag_service.Common.{
  ℕ, ◌≡◌, refl, ◌⊎◌, inl, inr, ap, ◌∙◌, ◌^◌, ◌<◌, ◌/◌, ◌*◌, true, false, Bytes, ℤ, pos, ◌≤ℤ◌, ltb_ℤ,
  leb_ℤ, not, ◌&&◌, Option, none, some, arith, if◌then◌else◌,
}
use feature_flag_service.Core.Value.{Value, ValueType, type_unknown, type_eq, value_type}
use feature_flag_service.Core.Model.{Rollout, Flag, rollout_in, rollout_out, Result}
use feature_flag_service.Core.Context.{EvalContext}
use feature_flag_service.Core.Matcher.{ConditionObserver, IsQuiet}
use feature_flag_service.Core.Bucket.{
  compose_key, namespace_key, subject_of, namespace_of, bucket_space, xx_bucket,
}
use feature_flag_service.Core.Bucket.Range.{reduce_hash_exact}
use feature_flag_service.Core.Evaluator.{Snapshot, finish, rollout_result, result_of, evaluate}
use feature_flag_service.Core.Evaluator.Decision.{
  first_rule, key_decision, rollout_decision, rule_decision, flag_decision,
}
use feature_flag_service.Core.Evaluator.Ramp.{key_for, shipped, Holds, shipped-decision}

pub type_eq_refl : (t : ValueType) → type_eq t t ≡ true
unfolding type_eq
type_eq_refl type_unknown = refl
type_eq_refl _ = refl

pub finish-typed :
    (flag : Flag) (res : Result) (d : Value)
    → value_type res.value ≡ flag.type
    → finish flag res d ≡ res
unfolding finish
finish-typed flag res d h = rw (h, type_eq_refl)

-- The flag is on and well typed, the caller's type is right, no rule holds, and there is a subject.
pub record IsRolling (flag : Flag) (ro : Rollout) (ctx : EvalContext) (want : ValueType)
    (subject : Bytes) : Type 0 where
  pub rolling : flag.rollout ≡ some ro
  pub enabled : flag.enabled ≡ true
  pub wanted : (want ≡ type_unknown) ⊎ (want ≡ flag.type)
  pub on_typed : value_type ro.on_value ≡ flag.type
  pub off_typed : value_type ro.off_value ≡ flag.type
  pub untargeted : first_rule ctx flag.rules ≡ none
  pub subject_known : subject_of flag ctx ≡ some subject

pub not_asked_wrongly :
    (want t : ValueType)
    → (want ≡ type_unknown) ⊎ (want ≡ t)
    → (not (type_eq want type_unknown) && not (type_eq want t)) ≡ false
not_asked_wrongly want t (inl e) = rw (e, type_eq_refl)
not_asked_wrongly want t (inr e) = rw (e, type_eq_refl) (ground arith)

flag_decision-rolling :
    (hash : Bytes → ℤ) (flag : Flag) (ro : Rollout) (ctx : EvalContext) (want : ValueType)
    (d : Value) (gen : ℤ) (subject : Bytes)
    → IsRolling flag ro ctx want subject
    → flag_decision key_for hash flag ctx want d gen
      ≡ rollout_result flag ro d gen (hash (compose_key (namespace_of flag) subject))
unfolding flag_decision rule_decision rollout_decision key_decision key_for namespace_key
flag_decision-rolling hash flag ro ctx want d gen subject r = ground (
  arith,
  not_asked_wrongly want flag.type r.wanted,
  r.rolling,
  r.enabled,
  r.untargeted,
  r.subject_known,
)

rollout_result-typed :
    (flag : Flag) (ro : Rollout) (d : Value) (gen : ℤ) (b : ℕ)
    → b < bucket_space
    → value_type ro.on_value ≡ flag.type
    → value_type ro.off_value ≡ flag.type
    → rollout_result flag ro d gen (pos b) ≡ (
        if ltb_ℤ (pos b) ro.basis_points
        then result_of ro.on_value rollout_in (pos b) gen
        else result_of ro.off_value rollout_out (pos b) gen)
unfolding rollout_result
rollout_result-typed flag ro d gen b h on off = ground (
  arith,
  finish-typed flag (result_of ro.on_value rollout_in (pos b) gen) d on,
  finish-typed flag (result_of ro.off_value rollout_out (pos b) gen) d off,
)

-- The bucket of the subject under the flag's namespace.
abbrev pub bucket_number : (Bytes → ℕ) → Flag → Bytes → ℕ
bucket_number sum64 flag subject =
    sum64 (compose_key (namespace_of flag) subject) / 2 ^ 32 * bucket_space / 2 ^ 32

module _ (sum64 : Bytes → ℕ) (range : (k : Bytes) → sum64 k < 2 ^ 64)
    (obs : Option ConditionObserver) (quiet : IsQuiet obs) (snap : Snapshot) (key : Bytes)
    (flag : Flag) (ro : Rollout) (gen : ℤ) (ctx : EvalContext) (want : ValueType) (d : Value)
    (subject : Bytes) (held : Holds snap key flag gen)
    (rolling : IsRolling flag ro ctx want subject) where
  abbrev number : ℕ
  number = bucket_number sum64 flag subject

  exact :
      (xx_bucket sum64 (compose_key (namespace_of flag) subject) ≡ pos number)
      × (number < bucket_space)
  unfolding xx_bucket
  exact = reduce_hash_exact _ (range _)

  -- The subject is in exactly when its bucket is below the basis points, and gets the rollout's value
  -- for its side, never the flag's default.
  pub rollout_exact : (evaluate (shipped sum64 obs) (some snap) key ctx want d).0 ≡ (
      if ltb_ℤ (pos (bucket_number sum64 flag subject)) ro.basis_points
      then result_of ro.on_value rollout_in (pos (bucket_number sum64 flag subject)) gen
      else result_of ro.off_value rollout_out (pos (bucket_number sum64 flag subject)) gen)
  rollout_exact =
      shipped-decision sum64 obs snap key flag gen ctx want d quiet held
      ∙ flag_decision-rolling (xx_bucket sum64) flag ro ctx want d gen subject rolling
      ∙ ap (rollout_result flag ro d gen) exact.0
      ∙ rollout_result-typed flag ro d gen number exact.1 rolling.on_typed rolling.off_typed

  -- At 0% or below such a subject gets the rollout's off value, and at 100% or above its on value.
  pub rollout_ends :
      (ro.basis_points ≤ℤ pos 0) ⊎ (pos bucket_space ≤ℤ ro.basis_points)
      → (evaluate (shipped sum64 obs) (some snap) key ctx want d).0 ≡ (
          if leb_ℤ ro.basis_points (pos 0)
          then result_of ro.off_value rollout_out (pos number) gen
          else result_of ro.on_value rollout_in (pos number) gen)
  rollout_ends ends = ground (arith, rollout_exact, exact)
