-- ===== src/Config/Resolved/Answers.antt =====
-- What the engine answers about a flag that validation accepted.
use feature_flag_service.Common.{
  ◌≡◌, ◌≢◌, sym, ap, ◌∙◌, ◌⊎◌, true, Bytes, ℤ, List, [], ◌∷◌, Option, none, some, arith, All,
}
use feature_flag_service.Core.Value.{Value, ValueType, type_unknown, value_type}
use feature_flag_service.Core.Model.{
  Rule, Rollout, Flag, type_mismatch, Result, fallthrough, disabled, no_bucket, rollout_in,
  rollout_out, rule_match,
}
use feature_flag_service.Core.Context.{EvalContext}
use feature_flag_service.Core.Matcher.{ConditionObserver, IsQuiet}
use feature_flag_service.Core.Evaluator.{Snapshot, evaluate, rollout_result, result_of}
use feature_flag_service.Core.Evaluator.Decision.{
  first_rule, key_decision, rollout_decision, rule_decision, flag_decision, decision, total,
  evaluate-eq-decision,
}
use feature_flag_service.Core.Evaluator.Percent.{finish-typed, not_asked_wrongly}
use feature_flag_service.Core.Trace.{returns}
use feature_flag_service.Config.Layer.{BaseFlag, OverlayFlag, OpsOverride}
use feature_flag_service.Config.Findings.{rejections}
use feature_flag_service.Config.Merge.Fields.{Layers}
use feature_flag_service.Config.Resolved.{validate_resolved}
use feature_flag_service.Config.Resolved.Sound.{
  IsRolloutFor, IsWellFormed, validate_resolved-IsWellFormed,
}

abbrev IsTypedRule : Flag → Option Rule → Type 0
IsTypedRule f none = Unit
IsTypedRule f (some r) = value_type r.value ≡ f.type

first_rule-typed :
    (f : Flag) (ctx : EvalContext) (rules : List Rule)
    → All (λ r. value_type r.value ≡ f.type) rules
    → IsTypedRule f (first_rule ctx rules)
unfolding first_rule
first_rule-typed f ctx [] h = tt
first_rule-typed f ctx (r ∷ rules) h = ground (arith, first_rule-typed f ctx rules h.1, h.0)

rollout_result-known :
    (f : Flag) (ro : Rollout) (d : Value) (gen bucket : ℤ)
    → IsRolloutFor f.type (some ro)
    → (rollout_result f ro d gen bucket).reason ≢ type_mismatch
unfolding rollout_result
rollout_result-known f ro d gen bucket (lo, hi, on, off) = ground (
  arith,
  finish-typed f (result_of ro.on_value rollout_in bucket gen) d on,
  finish-typed f (result_of ro.off_value rollout_out bucket gen) d off,
)

module _ (key_for : Flag → EvalContext → Option Bytes) (bucket_for : Bytes → ℤ) where
  key_decision-known :
      (f : Flag) (ro : Rollout) (d : Value) (gen : ℤ) (key : Option Bytes)
      → IsRolloutFor f.type (some ro)
      → (key_decision key_for bucket_for f ro d gen key).reason ≢ type_mismatch
  unfolding key_decision
  key_decision-known f ro d gen none h = λ e. cc
  key_decision-known f ro d gen (some key) h = rollout_result-known f ro d gen (bucket_for key) h

  rollout_decision-known :
      (f : Flag) (ro : Option Rollout) (ctx : EvalContext) (d : Value) (gen : ℤ)
      → value_type f.default_value ≡ f.type
      → IsRolloutFor f.type ro
      → (rollout_decision key_for bucket_for f ro ctx d gen).reason ≢ type_mismatch
  unfolding rollout_decision
  rollout_decision-known f none ctx d gen h k =
      ground (arith, finish-typed f (result_of f.default_value fallthrough no_bucket gen) d h)
  rollout_decision-known f (some ro) ctx d gen h k = key_decision-known f ro d gen (key_for f ctx) k

  rule_decision-known :
      (f : Flag) (ctx : EvalContext) (d : Value) (gen : ℤ) (r : Option Rule)
      → IsWellFormed f
      → IsTypedRule f r
      → (rule_decision key_for bucket_for f ctx d gen r).reason ≢ type_mismatch
  unfolding rule_decision
  rule_decision-known f ctx d gen none h k =
      rollout_decision-known f f.rollout ctx d gen h.default_typed h.rollout_fits
  rule_decision-known f ctx d gen (some r) h k = ground (
    arith,
    finish-typed f
        (record {
          value = r.value;
          reason = rule_match;
          rule_id = r.id;
          bucket = no_bucket;
          generation = gen;
        })
        d k,
  )

  flag_decision-known :
      (f : Flag) (ctx : EvalContext) (want : ValueType) (d : Value) (gen : ℤ)
      → IsWellFormed f
      → (want ≡ type_unknown) ⊎ (want ≡ f.type)
      → (flag_decision key_for bucket_for f ctx want d gen).reason ≢ type_mismatch
  unfolding flag_decision
  flag_decision-known f ctx want d gen h asked = ground (
    arith,
    not_asked_wrongly want f.type asked,
    finish-typed f (result_of f.off_value disabled no_bucket gen) d h.off_typed,
    rule_decision-known f ctx d gen (first_rule ctx f.rules) h
        (first_rule-typed f ctx f.rules h.rules_typed),
  )

  -- The same from the form of the flag that validation leaves.
  pub evaluate-known :
      (f : Flag) (obs : Option ConditionObserver) (snap : Snapshot) (key : Bytes)
      (ctx : EvalContext) (want : ValueType) (d : Value) (gen : ℤ)
      → IsWellFormed f
      → IsQuiet obs
      → snap.generation ≡ returns gen
      → snap.flag key ≡ returns (some f, true)
      → (want ≡ type_unknown) ⊎ (want ≡ f.type)
      → (evaluate (total key_for bucket_for obs) (some snap) key ctx want d).0.reason
        ≢ type_mismatch
  unfolding decision
  evaluate-known f obs snap key ctx want d gen formed q hg hf asked e =
      flag_decision-known f ctx want d gen formed asked (
        ap (λ (r : Result). r.reason)
          (sym (
            evaluate-eq-decision key_for bucket_for obs snap (some f, true) key ctx want d gen q hg
              hf))
        ∙ e)

  -- The engine never answers TYPE_MISMATCH about a flag that validation accepted, whatever the
  -- subject and the rollout, to a caller that asks for the flag's type or for none, where the snapshot
  -- holds the flag and strategy, hasher and observer do not panic.
  pub evaluate-accepted :
      (env : Bytes) (f : Flag) (layers : Layers) (base : BaseFlag) (ov : Option OverlayFlag)
      (ops : Option OpsOverride) (obs : Option ConditionObserver) (snap : Snapshot) (key : Bytes)
      (ctx : EvalContext) (want : ValueType) (d : Value) (gen : ℤ)
      → rejections (validate_resolved env f base ov ops layers) ≡ []
      → IsQuiet obs
      → snap.generation ≡ returns gen
      → snap.flag key ≡ returns (some f, true)
      → (want ≡ type_unknown) ⊎ (want ≡ f.type)
      → (evaluate (total key_for bucket_for obs) (some snap) key ctx want d).0.reason
        ≢ type_mismatch
  evaluate-accepted env f layers base ov ops obs snap key ctx want d gen accepted =
      evaluate-known f obs snap key ctx want d gen
        (validate_resolved-IsWellFormed env f layers base ov ops accepted)
