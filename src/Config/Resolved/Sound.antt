-- ===== src/Config/Resolved/Sound.antt =====
-- What an accepted flag is, and what the engine answers about it.
use feature_flag_service.Common.{
  true, sym, ltb_ℤ, ◌||◌, ◌&&◌, map, false≢true, ℕ, ◌+◌, ◌≡◌, ◌≢◌, refl, ◌∙◌, ◌⊎◌, inl, inr, ℤ, pos,
  ◌≤ℤ◌, Bool, false, not, Bytes, List, [], ◌∷◌, ◌++◌, Option, none, some, All, arith, Bool-cases,
}
use feature_flag_service.Core.Value.{
  Value, ValueType, type_unknown, type_eq, value_type, is_unknown,
}
use feature_flag_service.Core.Value.Laws.{type_eq_iff}
use feature_flag_service.Core.Model.{Rule, Rollout, Flag, EvaluationOrder, order_unspecified}
use feature_flag_service.Core.Bucket.{bucket_space}
use feature_flag_service.Config.Layer.{LayerId, BaseFlag, OverlayFlag, OpsOverride, WireRule}
use feature_flag_service.Config.Findings.{Finding, is_rejection, Findings, rejections, when}
use feature_flag_service.Config.Merge.Fields.{Layers}
use feature_flag_service.Config.Resolved.{
  reject, member, clash_findings, rule_findings, default_findings, rollout_findings, size_findings,
  order_findings, validate_resolved, appended_rules, has_rules, has_rollout, is_unspecified,
}

pub append_empty {ℓ} : {A : Type ℓ} (xs ys : List A) → xs ++ ys ≡ [] → (xs ≡ []) × (ys ≡ [])
append_empty [] ys h = (refl, h)
append_empty (x ∷ xs) ys h = absurd (cc)

rejections-append : (xs ys : Findings) → rejections (xs ++ ys) ≡ rejections xs ++ rejections ys
unfolding rejections
rejections-append [] ys = refl
rejections-append (x ∷ xs) ys = ground (arith, rejections-append xs ys)

-- No rejection in a join is no rejection in either part.
pub split_clean :
    (xs ys : Findings) → rejections (xs ++ ys) ≡ [] → (rejections xs ≡ []) × (rejections ys ≡ [])
split_clean xs ys h =
    append_empty (rejections xs) (rejections ys) (sym (rejections-append xs ys) ∙ h)

when_clean :
    (b : Bool) (id key env : Bytes) (l : LayerId) (field : Bytes)
    → rejections (when b (reject id key env l field)) ≡ []
    → b ≡ false
unfolding rejections
when_clean b id key env l field h = ground arith

-- A rejecting finding that was not made.
pub when_unmade :
    (b : Bool) (f : Finding)
    → is_rejection f.severity ≡ true
    → rejections (when b f) ≡ []
    → b ≡ false
unfolding rejections
when_unmade b f s h = ground arith

never_empty :
    (id key env : Bytes) (l : LayerId) (field : Bytes)
    → rejections (reject id key env l field ∷ []) ≡ []
    → ⊥
unfolding rejections
never_empty id key env l field h = absurd (cc)

-- The rollout's size is in range and its values have the flag's type.
abbrev pub IsRolloutFor : ValueType → Option Rollout → Type 0
IsRolloutFor t none = Unit
IsRolloutFor t (some ro) =
    (pos 0 ≤ℤ ro.basis_points)
    × (ro.basis_points ≤ℤ pos bucket_space)
    × (value_type ro.on_value ≡ t)
    × (value_type ro.off_value ≡ t)

pub record IsWellFormed (f : Flag) : Type 0 where
  pub typed : f.type ≢ type_unknown
  pub default_typed : value_type f.default_value ≡ f.type
  pub off_typed : value_type f.off_value ≡ f.type
  pub rules_typed : All (λ r. value_type r.value ≡ f.type) f.rules
  pub rollout_fits : IsRolloutFor f.type f.rollout
  pub ordered : (f.rules ≡ []) ⊎ ((f.rollout ≡ none) ⊎ (f.evaluation_order ≢ order_unspecified))

typed_of : (a b : ValueType) → not (type_eq a b) ≡ false → a ≡ b
typed_of a b h = ground (arith, type_eq_iff a b)

range_of :
    (bp : ℤ)
    → (ltb_ℤ bp (pos 0) || ltb_ℤ (pos bucket_space) bp) ≡ false
    → (pos 0 ≤ℤ bp) × (bp ≤ℤ pos bucket_space)
range_of bp h = ground arith

known_typed :
    (v : Value) (t : ValueType)
    → is_unknown v ≡ false
    → (not (is_unknown v) && not (type_eq (value_type v) t)) ≡ false
    → value_type v ≡ t
known_typed v t known h = ground (arith, type_eq_iff (value_type v) t)

ordered_of :
    (rules : List Rule) (ro : Option Rollout) (order : EvaluationOrder)
    → (has_rules rules && has_rollout ro && is_unspecified order) ≡ false
    → (rules ≡ []) ⊎ ((ro ≡ none) ⊎ (order ≢ order_unspecified))
ordered_of rules ro order h = ground arith

module _ (env : Bytes) (f : Flag) (layers : Layers) where
  rule_findings-clean :
      (i : ℕ) (seen : List Bytes) (rules : List Rule)
      → rejections (rule_findings env f layers i seen rules) ≡ []
      → All (λ r. value_type r.value ≡ f.type) rules
  unfolding rule_findings
  rule_findings-clean i seen [] h = tt
  rule_findings-clean i seen (r ∷ rules) h =
      let rest = (split_clean (when (member r.id seen) _) _ h).1 in
      let (here, later) = split_clean (when (not (type_eq (value_type r.value) f.type)) _) _ rest in
      (
        typed_of _ _ (when_clean _ _ _ _ _ _ here),
        rule_findings-clean (i + 1) (r.id ∷ seen) rules later,
      )

  rollout_findings-clean :
      (ro : Rollout)
      → rejections (rollout_findings env f layers ro) ≡ []
      → IsRolloutFor f.type (some ro)
  unfolding rollout_findings
  rollout_findings-clean ro h =
      let (range, h1) = split_clean (when _ _) _ h in
      let (on_known, h2) = split_clean (when (is_unknown ro.on_value) _) _ h1 in
      let (off_known, h3) = split_clean (when (is_unknown ro.off_value) _) _ h2 in
      let (on_typed, off_typed) = split_clean (when _ _) _ h3 in
      let in_range = range_of ro.basis_points (when_clean _ _ _ _ _ _ range) in
      (
        in_range.0,
        in_range.1,
        known_typed ro.on_value f.type (when_clean _ _ _ _ _ _ on_known)
            (when_clean _ _ _ _ _ _ on_typed),
        known_typed ro.off_value f.type (when_clean _ _ _ _ _ _ off_known)
            (when_clean _ _ _ _ _ _ off_typed),
      )

  size_findings-clean :
      (ops : Option OpsOverride) (ro : Option Rollout)
      → rejections (size_findings env f layers ops ro) ≡ []
      → IsRolloutFor f.type ro
  size_findings-clean ops none h = tt
  size_findings-clean ops (some ro) h = rollout_findings-clean ro h

  order_findings-clean :
      rejections (order_findings env f layers) ≡ []
      → (f.rules ≡ []) ⊎ ((f.rollout ≡ none) ⊎ (f.evaluation_order ≢ order_unspecified))
  unfolding order_findings
  order_findings-clean h =
      ordered_of f.rules f.rollout f.evaluation_order (when_clean _ _ _ _ _ _ h)

  default_findings-clean :
      rejections (default_findings env f layers) ≡ []
      → (value_type f.default_value ≡ f.type) × (value_type f.off_value ≡ f.type)
  unfolding default_findings
  default_findings-clean h =
      let (here, off) =
        split_clean (when (not (type_eq (value_type f.default_value) f.type)) _) _ h in
      (typed_of _ _ (when_clean _ _ _ _ _ _ here), typed_of _ _ (when_clean _ _ _ _ _ _ off))

  -- A flag that validation accepts has a type, and each value that it can answer has that type; its
  -- rollout is within 0 to 10000 basis points, and with rules beside it has an explicit order.
  pub validate_resolved-IsWellFormed :
      (base : BaseFlag) (ov : Option OverlayFlag) (ops : Option OpsOverride)
      → rejections (validate_resolved env f base ov ops layers) ≡ []
      → IsWellFormed f
  unfolding validate_resolved
  validate_resolved-IsWellFormed base ov ops h = elim (Bool-cases (type_eq f.type type_unknown)) [
    | inl unknown ↦ absurd (never_empty _ _ _ _ _ (rw unknown at h))
    | inr known ↦
        let h0 = rw known at h in
        let (values, h1) = split_clean (default_findings env f layers) _ h0 in
        let (clash, h2) =
          split_clean
            (clash_findings env f layers (map (λ (r : WireRule). r.id) base.rules)
              (appended_rules ov))
            _ h1 in
        let (rules, h3) = split_clean (rule_findings env f layers 0 [] f.rules) _ h2 in
        let (size, order) = split_clean (size_findings env f layers ops f.rollout) _ h3 in
        record {
          typed = λ e. false≢true (sym known ∙ (type_eq_iff f.type type_unknown).1 e);
          default_typed = (default_findings-clean values).0;
          off_typed = (default_findings-clean values).1;
          rules_typed = rule_findings-clean 0 [] f.rules rules;
          rollout_fits = size_findings-clean ops f.rollout size;
          ordered = order_findings-clean order;
        }
  ]
