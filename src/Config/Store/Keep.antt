-- ===== src/Config/Store/Keep.antt =====
-- What every slot of a store keeps: its flags are well-formed, and its counter is the generation that it
-- serves; and what the engine answers over it.
use feature_flag_service.Common.{
  ◌≡◌, ◌≢◌, refl, sym, ap, ◌∙◌, ◌⊎◌, inl, inr, subst, ℤ, Bytes, List, Option, none, some, Map,
  lookup, AllValues, AllValues-lookup, All-members, Option-cases, arith,
}
use feature_flag_service.Core.Value.{Value, ValueType, type_unknown}
use feature_flag_service.Core.Model.{Flag, type_mismatch}
use feature_flag_service.Core.Context.{EvalContext}
use feature_flag_service.Core.Matcher.{ConditionObserver, IsQuiet}
use feature_flag_service.Core.Evaluator.{evaluate}
use feature_flag_service.Core.Evaluator.Decision.{total, decision, evaluate-eq-decision}
use feature_flag_service.Config.Layer.{BaseFlag}
use feature_flag_service.Config.Resolved.Sound.{IsWellFormed, validate_resolved-IsWellFormed}
use feature_flag_service.Config.Resolved.Answers.{evaluate-known}
use feature_flag_service.Config.Snapshot.{
  ResolvedSnapshot, build, snapshot_flag, as_snapshot, found,
}
use feature_flag_service.Config.Store.Build.{Inputs, inputs_of, resolve_flags, merged}
use feature_flag_service.Config.Store.State.{EnvState}
use feature_flag_service.Config.Store.Push.{publish}
use feature_flag_service.Config.Store.Subscribe.{
  subscribe_env, cancel_env, receive_env, current, store_snapshot, new_store,
}
use feature_flag_service.Config.Store.Sound.{Held, Held-Finds, resolve_flags-All}
use feature_flag_service.Config.Store.Steps.{Action, perform_all, IsKept, new_store-All}
use feature_flag_service.Config.Store.Outcome.{build_env-cases}

module _ (marshal : Flag → Option Bytes) (digest : Bytes → Bytes) where
  abbrev HoldsSound : EnvState → Type 0
  HoldsSound st = Held IsWellFormed st.cur

  resolve_flags-IsWellFormed :
      (i : Inputs) (flags : List BaseFlag)
      → Held IsWellFormed i.previous
      → AllValues IsWellFormed (resolve_flags i flags).builder.flags
  resolve_flags-IsWellFormed i flags held =
      resolve_flags-All IsWellFormed i (Held-Finds IsWellFormed i.previous held) flags (
        All-members _ flags (λ bf listed clean.
          validate_resolved-IsWellFormed i.env (merged i bf).flag (merged i bf).layers bf
            (lookup bf.key i.overlay_by_key) (lookup bf.key i.ops_by_key) clean))

  HoldsSound-IsKept : IsKept marshal digest HoldsSound
  unfolding publish build inputs_of subscribe_env cancel_env receive_env
  HoldsSound-IsKept = record {
    fresh = tt;
    builds = λ base ov ops env now st h.
        build_env-cases marshal digest base ov ops env now st (λ out. HoldsSound out.0)
          (λ res p g. h)
          (λ l e within. resolve_flags-IsWellFormed (inputs_of env now st.cur ov ops) l.flags h);
    subscribes = λ st h. h;
    cancels = λ id st h. h;
    receives = λ id st h. h;
  }

  abbrev Counts : EnvState → Type 0
  Counts st = (cur : ResolvedSnapshot) → st.cur ≡ some cur → cur.generation ≡ st.gen

  Counts-IsKept : IsKept marshal digest Counts
  unfolding publish build subscribe_env cancel_env receive_env
  Counts-IsKept = record {
    fresh = λ cur e. absurd (cc);
    builds = λ base ov ops env now st h.
        build_env-cases marshal digest base ov ops env now st (λ out. Counts out.0) (λ res p g. h)
          (λ l e within cur held. cc);
    subscribes = λ st h. h;
    cancels = λ id st h. h;
    receives = λ id st h. h;
  }

  -- In every state that calls can lead to, the snapshot that an environment serves has the generation
  -- of its slot's counter.
  pub store_snapshot-generation :
      (envs : List Bytes) (actions : List Action) (env : Bytes) (st : EnvState)
      (snap : ResolvedSnapshot)
      → lookup env (perform_all marshal digest actions (new_store envs)).envs ≡ some st
      → st.cur ≡ some snap
      → snap.generation ≡ st.gen
  store_snapshot-generation envs actions env st snap found held =
      AllValues-lookup Counts env st (perform_all marshal digest actions (new_store envs)).envs
        found (new_store-All marshal digest Counts Counts-IsKept envs actions) snap held

  snapshot-HoldsSound :
      (m : Map EnvState) (env : Bytes) (snap : ResolvedSnapshot)
      → AllValues HoldsSound m
      → current (lookup env m) ≡ some snap
      → AllValues IsWellFormed snap.flags
  snapshot-HoldsSound m env snap h e = elim (Option-cases (lookup env m)) [
    | inl missing ↦ absurd (ground arith)
    | inr (st, held) ↦
        subst (Held IsWellFormed) (sym (ap current held) ∙ e)
          (AllValues-lookup HoldsSound env st m held h)
  ]

  -- Every flag that a store serves, after any calls, is one of a form that validation accepts.
  pub store_snapshot-IsWellFormed :
      (envs : List Bytes) (actions : List Action) (env : Bytes) (snap : ResolvedSnapshot)
      → store_snapshot (perform_all marshal digest actions (new_store envs)) env ≡ some snap
      → AllValues IsWellFormed snap.flags
  unfolding store_snapshot
  store_snapshot-IsWellFormed envs actions env snap e =
      snapshot-HoldsSound (perform_all marshal digest actions (new_store envs)).envs env snap
        (new_store-All marshal digest HoldsSound HoldsSound-IsKept envs actions) e

  module _ (key_for : Flag → EvalContext → Option Bytes) (bucket_for : Bytes → ℤ) where
    -- Whatever was pushed to the store, and in whatever order, the engine over a snapshot that it
    -- serves never answers TYPE_MISMATCH to a caller that asks for the type of the flag under the key,
    -- if there is one, or for none, where strategy, hasher and observer do not panic.
    pub evaluate-store_snapshot :
        (envs : List Bytes) (actions : List Action) (env : Bytes) (snap : ResolvedSnapshot)
        (obs : Option ConditionObserver) (key : Bytes) (ctx : EvalContext) (want : ValueType)
        (d : Value)
        → store_snapshot (perform_all marshal digest actions (new_store envs)) env ≡ some snap
        → IsQuiet obs
        → ((f : Flag) → snapshot_flag snap key ≡ some f → (want ≡ type_unknown) ⊎ (want ≡ f.type))
        → (evaluate
            (total key_for bucket_for obs)
            (some (as_snapshot snap))
            key
            ctx
            want
            d).0.reason
          ≢ type_mismatch
    unfolding snapshot_flag decision
    evaluate-store_snapshot envs actions env snap obs key ctx want d served q asked e =
        elim (Option-cases (lookup key snap.flags)) [
          | inl missing ↦
              let same =
                evaluate-eq-decision key_for bucket_for obs (as_snapshot snap) (found none) key ctx
                  want d snap.generation q refl (rw missing refl) in
              cc
          | inr (f, held) ↦
              evaluate-known key_for bucket_for f obs (as_snapshot snap) key ctx want d
                snap.generation
                (AllValues-lookup IsWellFormed key f snap.flags held
                  (store_snapshot-IsWellFormed envs actions env snap served))
                q refl (rw held refl) (asked f held) e
        ]
