-- ===== src/Config/Store/Steps.antt =====
-- Sequences of calls on a store, and the rule by which a property of each environment's slot is kept by
-- all of them.
use feature_flag_service.Common.{
  inl, inr, ℤ, is_empty, Bytes, List, [], ◌∷◌, Option, Map, lookup, insert, AllValues,
  AllValues-insert, AllValues-lookup, Bool-cases, Option-cases,
}
use feature_flag_service.Core.Model.{Flag}
use feature_flag_service.Config.Layer.{BaseLayer, OverlayLayer, OpsLayer}
use feature_flag_service.Config.Findings.{has_rejections}
use feature_flag_service.Config.Premerge.Base.{validate_base}
use feature_flag_service.Config.Store.State.{
  Layer, base_layer, overlay_layer, ops_layer, other_layer, EnvState, empty_env, EnvResult, Store,
  env_or_empty, ensure_env, environments,
}
use feature_flag_service.Config.Store.Push.{
  build_env, build_env_locked, build_all, set_base, set_overlay, set_ops, set_layer, rebuild,
}
use feature_flag_service.Config.Store.Subscribe.{
  subscribe_env, cancel_env, receive_env, subscribe, cancel, receive_next, env_table, new_store,
  at_env,
}

-- A call, with what the clock said.
pub data Action : Type 0 where
  push : ℤ → Layer → Action
  rebuild_all : ℤ → Action
  subscribe_to : Bytes → Action
  cancel_in : Bytes → ℤ → Action
  receive_in : Bytes → ℤ → Action

module _ (marshal : Flag → Option Bytes) (digest : Bytes → Bytes) where
  abbrev pub perform : Action → Store → Store
  perform (push now l) s = (set_layer marshal digest now l s).0
  perform (rebuild_all now) s = (rebuild marshal digest now s).0
  perform (subscribe_to env) s = (subscribe env s).0
  perform (cancel_in env id) s = cancel env id s
  perform (receive_in env id) s = receive_next env id s

  -- The first call first.
  abbrev pub perform_all : List Action → Store → Store
  perform_all [] s = s
  perform_all (a ∷ actions) s = perform_all actions (perform a s)

  -- The operations on one slot keep `Q`.
  pub record IsKept (Q : EnvState → Type 0) : Type 0 where
    pub fresh : Q empty_env
    pub builds :
        (base : Option BaseLayer) (ov : Option OverlayLayer) (ops : Option OpsLayer) (env : Bytes)
        (now : ℤ) (st : EnvState)
        → Q st
        → Q (build_env marshal digest base ov ops env now st).0
    pub subscribes : (st : EnvState) → Q st → Q (subscribe_env st).0
    pub cancels : (id : ℤ) (st : EnvState) → Q st → Q (cancel_env id st)
    pub receives : (id : ℤ) (st : EnvState) → Q st → Q (receive_env id st)

  module _ (Q : EnvState → Type 0) (kept : IsKept Q) where
    slot-All : (env : Bytes) (m : Map EnvState) → AllValues Q m → Q (env_or_empty (lookup env m))
    slot-All env m h = elim (Option-cases (lookup env m)) [
      | inl missing ↦ rw missing kept.fresh
      | inr (st, found) ↦ rw found (AllValues-lookup Q env st m found h)
    ]

    build_env_locked-All :
        (now : ℤ) (env : Bytes) (s : Store)
        → AllValues Q s.envs
        → AllValues Q (build_env_locked marshal digest now env s).0.envs
    unfolding build_env_locked
    build_env_locked-All now env s h =
        AllValues-insert Q env _ s.envs
          (kept.builds s.base (lookup env s.overlays) (lookup env s.ops) env now
            (env_or_empty (lookup env s.envs)) (slot-All env s.envs h))
          h

    build_all-All :
        (now : ℤ) (envs : List Bytes) (results : Map EnvResult) (s : Store)
        → AllValues Q s.envs
        → AllValues Q (build_all marshal digest now envs results s).0.envs
    unfolding build_all
    build_all-All now [] results s h = h
    build_all-All now (env ∷ envs) results s h =
        build_all-All now envs (insert env (build_env_locked marshal digest now env s).1 results)
          (build_env_locked marshal digest now env s).0 (build_env_locked-All now env s h)

    ensure_env-All :
        (env : Bytes) (s : Store) → AllValues Q s.envs → AllValues Q (ensure_env env s).envs
    unfolding ensure_env
    ensure_env-All env s h = elim (Option-cases (lookup env s.envs)) [
      | inl missing ↦
          rw (missing, ensure_env) (AllValues-insert Q env empty_env s.envs kept.fresh h)
      | inr (st, found) ↦ rw (found, ensure_env) h
    ]

    at_env-All :
        (change : EnvState → EnvState) (env : Bytes) (s : Store)
        → ((st : EnvState) → Q st → Q (change st))
        → AllValues Q s.envs
        → AllValues Q (at_env change env s).envs
    at_env-All change env s keep h = elim (Option-cases (lookup env s.envs)) [
      | inl missing ↦ rw (missing, at_env) h
      | inr (st, found) ↦
          rw (found, at_env)
            (AllValues-insert Q env (change st) s.envs
              (keep st (AllValues-lookup Q env st s.envs found h)) h)
    ]

    set_base-All :
        (now : ℤ) (l : Option BaseLayer) (s : Store)
        → AllValues Q s.envs
        → AllValues Q (set_base marshal digest now l s).0.envs
    unfolding set_base
    set_base-All now l s h = elim (Bool-cases (has_rejections (validate_base l))) [
      | inl rejected ↦ rw rejected h
      | inr clean ↦ rw clean (build_all-All now (environments s) [] (record s { base = l }) h)
    ]

    set_overlay-All :
        (now : ℤ) (l : OverlayLayer) (s : Store)
        → AllValues Q s.envs
        → AllValues Q (set_overlay marshal digest now l s).0.envs
    unfolding set_overlay
    set_overlay-All now l s h = elim (Bool-cases (is_empty l.environment)) [
      | inl nameless ↦ rw nameless h
      | inr named ↦
          let held = record s { overlays = insert l.environment l s.overlays } in
          rw named (
            build_env_locked-All now l.environment (ensure_env l.environment held)
              (ensure_env-All l.environment held h))
    ]

    set_ops-All :
        (now : ℤ) (l : OpsLayer) (s : Store)
        → AllValues Q s.envs
        → AllValues Q (set_ops marshal digest now l s).0.envs
    unfolding set_ops
    set_ops-All now l s h = elim (Bool-cases (is_empty l.environment)) [
      | inl nameless ↦ rw nameless h
      | inr named ↦
          let held = record s { ops = insert l.environment l s.ops } in
          rw named (
            build_env_locked-All now l.environment (ensure_env l.environment held)
              (ensure_env-All l.environment held h))
    ]

    perform-All : (a : Action) (s : Store) → AllValues Q s.envs → AllValues Q (perform a s).envs
    unfolding set_layer rebuild subscribe cancel receive_next
    perform-All (push now (base_layer l)) s h = set_base-All now l s h
    perform-All (push now (overlay_layer l)) s h = set_overlay-All now l s h
    perform-All (push now (ops_layer l)) s h = set_ops-All now l s h
    perform-All (push now other_layer) s h = h
    perform-All (rebuild_all now) s h = build_all-All now (environments s) [] s h
    perform-All (subscribe_to env) s h =
        let t = ensure_env env s in
        let ready = ensure_env-All env s h in
        AllValues-insert Q env _ t.envs
          (kept.subscribes (env_or_empty (lookup env t.envs)) (slot-All env t.envs ready)) ready
    perform-All (cancel_in env id) s h = at_env-All (cancel_env id) env s (kept.cancels id) h
    perform-All (receive_in env id) s h = at_env-All (receive_env id) env s (kept.receives id) h

    env_table-All :
        (envs : List Bytes) (m : Map EnvState) → AllValues Q m → AllValues Q (env_table envs m)
    unfolding env_table
    env_table-All [] m h = h
    env_table-All (env ∷ envs) m h = elim (Bool-cases (is_empty env)) [
      | inl nameless ↦ rw nameless (env_table-All envs m h)
      | inr named ↦ rw named (
          env_table-All envs (insert env empty_env m)
            (AllValues-insert Q env empty_env m kept.fresh h))
    ]

    perform_all-All :
        (actions : List Action) (s : Store)
        → AllValues Q s.envs
        → AllValues Q (perform_all actions s).envs
    perform_all-All [] s h = h
    perform_all-All (a ∷ actions) s h = perform_all-All actions (perform a s) (perform-All a s h)

    -- What each operation on a slot keeps holds of every slot that calls can lead to.
    pub new_store-All :
        (envs : List Bytes) (actions : List Action)
        → AllValues Q (perform_all actions (new_store envs)).envs
    unfolding new_store
    new_store-All envs actions = perform_all-All actions (new_store envs) (env_table-All envs [] tt)
