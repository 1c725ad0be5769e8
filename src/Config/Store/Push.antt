-- ===== src/Config/Store/Push.antt =====
-- Publication, the builds of the environments and the pushes of internal/config/store.go: the end of
-- `buildEnvLocked`, `Set` and `Rebuild`. `marshal` and `digest` are those of the fingerprint.
use feature_flag_service.Common.{
  ℕ, ℤ, incr_int64, Bool, true, false, not, ◌&&◌, Bytes, codes, is_empty, str_eq, List, [], ◌∷◌,
  Option, none, some, if◌then◌else◌, length, Map, lookup, insert,
}
use feature_flag_service.Core.Model.{Flag}
use feature_flag_service.Config.Layer.{BaseLayer, OverlayLayer, OpsLayer}
use feature_flag_service.Config.Findings.{has_rejections, rejections, warns}
use feature_flag_service.Config.Premerge.Base.{validate_base}
use feature_flag_service.Config.Premerge.Overlay.{validate_overlay}
use feature_flag_service.Config.Premerge.Ops.{validate_ops}
use feature_flag_service.Config.Snapshot.{ResolvedSnapshot, build, fingerprint, quarantined_keys}
use feature_flag_service.Config.Store.Build.{
  Progress, has_findings, resolve_flags, guard_findings, layer_rejections, inputs_of,
}
use feature_flag_service.Config.Store.State.{
  Layer, EnvState, EnvResult, BuildReport, Store, same_keys, notify, generation_or_zero,
  unpublished, no_base, env_or_empty, ensure_env, environments, status_all, unknown_layer,
  base_layer, overlay_layer, ops_layer, other_layer,
}

module _ (marshal : Flag → Option Bytes) (digest : Bytes → Bytes) where
  unfoldable pub content_unchanged : Option ResolvedSnapshot → ResolvedSnapshot → Bool
  unfolding fingerprint same_keys quarantined_keys
  content_unchanged none snap = false
  content_unchanged (some prev) snap =
      str_eq (fingerprint marshal digest prev) (fingerprint marshal digest snap)
      && same_keys (quarantined_keys prev) (quarantined_keys snap)

  -- The end of `buildEnvLocked`: the swap, and the subscribers if the content changed.
  unfoldable pub publish : ℤ → Progress → EnvState → EnvState × EnvResult
  unfolding build content_unchanged notify quarantined_keys
  publish now p st =
      let snap = build (incr_int64 st.gen) now p.builder in
      let unchanged = content_unchanged st.cur snap in
      (
        record st {
          cur = some snap;
          gen = incr_int64 st.gen;
          subs = if unchanged then st.subs else notify snap st.subs;
        },
        record {
          env = p.builder.env;
          content_changed = not unchanged;
          published = true;
          generation = snap.generation;
          previous_generation = generation_or_zero st.cur;
          rejected = [];
          quarantined = p.quarantined;
          warnings = p.warnings;
          quarantined_flags = quarantined_keys snap;
          built_at = now;
        },
      )

  -- From the guards on.
  unfoldable pub guarded : Bytes → ℤ → ℕ → Progress → EnvState → EnvState × EnvResult
  unfolding publish guard_findings
  guarded env now total p st =
      if has_findings (guard_findings env total p.builder)
      then (
        st,
        unpublished env now st.cur (guard_findings env total p.builder) p.quarantined p.warnings,
      )
      else publish now p st

  -- With the base there.
  unfoldable pub build_env_on :
      BaseLayer
      → Option OverlayLayer
      → Option OpsLayer
      → Bytes
      → ℤ
      → EnvState
      → EnvState × EnvResult
  unfolding guarded resolve_flags layer_rejections inputs_of
  build_env_on base ov ops env now st =
      let i = inputs_of env now st.cur ov ops in
      if has_findings (layer_rejections i.overlay_findings i.ops_findings)
      then (
        st,
        unpublished env now st.cur (layer_rejections i.overlay_findings i.ops_findings) [] [],
      )
      else guarded env now (length base.flags) (resolve_flags i base.flags) st

  unfoldable pub build_env :
      Option BaseLayer
      → Option OverlayLayer
      → Option OpsLayer
      → Bytes
      → ℤ
      → EnvState
      → EnvState × EnvResult
  unfolding build_env_on
  build_env none ov ops env now st = (st, unpublished env now st.cur (no_base env ∷ []) [] [])
  build_env (some base) ov ops env now st = build_env_on base ov ops env now st

  -- `buildEnvLocked` on the store.
  unfoldable pub build_env_locked : ℤ → Bytes → Store → Store × EnvResult
  unfolding build_env
  build_env_locked now env s =
      let (st, res) =
        build_env s.base (lookup env s.overlays) (lookup env s.ops) env now
          (env_or_empty (lookup env s.envs)) in
      (record s { envs = insert env st s.envs }, res)

  -- The loops that build each environment.
  unfoldable pub build_all : ℤ → List Bytes → Map EnvResult → Store → Store × Map EnvResult
  unfolding build_env_locked
  build_all now [] results s = (s, results)
  build_all now (env ∷ envs) results s =
      build_all now envs (insert env (build_env_locked now env s).1 results)
        (build_env_locked now env s).0

  -- The branches of `Set`.
  unfoldable pub set_base : ℤ → Option BaseLayer → Store → Store × BuildReport
  unfolding build_all status_all environments
  set_base now l s =
      if has_rejections (validate_base l)
      then (
        record s { last_rejected = insert (codes "base") (base_layer l) s.last_rejected },
        record {
          global = validate_base l;
          per_env = status_all (warns (validate_base l)) (environments s) [] s;
        },
      )
      else (let (t, results) = build_all now (environments s) [] (record s { base = l }) in
          (t, record { global = warns (validate_base l); per_env = results }))

  unfoldable pub set_overlay : ℤ → OverlayLayer → Store → Store × BuildReport
  unfolding build_env_locked ensure_env
  set_overlay now l s =
      if is_empty l.environment
      then (
        record s { last_rejected = insert (codes "overlay:") (overlay_layer l) s.last_rejected },
        record { global = rejections (validate_overlay (some l)); per_env = [] },
      )
      else (let (t, res) = build_env_locked now l.environment (
            ensure_env l.environment (record s { overlays = insert l.environment l s.overlays })) in
          (t, record { global = []; per_env = (l.environment, res) ∷ [] }))

  unfoldable pub set_ops : ℤ → OpsLayer → Store → Store × BuildReport
  unfolding build_env_locked ensure_env
  set_ops now l s =
      if is_empty l.environment
      then (
        record s { last_rejected = insert (codes "ops:") (ops_layer l) s.last_rejected },
        record { global = rejections (validate_ops (some l) now); per_env = [] },
      )
      else (let (t, res) =
            build_env_locked now l.environment
              (ensure_env l.environment (record s { ops = insert l.environment l s.ops })) in
          (t, record { global = []; per_env = (l.environment, res) ∷ [] }))

  unfoldable pub set_layer : ℤ → Layer → Store → Store × BuildReport
  unfolding set_base set_overlay set_ops
  set_layer now (base_layer l) s = set_base now l s
  set_layer now (overlay_layer l) s = set_overlay now l s
  set_layer now (ops_layer l) s = set_ops now l s
  set_layer now other_layer s = (s, record { global = unknown_layer ∷ []; per_env = [] })

  unfoldable pub rebuild : ℤ → Store → Store × BuildReport
  unfolding build_all environments
  rebuild now s =
      let (t, results) = build_all now (environments s) [] s in
      (t, record { global = []; per_env = results })
