-- ===== src/Config/Store/Isolation.antt =====
-- Which environments a push to a store can change.
use feature_flag_service.Common.{
  ◌≡◌, refl, ◌∙◌, inl, inr, ℤ, Bool, false, not, Bytes, str_eq, is_empty, Option, lookup, insert,
  lookup-insert, Bool-cases, Option-cases, arith,
}
use feature_flag_service.Core.Model.{Flag}
use feature_flag_service.Config.Findings.{has_rejections}
use feature_flag_service.Config.Premerge.Base.{validate_base}
use feature_flag_service.Config.Store.State.{
  Layer, base_layer, overlay_layer, ops_layer, other_layer, Store, ensure_env,
}
use feature_flag_service.Config.Store.Push.{
  build_env_locked, set_base, set_overlay, set_ops, set_layer,
}

-- Whether a push is for an environment: an accepted base is for all of them.
abbrev pub is_for : Bytes → Layer → Bool
is_for env (base_layer l) = not (has_rejections (validate_base l))
is_for env (overlay_layer l) = str_eq l.environment env
is_for env (ops_layer l) = str_eq l.environment env
is_for env other_layer = false

ensure_env-lookup :
    (at env : Bytes) (s : Store)
    → str_eq at env ≡ false
    → lookup env (ensure_env at s).envs ≡ lookup env s.envs
unfolding ensure_env
ensure_env-lookup at env s other = elim (Option-cases (lookup at s.envs)) [
  | inl missing ↦ rw (missing, ensure_env, lookup-insert, other) refl
  | inr (st, held) ↦ rw (held, ensure_env) refl
]

module _ (marshal : Flag → Option Bytes) (digest : Bytes → Bytes) where
  build_env_locked-lookup :
      (now : ℤ) (at env : Bytes) (s : Store)
      → str_eq at env ≡ false
      → lookup env (build_env_locked marshal digest now at s).0.envs ≡ lookup env s.envs
  unfolding build_env_locked
  build_env_locked-lookup now at env s other = rw (lookup-insert, other) refl

  ensured-lookup :
      (now : ℤ) (at env : Bytes) (s : Store)
      → str_eq at env ≡ false
      → lookup env (build_env_locked marshal digest now at (ensure_env at s)).0.envs
        ≡ lookup env s.envs
  ensured-lookup now at env s other =
      build_env_locked-lookup now at env (ensure_env at s) other ∙ ensure_env-lookup at env s other

  -- A push that is not for an environment, be it a layer of another environment, a rejected base or a
  -- layer of another type, leaves the environment's slot as it is: the snapshot, the generation and
  -- the subscriptions.
  pub set_layer-lookup :
      (now : ℤ) (l : Layer) (env : Bytes) (s : Store)
      → is_for env l ≡ false
      → lookup env (set_layer marshal digest now l s).0.envs ≡ lookup env s.envs
  unfolding set_layer set_base set_overlay set_ops
  set_layer-lookup now (base_layer l) env s other =
      elim (Bool-cases (has_rejections (validate_base l))) [
        | inl rejected ↦ rw rejected refl
        | inr clean ↦ absurd (ground arith)
      ]
  set_layer-lookup now (overlay_layer l) env s other = elim (Bool-cases (is_empty l.environment)) [
    | inl nameless ↦ rw nameless refl
    | inr named ↦ rw named (
        ensured-lookup now l.environment env
          (record s { overlays = insert l.environment l s.overlays }) other)
  ]
  set_layer-lookup now (ops_layer l) env s other = elim (Bool-cases (is_empty l.environment)) [
    | inl nameless ↦ rw nameless refl
    | inr named ↦ rw named (
        ensured-lookup now l.environment env (record s { ops = insert l.environment l s.ops })
          other)
  ]
  set_layer-lookup now other_layer env s other = refl
