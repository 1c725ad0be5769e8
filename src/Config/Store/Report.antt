-- ===== src/Config/Store/Report.antt =====
-- What the report of a push says of the environments is what the store then serves.
use feature_flag_service.Common.{
  ◌≡◌, refl, sym, subst, ◌∙◌, inl, inr, ℤ, true, false, false≢true, Bytes, is_empty, str_eq,
  str_eq_iff, List, [], ◌∷◌, Option, none, some, Map, keys, lookup, insert, lookup-insert,
  Bool-cases, Option-cases,
}
use feature_flag_service.Core.Model.{Flag}
use feature_flag_service.Config.Layer.{LayerId, BaseFlag, BaseLayer, OverlayLayer, OpsLayer}
use feature_flag_service.Config.Findings.{Findings, has_rejections, rejections}
use feature_flag_service.Config.Premerge.Base.{validate_base}
use feature_flag_service.Config.Snapshot.{
  ResolvedSnapshot, SnapshotBuilder, snapshot_flag, mark_quarantined, add_quarantined, add_flag,
  warn, build, new_snapshot_builder, sort_strings,
}
use feature_flag_service.Config.Store.Build.{
  Progress, has_findings, carry, quarantine, Inputs, build_merged, build_flag, build_flags,
  build_orphans, orphans_of, start_progress, resolve_flags, inputs_of, flag_rejections,
  post_findings,
}
use feature_flag_service.Config.Store.State.{
  Layer, EnvState, EnvResult, Store, env_or_empty, environments, status_all, env_status, base_layer,
  overlay_layer, ops_layer, other_layer,
}
use feature_flag_service.Config.Store.Push.{
  publish, build_env, build_env_locked, build_all, set_base, set_overlay, set_ops, set_layer,
}
use feature_flag_service.Config.Store.Outcome.{build_env-cases}
use feature_flag_service.Config.Store.Subscribe.{store_snapshot}

-- The environment of a builder never changes.
carry-env :
    (prev : Option ResolvedSnapshot) (key : Bytes) (b : SnapshotBuilder)
    → (carry prev key b).env ≡ b.env
unfolding carry mark_quarantined add_quarantined add_flag
carry-env none key b = refl
carry-env (some s) key b = elim (Option-cases (snapshot_flag s key)) [
  | inl absent ↦ rw absent refl
  | inr (f, there) ↦ rw there refl
]

build_flag-env :
    (i : Inputs) (bf : BaseFlag) (p : Progress) → (build_flag i bf p).builder.env ≡ p.builder.env
unfolding build_flag build_merged quarantine add_flag
build_flag-env i bf p = elim (Bool-cases (has_findings (flag_rejections i bf.key))) [
  | inl bad ↦ rw bad (carry-env i.previous bf.key p.builder)
  | inr fine ↦ elim (Bool-cases (has_findings (rejections (post_findings i bf)))) [
    | inl bad ↦ rw (fine, bad) (carry-env i.previous bf.key p.builder)
    | inr good ↦ rw (fine, good) refl
  ]
]

build_flags-env :
    (i : Inputs) (flags : List BaseFlag) (p : Progress)
    → (build_flags i flags p).builder.env ≡ p.builder.env
unfolding build_flags
build_flags-env i [] p = refl
build_flags-env i (bf ∷ flags) p =
    build_flags-env i flags (build_flag i bf p) ∙ build_flag-env i bf p

build_orphans-env :
    (i : Inputs) (orphans : Map LayerId) (ks : List Bytes) (p : Progress)
    → (build_orphans i orphans ks p).builder.env ≡ p.builder.env
unfolding build_orphans quarantine
build_orphans-env i orphans [] p = refl
build_orphans-env i orphans (k ∷ ks) p =
    build_orphans-env i orphans ks _ ∙ carry-env i.previous k p.builder

resolve_flags-env :
    (i : Inputs) (flags : List BaseFlag) → (resolve_flags i flags).builder.env ≡ i.env
unfolding resolve_flags warn new_snapshot_builder
resolve_flags-env i flags =
    build_orphans-env i (orphans_of i flags) (sort_strings (keys (orphans_of i flags)))
      (build_flags i flags (start_progress i))
    ∙ build_flags-env i flags (start_progress i)

some_injective : {A : Type 0} {a b : A} → some a ≡ some b → a ≡ b
some_injective h = cc

nothing_found : (k : Bytes) (res : EnvResult) → lookup k [] ≡ some res → ⊥
unfolding lookup
nothing_found k res e = cc

module _ (marshal : Flag → Option Bytes) (digest : Bytes → Bytes) where
  -- A result that says of an environment that it was published to says what is served there.
  abbrev IsTrueOf : Bytes → EnvState × EnvResult → Type 0
  IsTrueOf env (st, res) =
      res.published ≡ true
      → (res.env ≡ env)
        × (snap : ResolvedSnapshot) × (st.cur ≡ some snap)
        × (snap.generation ≡ res.generation)

  build_env-IsTrueOf :
      (base : Option BaseLayer) (ov : Option OverlayLayer) (ops : Option OpsLayer) (env : Bytes)
      (now : ℤ) (st : EnvState)
      → IsTrueOf env (build_env marshal digest base ov ops env now st)
  unfolding publish build inputs_of
  build_env-IsTrueOf base ov ops env now st =
      build_env-cases marshal digest base ov ops env now st (IsTrueOf env)
        (λ res not_out same out. absurd (false≢true (sym not_out ∙ out)))
        (λ l e within out.
          (resolve_flags-env (inputs_of env now st.cur ov ops) l.flags, _, refl, refl))

  -- Each result of the report, by its environment.
  abbrev pub IsReported : Store → Map EnvResult → Type 0
  IsReported s results =
      (env : Bytes) (res : EnvResult)
      → lookup env results ≡ some res
      → res.published ≡ true
      → (res.env ≡ env)
        × (snap : ResolvedSnapshot) × (store_snapshot s env ≡ some snap)
        × (snap.generation ≡ res.generation)

  inserted-IsReported :
      (s : Store) (env : Bytes) (st : EnvState) (new : EnvResult) (results : Map EnvResult)
      → IsReported s results
      → IsTrueOf env (st, new)
      → IsReported (record s { envs = insert env st s.envs }) (insert env new results)
  unfolding store_snapshot
  inserted-IsReported s env st new results known fresh k res found out =
      elim (Bool-cases (str_eq env k)) [
        | inl same ↦
            let one : env ≡ k = (str_eq_iff env k).0 same in
            let new_one : new ≡ res =
              some_injective (rw (lookup-insert env k new results, same) at found) in
            rw (lookup-insert env k st s.envs, same)
              (subst
                (λ j.
                  (res.env ≡ j)
                  × (snap : ResolvedSnapshot) × (st.cur ≡ some snap)
                  × (snap.generation ≡ res.generation))
                one (subst (λ r. IsTrueOf env (st, r)) new_one fresh out))
        | inr other ↦
            rw (lookup-insert env k st s.envs, other)
              (known k res (rw (lookup-insert env k new results, other) at found) out)
      ]

  build_env_locked-IsReported :
      (now : ℤ) (env : Bytes) (s : Store) (results : Map EnvResult)
      → IsReported s results
      → IsReported
          (build_env_locked marshal digest now env s).0
          (insert env (build_env_locked marshal digest now env s).1 results)
  unfolding build_env_locked
  build_env_locked-IsReported now env s results known =
      inserted-IsReported s env _ _ results known (
        build_env-IsTrueOf s.base (lookup env s.overlays) (lookup env s.ops) env now
          (env_or_empty (lookup env s.envs)))

  none-IsReported : (s : Store) → IsReported s []
  unfolding lookup
  none-IsReported s k res found out = absurd (cc)

  build_all-IsReported :
      (now : ℤ) (envs : List Bytes) (results : Map EnvResult) (s : Store)
      → IsReported s results
      → IsReported
          (build_all marshal digest now envs results s).0
          (build_all marshal digest now envs results s).1
  unfolding build_all
  build_all-IsReported now [] results s known = known
  build_all-IsReported now (env ∷ envs) results s known =
      build_all-IsReported now envs _ _ (build_env_locked-IsReported now env s results known)

  single-IsReported :
      (now : ℤ) (env : Bytes) (s : Store)
      → IsReported
          (build_env_locked marshal digest now env s).0
          ((env, (build_env_locked marshal digest now env s).1) ∷ [])
  unfolding insert
  single-IsReported now env s = build_env_locked-IsReported now env s [] (none-IsReported s)

  -- A report of the status alone says of no environment that it was published to.
  IsUnpublished : Map EnvResult → Type 0
  IsUnpublished results =
      (k : Bytes) (res : EnvResult) → lookup k results ≡ some res → res.published ≡ false

  status_all-IsUnpublished :
      (warnings : Findings) (envs : List Bytes) (results : Map EnvResult) (s : Store)
      → IsUnpublished results
      → IsUnpublished (status_all warnings envs results s)
  unfolding status_all env_status IsUnpublished
  status_all-IsUnpublished warnings [] results s known = known
  status_all-IsUnpublished warnings (env ∷ envs) results s known =
      status_all-IsUnpublished warnings envs (insert env (env_status warnings env s) results) s
        (λ k res found. elim (Bool-cases (str_eq env k)) [
          | inl same ↦
              let is : env_status warnings env s ≡ res =
                some_injective
                  (rw (lookup-insert env k (env_status warnings env s) results, same) at found) in
              subst (λ r. r.published ≡ false) is refl
          | inr other ↦
              known k res
                (rw (lookup-insert env k (env_status warnings env s) results, other) at found)
        ])

  set_base-IsReported :
      (now : ℤ) (l : Option BaseLayer) (s : Store)
      → let (t, rep) = set_base marshal digest now l s in IsReported t rep.per_env
  unfolding set_base IsUnpublished
  set_base-IsReported now l s = elim (Bool-cases (has_rejections (validate_base l))) [
    | inl bad ↦ rw bad (λ k res found out. absurd (
        false≢true (
          sym (
            status_all-IsUnpublished _ (environments s) [] s (λ j r e. absurd (nothing_found j r e))
              k res found)
          ∙ out)))
    | inr good ↦
        rw good
          (build_all-IsReported now (environments s) [] (record s { base = l }) (none-IsReported _))
  ]

  set_overlay-IsReported :
      (now : ℤ) (l : OverlayLayer) (s : Store)
      → let (t, rep) = set_overlay marshal digest now l s in IsReported t rep.per_env
  unfolding set_overlay
  set_overlay-IsReported now l s = elim (Bool-cases (is_empty l.environment)) [
    | inl empty ↦ rw empty (none-IsReported _)
    | inr named ↦ rw named (single-IsReported now l.environment _)
  ]

  set_ops-IsReported :
      (now : ℤ) (l : OpsLayer) (s : Store)
      → let (t, rep) = set_ops marshal digest now l s in IsReported t rep.per_env
  unfolding set_ops
  set_ops-IsReported now l s = elim (Bool-cases (is_empty l.environment)) [
    | inl empty ↦ rw empty (none-IsReported _)
    | inr named ↦ rw named (single-IsReported now l.environment _)
  ]

  -- The report of a push: an environment that it says was published to serves the snapshot of the
  -- generation that it names.
  pub set_layer-IsReported :
      (now : ℤ) (l : Layer) (s : Store)
      → let (t, rep) = set_layer marshal digest now l s in IsReported t rep.per_env
  unfolding set_layer
  set_layer-IsReported now (base_layer l) s = set_base-IsReported now l s
  set_layer-IsReported now (overlay_layer l) s = set_overlay-IsReported now l s
  set_layer-IsReported now (ops_layer l) s = set_ops-IsReported now l s
  set_layer-IsReported now other_layer s = none-IsReported s
