-- ===== src/Http/Health/Ready.antt =====
-- When an instance is ready.
use feature_flag_service.Common.{
  ◌≡◌, ◌≢◌, refl, sym, ◌∙◌, ◌↔◌, inl, inr, ℕ, suc, ℤ, Bool, true, false, false≢true, Bytes, List,
  [], ◌∷◌, Option, none, some, if◌then◌else◌, Bool-cases, arith,
}
use feature_flag_service.Http.Requests.{Config}
use feature_flag_service.Http.Source.{SnapshotView, SnapshotSource, pin}
use feature_flag_service.Http.Health.{
  EnvHealth, loaded_row, aged_row, health_rows, required_or, env_health, check_rows, unless_empty,
  ready_status, handle_ready,
}

-- Each environment has a snapshot when it is asked about, from the load of this number on.
abbrev pub AreLoaded : SnapshotSource → ℕ → List Bytes → Type 0
AreLoaded source n [] = Unit
AreLoaded source n (env ∷ envs) = (pin source n env ≢ none) × AreLoaded source (suc n) envs

-- The environments that readiness is about: those required, or else those present.
abbrev pub asked_envs : Config → SnapshotSource → List Bytes
asked_envs cfg source = required_or cfg.required_envs source.environments

row_loaded_iff :
    (stale_after : ℤ) (age : Option ℤ) (env : Bytes) (snap : Option SnapshotView)
    → ((aged_row stale_after age (loaded_row env snap)).loaded ≡ true) ↔ (snap ≢ none)
row_loaded_iff after_ns none env none = ((λ h. absurd (false≢true h)), λ h. absurd (h refl))
row_loaded_iff after_ns (some a) env none = ((λ h. absurd (false≢true h)), λ h. absurd (h refl))
row_loaded_iff after_ns none env (some s) = ((λ h e. cc), λ h. refl)
row_loaded_iff after_ns (some a) env (some s) = ((λ h e. cc), λ h. refl)

-- The loop leaves a false flag false.
check_rows-false :
    (rows : List EnvHealth) (reason : Bytes) (degraded : Bool)
    → (check_rows rows (false, reason, degraded)).0 ≡ false
unfolding check_rows
check_rows-false [] reason degraded = refl
check_rows-false (row ∷ rows) reason degraded = elim (Bool-cases row.loaded) [
  | inl there ↦ rw there (check_rows-false rows _ _)
  | inr absent ↦ rw absent (check_rows-false rows _ _)
]

loaded_step :
    (row : EnvHealth) (rows : List EnvHealth) (reason : Bytes) (degraded : Bool)
    → row.loaded ≡ true
    → (check_rows (row ∷ rows) (true, reason, degraded)).0
      ≡ (check_rows rows (true, reason, if row.stale then true else degraded)).0
unfolding check_rows
loaded_step row rows reason degraded h = rw h refl

absent_step :
    (row : EnvHealth) (rows : List EnvHealth) (reason : Bytes) (degraded : Bool)
    → row.loaded ≡ false
    → (check_rows (row ∷ rows) (true, reason, degraded)).0 ≡ false
unfolding check_rows
absent_step row rows reason degraded h = rw h (check_rows-false rows _ _)

check_rows_iff :
    (cfg : Config) (source : SnapshotSource) (n : ℕ) (envs : List Bytes) (reason : Bytes)
    (degraded : Bool)
    → ((check_rows (health_rows cfg source n envs) (true, reason, degraded)).0 ≡ true)
      ↔ AreLoaded source n envs
unfolding check_rows health_rows
check_rows_iff cfg source n [] reason degraded = ((λ h. tt), λ h. refl)
check_rows_iff cfg source n (env ∷ envs) reason degraded =
    let row = aged_row cfg.stale_after (source.age env) (loaded_row env (pin source n env)) in
    let known = row_loaded_iff cfg.stale_after (source.age env) env (pin source n env) in
    elim (Bool-cases row.loaded) [
      | inl there ↦
          let rest =
            check_rows_iff cfg source (suc n) envs reason (if row.stale then true else degraded) in
          let same = loaded_step row (health_rows cfg source (suc n) envs) reason degraded there in
          ((λ h. (known.0 there, rest.0 (sym same ∙ h))), λ h. same ∙ rest.1 h.1)
      | inr absent ↦ (
        (λ h. absurd (
            false≢true (
              sym (absent_step row (health_rows cfg source (suc n) envs) reason degraded absent)
              ∙ h))),
        (λ h. absurd (false≢true (sym absent ∙ known.1 h.0))),
      )
    ]

ready_iff :
    (cfg : Config) (source : SnapshotSource) (envs : List Bytes)
    → ((unless_empty
          (health_rows cfg source 0 envs)
          (check_rows (health_rows cfg source 0 envs) (true, [], false))).0
        ≡ true)
      ↔ ((envs ≢ []) × AreLoaded source 0 envs)
unfolding health_rows
ready_iff cfg source [] = ((λ h. absurd (false≢true h)), λ h. absurd (h.0 refl))
ready_iff cfg source (env ∷ envs) =
    let loop = check_rows_iff cfg source 0 (env ∷ envs) [] false in
    ((λ h. ((λ e. cc), loop.0 h)), λ h. loop.1 h.1)

status_200_iff : (b : Bool) → (ready_status b ≡ 200) ↔ (b ≡ true)
status_200_iff true = ((λ h. refl), λ h. refl)
status_200_iff false = ground arith

-- An instance answers that it is ready exactly if there is an environment to ask about and each of them
-- had a snapshot when it was asked for, whatever its age: the environments that are required, or else
-- those that are present.
pub handle_ready_iff :
    (cfg : Config) (source : SnapshotSource)
    → ((handle_ready cfg source).status ≡ 200)
      ↔ ((asked_envs cfg source ≢ []) × AreLoaded source 0 (asked_envs cfg source))
unfolding handle_ready env_health
handle_ready_iff cfg source =
    let ready = ready_iff cfg source (asked_envs cfg source) in
    let status =
      status_200_iff
        (unless_empty (env_health cfg source)
          (check_rows (env_health cfg source) (true, [], false))).0 in
    ((λ h. ready.0 (status.0 h)), λ h. status.1 (ready.1 h))
