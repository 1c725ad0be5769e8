-- ===== src/Config/Store/Outcome.antt =====
-- What one build of an environment's slot does, on every branch of `buildEnvLocked`.
use feature_flag_service.Common.{
  ◌≡◌, refl, ◌⊎◌, inl, inr, ℕ, ◌≤◌, ltb, ltb-false→le, ℤ, incr_int64, Bool, true, false, Bytes,
  List, [], ◌∷◌, ◌++◌, Option, none, some, lookup, AllValues, Any, All-members, Bool-cases, length,
}
use feature_flag_service.Core.Model.{Flag}
use feature_flag_service.Core.Evaluator.Decision.{total}
use feature_flag_service.Config.Layer.{BaseLayer, OverlayLayer, OpsLayer, BaseFlag}
use feature_flag_service.Config.Findings.{Finding, Findings, rejections, when}
use feature_flag_service.Config.Snapshot.{
  ResolvedSnapshot, SnapshotBuilder, build, snapshot_len, quarantined_count,
}
use feature_flag_service.Config.Store.Build.{
  Inputs, has_findings, inputs_of, resolve_flags, guard_findings, layer_rejections, merged,
  post_findings, quarantine_budget, max_flags_per_env,
}
use feature_flag_service.Config.Store.State.{EnvState, EnvResult, generation_or_zero}
use feature_flag_service.Config.Store.Push.{publish, guarded, build_env_on, build_env}
use feature_flag_service.Config.Store.Sound.{Finds, resolve_flags-All}

-- A flag that a snapshot holds.
abbrev pub WasServed : Option ResolvedSnapshot → Flag → Type 0
WasServed none f = ⊥
WasServed (some s) f = (key : Bytes) × (lookup key s.flags ≡ some f)

-- A flag of a build: the merge, accepted by validation, of one of the entries of the base with the
-- overlay and the override for its key, or a flag of the snapshot before.
abbrev pub IsSourced : Inputs → List BaseFlag → Flag → Type 0
IsSourced i entries f =
    ((bf : BaseFlag) × Any (λ b. b ≡ bf) entries
      × (f ≡ (merged i bf).flag)
      × (rejections (post_findings i bf) ≡ []))
    ⊎ WasServed i.previous f

-- The outcome of a build: it publishes nothing and leaves the slot as it is; or the base is there,
-- the slot has a new snapshot, of the next generation and within the limits on flags and on
-- quarantined flags, and each of its flags is the accepted merge of an entry of that base, or was served before.
pub data IsOutcome (base : Option BaseLayer) (ov : Option OverlayLayer) (ops : Option OpsLayer)
    (env : Bytes) (now : ℤ) (st : EnvState) (out : EnvState × EnvResult) : Type 0 where
  left :
      out.0 ≡ st
      → out.1.published ≡ false
      → out.1.generation ≡ generation_or_zero st.cur
      → IsOutcome base ov ops env now st out
  swapped :
      (l : BaseLayer) (snap : ResolvedSnapshot)
      → base ≡ some l
      → out.0.cur ≡ some snap
      → out.1.published ≡ true
      → out.1.generation ≡ snap.generation
      → snap.generation ≡ incr_int64 st.gen
      → out.0.gen ≡ incr_int64 st.gen
      → snapshot_len snap ≤ max_flags_per_env
      → quarantined_count snap ≤ quarantine_budget (length l.flags)
      → AllValues (IsSourced (inputs_of env now st.cur ov ops) l.flags) snap.flags
      → IsOutcome base ov ops env now st out

module _ (marshal : Flag → Option Bytes) (digest : Bytes → Bytes) where
  -- What is true of a slot that is left, and of one that is published to, is true after a build.
  pub build_env-cases :
      (base : Option BaseLayer) (ov : Option OverlayLayer) (ops : Option OpsLayer) (env : Bytes)
      (now : ℤ) (st : EnvState) (R : EnvState × EnvResult → Type 0)
      → ((res : EnvResult)
          → res.published ≡ false
          → res.generation ≡ generation_or_zero st.cur
          → R (st, res))
      → ((l : BaseLayer)
          → base ≡ some l
          → has_findings (
              guard_findings env
                (length l.flags)
                (resolve_flags (inputs_of env now st.cur ov ops) l.flags).builder)
            ≡ false
          → R (
              publish marshal digest now
                (resolve_flags (inputs_of env now st.cur ov ops) l.flags)
                st))
      → R (build_env marshal digest base ov ops env now st)
  unfolding build_env build_env_on guarded
  build_env-cases none ov ops env now st R stays moves = stays _ refl refl
  build_env-cases (some l) ov ops env now st R stays moves =
      let i = inputs_of env now st.cur ov ops in
      elim (Bool-cases (has_findings (layer_rejections i.overlay_findings i.ops_findings))) [
        | inl stopped ↦ rw stopped (stays _ refl refl)
        | inr clean ↦
            elim (Bool-cases (
              has_findings
                (guard_findings env (length l.flags) (resolve_flags i l.flags).builder))) [
                  | inl over ↦ rw (clean, over) (stays _ refl refl)
                  | inr within ↦ rw (clean, within) (moves l refl within)
                ]
      ]

  no_findings : (b : Bool) (f : Finding) → has_findings (when b f) ≡ false → b ≡ false
  no_findings true f h = absurd (cc)
  no_findings false f h = refl

  has_findings-append :
      (xs ys : Findings)
      → has_findings (xs ++ ys) ≡ false
      → (has_findings xs ≡ false) × (has_findings ys ≡ false)
  has_findings-append [] ys h = (refl, h)
  has_findings-append (x ∷ xs) ys h = absurd (cc)

  guard_findings-none :
      (env : Bytes) (total : ℕ) (b : SnapshotBuilder)
      → has_findings (guard_findings env total b) ≡ false
      → (length b.flags ≤ max_flags_per_env) × (length b.quarantined ≤ quarantine_budget total)
  unfolding guard_findings
  guard_findings-none env total b h =
      let (size, budget) =
        has_findings-append (when (ltb max_flags_per_env (length b.flags)) _) _ h in
      (
        ltb-false→le max_flags_per_env (length b.flags) (no_findings _ _ size),
        ltb-false→le (quarantine_budget total) (length b.quarantined) (no_findings _ _ budget),
      )

  previous-IsSourced :
      (i : Inputs) (entries : List BaseFlag) (prev : Option ResolvedSnapshot)
      → ((f : Flag) → WasServed prev f → IsSourced i entries f)
      → Finds (IsSourced i entries) prev
  previous-IsSourced i entries none take = tt
  previous-IsSourced i entries (some s) take = λ key f e. take f (key, e)

  resolve_flags-IsSourced :
      (i : Inputs) (flags : List BaseFlag)
      → AllValues (IsSourced i flags) (resolve_flags i flags).builder.flags
  resolve_flags-IsSourced i flags =
      resolve_flags-All (IsSourced i flags) i (previous-IsSourced i flags i.previous (λ f w. inr w))
        flags (All-members _ flags (λ bf listed clean. inl (bf, listed, refl, clean)))

  -- A build of an environment, whatever the layers and the slot are, has one of the two outcomes: it
  -- publishes nothing and leaves the slot as it is; or it publishes the next generation, within the
  -- limits on flags and quarantined flags, and each of its flags is the accepted merge of an entry of the
  -- base layer with its overlay and override, or was served before.
  pub build_env-IsOutcome :
      (base : Option BaseLayer) (ov : Option OverlayLayer) (ops : Option OpsLayer) (env : Bytes)
      (now : ℤ) (st : EnvState)
      → IsOutcome base ov ops env now st (build_env marshal digest base ov ops env now st)
  unfolding publish build snapshot_len quarantined_count
  build_env-IsOutcome base ov ops env now st =
      build_env-cases base ov ops env now st (IsOutcome base ov ops env now st)
        (λ res p g. left refl p g)
        (λ l e within.
          let i = inputs_of env now st.cur ov ops in
          let p = resolve_flags i l.flags in
          let (size, budget) = guard_findings-none env (length l.flags) p.builder within in
          swapped l (build (incr_int64 st.gen) now p.builder) e refl refl refl refl refl size budget
            (resolve_flags-IsSourced i l.flags))
