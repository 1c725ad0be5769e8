-- ===== src/Server/Wiring/Applied.antt =====
-- What a publisher is told of a push, and what the store served then.
use feature_flag_service.Common.{
  ◌≡◌, true, refl, ap, subst, ◌∙◌, inl, inr, ℤ, Bytes, is_empty, List, [], ◌∷◌, Option, some, All,
  Map, keys, lookup, Bool-cases, Option-cases,
}
use feature_flag_service.Common.Text.{TextLib}
use feature_flag_service.Core.Model.{Flag}
use feature_flag_service.Config.Findings.{Findings, has_rejections}
use feature_flag_service.Config.Snapshot.{ResolvedSnapshot, snapshot_len}
use feature_flag_service.Config.Store.State.{Layer, EnvResult, BuildReport, Store}
use feature_flag_service.Config.Store.Push.{set_layer}
use feature_flag_service.Config.Store.Subscribe.{store_snapshot}
use feature_flag_service.Config.Store.Steps.{Action, perform_all}
use feature_flag_service.Config.Store.Report.{IsReported, set_layer-IsReported}
use feature_flag_service.Http.Admin.{
  AppliedEnv, ApplyResult, Applying, apply_ok, apply_invalid, apply_failed, BodyRead, over_limit,
  read_failed, body_read, applied_reply, handle_apply_layer,
}
use feature_flag_service.Http.Requests.{accepted}
use feature_flag_service.Server.Wiring.{
  report_findings, len_of, Parsed, parsed, unparsed, LayerDecoders, read_layer, applied_of,
  report_applied, set_parsed, apply_layer,
}

ok_injective : {a b : ApplyResult} → apply_ok a ≡ apply_ok b → a ≡ b
ok_injective h = cc

module _ (marshal : Flag → Option Bytes) (digest : Bytes → Bytes) (gap : Bytes → List Action) where
  -- The store after the calls that come before the reads of these environments, the latest first.
  abbrev pub after : List Bytes → Store → Store
  after [] s = s
  after (env ∷ envs) s = perform_all marshal digest (gap env) (after envs s)

  -- No call comes between.
  abbrev pub IsQuiet : Type 0
  IsQuiet = (env : Bytes) → gap env ≡ []

  -- One environment of a result: the store that the push left, `s`, serves a snapshot of the generation
  -- that is named; the number of flags is that of what was served when it was read, after the reads of
  -- `done`; and it is that of the snapshot itself if no call came between.
  pub record IsServed (s : Store) (a : AppliedEnv) : Type 0 where
    pub snap : ResolvedSnapshot
    pub serves : store_snapshot s a.env ≡ some snap
    pub same_generation : snap.generation ≡ a.generation
    pub done : List Bytes
    pub flags_read : len_of (store_snapshot (after done s) a.env) ≡ a.flags
    pub flags_quiet : IsQuiet → snapshot_len snap ≡ a.flags

  after-quiet : IsQuiet → (envs : List Bytes) (s : Store) → after envs s ≡ s
  after-quiet quiet [] s = refl
  after-quiet quiet (env ∷ envs) s = rw (after-quiet quiet envs s, quiet env) refl

  add_applied-IsServed :
      (s : Store) (results : Map EnvResult) (env : Bytes) (done : List Bytes) (e : EnvResult)
      → IsReported marshal digest s results
      → lookup env results ≡ some e
      → e.published ≡ true
      → IsServed s (record {
        env = e.env;
        generation = e.generation;
        flags = len_of (store_snapshot (after done s) e.env);
      })
  unfolding len_of snapshot_len
  add_applied-IsServed s results env done e known found there =
      let (same, snap, serves, gen) = known env e found there in
      let at_env = ap (store_snapshot s) same ∙ serves in
      record {
        snap = snap;
        serves = at_env;
        same_generation = gen;
        done = done;
        flags_read = refl;
        flags_quiet = λ quiet. rw (after-quiet quiet done s, at_env) refl;
      }

  module _ (t : TextLib) (quote : Bytes → Bytes) (d : LayerDecoders)
      (text_of : Findings → Bytes) where
    applied_of-IsServed :
        (s : Store) (done : List Bytes) (results : Map EnvResult) (envs : List Bytes)
        → IsReported marshal digest s results
        → All
            (IsServed s)
            (applied_of marshal digest t quote d text_of gap (after done s) results envs).1.applied
    unfolding applied_of
    applied_of-IsServed s done results [] known = tt
    applied_of-IsServed s done results (env ∷ envs) known =
        let rest = applied_of-IsServed s (env ∷ done) results envs known in
        elim (Option-cases (lookup env results)) [
          | inl absent ↦ rw absent rest
          | inr (e, found) ↦ elim (Bool-cases e.published) [
            | inr out ↦ rw (found, out) rest
            | inl there ↦
                rw (found, there)
                  (add_applied-IsServed s results env (env ∷ done) e known found there, rest)
          ]
        ]

    -- What `ApplyLayer` does on a result: it pushed the layer of the body, and reports what is served.
    AreServed : ℤ → Bytes → Store → Applying → Type 0
    AreServed now body s applying =
        (res : ApplyResult)
        → applying ≡ apply_ok res
        → (l : Layer) × (read_layer t quote d (d.envelope body) ≡ parsed l)
          × All (IsServed (set_layer marshal digest now l s).0) res.applied

    report_applied-IsServed :
        (s : Store) (rep : BuildReport) (res : ApplyResult)
        → IsReported marshal digest s rep.per_env
        → (report_applied marshal digest t quote d text_of gap (s, rep)).1 ≡ apply_ok res
        → All (IsServed s) res.applied
    unfolding report_applied
    report_applied-IsServed s rep res known e =
        elim (Bool-cases (has_rejections (report_findings rep))) [
          | inl bad ↦ absurd (let wrong = rw bad at e in cc)
          | inr good ↦
              subst (λ r. All (IsServed s) r.applied) (ok_injective (rw good at e))
                (applied_of-IsServed s [] rep.per_env (keys rep.per_env) known)
        ]

    set_parsed-AreServed :
        (now : ℤ) (body : Bytes) (s : Store) (layer : Parsed Layer)
        → read_layer t quote d (d.envelope body) ≡ layer
        → AreServed now body s (set_parsed marshal digest t quote d text_of gap now layer s).1
    unfolding set_parsed AreServed
    set_parsed-AreServed now body s (unparsed err) read res e = absurd (cc)
    set_parsed-AreServed now body s (parsed l) read res e = (
      l,
      read,
      report_applied-IsServed (set_layer marshal digest now l s).0
          (set_layer marshal digest now l s).1 res (set_layer-IsReported marshal digest now l s) e,
    )

    apply_layer-AreServed :
        (now : ℤ) (body : Bytes) (s : Store)
        → AreServed now body s (apply_layer marshal digest t quote d text_of gap now body s).1
    unfolding apply_layer
    apply_layer-AreServed now body s =
        set_parsed-AreServed now body s (read_layer t quote d (d.envelope body)) refl

    applied_reply-accepted :
        {F : Type 0} (as_float : ℤ → F) (lap : F) (applying : Applying) (res : ApplyResult)
        → (applied_reply as_float lap applying).answer ≡ accepted res
        → applying ≡ apply_ok res
    unfolding applied_reply
    applied_reply-accepted as_float lap (apply_ok r) res e = cc
    applied_reply-accepted as_float lap (apply_invalid text) res e = absurd (cc)
    applied_reply-accepted as_float lap (apply_failed text) res e = absurd (cc)

    -- A push that the admin listener answers with a result set the layer that its body holds, and for
    -- each environment of the result: the store that the push left serves a snapshot of the generation
    -- that the result names. The number of flags is that of the snapshot served when it was read, with
    -- any calls on the store in between, and that of the same snapshot if there were none.
    pub handle_apply_layer-IsServed :
        {F : Type 0} (as_float : ℤ → F) (lap : F) (now : ℤ) (body : BodyRead) (s : Store)
        (res : ApplyResult)
        → (handle_apply_layer as_float
            (some (apply_layer marshal digest t quote d text_of gap now))
            body
            lap
            s).1.answer
          ≡ accepted res
        → (b : Bytes) × (l : Layer) × (body ≡ body_read b)
          × (read_layer t quote d (d.envelope b) ≡ parsed l)
          × All (IsServed (set_layer marshal digest now l s).0) res.applied
    unfolding handle_apply_layer AreServed
    handle_apply_layer-IsServed as_float lap now over_limit s res e = absurd (cc)
    handle_apply_layer-IsServed as_float lap now read_failed s res e = absurd (cc)
    handle_apply_layer-IsServed as_float lap now (body_read body) s res e =
        elim (Bool-cases (is_empty body)) [
          | inl empty ↦ absurd (let wrong = rw empty at e in cc)
          | inr there ↦
              let (l, read, served) = apply_layer-AreServed now body s res (
                applied_reply-accepted as_float lap
                  (apply_layer marshal digest t quote d text_of gap now body s).1 res
                  (rw there at e)) in
              (body, l, refl, read, served)
        ]
