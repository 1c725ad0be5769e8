-- ===== src/Config/Store/Converge.antt =====
-- What the subscribers of a store hold: a reader that takes what its channel has is at the content of
-- the snapshot that the store serves.
use feature_flag_service.Common.{
  ◌≡◌, refl, sym, subst, ◌∙◌, inl, inr, ℤ, true, Bytes, str_eq_iff, List, [], ◌∷◌, Option, none,
  some, lookup, AllValues-lookup, All, incr_int64, Bool-cases, Option-cases, eq_ℤ, arith,
}
use feature_flag_service.Core.Model.{Flag}
use feature_flag_service.Config.Snapshot.{ResolvedSnapshot, build, fingerprint, quarantined_keys}
use feature_flag_service.Config.Store.Build.{Progress, inputs_of, resolve_flags}
use feature_flag_service.Config.Store.State.{Subscription, EnvState, same_keys, offer, notify}
use feature_flag_service.Config.Store.Push.{content_unchanged, publish}
use feature_flag_service.Config.Store.Subscribe.{
  subscribe_env, remove_sub, cancel_env, receive, receive_from, receive_env, new_store,
}
use feature_flag_service.Config.Store.Steps.{Action, perform_all, IsKept, new_store-All}
use feature_flag_service.Config.Store.Outcome.{build_env-cases}

same_keys-eq : (xs ys : List Bytes) → same_keys xs ys ≡ true → xs ≡ ys
unfolding same_keys
same_keys-eq [] [] h = refl
same_keys-eq [] (y ∷ ys) h = absurd (cc)
same_keys-eq (x ∷ xs) [] h = absurd (cc)
same_keys-eq (x ∷ xs) (y ∷ ys) h = ground (arith, str_eq_iff x y, same_keys-eq xs ys)

-- What a subscription's reader has last, or has waiting.
abbrev pub latest : Subscription → Option ResolvedSnapshot
latest sub = elim sub.buffer [ some snap ↦ some snap | none ↦ sub.taken ]

module _ (marshal : Flag → Option Bytes) (digest : Bytes → Bytes) where
  -- Two snapshots with the same fingerprint and the same quarantined keys, or none twice.
  abbrev pub SameContent : Option ResolvedSnapshot → Option ResolvedSnapshot → Type 0
  SameContent none none = Unit
  SameContent none (some t) = ⊥
  SameContent (some s) none = ⊥
  SameContent (some s) (some t) =
      (fingerprint marshal digest s ≡ fingerprint marshal digest t)
      × (quarantined_keys s ≡ quarantined_keys t)

  abbrev AllCurrent : Option ResolvedSnapshot → List Subscription → Type 0
  AllCurrent cur subs = All (λ sub. SameContent cur (latest sub)) subs

  abbrev AreCurrent : EnvState → Type 0
  AreCurrent st = AllCurrent st.cur st.subs

  notify-AllCurrent :
      (snap : ResolvedSnapshot) (subs : List Subscription)
      → AllCurrent (some snap) (notify snap subs)
  unfolding notify offer
  notify-AllCurrent snap [] = tt
  notify-AllCurrent snap (sub ∷ subs) = elim (Option-cases sub.buffer) [
    | inl empty ↦ rw empty ((refl, refl), notify-AllCurrent snap subs)
    | inr (old, full) ↦ rw full ((refl, refl), notify-AllCurrent snap subs)
  ]

  unchanged-SameContent :
      (prev latest : Option ResolvedSnapshot) (snap : ResolvedSnapshot)
      → content_unchanged marshal digest prev snap ≡ true
      → SameContent prev latest
      → SameContent (some snap) latest
  unfolding content_unchanged
  unchanged-SameContent none latest snap h same = absurd (cc)
  unchanged-SameContent (some prev) none snap h same = absurd same
  unchanged-SameContent (some prev) (some t) snap h same =
      let prints : fingerprint marshal digest prev ≡ fingerprint marshal digest snap =
        ground
          (arith, str_eq_iff (fingerprint marshal digest prev) (fingerprint marshal digest snap)) in
      let names : same_keys (quarantined_keys prev) (quarantined_keys snap) ≡ true = ground arith in
      (
        sym prints ∙ same.0,
        sym (same_keys-eq (quarantined_keys prev) (quarantined_keys snap) names) ∙ same.1,
      )

  unchanged-AllCurrent :
      (prev : Option ResolvedSnapshot) (snap : ResolvedSnapshot) (subs : List Subscription)
      → content_unchanged marshal digest prev snap ≡ true
      → AllCurrent prev subs
      → AllCurrent (some snap) subs
  unchanged-AllCurrent prev snap [] same h = tt
  unchanged-AllCurrent prev snap (sub ∷ subs) same h = (
    unchanged-SameContent prev (latest sub) snap same h.0,
    unchanged-AllCurrent prev snap subs same h.1,
  )

  publish-AreCurrent :
      (now : ℤ) (p : Progress) (st : EnvState)
      → AreCurrent st
      → AreCurrent (publish marshal digest now p st).0
  unfolding publish
  publish-AreCurrent now p st h =
      let snap = build (incr_int64 st.gen) now p.builder in
      elim (Bool-cases (content_unchanged marshal digest st.cur snap)) [
        | inl same ↦ rw same (unchanged-AllCurrent st.cur snap st.subs same h)
        | inr other ↦ rw other (notify-AllCurrent snap st.subs)
      ]

  remove_sub-AllCurrent :
      (cur : Option ResolvedSnapshot) (id : ℤ) (subs : List Subscription)
      → AllCurrent cur subs
      → AllCurrent cur (remove_sub id subs)
  unfolding remove_sub
  remove_sub-AllCurrent cur id [] h = tt
  remove_sub-AllCurrent cur id (sub ∷ subs) h = elim (Bool-cases (eq_ℤ sub.id id)) [
    | inl same ↦ rw same h.1
    | inr other ↦ rw other (h.0, remove_sub-AllCurrent cur id subs h.1)
  ]

  -- A receive changes nothing about what the reader has or has waiting.
  receive-latest : (sub : Subscription) → latest (receive sub) ≡ latest sub
  receive-latest sub = elim (Option-cases sub.buffer) [
    | inl empty ↦ rw empty refl
    | inr (snap, full) ↦ rw full refl
  ]

  receive_from-AllCurrent :
      (cur : Option ResolvedSnapshot) (id : ℤ) (subs : List Subscription)
      → AllCurrent cur subs
      → AllCurrent cur (receive_from id subs)
  unfolding receive_from
  receive_from-AllCurrent cur id [] h = tt
  receive_from-AllCurrent cur id (sub ∷ subs) h = elim (Bool-cases (eq_ℤ sub.id id)) [
    | inl same ↦ rw same (
      subst (SameContent cur) (sym (receive-latest sub)) h.0,
      receive_from-AllCurrent cur id subs h.1,
    )
    | inr other ↦ rw other (h.0, receive_from-AllCurrent cur id subs h.1)
  ]

  new_sub-AllCurrent :
      (cur : Option ResolvedSnapshot) (id : ℤ) (subs : List Subscription)
      → AllCurrent cur subs
      → AllCurrent cur (record { id = id; buffer = cur; taken = none } ∷ subs)
  new_sub-AllCurrent none id subs h = (tt, h)
  new_sub-AllCurrent (some snap) id subs h = ((refl, refl), h)

  AreCurrent-IsKept : IsKept marshal digest AreCurrent
  unfolding subscribe_env cancel_env receive_env
  AreCurrent-IsKept = record {
    fresh = tt;
    builds = λ base ov ops env now st h.
        build_env-cases marshal digest base ov ops env now st (λ out. AreCurrent out.0)
          (λ res p g. h)
          (λ l e within.
            publish-AreCurrent now (resolve_flags (inputs_of env now st.cur ov ops) l.flags) st h);
    subscribes = λ st h. new_sub-AllCurrent st.cur st.next_id st.subs h;
    cancels = λ id st h. remove_sub-AllCurrent st.cur id st.subs h;
    receives = λ id st h. receive_from-AllCurrent st.cur id st.subs h;
  }

  received-AllCurrent :
      (cur : Option ResolvedSnapshot) (subs : List Subscription)
      → AllCurrent cur subs
      → All (λ sub. SameContent cur (receive sub).taken) subs
  received-AllCurrent cur [] h = tt
  received-AllCurrent cur (sub ∷ subs) h = elim (Option-cases sub.buffer) [
    | inl empty ↦
        (rw empty (subst (SameContent cur) (rw empty refl) h.0), received-AllCurrent cur subs h.1)
    | inr (snap, full) ↦
        (rw full (subst (SameContent cur) (rw full refl) h.0), received-AllCurrent cur subs h.1)
  ]

  -- In every state that calls can lead to, each reader of an environment, when it has received what its
  -- channel holds, has a snapshot with the fingerprint and the quarantined keys of the one that is
  -- served, and has none where none is: updates that were dropped on the way lose no content.
  pub receive-SameContent :
      (envs : List Bytes) (actions : List Action) (env : Bytes) (st : EnvState)
      → lookup env (perform_all marshal digest actions (new_store envs)).envs ≡ some st
      → All (λ sub. SameContent st.cur (receive sub).taken) st.subs
  receive-SameContent envs actions env st found = received-AllCurrent st.cur st.subs (
      AllValues-lookup AreCurrent env st (perform_all marshal digest actions (new_store envs)).envs
        found (new_store-All marshal digest AreCurrent AreCurrent-IsKept envs actions))
