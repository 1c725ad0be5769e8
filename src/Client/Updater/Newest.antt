-- ===== src/Client/Updater/Newest.antt =====
-- Frames of one source instance may come in any order: the client ends on the newest.
use feature_flag_service.Common.{
  ◌≡◌, refl, sym, ap, subst, ◌⊎◌, inl, inr, ℤ, eq_ℤ_iff, ◌≤ℤ◌, true, false, ◌||◌, Bytes, str_eq_iff,
  is_empty, List, [], ◌∷◌, Option, none, some, All, Bool-cases, arith,
}
use feature_flag_service.Client.Updater.{
  Entry, Update, Client, instance_changed, install, cache_apply, apply_loaded, apply_snapshot,
  apply_offer, apply_update, apply_from, offer_from, client_generation, is_older, is_held,
}

-- A run of `applyUpdate`: what it loaded, its clock and its update.
pub record Handler {ℓ} (S : Type ℓ) : Type ℓ where
  pub loaded : Option (Entry S)
  pub now : ℤ
  pub up : Update S

module _ {ℓ} {S : Type ℓ} (generation_of : S → ℤ) where
  -- The entry that is held, if one is, is of the instance or came without one.
  abbrev pub Follows : Bytes → Option (Entry S) → Type 0
  Follows i none = Unit
  Follows i (some e) = (e.instance_id ≡ []) ⊎ (e.instance_id ≡ i)

  -- The client holds an entry of at least this generation.
  abbrev pub HoldsAtLeast : ℤ → Client S → Type ℓ
  HoldsAtLeast g c = (e : Entry S) × (c.l1 ≡ some e) × (g ≤ℤ e.gen)

  -- The runs of `applyUpdate`, by the order in which they store.
  abbrev pub apply_all : List (Handler S) → Client S → Client S
  apply_all [] c = c
  apply_all (h ∷ hs) c = apply_all hs (apply_from generation_of h.loaded h.now h.up c)

  -- No handler is overtaken: what it loaded is what is held still when it stores.
  abbrev pub AreInTurn : List (Handler S) → Client S → Type ℓ
  AreInTurn [] c = Unit
  AreInTurn (h ∷ hs) c =
      (h.loaded ≡ c.l1) × AreInTurn hs (apply_from generation_of h.loaded h.now h.up c)

  apply_from-eq :
      (loaded : Option (Entry S)) (now : ℤ) (offer : Option S) (up : Update S) (c : Client S)
      → loaded ≡ c.l1
      → offer_from generation_of loaded now offer up c ≡ apply_offer generation_of now offer up c
  unfolding apply_offer client_generation
  apply_from-eq loaded now none up c same = refl
  apply_from-eq loaded now (some snap) up c same =
      ap (λ l. apply_loaded generation_of l now snap up c) same

  Follows-unchanged :
      (i : Bytes) (held : Option (Entry S)) (up : Update S)
      → Follows i held
      → up.instance_id ≡ i
      → instance_changed held up ≡ false
  unfolding instance_changed is_empty
  Follows-unchanged i none up h same = refl
  Follows-unchanged i (some e) up h same =
      ground (arith, str_eq_iff e.instance_id up.instance_id, h)

  install-Follows :
      (i : Bytes) (now : ℤ) (snap : S) (gen : ℤ) (up : Update S) (c : Client S)
      → up.instance_id ≡ i
      → Follows i (install now snap gen up c).l1
  unfolding install cache_apply
  install-Follows i now snap gen up c same = inr same

  apply_snapshot-Follows :
      (i : Bytes) (now : ℤ) (snap : S) (up : Update S) (c : Client S)
      → Follows i c.l1
      → up.instance_id ≡ i
      → Follows i (apply_snapshot generation_of now snap up c).l1
  unfolding apply_loaded
  apply_snapshot-Follows i now snap up c h same =
      elim (Bool-cases
        (is_older c.l1 up (generation_of snap) || is_held c.l1 up (generation_of snap))) [
          | inl skipped ↦ rw skipped h
          | inr taken ↦ rw taken (install-Follows i now snap (generation_of snap) up c same)
        ]

  apply_offer-Follows :
      (i : Bytes) (now : ℤ) (offer : Option S) (up : Update S) (c : Client S)
      → Follows i c.l1
      → up.instance_id ≡ i
      → Follows i (apply_offer generation_of now offer up c).l1
  unfolding apply_offer
  apply_offer-Follows i now none up c h same = h
  apply_offer-Follows i now (some snap) up c h same = apply_snapshot-Follows i now snap up c h same

  apply_update-Follows :
      (i : Bytes) (now : ℤ) (up : Update S) (c : Client S)
      → Follows i c.l1
      → up.instance_id ≡ i
      → Follows i (apply_update generation_of now up c).l1
  unfolding apply_update
  apply_update-Follows i now up c h same = apply_offer-Follows i now up.snapshot up c h same

  -- A snapshot that is not taken is not newer than the one held.
  skipped-HoldsAtLeast :
      (i : Bytes) (held : Option (Entry S)) (up : Update S) (gen : ℤ)
      → is_older held up gen || is_held held up gen ≡ true
      → (e : Entry S) × (held ≡ some e) × (gen ≤ℤ e.gen)
  skipped-HoldsAtLeast i none up gen h = absurd (cc)
  skipped-HoldsAtLeast i (some e) up gen h = (e, refl, ground (arith, eq_ℤ_iff gen e.gen))

  -- A snapshot of the same instance that is taken is at least as new as the one held.
  taken-grows :
      (e : Entry S) (up : Update S) (gen : ℤ)
      → instance_changed (some e) up ≡ false
      → is_older (some e) up gen || is_held (some e) up gen ≡ false
      → e.gen ≤ℤ gen
  taken-grows e up gen same h = ground arith

  apply_snapshot-offered :
      (i : Bytes) (now : ℤ) (snap : S) (up : Update S) (c : Client S)
      → HoldsAtLeast (generation_of snap) (apply_snapshot generation_of now snap up c)
  unfolding apply_loaded install cache_apply
  apply_snapshot-offered i now snap up c =
      elim (Bool-cases
        (is_older c.l1 up (generation_of snap) || is_held c.l1 up (generation_of snap))) [
          | inl skipped ↦ rw skipped (skipped-HoldsAtLeast i c.l1 up (generation_of snap) skipped)
          | inr taken ↦ rw taken (_, refl, omega arith)
        ]

  apply_snapshot-HoldsAtLeast :
      (i : Bytes) (g now : ℤ) (snap : S) (up : Update S) (c : Client S)
      → Follows i c.l1
      → up.instance_id ≡ i
      → HoldsAtLeast g c
      → HoldsAtLeast g (apply_snapshot generation_of now snap up c)
  unfolding apply_loaded install cache_apply
  apply_snapshot-HoldsAtLeast i g now snap up c h same (e, held, bound) =
      elim (Bool-cases
        (is_older c.l1 up (generation_of snap) || is_held c.l1 up (generation_of snap))) [
          | inl skipped ↦ rw skipped (e, held, bound)
          | inr taken ↦
              let unchanged : instance_changed (some e) up ≡ false =
                rw held at (Follows-unchanged i c.l1 up h same) in
              let grows = taken-grows e up (generation_of snap) unchanged (rw held at taken) in
              rw taken (_, refl, omega (arith, bound, grows))
        ]

  apply_offer-HoldsAtLeast :
      (i : Bytes) (g now : ℤ) (offer : Option S) (up : Update S) (c : Client S)
      → Follows i c.l1
      → up.instance_id ≡ i
      → HoldsAtLeast g c
      → HoldsAtLeast g (apply_offer generation_of now offer up c)
  unfolding apply_offer
  apply_offer-HoldsAtLeast i g now none up c h same bound = bound
  apply_offer-HoldsAtLeast i g now (some snap) up c h same bound =
      apply_snapshot-HoldsAtLeast i g now snap up c h same bound

  apply_update-HoldsAtLeast :
      (i : Bytes) (g now : ℤ) (up : Update S) (c : Client S)
      → Follows i c.l1
      → up.instance_id ≡ i
      → HoldsAtLeast g c
      → HoldsAtLeast g (apply_update generation_of now up c)
  unfolding apply_update
  apply_update-HoldsAtLeast i g now up c h same bound =
      apply_offer-HoldsAtLeast i g now up.snapshot up c h same bound

  apply_offer-offered :
      (i : Bytes) (now : ℤ) (offer : Option S) (up : Update S) (c : Client S) (snap : S)
      → offer ≡ some snap
      → HoldsAtLeast (generation_of snap) (apply_offer generation_of now offer up c)
  unfolding apply_offer
  apply_offer-offered i now none up c snap there = absurd (cc)
  apply_offer-offered i now (some s) up c snap there =
      subst (λ t. HoldsAtLeast (generation_of t) (apply_snapshot generation_of now s up c))
        (ground arith) (apply_snapshot-offered i now s up c)

  apply_update-offered :
      (i : Bytes) (now : ℤ) (up : Update S) (c : Client S) (snap : S)
      → up.snapshot ≡ some snap
      → HoldsAtLeast (generation_of snap) (apply_update generation_of now up c)
  unfolding apply_update
  apply_update-offered i now up c snap there = apply_offer-offered i now up.snapshot up c snap there

  abbrev pub FromInstance : Bytes → List (Handler S) → Type 0
  FromInstance i hs = All (λ h. h.up.instance_id ≡ i) hs

  -- What a handler that is not overtaken does.
  in_turn :
      (h : Handler S) (c : Client S)
      → h.loaded ≡ c.l1
      → apply_update generation_of h.now h.up c ≡ apply_from generation_of h.loaded h.now h.up c
  unfolding apply_update apply_from
  in_turn h c same = sym (apply_from-eq h.loaded h.now h.up.snapshot h.up c same)

  handled-Follows :
      (i : Bytes) (h : Handler S) (c : Client S)
      → h.loaded ≡ c.l1
      → Follows i c.l1
      → h.up.instance_id ≡ i
      → Follows i (apply_from generation_of h.loaded h.now h.up c).l1
  handled-Follows i h c turn follows same =
      subst (λ (d : Client S). Follows i d.l1) (in_turn h c turn)
        (apply_update-Follows i h.now h.up c follows same)

  apply_all-HoldsAtLeast :
      (i : Bytes) (g : ℤ) (hs : List (Handler S)) (c : Client S)
      → Follows i c.l1
      → FromInstance i hs
      → AreInTurn hs c
      → HoldsAtLeast g c
      → HoldsAtLeast g (apply_all hs c)
  apply_all-HoldsAtLeast i g [] c follows same turn bound = bound
  apply_all-HoldsAtLeast i g (h ∷ hs) c follows same turn bound =
      apply_all-HoldsAtLeast i g hs (apply_from generation_of h.loaded h.now h.up c)
        (handled-Follows i h c turn.0 follows same.0) same.1 turn.1
        (subst (HoldsAtLeast g) (in_turn h c turn.0)
          (apply_update-HoldsAtLeast i g h.now h.up c follows same.0 bound))

  -- After any runs of `applyUpdate` on updates of one instance, in whatever order, none of which is
  -- overtaken between its load and its store, the client holds an entry at least as new as each snapshot
  -- among them, where what it held at the start is of that instance or has none.
  pub apply_all-newest :
      (i : Bytes) (hs : List (Handler S)) (c : Client S)
      → Follows i c.l1
      → FromInstance i hs
      → AreInTurn hs c
      → All
          (λ h.
            (snap : S)
            → h.up.snapshot ≡ some snap
            → HoldsAtLeast (generation_of snap) (apply_all hs c))
          hs
  apply_all-newest i [] c follows same turn = tt
  apply_all-newest i (h ∷ hs) c follows same turn =
      let next = apply_from generation_of h.loaded h.now h.up c in
      let after = handled-Follows i h c turn.0 follows same.0 in
      (
        λ snap there. apply_all-HoldsAtLeast i (generation_of snap) hs next after same.1 turn.1 (
            subst (HoldsAtLeast (generation_of snap)) (in_turn h c turn.0)
              (apply_update-offered i h.now h.up c snap there)),
        apply_all-newest i hs next after same.1 turn.1,
      )
