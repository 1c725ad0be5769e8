-- ===== src/Obs/Labels/Guard.antt =====
-- What the guard on labels lets through.
use feature_flag_service.Common.{
  ◌≡◌, refl, ap, subst, ◌∙◌, ◌⊎◌, inl, inr, ◌+◌, ◌≤◌, ltb, true, false, Bytes, str_eq, str_eq_iff,
  is_empty, List, [], ◌∷◌, none, length, lookup, All, Bool-cases, Option-cases, arith,
}
use feature_flag_service.Common.Text.{TextLib, IsTextLib}
use feature_flag_service.Obs.Trace.Accepted.{IsIdByte, ids-IsPrintable, lowered_id}
use feature_flag_service.Obs.Labels.{
  Label, is_listed, allowed_label_names, denied_label_names, max_label_value_len, label_name,
  validate_label, sanitize_labels,
}

-- A name of the closed list, and a value of at most 96 bytes.
abbrev pub IsBounded : Label → Type 0
IsBounded l = (is_listed l.name allowed_label_names ≡ true) × (length l.value ≤ max_label_value_len)

listed-All :
    (P : Bytes → Type 0) (s : Bytes) (names : List Bytes)
    → is_listed s names ≡ true
    → All P names
    → P s
listed-All P s [] h all = absurd (cc)
listed-All P s (a ∷ rest) h all = elim (Bool-cases (str_eq a s)) [
  | inl same ↦ subst P ((str_eq_iff a s).0 same) all.0
  | inr other ↦ listed-All P s rest (rw other at h) all.1
]

allowed_names-plain : All (All IsIdByte) allowed_label_names
allowed_names-plain = ground arith

abbrev IsUndenied : Bytes → Type 0
IsUndenied name = (is_empty name ≡ false) × (lookup name denied_label_names ≡ none)

allowed_names-IsUndenied : All IsUndenied allowed_label_names
unfolding is_empty lookup str_eq
allowed_names-IsUndenied = ground arith

module _ (t : TextLib) (lib : IsTextLib t) where
  validate_label-IsBounded :
      (l : Label)
      → validate_label t l ≡ none
      → (is_empty (label_name t l) ≡ false)
        × (lookup (label_name t l) denied_label_names ≡ none)
        × (is_listed (label_name t l) allowed_label_names ≡ true)
        × (length l.value ≤ max_label_value_len)
  unfolding validate_label
  validate_label-IsBounded l e = elim (Bool-cases (is_empty (label_name t l))) [
    | inl empty ↦ absurd (ground arith)
    | inr named ↦ elim (Option-cases (lookup (label_name t l) denied_label_names)) [
      | inl fine ↦
          let rest = rw (named, fine) at e in
          (named, fine, ground (arith, rest), ground (arith, rest))
      | inr (why, denied) ↦ absurd (let wrong = rw (named, denied) at e in cc)
    ]
  ]

  label_name-listed :
      (l : Label) → is_listed l.name allowed_label_names ≡ true → label_name t l ≡ l.name
  label_name-listed l h =
      let plain = listed-All (All IsIdByte) l.name allowed_label_names h allowed_names-plain in
      ap t.to_lower (lib.trims l.name (ids-IsPrintable l.name plain))
      ∙ (lib.lowers l.name (ids-IsPrintable l.name plain) ∙ lowered_id l.name plain)

  abbrev kept : Label → Label
  kept l = record { name = label_name t l; value = l.value }

  validate_label-kept :
      (l : Label)
      → validate_label t l ≡ none
      → (validate_label t (kept l) ≡ none) × (label_name t (kept l) ≡ label_name t l)
  unfolding validate_label
  validate_label-kept l e =
      let (named, fine, listed, short) = validate_label-IsBounded l e in
      let same = label_name-listed (kept l) listed in
      let fits : ltb max_label_value_len (length l.value) ≡ false = ground arith in
      (rw (same, named, fine, listed, fits) refl, same)

  -- What one round adds to the labels kept and to the names dropped.
  sanitized_cons :
      (l : Label) (ls : List Label)
      → (sanitize_labels t (l ∷ ls) ≡ (kept l ∷ (sanitize_labels t ls).0, (sanitize_labels t ls).1))
          × (validate_label t l ≡ none)
        ⊎ (sanitize_labels t (l ∷ ls)
            ≡ ((sanitize_labels t ls).0, l.name ∷ (sanitize_labels t ls).1))
  unfolding sanitize_labels
  sanitized_cons l ls = elim (Option-cases (validate_label t l)) [
    | inl fine ↦ inl (rw fine refl, fine)
    | inr (err, bad) ↦ inr (rw bad refl)
  ]

  -- The guard keeps only labels whose name is on the closed list and whose value has at most 96 bytes,
  -- and each label is either kept or has its name among those dropped.
  pub sanitize_labels-IsBounded :
      (ls : List Label)
      → All IsBounded (sanitize_labels t ls).0
        × (length (sanitize_labels t ls).0 + length (sanitize_labels t ls).1 ≡ length ls)
  unfolding sanitize_labels
  sanitize_labels-IsBounded [] = (tt, refl)
  sanitize_labels-IsBounded (l ∷ ls) =
      let (bounded, all) = sanitize_labels-IsBounded ls in
      elim (sanitized_cons l ls) [
        | inl (e, fine) ↦
            let (named, unlisted, listed, short) = validate_label-IsBounded l fine in
            rw e (((listed, short), bounded), omega (arith, all))
        | inr e ↦ rw e (bounded, omega (arith, all))
      ]

  kept_again :
      (l : Label) (ks : List Label)
      → validate_label t l ≡ none
      → sanitize_labels t ks ≡ (ks, [])
      → sanitize_labels t (kept l ∷ ks) ≡ (kept l ∷ ks, [])
  unfolding sanitize_labels
  kept_again l ks fine rest =
      let (again, same) = validate_label-kept l fine in rw (again, rest, same) refl

  -- What the guard keeps, it keeps as it is when it is asked again.
  pub sanitize_labels-kept :
      (ls : List Label)
      → sanitize_labels t (sanitize_labels t ls).0 ≡ ((sanitize_labels t ls).0, [])
  unfolding sanitize_labels
  sanitize_labels-kept [] = refl
  sanitize_labels-kept (l ∷ ls) = elim (sanitized_cons l ls) [
    | inl (e, fine) ↦ rw e (kept_again l _ fine (sanitize_labels-kept ls))
    | inr e ↦ rw e (sanitize_labels-kept ls)
  ]

  valid_listed :
      (l : Label)
      → is_listed l.name allowed_label_names ≡ true
      → length l.value ≤ max_label_value_len
      → is_empty l.name ≡ false
      → lookup l.name denied_label_names ≡ none
      → validate_label t l ≡ none
  unfolding validate_label
  valid_listed l listed short named fine =
      let fits : ltb max_label_value_len (length l.value) ≡ false = ground arith in
      rw (label_name-listed l listed, named, fine, listed, fits) refl

  -- Labels that are bounded already are all kept, as they are.
  pub sanitize_labels-same : (ls : List Label) → All IsBounded ls → sanitize_labels t ls ≡ (ls, [])
  unfolding sanitize_labels
  sanitize_labels-same [] h = refl
  sanitize_labels-same (l ∷ ls) ((listed, short), rest) =
      let (named, fine) =
        listed-All IsUndenied l.name allowed_label_names listed allowed_names-IsUndenied in
      rw
        (
          valid_listed l listed short named fine,
          sanitize_labels-same ls rest,
          label_name-listed l listed,
        )
        refl
