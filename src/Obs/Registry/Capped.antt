-- ===== src/Obs/Registry/Capped.antt =====
-- How many series a registry can come to hold.
use feature_flag_service.Common.{
  ◌≡◌, refl, ap, inl, inr, ℕ, suc, ◌+◌, ◌≤◌, ◌<◌, leb, Bool, true, false, Bytes, str_eq, str_eq_iff,
  str_eq_refl, List, [], ◌∷◌, Option, none, some, if◌then◌else◌, length, All, Map, lookup, insert,
  lookup-insert, Bool-cases, Option-cases, arith,
}
use feature_flag_service.Common.Text.{TextLib}
use feature_flag_service.Obs.Labels.{Label, is_listed}
use feature_flag_service.Obs.Registry.{
  Var, Registry, overflow_key, with_overflow, or_new, get_by_key, key, get, get_all,
}

module _ {V : Type 0} where
  length-insert :
      (k : Bytes) (v : V) (m : Map V) → lookup k m ≡ none → length (insert k v m) ≡ suc (length m)
  unfolding lookup insert
  length-insert k v [] e = refl
  length-insert k v ((j, w) ∷ m) e = elim (Bool-cases (str_eq j k)) [
    | inl same ↦ absurd (let wrong = rw same at e in cc)
    | inr other ↦ rw other (ap suc (length-insert k v m (rw other at e)))
  ]

  abbrev is_there : Option V → Bool
  is_there none = false
  is_there (some v) = true

  -- How many of the names have their overflow series.
  abbrev overflown : List Bytes → Map V → ℕ
  overflown [] m = 0
  overflown (n ∷ ns) m =
      if is_there (lookup (overflow_key n) m) then suc (overflown ns m) else overflown ns m

  overflown-length : (ns : List Bytes) (m : Map V) → overflown ns m ≤ length ns
  overflown-length [] m = omega arith
  overflown-length (n ∷ ns) m = ground (arith, overflown-length ns m)

  overflown-insert :
      (ns : List Bytes) (k : Bytes) (v : V) (m : Map V)
      → overflown ns m ≤ overflown ns (insert k v m)
  overflown-insert [] k v m = omega arith
  overflown-insert (n ∷ ns) k v m =
      rw (lookup-insert k (overflow_key n) v m) (ground (arith, overflown-insert ns k v m))

  overflown_more :
      (ns : List Bytes) (name : Bytes) (v : V) (m : Map V)
      → is_listed name ns ≡ true
      → lookup (overflow_key name) m ≡ none
      → overflown ns m < overflown ns (insert (overflow_key name) v m)
  overflown_more [] name v m h e = absurd (cc)
  overflown_more (n ∷ ns) name v m h e = elim (Bool-cases (str_eq n name)) [
    | inl same ↦
        let one : n ≡ name = (str_eq_iff n name).0 same in
        rw
          (
            one,
            e,
            lookup-insert (overflow_key name) (overflow_key name) v m,
            str_eq_refl (overflow_key name),
          )
          (omega (arith, overflown-insert ns (overflow_key name) v m))
    | inr other ↦
        rw (lookup-insert (overflow_key name) (overflow_key n) v m)
          (ground (arith, overflown_more ns name v m (rw other at h) e))
  ]

module _ {F : Type 0} where
  -- The series are as many as the cap allows, and one more for each name that has its overflow series.
  IsCapped : ℕ → List Bytes → Registry F → Type 0
  IsCapped most names m =
      (m.max_series ≡ most) × (length m.series ≤ most + overflown names m.series)

  or_new-IsCapped :
      (most : ℕ) (names : List Bytes) (name : Bytes) (v : Var F) (m : Registry F)
      → is_listed name names ≡ true
      → IsCapped most names m
      → IsCapped most names (or_new (overflow_key name) v (lookup (overflow_key name) m.series) m).0
  unfolding IsCapped
  or_new-IsCapped most names name v m listed (same, fits) =
      elim (Option-cases (lookup (overflow_key name) m.series)) [
        | inl absent ↦ rw absent (
          same,
          omega (
            arith,
            fits,
            length-insert (overflow_key name) v m.series absent,
            overflown_more names name v m.series listed absent,
          ),
        )
        | inr (w, there) ↦ rw there (same, fits)
      ]

  get_by_key-IsCapped :
      (most : ℕ) (names : List Bytes) (name k : Bytes) (v : Var F) (m : Registry F)
      → is_listed name names ≡ true
      → IsCapped most names m
      → IsCapped most names (get_by_key name k v (lookup k m.series) m).0
  unfolding IsCapped
  get_by_key-IsCapped most names name k v m listed (same, fits) =
      elim (Option-cases (lookup k m.series)) [
        | inr (w, there) ↦ rw there (same, fits)
        | inl absent ↦ elim (Bool-cases (leb m.max_series (length m.series))) [
          | inl full ↦
              rw (absent, full)
                (or_new-IsCapped most names name v (with_overflow m) listed (same, fits))
          | inr room ↦
              rw (absent, room)
                (same, ground (arith, room, same, length-insert k v m.series absent))
        ]
      ]

  -- The names of calls of `get`, each one of the names.
  abbrev pub AreListed : List Bytes → List (Bytes × List Label × Var F) → Type 0
  AreListed names calls = All (λ c. is_listed c.0 names ≡ true) calls

  get_all-IsCapped :
      (t : TextLib) (quote : Bytes → Bytes) (most : ℕ) (names : List Bytes)
      (calls : List (Bytes × List Label × Var F)) (m : Registry F)
      → AreListed names calls
      → IsCapped most names m
      → IsCapped most names (get_all t quote calls m)
  unfolding get_all get key IsCapped
  get_all-IsCapped t quote most names [] m listed capped = capped
  get_all-IsCapped t quote most names ((name, labels, v) ∷ calls) m listed capped =
      get_all-IsCapped t quote most names calls _ listed.1
        (get_by_key-IsCapped most names name _ v _ listed.0 capped)

  -- Whatever labels and values come in, a registry that holds no series at first comes to hold at most
  -- as many as its cap and one for each name of a metric, however many calls there are.
  pub get_all-length :
      (t : TextLib) (quote : Bytes → Bytes) (names : List Bytes)
      (calls : List (Bytes × List Label × Var F)) (m : Registry F)
      → m.series ≡ []
      → AreListed names calls
      → length (get_all t quote calls m).series ≤ m.max_series + length names
  unfolding IsCapped
  get_all-length t quote names calls m start listed =
      let capped =
        get_all-IsCapped t quote m.max_series names calls m listed (refl, rw start (omega arith)) in
      omega (arith, capped.1, overflown-length names (get_all t quote calls m).series)
