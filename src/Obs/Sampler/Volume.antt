-- ===== src/Obs/Sampler/Volume.antt =====
-- Nothing that the sampler holds back is lost to the count.
use feature_flag_service.Common.{
  ◌≡◌, refl, ap, ◌∙◌, inl, inr, ℕ, suc, ◌+◌, leb, true, Bytes, str_eq, str_eq_iff, List, [], ◌∷◌,
  Option, none, some, if◌then◌else◌, length, lookup, lookup-insert, Bool-cases, Option-cases, arith,
}
use feature_flag_service.Obs.Sampler.{
  TokenLib, Tokens, Sampler, Admission, new_sampler, refilled, take_token, allow, allow_all,
}

-- The calls for a key.
abbrev pub calls_for : Bytes → List (Bytes × ℕ) → ℕ
calls_for k [] = 0
calls_for k ((key, now) ∷ calls) =
    if str_eq key k then suc (calls_for k calls) else calls_for k calls

-- The `sampled_of` of a line, 0 where none is emitted.
abbrev pub line_volume : Admission → ℕ
line_volume a = if a.allow then suc a.suppressed else 0

-- What the lines emitted for a key say there were.
abbrev pub volume_for : Bytes → List (Bytes × Admission) → ℕ
volume_for k [] = 0
volume_for k ((key, a) ∷ rest) =
    if str_eq key k then line_volume a + volume_for k rest else volume_for k rest

abbrev held : {F : Type 0} → Option (Tokens F) → ℕ
held none = 0
held (some b) = b.suppressed

-- What was suppressed for a key since its last line.
abbrev pub pending : {F : Type 0} → Bytes → Sampler F → ℕ
pending k s = held (lookup k s.buckets)

stored_lem :
    {F : Type 0} (key k : Bytes) (b : Tokens F) (n : ℕ) (s : Sampler F)
    → n + b.suppressed ≡ pending key s + 1
    → (if str_eq key k then n else 0) + held (if str_eq key k then some b else lookup k s.buckets)
      ≡ pending k s + (if str_eq key k then 1 else 0)
stored_lem key k b n s e = elim (Bool-cases (str_eq key k)) [
  | inl same ↦
      let one : pending key s ≡ pending k s = ap (λ i. pending i s) ((str_eq_iff key k).0 same) in
      rw same (omega (arith, e, one))
  | inr other ↦ rw other (omega arith)
]

module _ {F : Type 0} (lib : TokenLib F) where
  -- One call more for its key, and none for any other.
  IsCounted : Bytes → Sampler F → Sampler F × Admission → Type 0
  IsCounted key s (next, given) =
      (k : Bytes)
      → (if str_eq key k then line_volume given else 0) + pending k next
        ≡ pending k s + (if str_eq key k then 1 else 0)

  take_token-IsCounted :
      (key : Bytes) (now : ℕ) (tokens : F) (suppressed : ℕ) (s : Sampler F)
      → pending key s ≡ suppressed
      → IsCounted key s (take_token lib key now tokens suppressed s)
  unfolding IsCounted
  take_token-IsCounted key now tokens suppressed s e k =
      elim (Bool-cases (lib.is_less tokens lib.one)) [
        | inl dry ↦
            rw (dry, lookup-insert key k _ s.buckets) (stored_lem key k _ 0 s (omega (arith, e)))
        | inr wet ↦
            rw (wet, lookup-insert key k _ s.buckets)
              (stored_lem key k _ (suc suppressed) s (omega (arith, e)))
      ]

  -- A key that is not kept track of: its line is emitted.
  untracked_lem :
      (key : Bytes) (s : Sampler F) → IsCounted key s (s, record { allow = true; suppressed = 0 })
  unfolding IsCounted
  untracked_lem key s k = elim (Bool-cases (str_eq key k)) [
    | inl same ↦ rw same (omega arith)
    | inr other ↦ rw other (omega arith)
  ]

  allow-IsCounted : (key : Bytes) (now : ℕ) (s : Sampler F) → IsCounted key s (allow lib key now s)
  unfolding allow
  allow-IsCounted key now s = elim (Option-cases (lookup key s.buckets)) [
    | inr (b, there) ↦ rw there (
        take_token-IsCounted key now (refilled lib s.rate s.burst now b) b.suppressed s
          (rw there refl))
    | inl absent ↦ elim (Bool-cases (leb s.max_keys (length s.buckets))) [
      | inl full ↦ rw (absent, full) (untracked_lem key s)
      | inr room ↦
          let b : Tokens F = record { tokens = s.burst; last = now; suppressed = 0 } in
          rw (absent, room)
            (take_token-IsCounted key now (refilled lib s.rate s.burst now b) 0 s (rw absent refl))
    ]
  ]

  allow_all-pending :
      (calls : List (Bytes × ℕ)) (s : Sampler F) (k : Bytes)
      → volume_for k (allow_all lib calls s).1 + pending k (allow_all lib calls s).0
        ≡ pending k s + calls_for k calls
  unfolding allow_all IsCounted
  allow_all-pending [] s k = omega arith
  allow_all-pending ((key, now) ∷ calls) s k =
      let one = allow-IsCounted key now s k in
      let rest = allow_all-pending calls (allow lib key now s).0 k in ground (arith, one, rest)

  -- For any calls, at any times, on a new sampler: what the lines emitted for a key say there were, and
  -- what was suppressed since the last of them, make the number of the calls for that key.
  pub allow_all-volume :
      (rate burst : F) (max_keys : ℕ) (calls : List (Bytes × ℕ)) (k : Bytes)
      → let s = new_sampler rate burst max_keys in
        volume_for k (allow_all lib calls s).1 + pending k (allow_all lib calls s).0
        ≡ calls_for k calls
  unfolding lookup
  allow_all-volume rate burst max_keys calls k =
      allow_all-pending calls (new_sampler rate burst max_keys) k ∙ omega arith
