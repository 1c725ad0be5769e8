-- ===== src/Obs/Histogram/Cumulative.antt =====
-- The running counts of a histogram are the numbers of values at most each bound.
use feature_flag_service.Common.{
  ◌≡◌, refl, sym, ap, ◌∙◌, inl, inr, ℕ, suc, ◌+◌, ◌%◌, ◌^◌, ◌<◌, true, List, [], ◌∷◌, ◌++◌, map,
  some, if◌then◌else◌, length, All, Bool-cases, arith,
}
use feature_flag_service.Obs.Histogram.{
  FloatLib, Histogram, one_more, increment, cumulative, zeros, search_floats, new_histogram,
  observe, observe_all,
}

module _ {F : Type 0} (lib : FloatLib F) where
  abbrev pub count_within : F → List F → ℕ
  count_within b [] = 0
  count_within b (v ∷ vs) = if lib.le_float v b then suc (count_within b vs) else count_within b vs

  abbrev beyond : F → List F → List F
  beyond b [] = []
  beyond b (v ∷ vs) = if lib.le_float v b then beyond b vs else (v ∷ beyond b vs)

  -- A value at most one bound is at most the bounds after it.
  abbrev pub IsRising : List F → Type 0
  IsRising [] = Unit
  IsRising (b ∷ bs) =
      All (λ c. (v : F) → lib.le_float v b ≡ true → lib.le_float v c ≡ true) bs × IsRising bs

  -- The counts of a histogram, by what was observed.
  exact : List F → List F → List ℕ
  exact [] vs = length vs ∷ []
  exact (b ∷ bs) vs = count_within b vs ∷ exact bs (beyond b vs)

  length-split : (b : F) (vs : List F) → count_within b vs + length (beyond b vs) ≡ length vs
  length-split b [] = refl
  length-split b (v ∷ vs) = ground (arith, length-split b vs)

  exact-nil : (bs : List F) → exact bs [] ≡ zeros bs
  unfolding exact
  exact-nil [] = refl
  exact-nil (b ∷ bs) = rw (exact-nil bs) refl

  small_mod : (n : ℕ) → n < 2 ^ 64 → n % 2 ^ 64 ≡ n
  small_mod n h = omega arith

  increment-exact :
      (bs vs : List F) (v : F)
      → suc (length vs) < 2 ^ 64
      → increment (search_floats lib bs v) (exact bs vs) ≡ some (exact bs (v ∷ vs))
  unfolding increment exact search_floats
  increment-exact [] vs v small =
      ap (λ n. some (n ∷ [])) (omega (arith, small_mod (suc (length vs)) small))
  increment-exact (b ∷ bs) vs v small = elim (Bool-cases (lib.le_float v b)) [
    | inl within ↦ rw within (
        ap (λ n. some (n ∷ exact bs (beyond b vs)))
          (small_mod (count_within b vs + 1) (omega (arith, length-split b vs, small))
            ∙ omega arith))
    | inr above ↦
        rw (above, increment-exact bs (beyond b vs) v (omega (arith, length-split b vs, small)))
          refl
  ]

  within_split :
      (b c : F) (vs : List F)
      → ((v : F) → lib.le_float v b ≡ true → lib.le_float v c ≡ true)
      → count_within c vs ≡ count_within b vs + count_within c (beyond b vs)
  within_split b c [] up = refl
  within_split b c (v ∷ vs) up = elim (Bool-cases (lib.le_float v b)) [
    | inl within ↦ rw (within, up v within) (omega (arith, within_split b c vs up))
    | inr above ↦ ground (arith, above, within_split b c vs up)
  ]

  within_after :
      (s : ℕ) (b : F) (vs cs : List F)
      → All (λ c. (v : F) → lib.le_float v b ≡ true → lib.le_float v c ≡ true) cs
      → map (λ c. (s + count_within b vs) + count_within c (beyond b vs)) cs
        ≡ map (λ c. s + count_within c vs) cs
  within_after s b vs [] up = refl
  within_after s b vs (c ∷ cs) up =
      let first : (s + count_within b vs) + count_within c (beyond b vs) ≡ s + count_within c vs =
        omega (arith, within_split b c vs up.0) in
      rw (first, within_after s b vs cs up.1) refl

  cumulative-exact :
      (s : ℕ) (bs vs : List F)
      → IsRising bs
      → s + length vs < 2 ^ 64
      → cumulative s (exact bs vs) ≡ map (λ b. s + count_within b vs) bs ++ ((s + length vs) ∷ [])
  unfolding cumulative exact
  cumulative-exact s [] vs up small = rw (small_mod (s + length vs) small) refl
  cumulative-exact s (b ∷ bs) vs up small =
      let next = s + count_within b vs in
      let room : next < 2 ^ 64 = omega (arith, length-split b vs, small) in
      let all : next + length (beyond b vs) ≡ s + length vs = omega (arith, length-split b vs) in
      rw
        (
          small_mod next room,
          cumulative-exact next bs (beyond b vs) up.1 (omega (arith, all, small)),
          all,
          within_after s b vs bs up.0,
        )
        refl

  -- What a histogram holds after the values `vs`, the latest first, on top of the sum.
  abbrev IsFilled : List F → List F → Histogram F → Type 0
  IsFilled bs vs h = (h.bounds ≡ bs) × (h.counts ≡ exact bs vs) × (h.total ≡ length vs)

  observe-IsFilled :
      (bs vs : List F) (v : F) (h : Histogram F)
      → suc (length vs) < 2 ^ 64
      → IsFilled bs vs h
      → (k : Histogram F) × (observe lib v h ≡ some k)
        × IsFilled bs (v ∷ vs) k
        × (k.sum ≡ lib.add_float h.sum v)
  unfolding observe
  observe-IsFilled bs vs v h small (same, counts, total) = (
    record {
      bounds = h.bounds;
      counts = exact bs (v ∷ vs);
      sum = lib.add_float h.sum v;
      total = one_more h.total;
    },
    rw (same, counts, increment-exact bs vs v small) refl,
    (same, refl, rw total (small_mod (length vs + 1) (omega (arith, small)) ∙ omega arith)),
    refl,
  )

  abbrev onto : List F → List F → List F
  onto [] seen = seen
  onto (v ∷ vs) seen = onto vs (v ∷ seen)

  abbrev pub sum_from : F → List F → F
  sum_from s [] = s
  sum_from s (v ∷ vs) = sum_from (lib.add_float s v) vs

  count_within-onto :
      (b : F) (vs seen : List F)
      → count_within b (onto vs seen) ≡ count_within b vs + count_within b seen
  count_within-onto b [] seen = omega arith
  count_within-onto b (v ∷ vs) seen = ground (arith, count_within-onto b vs (v ∷ seen))

  length-onto : (vs seen : List F) → length (onto vs seen) ≡ length vs + length seen
  length-onto [] seen = omega arith
  length-onto (v ∷ vs) seen = omega (arith, length-onto vs (v ∷ seen))

  observe_all-IsFilled :
      (bs vs seen : List F) (h : Histogram F)
      → length vs + length seen < 2 ^ 64
      → IsFilled bs seen h
      → (k : Histogram F) × (observe_all lib vs h ≡ some k)
        × IsFilled bs (onto vs seen) k
        × (k.sum ≡ sum_from h.sum vs)
  unfolding observe_all
  observe_all-IsFilled bs [] seen h small filled = (h, refl, filled, refl)
  observe_all-IsFilled bs (v ∷ vs) seen h small filled =
      let (k, one, next, sum) = observe-IsFilled bs seen v h (omega (arith, small)) filled in
      let (m, rest, all, total) =
        observe_all-IsFilled bs vs (v ∷ seen) k (omega (arith, small)) next in
      (m, rw (one, rest) refl, all, total ∙ ap (λ s. sum_from s vs) sum)

  counted :
      (vs cs : List F)
      → map (λ c. 0 + count_within c (onto vs [])) cs ≡ map (λ c. count_within c vs) cs
  counted vs [] = refl
  counted vs (c ∷ cs) =
      let first : 0 + count_within c (onto vs []) ≡ count_within c vs =
        omega (arith, count_within-onto c vs []) in
      rw (first, counted vs cs) refl

  -- A new histogram whose bounds rise takes any fewer than 2^64 values without a panic. Then its total
  -- is their number, its sum is theirs, and the running counts that it prints are, for each bound, the
  -- number of values at most that bound, and at last the number of all values.
  pub observe_all-cumulative :
      (bs vs : List F)
      → IsRising bs
      → length vs < 2 ^ 64
      → (h : Histogram F) × (observe_all lib vs (new_histogram lib bs) ≡ some h)
        × (cumulative 0 h.counts ≡ map (λ b. count_within b vs) bs ++ (length vs ∷ []))
        × (h.total ≡ length vs)
        × (h.sum ≡ sum_from lib.zero_float vs)
  unfolding new_histogram
  observe_all-cumulative bs vs up small =
      let start : IsFilled bs [] (new_histogram lib bs) = (refl, sym (exact-nil bs), refl) in
      let (h, done, (same, counts, total), sum) =
        observe_all-IsFilled bs vs [] (new_histogram lib bs) (omega (arith, small)) start in
      let size : length (onto vs []) ≡ length vs = omega (arith, length-onto vs []) in
      (
        h,
        done,
        rw
            (
              counts,
              cumulative-exact 0 bs (onto vs []) up (omega (arith, size, small)),
              counted vs bs,
              size,
            )
            (ap (λ n. map (λ b. count_within b vs) bs ++ (n ∷ [])) (omega arith)),
        total ∙ size,
        sum,
      )
