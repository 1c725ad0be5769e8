-- ===== src/Obs/Histogram.antt =====
-- internal/obs/metrics.go: the histogram of a metric. Floating point numbers are a type with the
-- operations the code uses; `counts[i]++` out of range is a panic, none.
pub mod Cumulative
mod Examples
use feature_flag_service.Common.{
  ℕ, suc, ◌+◌, ◌%◌, ◌^◌, Bool, List, [], ◌∷◌, Option, none, some, if◌then◌else◌, zero, ◌>>=◌,
}

-- What the metrics use of float64.
pub record FloatLib (F : Type 0) : Type 0 where
  pub zero_float : F
  pub one_float : F
  pub add_float : F → F → F
  pub le_float : F → F → Bool

-- One more, in a uint64.
abbrev pub one_more : ℕ → ℕ
one_more n = (n + 1) % 2 ^ 64

unfoldable pub increment : ℕ → List ℕ → Option (List ℕ)
increment i [] = none
increment zero (c ∷ cs) = some (one_more c ∷ cs)
increment (suc i) (c ∷ cs) = increment i cs >>= (λ ds. some (c ∷ ds))

-- The running total of `String`, in a uint64.
unfoldable pub cumulative : ℕ → List ℕ → List ℕ
cumulative cum [] = []
cumulative cum (c ∷ cs) = (let next = (cum + c) % 2 ^ 64 in next ∷ cumulative next cs)

-- `histogram`
pub record Histogram (F : Type 0) : Type 0 where
  pub bounds : List F
  pub counts : List ℕ
  pub sum : F
  pub total : ℕ

abbrev pub zeros : {A : Type 0} → List A → List ℕ
zeros [] = 0 ∷ []
zeros (b ∷ bs) = 0 ∷ zeros bs

module _ {F : Type 0} (lib : FloatLib F) where
  -- sort.SearchFloat64s: the first index whose bound is at least the value.
  unfoldable pub search_floats : List F → F → ℕ
  search_floats [] v = 0
  search_floats (b ∷ bs) v = if lib.le_float v b then 0 else suc (search_floats bs v)

  unfoldable pub new_histogram : List F → Histogram F
  new_histogram bs = record { bounds = bs; counts = zeros bs; sum = lib.zero_float; total = 0 }

  unfoldable pub observe : F → Histogram F → Option (Histogram F)
  unfolding search_floats increment
  observe v h = do
    counts ← increment (search_floats h.bounds v) h.counts
    some (record {
      bounds = h.bounds;
      counts = counts;
      sum = lib.add_float h.sum v;
      total = one_more h.total;
    })

  unfoldable pub observe_all : List F → Histogram F → Option (Histogram F)
  unfolding observe
  observe_all [] h = some h
  observe_all (v ∷ vs) h = observe v h >>= observe_all vs
