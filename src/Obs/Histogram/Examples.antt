-- ===== src/Obs/Histogram/Examples.antt =====
-- Tests of the histogram, on whole numbers.
use feature_flag_service.Common.{◌≡◌, ℕ, ◌+◌, leb, List, [], ◌∷◌, some, arith}
use feature_flag_service.Obs.Histogram.{FloatLib, Histogram, cumulative, new_histogram, observe_all}
use feature_flag_service.Obs.Histogram.Cumulative.{IsRising, observe_all-cumulative}

abbrev whole : FloatLib ℕ
whole = record { zero_float = 0; one_float = 1; add_float = ◌+◌; le_float = leb }

abbrev edges : List ℕ
edges = 10 ∷ (20 ∷ (50 ∷ []))

abbrev seen : List ℕ
seen = 10 ∷ (51 ∷ (3 ∷ (20 ∷ (11 ∷ []))))

edges-IsRising : IsRising whole edges
edges-IsRising = ground arith

observe_all-cumulative_example :
    (h : Histogram ℕ) × (observe_all whole seen (new_histogram whole edges) ≡ some h)
    × (cumulative 0 h.counts ≡ 2 ∷ (4 ∷ (4 ∷ (5 ∷ []))))
    × (h.total ≡ 5)
    × (h.sum ≡ 95)
observe_all-cumulative_example =
    observe_all-cumulative whole edges seen edges-IsRising (omega arith)
