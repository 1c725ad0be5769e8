-- ===== src/Client/Limiter/Examples.antt =====
-- Three calls on one cell, the second refused.
use feature_flag_service.Common.{◌≡◌, refl, ◌+◌, codes, [], ◌∷◌, length}
use feature_flag_service.Core.Model.{flag_not_found}
use feature_flag_service.Client.Limiter.{
  Cell, new_cell, allow, start, sum, IsSpaced, allow-IsSpaced, allow-Reachable, cell_index, mix_all,
}

abbrev after_three : Cell
after_three = (allow 10 21 (allow 10 7 (allow 10 5 new_cell).0).0).0

after_three_quiet :
    (after_three.passing ≡ 0)
    × (after_three.passed ≡ 21 ∷ 5 ∷ [])
    × (after_three.reports ≡ 2 ∷ 1 ∷ [])
unfolding allow
after_three_quiet = (refl, refl, refl)

index_in_range : cell_index (codes "a") flag_not_found ≡ 30
unfolding cell_index mix_all
index_in_range = refl

allow-IsSpaced_example :
    IsSpaced 10 after_three.passed
    × (sum 10 after_three.reports + after_three.suppressed
        ≡ after_three.refused + length after_three.passed)
allow-IsSpaced_example =
    allow-IsSpaced 10 after_three
      (allow-Reachable 10 21 (allow 10 7 (allow 10 5 new_cell).0).0
        (allow-Reachable 10 7 (allow 10 5 new_cell).0 (allow-Reachable 10 5 new_cell start)))
      after_three_quiet.0
