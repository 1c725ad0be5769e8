-- ===== src/Obs/Recorder/Examples.antt =====
-- Tests of the recorder, on whole numbers.
use feature_flag_service.Common.{◌≡◌, ℕ, ◌+◌, leb, true, Bytes, codes, List, [], ◌∷◌, some}
use feature_flag_service.Common.Text.{ascii}
use feature_flag_service.Obs.Histogram.{FloatLib}
use feature_flag_service.Obs.Registry.{Registry, new_registry}
use feature_flag_service.Obs.Recorder.{Recording, evaluation, http_request, panicked, run_calls}
use feature_flag_service.Obs.Recorder.Safe.{run_calls-total}
use feature_flag_service.Obs.Recorder.Kinds.{all_recorded}

abbrev counts : FloatLib ℕ
counts = record { zero_float = 0; one_float = 1; add_float = ◌+◌; le_float = leb }

abbrev plain_quote : Bytes → Bytes
plain_quote s = s

abbrev told : List (Recording ℕ)
told =
    evaluation (codes "new-checkout") (codes "prod") (codes "FLAG_NOT_FOUND") true 3
    ∷ (http_request (codes "eval") (codes "POST") 200 4 ∷ (panicked (codes "http.handler") ∷ []))

run_calls-total_example :
    (n : Registry ℕ) × (run_calls counts ascii plain_quote
        (5 ∷ [])
        (all_recorded told)
        (new_registry [])
      ≡ some n)
run_calls-total_example = run_calls-total counts ascii plain_quote (5 ∷ []) [] told
