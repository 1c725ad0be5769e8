-- ===== src/Obs/Recorder.antt =====
-- internal/obs/recorder.go, and the calls of internal/obs/metrics.go that it makes: what is counted, set
-- and observed, under which labels. Durations come as the seconds they make.
pub mod Kinds
pub mod Safe
mod Examples
use feature_flag_service.Common.{
  ℕ, ℤ, ◌++◌, Bool, Bytes, codes, List, [], ◌∷◌, Option, none, some, if◌then◌else◌, Map, lookup,
  insert, ◌>>=◌, decimal,
}
use feature_flag_service.Common.Text.{TextLib}
use feature_flag_service.Obs.Labels.{Label}
use feature_flag_service.Obs.Histogram.{FloatLib, Histogram, new_histogram, observe}
use feature_flag_service.Obs.Registry.{Var, float_var, histogram_var, Registry, get}

-- A call of the metrics interface: the metric, its labels, and the method of what it gives.
pub data MetricCall (F : Type 0) : Type 0 where
  counter_inc : Bytes → List Label → MetricCall F
  gauge_set : Bytes → List Label → F → MetricCall F
  histogram_observe : Bytes → List Label → F → MetricCall F

-- `L`
abbrev pub label : Bytes → Bytes → Label
label name value = record { name = name; value = value }

-- The metric names of metrics.go
abbrev pub evaluations_total : Bytes
evaluations_total = codes "flagsvc_evaluations_total"

abbrev pub evaluation_seconds : Bytes
evaluation_seconds = codes "flagsvc_evaluation_duration_seconds"

abbrev pub fallback_total : Bytes
fallback_total = codes "flagsvc_evaluation_fallback_total"

abbrev pub config_apply_total : Bytes
config_apply_total = codes "flagsvc_config_apply_total"

abbrev pub config_apply_seconds : Bytes
config_apply_seconds = codes "flagsvc_config_apply_duration_seconds"

abbrev pub propagation_lag_seconds : Bytes
propagation_lag_seconds = codes "flagsvc_propagation_lag_seconds"

abbrev pub snapshot_generation : Bytes
snapshot_generation = codes "flagsvc_snapshot_generation"

abbrev pub snapshot_flags : Bytes
snapshot_flags = codes "flagsvc_snapshot_flags"

abbrev pub http_requests_total : Bytes
http_requests_total = codes "flagsvc_http_requests_total"

abbrev pub http_seconds : Bytes
http_seconds = codes "flagsvc_http_request_duration_seconds"

abbrev pub panics_total : Bytes
panics_total = codes "flagsvc_panics_total"

abbrev pub evaluation_labels : Bytes → Bytes → Bytes → List Label
evaluation_labels flag env reason =
    label (codes "flag") flag ∷ (label (codes "env") env ∷ (label (codes "reason") reason ∷ []))

module _ {F : Type 0} where
  -- `Recorder.Evaluation`
  unfoldable pub record_evaluation : Bytes → Bytes → Bytes → Bool → F → List (MetricCall F)
  record_evaluation flag env reason fallback seconds =
      counter_inc evaluations_total (evaluation_labels flag env reason)
      ∷ (histogram_observe evaluation_seconds [] seconds
          ∷ (if fallback
              then counter_inc fallback_total (evaluation_labels flag env reason) ∷ []
              else []))

  unfoldable pub record_batch_latency : F → List (MetricCall F)
  record_batch_latency seconds = histogram_observe evaluation_seconds [] seconds ∷ []

  unfoldable pub record_config_apply : Bytes → F → List (MetricCall F)
  record_config_apply result seconds =
      counter_inc config_apply_total (label (codes "result") result ∷ [])
      ∷ (histogram_observe config_apply_seconds (label (codes "stage") (codes "publish") ∷ [])
            seconds
          ∷ [])

  unfoldable pub record_propagation_lag : F → List (MetricCall F)
  record_propagation_lag seconds =
      histogram_observe propagation_lag_seconds [] seconds
      ∷ (gauge_set (propagation_lag_seconds ++ codes "_last") [] seconds ∷ [])

  -- The two gauges of a snapshot, on the numbers as floats.
  unfoldable pub record_snapshot_generation : Bytes → F → List (MetricCall F)
  record_snapshot_generation env generation =
      gauge_set snapshot_generation (label (codes "env") env ∷ []) generation ∷ []

  unfoldable pub record_snapshot_flags : Bytes → F → List (MetricCall F)
  record_snapshot_flags env n = gauge_set snapshot_flags (label (codes "env") env ∷ []) n ∷ []

  unfoldable pub record_http_request : Bytes → Bytes → ℕ → F → List (MetricCall F)
  record_http_request route method status seconds =
      counter_inc http_requests_total (
        label (codes "route") route
        ∷ (label (codes "method") method ∷ (label (codes "code") (decimal status) ∷ [])))
      ∷ (histogram_observe http_seconds (label (codes "route") route ∷ []) seconds ∷ [])

  unfoldable pub record_panic : Bytes → List (MetricCall F)
  record_panic site = counter_inc panics_total (label (codes "site") site ∷ []) ∷ []

-- The methods of the recorder, with their arguments.
pub data Recording (F : Type 0) : Type 0 where
  evaluation : Bytes → Bytes → Bytes → Bool → F → Recording F
  batch_latency : F → Recording F
  config_apply : Bytes → F → Recording F
  propagation_lag : F → Recording F
  generation_set : Bytes → F → Recording F
  flags_set : Bytes → F → Recording F
  http_request : Bytes → Bytes → ℕ → F → Recording F
  panicked : Bytes → Recording F

unfoldable pub recorded : {F : Type 0} → Recording F → List (MetricCall F)
unfolding record_evaluation record_batch_latency record_config_apply record_propagation_lag
    record_snapshot_generation record_snapshot_flags record_http_request record_panic
recorded (evaluation flag env reason fallback x) = record_evaluation flag env reason fallback x
recorded (batch_latency x) = record_batch_latency x
recorded (config_apply result x) = record_config_apply result x
recorded (propagation_lag x) = record_propagation_lag x
recorded (generation_set env x) = record_snapshot_generation env x
recorded (flags_set env x) = record_snapshot_flags env x
recorded (http_request route method status x) = record_http_request route method status x
recorded (panicked site) = record_panic site

module _ {F : Type 0} (lib : FloatLib F) (t : TextLib) (quote : Bytes → Bytes) where
  abbrev pub with_series : Map (Var F) → Registry F → Registry F
  with_series series m = record {
    series = series;
    root = m.root;
    max_series = m.max_series;
    buckets = m.buckets;
    dropped = m.dropped;
    overflow = m.overflow;
  }

  -- `v.(*expvar.Float)`, which panics on a histogram, and what is then done to the number.
  abbrev pub on_float : (F → F) → Option (Var F) → Option (Var F)
  on_float f (some (float_var x)) = some (float_var (f x))
  on_float f (some (histogram_var h)) = none
  on_float f none = none

  -- Anything but a histogram is left alone.
  abbrev pub on_histogram : F → Option (Var F) → Option (Var F)
  on_histogram x (some (histogram_var h)) = observe lib x h >>= (λ k. some (histogram_var k))
  on_histogram x (some (float_var y)) = some (float_var y)
  on_histogram x none = none

  abbrev pub update_var :
      (Option (Var F) → Option (Var F)) → Registry F × Bytes → Option (Registry F)
  update_var f (m, k) = f (lookup k m.series) >>= (λ v. some (with_series (insert k v m.series) m))

  abbrev pub non_empty : List F → Option (List F) → List F
  non_empty default none = default
  non_empty default (some []) = default
  non_empty default (some (b ∷ bs)) = b ∷ bs

  -- A call on the registry, none for a panic. `default` are the boundaries of a histogram without its own.
  unfoldable pub run_call : List F → MetricCall F → Registry F → Option (Registry F)
  unfolding get lookup insert observe new_histogram
  run_call default (counter_inc name labels) m =
      update_var (on_float (λ x. lib.add_float x lib.one_float))
        (get t quote name labels (float_var lib.zero_float) m)
  run_call default (gauge_set name labels x) m =
      update_var (on_float (λ _. x)) (get t quote name labels (float_var lib.zero_float) m)
  run_call default (histogram_observe name labels x) m = update_var (on_histogram x) (
      get t quote name labels
        (histogram_var (new_histogram lib (non_empty default (lookup name m.buckets)))) m)

  unfoldable pub run_calls : List F → List (MetricCall F) → Registry F → Option (Registry F)
  unfolding run_call
  run_calls default [] m = some m
  run_calls default (c ∷ cs) m = run_call default c m >>= run_calls default cs
