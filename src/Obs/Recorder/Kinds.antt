-- ===== src/Obs/Recorder/Kinds.antt =====
-- Which metric a key of a series is of, and which metrics are histograms.
use feature_flag_service.Common.{
  ◌≡◌, refl, ap, ℕ, zero, suc, ◌<◌, ◌==◌, Bool, true, false, Bytes, codes, Avoids, List, [], ◌∷◌,
  ◌++◌, some, if◌then◌else◌, length, arith,
}
use feature_flag_service.Obs.Labels.{Label, is_listed, series_key, braced, sort_labels}
use feature_flag_service.Obs.Histogram.{increment}
use feature_flag_service.Obs.Recorder.{
  MetricCall, counter_inc, gauge_set, histogram_observe, evaluation_seconds, config_apply_seconds,
  propagation_lag_seconds, http_seconds, Recording, recorded,
}

-- The text before a brace.
abbrev pub metric_of : Bytes → Bytes
metric_of [] = []
metric_of (c ∷ s) = if c == b'{' then [] else (c ∷ metric_of s)

pub metric_of-append : (p q : Bytes) → Avoids b'{' p → metric_of (p ++ (b'{' ∷ q)) ≡ p
metric_of-append [] q h = refl
metric_of-append (c ∷ p) q h =
    let other : (c == b'{') ≡ false = ground (arith, h.0) in
    rw (other, metric_of-append p q h.1) refl

metric_of-same : (p : Bytes) → Avoids b'{' p → metric_of p ≡ p
metric_of-same [] h = refl
metric_of-same (c ∷ p) h =
    let other : (c == b'{') ≡ false = ground (arith, h.0) in rw (other, metric_of-same p h.1) refl

braced_starts :
    (quote : Bytes → Bytes) (ls : List Label) → (q : Bytes) × (braced quote ls ≡ b'{' ∷ q)
braced_starts quote [] = (codes "}", refl)
braced_starts quote (l ∷ ls) = (_, refl)

pub metric_of-series_key :
    (quote : Bytes → Bytes) (name : Bytes) (ls : List Label)
    → Avoids b'{' name
    → metric_of (series_key quote name ls) ≡ name
unfolding series_key
metric_of-series_key quote name [] h = metric_of-same name h
metric_of-series_key quote name (l ∷ ls) h =
    let (q, e) = braced_starts quote (sort_labels (l ∷ ls)) in rw e (metric_of-append name q h)

-- The metrics that are histograms.
abbrev pub histogram_names : List Bytes
histogram_names =
    evaluation_seconds ∷ (config_apply_seconds ∷ (propagation_lag_seconds ∷ (http_seconds ∷ [])))

abbrev pub IsHistogramName : Bytes → Bool → Type 0
IsHistogramName name b = is_listed name histogram_names ≡ b

-- A call whose method fits the name of its metric.
abbrev pub FitsKind : {F : Type 0} → MetricCall F → Type 0
FitsKind (counter_inc name labels) = Avoids b'{' name × IsHistogramName name false
FitsKind (gauge_set name labels x) = Avoids b'{' name × IsHistogramName name false
FitsKind (histogram_observe name labels x) = Avoids b'{' name × IsHistogramName name true

pub increment-total :
    (i : ℕ) (cs : List ℕ)
    → i < length cs
    → (ds : List ℕ) × (increment i cs ≡ some ds) × (length ds ≡ length cs)
unfolding increment
increment-total i [] h = absurd (omega arith)
increment-total zero (c ∷ cs) h = (_, refl, refl)
increment-total (suc i) (c ∷ cs) h =
    let (ds, e, same) = increment-total i cs (omega (arith, h)) in (c ∷ ds, rw e refl, ap suc same)

abbrev pub all_recorded : {F : Type 0} → List (Recording F) → List (MetricCall F)
all_recorded [] = []
all_recorded (r ∷ rs) = recorded r ++ all_recorded rs
