-- ===== src/Obs/Recorder/Safe.antt =====
-- The calls that the recorder makes never panic.
use feature_flag_service.Common.{
  ◌≡◌, refl, ap, sym, subst, ◌∙◌, inl, inr, suc, ◌≤◌, leb, true, false, false≢true, Bytes, codes,
  Avoids, List, [], ◌∷◌, Option, some, length, All, All-append, All-insert, All-lookup, Map, lookup,
  insert, lookup-insert, str_eq, str_eq_refl, Bool-cases, Option-cases, arith,
}
use feature_flag_service.Common.Text.{TextLib}
use feature_flag_service.Obs.Labels.{Label, sanitize_labels}
use feature_flag_service.Obs.Histogram.{
  FloatLib, Histogram, new_histogram, zeros, search_floats, one_more, observe,
}
use feature_flag_service.Obs.Registry.{
  Var, float_var, histogram_var, Registry, new_registry, overflow_key, with_var, with_overflow,
  or_new, get_by_key, key, get,
}
use feature_flag_service.Obs.Recorder.{
  MetricCall, counter_inc, gauge_set, histogram_observe, update_var, on_float, on_histogram,
  non_empty, with_series, run_call, run_calls, record_evaluation, record_batch_latency,
  record_config_apply, record_propagation_lag, record_snapshot_generation, record_snapshot_flags,
  record_http_request, record_panic, Recording, evaluation, batch_latency, config_apply,
  propagation_lag, generation_set, flags_set, http_request, panicked, recorded,
}
use feature_flag_service.Obs.Recorder.Kinds.{
  metric_of, metric_of-append, metric_of-series_key, IsHistogramName, FitsKind, increment-total,
  all_recorded,
}

module _ {F : Type 0} where
  abbrev IsNamed : Bytes → Var F → Type 0
  IsNamed name (float_var x) = IsHistogramName name false
  IsNamed name (histogram_var h) =
      IsHistogramName name true × (length h.counts ≡ suc (length h.bounds))

  abbrev EntryIsNamed : Bytes × Var F → Type 0
  EntryIsNamed (k, v) = IsNamed (metric_of k) v

  -- Every variable is of the kind that the metric before its labels has.
  abbrev AreNamed : Registry F → Type 0
  AreNamed m = All EntryIsNamed m.series

  -- What `get` gives for the metric.
  IsGiven : Bytes → Registry F × Bytes → Type 0
  IsGiven name (m, k) =
      AreNamed m × (metric_of k ≡ name) × (w : Var F) × (lookup k m.series ≡ some w)

  with_var-IsGiven :
      (name k : Bytes) (v : Var F) (m : Registry F)
      → metric_of k ≡ name
      → IsNamed name v
      → AreNamed m
      → IsGiven name (with_var k v m, k)
  unfolding IsGiven
  with_var-IsGiven name k v m e fits all = (
    All-insert EntryIsNamed k v m.series (subst (λ n. IsNamed n v) (sym e) fits) all,
    e,
    v,
    rw (lookup-insert k k v m.series, str_eq_refl k) refl,
  )

  or_new-IsGiven :
      (name k : Bytes) (v : Var F) (m : Registry F)
      → metric_of k ≡ name
      → IsNamed name v
      → AreNamed m
      → IsGiven name (or_new k v (lookup k m.series) m)
  unfolding IsGiven
  or_new-IsGiven name k v m e fits all = elim (Option-cases (lookup k m.series)) [
    | inl absent ↦ rw absent (with_var-IsGiven name k v m e fits all)
    | inr (w, there) ↦ rw there (all, e, w, there)
  ]

  get_by_key-IsGiven :
      (name k : Bytes) (v : Var F) (m : Registry F)
      → Avoids b'{' name
      → metric_of k ≡ name
      → IsNamed name v
      → AreNamed m
      → IsGiven name (get_by_key name k v (lookup k m.series) m)
  unfolding IsGiven
  get_by_key-IsGiven name k v m plain e fits all = elim (Option-cases (lookup k m.series)) [
    | inr (w, there) ↦ rw there (all, e, w, there)
    | inl absent ↦ elim (Bool-cases (leb m.max_series (length m.series))) [
      | inl full ↦
          rw (absent, full)
            (or_new-IsGiven name (overflow_key name) v (with_overflow m)
              (metric_of-append name (codes "__overflow__}") plain) fits all)
      | inr room ↦ rw (absent, room) (with_var-IsGiven name k v m e fits all)
    ]
  ]

  get-IsGiven :
      (t : TextLib) (quote : Bytes → Bytes) (name : Bytes) (labels : List Label) (v : Var F)
      (m : Registry F)
      → Avoids b'{' name
      → IsNamed name v
      → AreNamed m
      → IsGiven name (get t quote name labels v m)
  unfolding get key
  get-IsGiven t quote name labels v m plain fits all =
      get_by_key-IsGiven name _ v _ plain
        (metric_of-series_key quote name (sanitize_labels t labels).0 plain) fits all

  length-zeros : (bs : List F) → length (zeros bs) ≡ suc (length bs)
  length-zeros [] = refl
  length-zeros (b ∷ bs) = ap suc (length-zeros bs)

  search_floats-within :
      (lib : FloatLib F) (bs : List F) (v : F) → search_floats lib bs v ≤ length bs
  unfolding search_floats
  search_floats-within lib [] v = omega arith
  search_floats-within lib (b ∷ bs) v = ground (arith, search_floats-within lib bs v)

  observe-total :
      (lib : FloatLib F) (v : F) (h : Histogram F)
      → length h.counts ≡ suc (length h.bounds)
      → (k : Histogram F) × (observe lib v h ≡ some k) × (length k.counts ≡ suc (length k.bounds))
  unfolding observe
  observe-total lib v h same =
      let (ds, e, kept) =
        increment-total (search_floats lib h.bounds v) h.counts
          (omega (arith, same, search_floats-within lib h.bounds v)) in
      (
        record {
          bounds = h.bounds;
          counts = ds;
          sum = lib.add_float h.sum v;
          total = one_more h.total;
        },
        rw e refl,
        kept ∙ same,
      )

  module _ (lib : FloatLib F) (t : TextLib) (quote : Bytes → Bytes) where
    update_var-AreNamed :
        (f : Option (Var F) → Option (Var F)) (name : Bytes) (given : Registry F × Bytes)
        → IsGiven name given
        → ((w : Var F) → IsNamed name w → (u : Var F) × (f (some w) ≡ some u) × IsNamed name u)
        → (n : Registry F) × (update_var lib t quote f given ≡ some n) × AreNamed n
    unfolding IsGiven
    update_var-AreNamed f name (m, k) (all, e, w, there) step =
        let fits = subst (λ n. IsNamed n w) e (All-lookup EntryIsNamed k w m.series there all) in
        let (u, done, next) = step w fits in
        (
          with_series lib t quote (insert k u m.series) m,
          rw (there, done) refl,
          All-insert EntryIsNamed k u m.series (subst (λ n. IsNamed n u) (sym e) next) all,
        )

    float_step :
        (f : F → F) (name : Bytes)
        → IsHistogramName name false
        → (w : Var F) → IsNamed name w
        → (u : Var F) × (on_float lib t quote f (some w) ≡ some u) × IsNamed name u
    float_step f name plain (float_var x) fits = (float_var (f x), refl, plain)
    float_step f name plain (histogram_var h) fits = absurd (false≢true (sym plain ∙ fits.0))

    histogram_step :
        (x : F) (name : Bytes)
        → IsHistogramName name true
        → (w : Var F) → IsNamed name w
        → (u : Var F) × (on_histogram lib t quote x (some w) ≡ some u) × IsNamed name u
    histogram_step x name listed (float_var y) fits = absurd (false≢true (sym fits ∙ listed))
    histogram_step x name listed (histogram_var h) fits =
        let (k, e, same) = observe-total lib x h fits.1 in
        (histogram_var k, rw e refl, (listed, same))

    run_call-AreNamed :
        (default : List F) (c : MetricCall F) (m : Registry F)
        → FitsKind c
        → AreNamed m
        → (n : Registry F) × (run_call lib t quote default c m ≡ some n) × AreNamed n
    unfolding run_call new_histogram
    run_call-AreNamed default (counter_inc name labels) m (plain, kind) all =
        update_var-AreNamed (on_float lib t quote (λ y. lib.add_float y lib.one_float)) name _
          (get-IsGiven t quote name labels (float_var lib.zero_float) m plain kind all)
          (float_step (λ y. lib.add_float y lib.one_float) name kind)
    run_call-AreNamed default (gauge_set name labels x) m (plain, kind) all =
        update_var-AreNamed (on_float lib t quote (λ _. x)) name _
          (get-IsGiven t quote name labels (float_var lib.zero_float) m plain kind all)
          (float_step (λ _. x) name kind)
    run_call-AreNamed default (histogram_observe name labels x) m (plain, kind) all =
        let own = non_empty lib t quote default (lookup name m.buckets) in
        update_var-AreNamed (on_histogram lib t quote x) name _
          (get-IsGiven t quote name labels (histogram_var (new_histogram lib own)) m plain
            (kind, length-zeros own) all)
          (histogram_step x name kind)

    run_calls-AreNamed :
        (default : List F) (calls : List (MetricCall F)) (m : Registry F)
        → All FitsKind calls
        → AreNamed m
        → (n : Registry F) × (run_calls lib t quote default calls m ≡ some n) × AreNamed n
    unfolding run_calls
    run_calls-AreNamed default [] m fits all = (m, refl, all)
    run_calls-AreNamed default (c ∷ calls) m fits all =
        let (n, one, next) = run_call-AreNamed default c m fits.0 all in
        let (o, rest, last) = run_calls-AreNamed default calls n fits.1 next in
        (o, rw (one, rest) refl, last)

    recorded-FitsKind : (r : Recording F) → All FitsKind (recorded r)
    unfolding recorded record_evaluation record_batch_latency record_config_apply
        record_propagation_lag record_snapshot_generation record_snapshot_flags record_http_request
        record_panic str_eq
    recorded-FitsKind (evaluation flag env reason true x) = ground arith
    recorded-FitsKind (evaluation flag env reason false x) = ground arith
    recorded-FitsKind (batch_latency x) = ground arith
    recorded-FitsKind (config_apply result x) = ground arith
    recorded-FitsKind (propagation_lag x) = ground arith
    recorded-FitsKind (generation_set env x) = ground arith
    recorded-FitsKind (flags_set env x) = ground arith
    recorded-FitsKind (http_request route method status x) = ground arith
    recorded-FitsKind (panicked site) = ground arith

    all_recorded-FitsKind : (rs : List (Recording F)) → All FitsKind (all_recorded rs)
    all_recorded-FitsKind [] = tt
    all_recorded-FitsKind (r ∷ rs) =
        All-append FitsKind (recorded r) (all_recorded rs) (recorded-FitsKind r)
          (all_recorded-FitsKind rs)

    -- Whatever the recorder is told of, in any order and with any labels and numbers, the calls that it
    -- makes on a new registry never panic: none takes a histogram for a number or counts out of range.
    pub run_calls-total :
        (default : List F) (buckets : Map (List F)) (rs : List (Recording F))
        → (n : Registry F) × (run_calls lib t quote default (all_recorded rs) (new_registry buckets)
            ≡ some n)
    run_calls-total default buckets rs =
        let (n, e, all) =
          run_calls-AreNamed default (all_recorded rs) (new_registry buckets)
            (all_recorded-FitsKind rs) tt in
        (n, e)
