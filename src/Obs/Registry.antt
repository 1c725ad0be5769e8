-- ===== src/Obs/Registry.antt =====
-- internal/obs/metrics.go: the registry of series, `ExpvarMetrics`. A variable is held in `series` under
-- its key, and what the code hands out as a pointer to it is the key; `root` names what is exposed. The
-- two counters of the guard stay below 2^63.
pub mod Capped
mod Examples
use feature_flag_service.Common.{
  ℕ, ◌+◌, leb, Bool, Bytes, codes, List, [], ◌∷◌, ◌++◌, Option, none, some, if◌then◌else◌, length,
  Map, lookup, insert, ◌>>=◌,
}
use feature_flag_service.Common.Text.{TextLib}
use feature_flag_service.Obs.Labels.{Label, sanitize_labels, series_key}
use feature_flag_service.Obs.Histogram.{FloatLib, Histogram, new_histogram, observe}

-- The two kinds of expvar.Var of a series.
pub data Var (F : Type 0) : Type 0 where
  float_var : F → Var F
  histogram_var : Histogram F → Var F

-- `ExpvarMetrics`
pub record Registry (F : Type 0) : Type 0 where
  pub series : Map (Var F)
  pub root : List Bytes
  pub max_series : ℕ
  pub buckets : Map (List F)
  pub dropped : ℕ
  pub overflow : ℕ

abbrev pub default_max_series : ℕ
default_max_series = 5000

abbrev pub overflow_key : Bytes → Bytes
overflow_key name = name ++ codes "{__overflow__}"

abbrev pub names_labels_dropped : Bytes
names_labels_dropped = codes "flagsvc_metrics_labels_dropped_total"

abbrev pub names_series_overflow : Bytes
names_series_overflow = codes "flagsvc_metrics_series_overflow_total"

-- Without the boundaries that `NewExpvarMetrics` sets, which are given.
abbrev pub new_registry : {F : Type 0} → Map (List F) → Registry F
new_registry buckets = record {
  series = [];
  root = names_labels_dropped ∷ (names_series_overflow ∷ []);
  max_series = default_max_series;
  buckets = buckets;
  dropped = 0;
  overflow = 0;
}

module _ {F : Type 0} where
  abbrev pub set_max_series : ℕ → Registry F → Registry F
  set_max_series n m = record {
    series = m.series;
    root = m.root;
    max_series = n;
    buckets = m.buckets;
    dropped = m.dropped;
    overflow = m.overflow;
  }

  -- The boundaries come sorted here.
  unfoldable pub set_buckets : Bytes → List F → Registry F → Registry F
  set_buckets name bounds m = record {
    series = m.series;
    root = m.root;
    max_series = m.max_series;
    buckets = insert name bounds m.buckets;
    dropped = m.dropped;
    overflow = m.overflow;
  }

  abbrev pub with_dropped : ℕ → Registry F → Registry F
  with_dropped n m = record {
    series = m.series;
    root = m.root;
    max_series = m.max_series;
    buckets = m.buckets;
    dropped = m.dropped + n;
    overflow = m.overflow;
  }

  abbrev pub with_overflow : Registry F → Registry F
  with_overflow m = record {
    series = m.series;
    root = m.root;
    max_series = m.max_series;
    buckets = m.buckets;
    dropped = m.dropped;
    overflow = m.overflow + 1;
  }

  abbrev pub with_var : Bytes → Var F → Registry F → Registry F
  with_var k v m = record {
    series = insert k v m.series;
    root = k ∷ m.root;
    max_series = m.max_series;
    buckets = m.buckets;
    dropped = m.dropped;
    overflow = m.overflow;
  }

  -- The end of `get`, on the variable that is there under the key.
  abbrev pub or_new : Bytes → Var F → Option (Var F) → Registry F → Registry F × Bytes
  or_new k v (some there) m = (m, k)
  or_new k v none m = (with_var k v m, k)

  -- `get` behind the guard: the key of the labels, what is there under it, and the variable that is
  -- made if need be.
  abbrev pub get_by_key : Bytes → Bytes → Var F → Option (Var F) → Registry F → Registry F × Bytes
  get_by_key name k v (some there) m = (m, k)
  get_by_key name k v none m =
      if leb m.max_series (length m.series)
      then or_new (overflow_key name) v (lookup (overflow_key name) m.series) (with_overflow m)
      else (with_var k v m, k)

  module _ (t : TextLib) (quote : Bytes → Bytes) where
    -- `key`
    unfoldable pub key : Bytes → List Label → Registry F → Registry F × Bytes
    unfolding sanitize_labels series_key
    key name labels m =
        let (kept, dropped) = sanitize_labels t labels in
        (with_dropped (length dropped) m, series_key quote name kept)

    -- `get`
    unfoldable pub get : Bytes → List Label → Var F → Registry F → Registry F × Bytes
    unfolding key lookup
    get name labels v m =
        let (n, k) = key name labels m in get_by_key name k v (lookup k n.series) n

  -- Any sequence of calls of `get`: a name, labels, and the variable to make.
  unfoldable pub get_all :
      (t : TextLib) (quote : Bytes → Bytes)
      → List (Bytes × List Label × Var F)
      → Registry F
      → Registry F
  unfolding get
  get_all t quote [] m = m
  get_all t quote ((name, labels, v) ∷ calls) m =
      get_all t quote calls (get t quote name labels v m).0
