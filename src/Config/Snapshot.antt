-- ===== src/Config/Snapshot.antt =====
-- internal/config/snapshot.go: a resolved snapshot and its builder. A Go set is a map to the unit;
-- copies made for the reader's safety are the values themselves. `marshal` and `digest` stand for
-- json.Marshal on a flag and for the hex digits of SHA-256.
use feature_flag_service.Common.{
  ℕ, ℤ, Bool, true, false, Bytes, codes, List, [], ◌∷◌, ◌++◌, Option, none, some, if◌then◌else◌,
  length, Map, lookup, insert, keys,
}
use feature_flag_service.Core.Model.{Flag}
use feature_flag_service.Core.Semver.{less, cmp_nat, lex_compare}
use feature_flag_service.Core.Trace.{returns}
use feature_flag_service.Core.Evaluator.{Snapshot}
use feature_flag_service.Config.Findings.{Findings}
use feature_flag_service.Config.Merge.Fields.{Layers}

-- `FlagProvenance` of merge.go
pub record FlagProvenance : Type 0 where
  pub key : Bytes
  pub fields : Layers

-- `sort.Strings`
abbrev pub is_before : Bytes → Bytes → Bool
is_before s t = elim (lex_compare cmp_nat s t) [ less ↦ true | _ ↦ false ]

unfoldable pub insert_sorted : Bytes → List Bytes → List Bytes
insert_sorted s [] = s ∷ []
insert_sorted s (t ∷ ts) = if is_before s t then s ∷ (t ∷ ts) else t ∷ insert_sorted s ts

unfoldable pub sort_strings : List Bytes → List Bytes
unfolding insert_sorted
sort_strings [] = []
sort_strings (s ∷ ss) = insert_sorted s (sort_strings ss)

pub record ResolvedSnapshot : Type 0 where
  pub env : Bytes
  pub generation : ℤ
  pub built_at : ℤ
  pub flags : Map Flag
  pub provenance : Map FlagProvenance
  pub quarantined : Map (Unit {0})
  pub warnings : Findings
  pub sorted_keys : List Bytes

unfoldable pub snapshot_flag : ResolvedSnapshot → Bytes → Option Flag
snapshot_flag s key = lookup key s.flags

unfoldable pub snapshot_provenance : ResolvedSnapshot → Bytes → Option FlagProvenance
snapshot_provenance s key = lookup key s.provenance

abbrev pub is_some {ℓ} : {A : Type ℓ} → Option A → Bool
is_some none = false
is_some (some a) = true

unfoldable pub is_quarantined : ResolvedSnapshot → Bytes → Bool
is_quarantined s key = is_some (lookup key s.quarantined)

unfoldable pub quarantined_keys : ResolvedSnapshot → List Bytes
unfolding sort_strings
quarantined_keys s = sort_strings (keys s.quarantined)

unfoldable pub quarantined_count : ResolvedSnapshot → ℕ
quarantined_count s = length s.quarantined

unfoldable pub snapshot_len : ResolvedSnapshot → ℕ
snapshot_len s = length s.flags

-- The methods `Generation` and `Flag`, as the engine calls them.
abbrev pub found : Option Flag → Option Flag × Bool
found none = (none, false)
found (some f) = (some f, true)

abbrev pub as_snapshot : ResolvedSnapshot → Snapshot
as_snapshot s = record {
  generation = returns s.generation;
  flag = λ key. returns (found (snapshot_flag s key));
}

module _ (marshal : Flag → Option Bytes) (digest : Bytes → Bytes) where
  -- The bytes that the hash is given for one key; a missing flag is a nil pointer, marshalled to null.
  abbrev pub written : Bytes → Option Flag → Bytes
  written key none = key ++ (0 ∷ (codes "null" ++ (0 ∷ [])))
  written key (some f) = elim (marshal f) [
    | none ↦ key ++ (0 ∷ codes "!marshal-error")
    | some b ↦ key ++ (0 ∷ (b ++ (0 ∷ [])))
  ]

  unfoldable pub written_all : Map Flag → List Bytes → Bytes
  written_all flags [] = []
  written_all flags (k ∷ ks) = written k (lookup k flags) ++ written_all flags ks

  unfoldable pub fingerprint : ResolvedSnapshot → Bytes
  unfolding written_all
  fingerprint s = digest (written_all s.flags s.sorted_keys)

pub record SnapshotBuilder : Type 0 where
  pub env : Bytes
  pub flags : Map Flag
  pub provenance : Map FlagProvenance
  pub quarantined : Map (Unit {0})
  pub warnings : Findings

unfoldable pub new_snapshot_builder : Bytes → SnapshotBuilder
new_snapshot_builder env = record {
  env = env;
  flags = [];
  provenance = [];
  quarantined = [];
  warnings = [];
}

unfoldable pub add_flag : Flag → FlagProvenance → SnapshotBuilder → SnapshotBuilder
add_flag f prov b = record b {
  flags = insert f.key f b.flags;
  provenance = insert f.key prov b.provenance;
}

unfoldable pub mark_quarantined : Bytes → SnapshotBuilder → SnapshotBuilder
mark_quarantined key b = record b { quarantined = insert key tt b.quarantined }

unfoldable pub add_quarantined : Flag → FlagProvenance → SnapshotBuilder → SnapshotBuilder
unfolding add_flag mark_quarantined
add_quarantined f prov b = mark_quarantined f.key (add_flag f prov b)

unfoldable pub warn : Findings → SnapshotBuilder → SnapshotBuilder
warn fs b = record b { warnings = b.warnings ++ fs }

unfoldable pub build : ℤ → ℤ → SnapshotBuilder → ResolvedSnapshot
unfolding sort_strings
build generation at b = record {
  env = b.env;
  generation = generation;
  built_at = at;
  flags = b.flags;
  provenance = b.provenance;
  quarantined = b.quarantined;
  warnings = b.warnings;
  sorted_keys = sort_strings (keys b.flags);
}
