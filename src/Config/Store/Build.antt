-- ===== src/Config/Store/Build.antt =====
-- The body of `buildEnvLocked` of internal/config/store.go up to publication: the layers of one
-- environment are checked, each flag of the base is merged and checked or carried over, orphans are
-- quarantined, and the guards of the environment are applied.
use feature_flag_service.Common.{
  ℕ, ◌/◌, ltb, ℤ, Bool, true, false, ◌||◌, map, Bytes, codes, List, [], ◌∷◌, ◌++◌, Option, none,
  some, if◌then◌else◌, length, Map, lookup, insert, keys,
}
use feature_flag_service.Core.Model.{Flag}
use feature_flag_service.Config.Layer.{
  LayerId, layer_none, layer_base, layer_overlay, layer_ops, BaseFlag, OverlayFlag, OpsOverride,
  OverlayLayer, OpsLayer,
}
use feature_flag_service.Config.Findings.{
  Finding, Findings, severity_reject_flag, severity_reject_env, severity_reject_global, rejections,
  warns, for_flag, filter_findings, when,
}
use feature_flag_service.Config.Merge.{Merged, merge_flag}
use feature_flag_service.Config.Merge.Fields.{field_key, field_name}
use feature_flag_service.Config.Resolved.{validate_resolved, member}
use feature_flag_service.Config.Premerge.Overlay.{validate_overlay}
use feature_flag_service.Config.Premerge.Ops.{validate_ops, ops_expired}
use feature_flag_service.Config.Snapshot.{
  FlagProvenance, ResolvedSnapshot, SnapshotBuilder, new_snapshot_builder, add_flag,
  add_quarantined, mark_quarantined, warn, snapshot_flag, snapshot_provenance, sort_strings,
  is_some,
}

-- QuarantineFloor, MaxFlagsPerEnv
abbrev pub quarantine_floor : ℕ
quarantine_floor = 20

abbrev pub max_flags_per_env : ℕ
max_flags_per_env = 20000

-- `int(float64(totalFlags) * 0.05)`: 0.05 as a double exceeds 1/20 by a factor of 1 + 2^-54, so up to
-- 2^48 flags the product rounds to the exact multiple or stays between two whole numbers, and its
-- whole part is that of totalFlags / 20.
unfoldable pub quarantine_budget : ℕ → ℕ
quarantine_budget total =
    let budget = total / 20 in if ltb budget quarantine_floor then quarantine_floor else budget

-- `f.Severity >= SeverityRejectEnv`
abbrev pub rejects_env : Finding → Bool
rejects_env f = elim f.severity [
  | severity_reject_env ↦ true
  | severity_reject_global ↦ true
  | _ ↦ false
]

-- The overlay's flags by key; a later entry takes the place of an earlier one.
unfoldable pub index_overlay : List OverlayFlag → Map OverlayFlag → Map OverlayFlag
index_overlay [] m = m
index_overlay (f ∷ fs) m = index_overlay fs (insert f.key f m)

-- The overrides that have not expired, by key.
unfoldable pub index_ops : ℤ → List OpsOverride → Map OpsOverride → Map OpsOverride
unfolding ops_expired
index_ops now [] m = m
index_ops now (o ∷ os) m = index_ops now os (if ops_expired now o then m else insert o.key o m)

abbrev pub overlay_flags : Option OverlayLayer → List OverlayFlag
overlay_flags none = []
overlay_flags (some l) = l.flags

abbrev pub ops_overrides : Option OpsLayer → List OpsOverride
ops_overrides none = []
ops_overrides (some l) = l.overrides

-- The builder, and the findings that accompany it.
pub record Progress : Type 0 where
  pub builder : SnapshotBuilder
  pub quarantined : Findings
  pub warnings : Findings

-- The closure `carry`: the last version of a flag, if there is one.
abbrev pub provenance_or_empty : Option FlagProvenance → FlagProvenance
provenance_or_empty none = record { key = []; fields = λ f. layer_none }
provenance_or_empty (some p) = p

abbrev pub carry_found :
    Bytes → Option FlagProvenance → Option Flag → SnapshotBuilder → SnapshotBuilder
carry_found key prov none b = mark_quarantined key b
carry_found key prov (some f) b = add_quarantined f (provenance_or_empty prov) b

unfoldable pub carry : Option ResolvedSnapshot → Bytes → SnapshotBuilder → SnapshotBuilder
unfolding mark_quarantined add_quarantined snapshot_flag snapshot_provenance
carry none key b = mark_quarantined key b
carry (some prev) key b = carry_found key (snapshot_provenance prev key) (snapshot_flag prev key) b

unfoldable pub quarantine : Option ResolvedSnapshot → Bytes → Findings → Progress → Progress
unfolding carry
quarantine prev key fs p = record p {
  builder = carry prev key p.builder;
  quarantined = p.quarantined ++ fs;
}

abbrev pub has_findings : Findings → Bool
has_findings [] = false
has_findings (f ∷ fs) = true

-- What the loop over the base needs of the environment.
pub record Inputs : Type 0 where
  pub env : Bytes
  pub previous : Option ResolvedSnapshot
  pub overlay_findings : Findings
  pub ops_findings : Findings
  pub overlay_by_key : Map OverlayFlag
  pub ops_by_key : Map OpsOverride

-- M02
unfoldable pub orphan_finding : Bytes → Bytes → LayerId → Finding
orphan_finding env key layer = record {
  rule_id = codes "M02";
  flag = key;
  env = env;
  layer = layer;
  field = field_name field_key;
  severity = severity_reject_flag;
}

abbrev pub layer_or_none : Option LayerId → LayerId
layer_or_none none = layer_none
layer_or_none (some l) = l

module _ (i : Inputs) where
  -- The rejections of the single layers for one flag.
  abbrev pub flag_rejections : Bytes → Findings
  flag_rejections key =
      rejections (for_flag key i.overlay_findings) ++ rejections (for_flag key i.ops_findings)

  abbrev pub merged : BaseFlag → Merged
  merged bf = merge_flag bf (lookup bf.key i.overlay_by_key) (lookup bf.key i.ops_by_key)

  abbrev pub post_findings : BaseFlag → Findings
  post_findings bf =
      validate_resolved i.env (merged bf).flag bf (lookup bf.key i.overlay_by_key)
        (lookup bf.key i.ops_by_key) (merged bf).layers

  abbrev pub warned : Findings → Progress → Progress
  warned fs p = record p { warnings = p.warnings ++ warns fs }

  abbrev pub added : Merged → Progress → Progress
  added m p = record p {
    builder = add_flag m.flag (record { key = m.flag.key; fields = m.layers }) p.builder;
  }

  -- A flag that was merged: carried over if the result is rejected, else added.
  unfoldable pub build_merged : BaseFlag → Progress → Progress
  unfolding quarantine add_flag
  build_merged bf p =
      let checked = warned (post_findings bf) p in
      if has_findings (rejections (post_findings bf))
      then quarantine i.previous bf.key (rejections (post_findings bf)) checked
      else added (merged bf) checked

  -- One round of the loop over the base.
  unfoldable pub build_flag : BaseFlag → Progress → Progress
  unfolding quarantine build_merged
  build_flag bf p =
      if has_findings (flag_rejections bf.key)
      then quarantine i.previous bf.key (flag_rejections bf.key) p
      else build_merged bf p

  unfoldable pub build_flags : List BaseFlag → Progress → Progress
  unfolding build_flag
  build_flags [] p = p
  build_flags (bf ∷ flags) p = build_flags flags (build_flag bf p)

  -- The loop over the orphans, in the order of the keys.
  unfoldable pub build_orphans : Map LayerId → List Bytes → Progress → Progress
  unfolding quarantine orphan_finding
  build_orphans orphans [] p = p
  build_orphans orphans (k ∷ ks) p =
      build_orphans orphans ks
        (quarantine i.previous k (orphan_finding i.env k (layer_or_none (lookup k orphans)) ∷ []) p)

-- The layers of the keys that have no base entry: the overlay's, then those of the ops layer alone.
unfoldable pub overlay_orphans : List Bytes → List Bytes → Map LayerId → Map LayerId
overlay_orphans base_keys [] m = m
overlay_orphans base_keys (k ∷ ks) m =
    overlay_orphans base_keys ks (if member k base_keys then m else insert k layer_overlay m)

unfoldable pub ops_orphans : List Bytes → List Bytes → Map LayerId → Map LayerId
ops_orphans base_keys [] m = m
ops_orphans base_keys (k ∷ ks) m =
    ops_orphans base_keys ks
      (if member k base_keys || is_some (lookup k m) then m else insert k layer_ops m)

abbrev pub base_keys_of : List BaseFlag → List Bytes
base_keys_of flags = map (λ (f : BaseFlag). f.key) flags

unfoldable pub orphans_of : Inputs → List BaseFlag → Map LayerId
unfolding overlay_orphans ops_orphans
orphans_of i flags =
    ops_orphans (base_keys_of flags) (keys i.ops_by_key)
      (overlay_orphans (base_keys_of flags) (keys i.overlay_by_key) [])

abbrev pub start_progress : Inputs → Progress
start_progress i = record {
  builder = new_snapshot_builder i.env;
  quarantined = [];
  warnings = warns i.overlay_findings ++ warns i.ops_findings;
}

-- The build up to its guards, from the findings of the layers.
unfoldable pub resolve_flags : Inputs → List BaseFlag → Progress
unfolding build_flags build_orphans orphans_of new_snapshot_builder sort_strings warn
resolve_flags i flags =
    let p =
      build_orphans i (orphans_of i flags) (sort_strings (keys (orphans_of i flags)))
        (build_flags i flags (start_progress i)) in
    record p { builder = warn p.warnings p.builder }

abbrev pub env_finding : Bytes → Bytes → LayerId → Finding
env_finding id env layer = record {
  rule_id = id;
  flag = [];
  env = env;
  layer = layer;
  field = [];
  severity = severity_reject_env;
}

-- M13 and M15
unfoldable pub guard_findings : Bytes → ℕ → SnapshotBuilder → Findings
unfolding quarantine_budget
guard_findings env total b =
    when (ltb max_flags_per_env (length b.flags)) (env_finding (codes "M13") env layer_base)
    ++ when (ltb (quarantine_budget total) (length b.quarantined))
        (env_finding (codes "M15") env layer_none)

-- The rejections of the layers that stop the environment.
unfoldable pub layer_rejections : Findings → Findings → Findings
layer_rejections ov ops =
    filter_findings rejects_env (rejections ov) ++ filter_findings rejects_env (rejections ops)

unfoldable pub inputs_of :
    Bytes → ℤ → Option ResolvedSnapshot → Option OverlayLayer → Option OpsLayer → Inputs
unfolding index_overlay index_ops validate_overlay validate_ops
inputs_of env now previous ov ops = record {
  env = env;
  previous = previous;
  overlay_findings = validate_overlay ov;
  ops_findings = validate_ops ops now;
  overlay_by_key = index_overlay (overlay_flags ov) [];
  ops_by_key = index_ops now (ops_overrides ops) [];
}
