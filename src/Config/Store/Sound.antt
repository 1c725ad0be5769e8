-- ===== src/Config/Store/Sound.antt =====
-- What a build puts into the snapshot: flags that validation accepted, and flags of the snapshot
-- before.
use feature_flag_service.Common.{
  ◌≡◌, refl, inl, inr, false, Bytes, List, [], ◌∷◌, Option, none, some, Map, lookup, keys, All,
  AllValues, AllValues-insert, AllValues-lookup, Bool-cases,
}
use feature_flag_service.Core.Model.{Flag}
use feature_flag_service.Config.Layer.{LayerId, BaseFlag}
use feature_flag_service.Config.Findings.{Findings, rejections}
use feature_flag_service.Config.Snapshot.{
  FlagProvenance, ResolvedSnapshot, SnapshotBuilder, add_flag, mark_quarantined, add_quarantined,
  snapshot_flag, snapshot_provenance, sort_strings, warn, new_snapshot_builder,
}
use feature_flag_service.Config.Store.Build.{
  Progress, Inputs, has_findings, carry_found, carry, quarantine, flag_rejections, merged,
  post_findings, build_merged, build_flag, build_flags, build_orphans, resolve_flags, orphans_of,
  start_progress,
}

-- Each flag of a snapshot, if there is one, satisfies `P`.
abbrev pub Held {κ} : (Flag → Type κ) → Option ResolvedSnapshot → Type κ
Held P none = Unit
Held P (some s) = AllValues P s.flags

-- The same of each flag that a lookup in it finds.
abbrev pub Finds {κ} : (Flag → Type κ) → Option ResolvedSnapshot → Type κ
Finds P none = Unit
Finds P (some s) = (key : Bytes) (f : Flag) → lookup key s.flags ≡ some f → P f

pub Held-Finds {κ} :
    (P : Flag → Type κ) (prev : Option ResolvedSnapshot) → Held P prev → Finds P prev
Held-Finds P none h = tt
Held-Finds P (some s) h = λ key f e. AllValues-lookup P key f s.flags e h

pub has_findings-none : (fs : Findings) → has_findings fs ≡ false → fs ≡ []
has_findings-none [] h = refl
has_findings-none (f ∷ fs) h = absurd (cc)

module _ {κ} (P : Flag → Type κ) where
  carry_found-All :
      (key : Bytes) (prov : Option FlagProvenance) (f : Option Flag) (b : SnapshotBuilder)
      → ((g : Flag) → f ≡ some g → P g)
      → AllValues P b.flags
      → AllValues P (carry_found key prov f b).flags
  unfolding mark_quarantined add_quarantined add_flag
  carry_found-All key prov none b held h = h
  carry_found-All key prov (some f) b held h = AllValues-insert P f.key f b.flags (held f refl) h

  carry-All :
      (prev : Option ResolvedSnapshot) (key : Bytes) (b : SnapshotBuilder)
      → Finds P prev
      → AllValues P b.flags
      → AllValues P (carry prev key b).flags
  unfolding carry mark_quarantined snapshot_flag
  carry-All none key b held h = h
  carry-All (some s) key b held h =
      carry_found-All key (snapshot_provenance s key) (lookup key s.flags) b (λ g e. held key g e) h

  -- The merge of an entry satisfies `P` if validation accepts it.
  abbrev pub Accepted : Inputs → BaseFlag → Type κ
  Accepted i bf = rejections (post_findings i bf) ≡ [] → P (merged i bf).flag

  module _ (i : Inputs) (held : Finds P i.previous) where
    build_merged-All :
        (bf : BaseFlag) (p : Progress)
        → Accepted i bf
        → AllValues P p.builder.flags
        → AllValues P (build_merged i bf p).builder.flags
    unfolding build_merged quarantine add_flag
    build_merged-All bf p fresh h =
        elim (Bool-cases (has_findings (rejections (post_findings i bf)))) [
          | inl rejected ↦ rw rejected (carry-All i.previous bf.key p.builder held h)
          | inr accepted ↦ rw accepted (
              AllValues-insert P (merged i bf).flag.key (merged i bf).flag p.builder.flags
                (fresh (has_findings-none _ accepted)) h)
        ]

    build_flag-All :
        (bf : BaseFlag) (p : Progress)
        → Accepted i bf
        → AllValues P p.builder.flags
        → AllValues P (build_flag i bf p).builder.flags
    unfolding build_flag quarantine
    build_flag-All bf p fresh h = elim (Bool-cases (has_findings (flag_rejections i bf.key))) [
      | inl rejected ↦ rw rejected (carry-All i.previous bf.key p.builder held h)
      | inr clean ↦ rw clean (build_merged-All bf p fresh h)
    ]

    build_flags-All :
        (flags : List BaseFlag) (p : Progress)
        → All (Accepted i) flags
        → AllValues P p.builder.flags
        → AllValues P (build_flags i flags p).builder.flags
    unfolding build_flags
    build_flags-All [] p fresh h = h
    build_flags-All (bf ∷ flags) p fresh h =
        build_flags-All flags (build_flag i bf p) fresh.1 (build_flag-All bf p fresh.0 h)

    build_orphans-All :
        (orphans : Map LayerId) (ks : List Bytes) (p : Progress)
        → AllValues P p.builder.flags
        → AllValues P (build_orphans i orphans ks p).builder.flags
    unfolding build_orphans quarantine
    build_orphans-All orphans [] p h = h
    build_orphans-All orphans (k ∷ ks) p h =
        build_orphans-All orphans ks _ (carry-All i.previous k p.builder held h)

    -- What holds of the flags held before and of the merge of every entry that validation accepts holds of
    -- every flag of the build.
    pub resolve_flags-All :
        (flags : List BaseFlag)
        → All (Accepted i) flags
        → AllValues P (resolve_flags i flags).builder.flags
    unfolding resolve_flags warn new_snapshot_builder
    resolve_flags-All flags fresh =
        build_orphans-All (orphans_of i flags) (sort_strings (keys (orphans_of i flags)))
          (build_flags i flags (start_progress i))
          (build_flags-All flags (start_progress i) fresh tt)
