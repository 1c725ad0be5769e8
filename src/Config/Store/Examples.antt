-- ===== src/Config/Store/Examples.antt =====
-- A store that is pushed a base, then an overlay whose default has the wrong type.
use feature_flag_service.Common.{
  ◌≡◌, ◌≢◌, refl, inl, ℕ, ◌^◌, true, false, pos, Bytes, codes, is_empty, str_eq, [], ◌∷◌, none,
  some, Option, List, lookup, insert, All,
}
use feature_flag_service.Core.Value.{bool, string, unset, type_bool, type_unknown}
use feature_flag_service.Core.Model.{Flag, order_unspecified, type_mismatch}
use feature_flag_service.Core.Context.{EvalContext}
use feature_flag_service.Core.Bucket.{xx_bucket}
use feature_flag_service.Core.Evaluator.{evaluate}
use feature_flag_service.Core.Evaluator.Decision.{total}
use feature_flag_service.Core.Evaluator.Ramp.{key_for}
use feature_flag_service.Config.Opt.{absent, value}
use feature_flag_service.Config.Layer.{BaseLayer, OverlayLayer}
use feature_flag_service.Config.Snapshot.{ResolvedSnapshot, as_snapshot}
use feature_flag_service.Config.Store.State.{
  base_layer, overlay_layer, Store, EnvState, env_or_empty, empty_env,
}
use feature_flag_service.Config.Store.Subscribe.{receive}
use feature_flag_service.Config.Store.Steps.{Action, push, subscribe_to, receive_in, perform_all}
use feature_flag_service.Config.Store.Keep.{evaluate-store_snapshot}
use feature_flag_service.Config.Store.Outcome.{IsOutcome, build_env-IsOutcome}
use feature_flag_service.Config.Store.Converge.{SameContent, receive-SameContent}
use feature_flag_service.Config.Store.Isolation.{set_layer-lookup}
use feature_flag_service.Core.Semver.{lex_compare}
use feature_flag_service.Core.Value.{type_eq, parse_value_type, value_type, is_unknown}
use feature_flag_service.Config.Layer.{to_core, parse_evaluation_order, wire_rules_to_core}
use feature_flag_service.Config.Findings.{
  has_rejections, filter_findings, rejections, warns, for_flag,
}
use feature_flag_service.Config.Opt.{get, or_else, is_absent, is_null, is_value}
use feature_flag_service.Config.Merge.{
  base_layers, merge_base, supply, set_default, set_rules, overlay_rules, merge_overlay, merge_ops,
  merge_flag,
}
use feature_flag_service.Config.Resolved.{
  member, clash_findings, rule_findings, default_findings, rollout_findings, no_rollout_findings,
  order_findings, appended_rules, validate_resolved,
}
use feature_flag_service.Config.Premerge.{is_flag_key}
use feature_flag_service.Config.Premerge.Rules.{rules_findings, validate_rule_list}
use feature_flag_service.Config.Premerge.Base.{
  missing_findings, base_type_findings, base_flag_findings, base_flags_findings, validate_base,
}
use feature_flag_service.Config.Premerge.Overlay.{
  overlay_rule_findings, overlay_rollout_findings, overlay_flag_findings, overlay_flags_findings,
  validate_overlay,
}
use feature_flag_service.Config.Premerge.Ops.{validate_ops}
use feature_flag_service.Config.Snapshot.{
  insert_sorted, sort_strings, snapshot_flag, snapshot_provenance, quarantined_keys, written_all,
  fingerprint, new_snapshot_builder, add_flag, mark_quarantined, add_quarantined, warn, build,
}
use feature_flag_service.Config.Store.Build.{
  quarantine_budget, index_overlay, index_ops, carry, quarantine, orphan_finding, build_merged,
  build_flag, build_flags, build_orphans, overlay_orphans, ops_orphans, orphans_of, resolve_flags,
  guard_findings, layer_rejections, inputs_of,
}
use feature_flag_service.Config.Store.State.{same_keys, offer, notify, ensure_env, environments}
use feature_flag_service.Config.Store.Push.{
  content_unchanged, publish, guarded, build_env_on, build_env, build_env_locked, build_all,
  set_base, set_overlay, set_layer,
}
use feature_flag_service.Config.Store.Subscribe.{
  subscribe_env, receive_from, receive_env, subscribe, receive_next, store_snapshot, get_flag,
  env_table, new_store,
}

abbrev prod : Bytes
prod = codes "prod"

abbrev catalogue : BaseLayer
catalogue = record {
  schema_version = pos 1;
  flags =
      record {
        key = codes "checkout";
        type = codes "bool";
        owner = codes "payments";
        description = [];
        enabled = true;
        default_value = bool false;
        off_value = unset;
        rules = [];
        rollout = none;
        evaluation_order = [];
        missing = [];
      }
      ∷ [];
}

abbrev mistyped : OverlayLayer
mistyped = record {
  schema_version = pos 1;
  environment = prod;
  flags =
      record {
        key = codes "checkout";
        type = absent;
        enabled = absent;
        default_value = value (string (codes "on"));
        off_value = absent;
        rules = absent;
        rules_mode = absent;
        rollout = absent;
        evaluation_order = absent;
      }
      ∷ [];
}

abbrev marshal : Flag → Option Bytes
marshal f = some f.key

abbrev digest : Bytes → Bytes
digest b = b

abbrev calls : List Action
calls =
    subscribe_to prod
    ∷ push (pos 1) (base_layer (some catalogue))
    ∷ push (pos 2) (overlay_layer mistyped)
    ∷ receive_in prod (pos 0)
    ∷ []

abbrev environments_named : List Bytes
environments_named = prod ∷ codes "dev" ∷ []

abbrev checkout : Flag
checkout = record {
  key = codes "checkout";
  type = type_bool;
  enabled = true;
  default_value = bool false;
  off_value = bool false;
  rules = [];
  rollout = none;
  evaluation_order = order_unspecified;
}

abbrev after : Store
after = perform_all marshal digest calls (new_store environments_named)

abbrev slot : EnvState
slot = env_or_empty (lookup prod after.envs)

abbrev snapshot_or_empty : Option ResolvedSnapshot → ResolvedSnapshot
snapshot_or_empty none = build (pos 0) (pos 0) (new_snapshot_builder [])
snapshot_or_empty (some s) = s

abbrev served : ResolvedSnapshot
served = snapshot_or_empty slot.cur

-- The flag that the overlay broke is served as it was.
computed :
    (lookup prod after.envs ≡ some slot)
    × (slot.cur ≡ some served)
    × (store_snapshot after prod ≡ some served)
    × (served.generation ≡ pos 2)
    × (get_flag after (codes "checkout") prod ≡ some checkout)
unfolding lex_compare str_eq is_empty lookup insert type_eq parse_value_type value_type is_unknown
    to_core parse_evaluation_order wire_rules_to_core has_rejections filter_findings rejections
    warns for_flag get or_else is_absent is_null is_value base_layers merge_base supply set_default
    set_rules overlay_rules merge_overlay merge_ops merge_flag member clash_findings rule_findings
    default_findings rollout_findings no_rollout_findings order_findings appended_rules
    validate_resolved is_flag_key rules_findings validate_rule_list missing_findings
    base_type_findings base_flag_findings base_flags_findings validate_base overlay_rule_findings
    overlay_rollout_findings overlay_flag_findings overlay_flags_findings validate_overlay
    validate_ops insert_sorted sort_strings snapshot_flag snapshot_provenance quarantined_keys
    written_all fingerprint new_snapshot_builder add_flag mark_quarantined add_quarantined warn
    build quarantine_budget index_overlay index_ops carry quarantine orphan_finding build_merged
    build_flag build_flags build_orphans overlay_orphans ops_orphans orphans_of resolve_flags
    guard_findings layer_rejections inputs_of same_keys offer notify ensure_env environments
    content_unchanged publish guarded build_env_on build_env build_env_locked build_all set_base
    set_overlay set_layer subscribe_env receive_from receive_env subscribe receive_next
    store_snapshot get_flag env_table new_store
computed = (refl, refl, refl, refl, refl)

receive-SameContent_example :
    All (λ sub. SameContent marshal digest slot.cur (receive sub).taken) slot.subs
receive-SameContent_example =
    receive-SameContent marshal digest environments_named calls prod slot computed.0

abbrev sum : Bytes → ℕ
sum b = 2 ^ 63

abbrev visitor : EvalContext
visitor = record { user_id = codes "u-42"; tenant_id = []; attributes = [] }

evaluate-store_snapshot_example :
    (evaluate
      (total key_for (xx_bucket sum) none)
      (some (as_snapshot served))
      (codes "checkout")
      visitor
      type_unknown
      (bool true)).0.reason
    ≢ type_mismatch
evaluate-store_snapshot_example =
    evaluate-store_snapshot marshal digest key_for (xx_bucket sum) environments_named calls prod
      served none (codes "checkout") visitor type_unknown (bool true) computed.2 tt
      (λ f e. inl refl)

build_env-IsOutcome_example :
    IsOutcome
      (some catalogue)
      none
      none
      prod
      (pos 1)
      empty_env
      (build_env marshal digest (some catalogue) none none prod (pos 1) empty_env)
build_env-IsOutcome_example =
    build_env-IsOutcome marshal digest (some catalogue) none none prod (pos 1) empty_env

set_layer-lookup_example :
    lookup (codes "dev") (set_layer marshal digest (pos 3) (overlay_layer mistyped) after).0.envs
    ≡ lookup (codes "dev") after.envs
unfolding str_eq
set_layer-lookup_example =
    set_layer-lookup marshal digest (pos 3) (overlay_layer mistyped) (codes "dev") after refl
