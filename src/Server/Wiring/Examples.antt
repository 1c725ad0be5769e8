-- ===== src/Server/Wiring/Examples.antt =====
-- Tests of the admin listener over a store with one environment.
use feature_flag_service.Common.{
  ◌≡◌, refl, true, false, pos, Bytes, codes, is_empty, str_eq, [], ◌∷◌, none, some, Option, List,
  lookup, insert, All,
}
use feature_flag_service.Core.Value.{bool, string, unset}
use feature_flag_service.Core.Model.{Flag}
use feature_flag_service.Config.Opt.{absent, value}
use feature_flag_service.Config.Layer.{BaseLayer, OverlayLayer}
use feature_flag_service.Config.Store.State.{Store, Layer, base_layer}
use feature_flag_service.Config.Store.Steps.{Action, push}
use feature_flag_service.Core.Semver.{lex_compare}
use feature_flag_service.Core.Value.{type_eq, parse_value_type, value_type, is_unknown}
use feature_flag_service.Config.Layer.{to_core, parse_evaluation_order, wire_rules_to_core}
use feature_flag_service.Config.Findings.{
  has_rejections, filter_findings, rejections, warns, for_flag,
}
use feature_flag_service.Config.Opt.{get, or_else, is_absent, is_null, is_value}
use feature_flag_service.Config.Merge.{
  base_layers, merge_base, supply, set_default, set_rules, overlay_rules, merge_overlay, merge_ops,
  merge_flag,
}
use feature_flag_service.Config.Resolved.{
  member, clash_findings, rule_findings, default_findings, rollout_findings, no_rollout_findings,
  order_findings, appended_rules, validate_resolved,
}
use feature_flag_service.Config.Premerge.{is_flag_key}
use feature_flag_service.Config.Premerge.Rules.{rules_findings, validate_rule_list}
use feature_flag_service.Config.Premerge.Base.{
  missing_findings, base_type_findings, base_flag_findings, base_flags_findings, validate_base,
}
use feature_flag_service.Config.Premerge.Overlay.{
  overlay_rule_findings, overlay_rollout_findings, overlay_flag_findings, overlay_flags_findings,
  validate_overlay,
}
use feature_flag_service.Config.Premerge.Ops.{validate_ops}
use feature_flag_service.Config.Snapshot.{
  insert_sorted, sort_strings, snapshot_flag, snapshot_provenance, quarantined_keys, written_all,
  fingerprint, new_snapshot_builder, add_flag, mark_quarantined, add_quarantined, warn, build,
}
use feature_flag_service.Config.Store.Build.{
  quarantine_budget, index_overlay, index_ops, carry, quarantine, orphan_finding, build_merged,
  build_flag, build_flags, build_orphans, overlay_orphans, ops_orphans, orphans_of, resolve_flags,
  guard_findings, layer_rejections, inputs_of,
}
use feature_flag_service.Config.Store.State.{same_keys, offer, notify, ensure_env, environments}
use feature_flag_service.Config.Store.Push.{
  content_unchanged, publish, guarded, build_env_on, build_env, build_env_locked, build_all,
  set_base, set_overlay, set_layer,
}
use feature_flag_service.Config.Store.Subscribe.{store_snapshot, env_table, new_store}
use feature_flag_service.Common.{ℤ, All}
use feature_flag_service.Config.Findings.{Findings}
use feature_flag_service.Config.Store.State.{generation_or_zero}
use feature_flag_service.Config.Snapshot.{snapshot_len}
use feature_flag_service.Common.Text.{ascii}
use feature_flag_service.Http.Errors.{invalid_config}
use feature_flag_service.Http.Requests.{refused, accepted}
use feature_flag_service.Http.Source.{Reply}
use feature_flag_service.Http.Admin.{
  ApplyResult, body_read, applied_gauges, applied_reply, handle_apply_layer,
}
use feature_flag_service.Server.Wiring.{
  env_findings, report_findings, parsed, unparsed, LayerDecoders, layer_of, applied_of,
  report_applied, apply_layer, read_layer,
}
use feature_flag_service.Server.Wiring.Applied.{IsServed, handle_apply_layer-IsServed}

abbrev prod : Bytes
prod = codes "prod"

abbrev catalogue : BaseLayer
catalogue = record {
  schema_version = pos 1;
  flags =
      record {
        key = codes "checkout";
        type = codes "bool";
        owner = codes "payments";
        description = [];
        enabled = true;
        default_value = bool false;
        off_value = unset;
        rules = [];
        rollout = none;
        evaluation_order = [];
        missing = [];
      }
      ∷ [];
}

abbrev mistyped : OverlayLayer
mistyped = record {
  schema_version = pos 1;
  environment = prod;
  flags =
      record {
        key = codes "checkout";
        type = absent;
        enabled = absent;
        default_value = value (string (codes "on"));
        off_value = absent;
        rules = absent;
        rules_mode = absent;
        rollout = absent;
        evaluation_order = absent;
      }
      ∷ [];
}

abbrev marshal : Flag → Option Bytes
marshal f = some f.key

abbrev digest : Bytes → Bytes
digest b = b

abbrev plain_quote : Bytes → Bytes
plain_quote s = s

-- Decoders of two bodies.
abbrev decoders : LayerDecoders
decoders = record {
  envelope = λ b. parsed (record { kind = b; body = [] });
  base = λ b. parsed catalogue;
  overlay = λ b. parsed mistyped;
  ops = λ b. unparsed [];
}

abbrev no_text : Findings → Bytes
no_text fs = codes "findings"

abbrev same_number : ℤ → ℤ
same_number n = n

-- No call comes between the push and what is read after it.
abbrev no_gap : Bytes → List Action
no_gap env = []

-- A push of an empty base comes first.
abbrev emptied : Bytes → List Action
emptied env = push (pos 2) (base_layer (some (record { schema_version = pos 1; flags = [] }))) ∷ []

abbrev pushed_with : (Bytes → List Action) → ℤ → Bytes → Store → Store × Reply ℤ ApplyResult
pushed_with gap now kind =
    handle_apply_layer same_number
      (some (apply_layer marshal digest ascii plain_quote decoders no_text gap now))
      (body_read kind) (pos 0)

abbrev pushed : ℤ → Bytes → Store → Store × Reply ℤ ApplyResult
pushed = pushed_with no_gap

abbrev first_store : Store
first_store = new_store (prod ∷ [])

abbrev told : ApplyResult
told = record {
  applied = record { env = prod; generation = pos 1; flags = 1 } ∷ [];
  flags_changed = prod ∷ [];
}

base_taken : (pushed (pos 1) (codes " Base") first_store).1.answer ≡ accepted told
unfolding handle_apply_layer applied_reply applied_gauges apply_layer layer_of report_applied
    report_findings env_findings applied_of snapshot_len lex_compare str_eq is_empty lookup insert
    type_eq parse_value_type value_type is_unknown to_core parse_evaluation_order wire_rules_to_core
    has_rejections filter_findings rejections warns for_flag get or_else is_absent is_null is_value
    base_layers merge_base supply set_default set_rules overlay_rules merge_overlay merge_ops
    merge_flag member clash_findings rule_findings default_findings rollout_findings
    no_rollout_findings order_findings appended_rules validate_resolved is_flag_key rules_findings
    validate_rule_list missing_findings base_type_findings base_flag_findings base_flags_findings
    validate_base overlay_rule_findings overlay_rollout_findings overlay_flag_findings
    overlay_flags_findings validate_overlay validate_ops insert_sorted sort_strings snapshot_flag
    snapshot_provenance quarantined_keys written_all fingerprint new_snapshot_builder add_flag
    mark_quarantined add_quarantined warn build quarantine_budget index_overlay index_ops carry
    quarantine orphan_finding build_merged build_flag build_flags build_orphans overlay_orphans
    ops_orphans orphans_of resolve_flags guard_findings layer_rejections inputs_of same_keys offer
    notify ensure_env environments content_unchanged publish guarded build_env_on build_env
    build_env_locked build_all set_base set_overlay set_layer store_snapshot env_table new_store
base_taken = refl

handle_apply_layer-IsServed_example :
    (b : Bytes) × (l : Layer) × (body_read (codes " Base") ≡ body_read b)
    × (read_layer ascii plain_quote decoders (decoders.envelope b) ≡ parsed l)
    × All
        (IsServed marshal digest no_gap (set_layer marshal digest (pos 1) l first_store).0)
        told.applied
handle_apply_layer-IsServed_example =
    handle_apply_layer-IsServed marshal digest no_gap ascii plain_quote decoders no_text same_number
      (pos 0) (pos 1) (body_read (codes " Base")) first_store told base_taken

-- A push that another one overtakes is told its own generation with the number of flags of the other.
overtaken :
    (pushed_with emptied (pos 1) (codes " Base") first_store).1.answer
    ≡ accepted (record {
      applied = record { env = prod; generation = pos 1; flags = 0 } ∷ [];
      flags_changed = prod ∷ [];
    })
unfolding handle_apply_layer applied_reply applied_gauges apply_layer layer_of report_applied
    report_findings env_findings applied_of snapshot_len lex_compare str_eq is_empty lookup insert
    type_eq parse_value_type value_type is_unknown to_core parse_evaluation_order wire_rules_to_core
    has_rejections filter_findings rejections warns for_flag get or_else is_absent is_null is_value
    base_layers merge_base supply set_default set_rules overlay_rules merge_overlay merge_ops
    merge_flag member clash_findings rule_findings default_findings rollout_findings
    no_rollout_findings order_findings appended_rules validate_resolved is_flag_key rules_findings
    validate_rule_list missing_findings base_type_findings base_flag_findings base_flags_findings
    validate_base overlay_rule_findings overlay_rollout_findings overlay_flag_findings
    overlay_flags_findings validate_overlay validate_ops insert_sorted sort_strings snapshot_flag
    snapshot_provenance quarantined_keys written_all fingerprint new_snapshot_builder add_flag
    mark_quarantined add_quarantined warn build quarantine_budget index_overlay index_ops carry
    quarantine orphan_finding build_merged build_flag build_flags build_orphans overlay_orphans
    ops_orphans orphans_of resolve_flags guard_findings layer_rejections inputs_of same_keys offer
    notify ensure_env environments content_unchanged publish guarded build_env_on build_env
    build_env_locked build_all set_base set_overlay set_layer store_snapshot env_table new_store
overtaken = refl

abbrev second_store : Store
second_store = (pushed (pos 1) (codes " Base") first_store).0

-- An overlay with one bad flag is refused, and yet the next generation is served from then on.
refused_but_published :
    ((pushed (pos 2) (codes "overlay") second_store).1.answer
      ≡ refused invalid_config (codes "findings: config validation failed"))
    × (generation_or_zero (store_snapshot (pushed (pos 2) (codes "overlay") second_store).0 prod)
        ≡ pos 2)
unfolding handle_apply_layer applied_reply applied_gauges apply_layer layer_of report_applied
    report_findings env_findings applied_of snapshot_len lex_compare str_eq is_empty lookup insert
    type_eq parse_value_type value_type is_unknown to_core parse_evaluation_order wire_rules_to_core
    has_rejections filter_findings rejections warns for_flag get or_else is_absent is_null is_value
    base_layers merge_base supply set_default set_rules overlay_rules merge_overlay merge_ops
    merge_flag member clash_findings rule_findings default_findings rollout_findings
    no_rollout_findings order_findings appended_rules validate_resolved is_flag_key rules_findings
    validate_rule_list missing_findings base_type_findings base_flag_findings base_flags_findings
    validate_base overlay_rule_findings overlay_rollout_findings overlay_flag_findings
    overlay_flags_findings validate_overlay validate_ops insert_sorted sort_strings snapshot_flag
    snapshot_provenance quarantined_keys written_all fingerprint new_snapshot_builder add_flag
    mark_quarantined add_quarantined warn build quarantine_budget index_overlay index_ops carry
    quarantine orphan_finding build_merged build_flag build_flags build_orphans overlay_orphans
    ops_orphans orphans_of resolve_flags guard_findings layer_rejections inputs_of same_keys offer
    notify ensure_env environments content_unchanged publish guarded build_env_on build_env
    build_env_locked build_all set_base set_overlay set_layer store_snapshot env_table new_store
refused_but_published = (refl, refl)
