-- ===== src/Server/Wiring.antt =====
-- cmd/flagd/wiring.go: the store behind the two interfaces of the handlers. The JSON decoders of an
-- envelope and of the layers are given, with the text of what went wrong, as is the text of findings. A
-- loop over the report, a Go map, takes its keys in the order of the model. `ApplyLayer` calls `Set`, which
-- has the lock, and then reads a snapshot for each environment without it: other calls on the store come
-- before each of those reads, which `gap` gives.
pub mod Applied
mod Examples
use feature_flag_service.Common.{
  ℕ, ℤ, Bool, true, false, Bytes, codes, str_eq, List, [], ◌∷◌, ◌++◌, Option, none, some,
  if◌then◌else◌, Map, keys, lookup,
}
use feature_flag_service.Common.Text.{TextLib}
use feature_flag_service.Core.Model.{Flag}
use feature_flag_service.Config.Layer.{BaseLayer, OverlayLayer, OpsLayer}
use feature_flag_service.Config.Findings.{Findings, has_rejections}
use feature_flag_service.Config.Snapshot.{
  ResolvedSnapshot, snapshot_flag, snapshot_len, sort_strings,
}
use feature_flag_service.Config.Store.State.{
  Layer, base_layer, overlay_layer, ops_layer, EnvResult, BuildReport, Store, environments,
}
use feature_flag_service.Config.Store.Push.{set_layer}
use feature_flag_service.Config.Store.Subscribe.{store_snapshot}
use feature_flag_service.Config.Store.Steps.{Action, perform_all}
use feature_flag_service.Http.Source.{SnapshotView, SnapshotSource}
use feature_flag_service.Http.Admin.{AppliedEnv, ApplyResult, Applying, apply_ok, apply_invalid}

-- The methods of a resolved snapshot.
abbrev pub view_of : ResolvedSnapshot → SnapshotView
unfolding snapshot_flag snapshot_len
view_of s = record {
  env = s.env;
  generation = s.generation;
  len = snapshot_len s;
  keys = some s.sorted_keys;
  flag = snapshot_flag s;
}

abbrev pub view_if : Option ResolvedSnapshot → Option SnapshotView
unfolding view_of
view_if none = none
view_if (some s) = some (view_of s)

-- `storeSource`, with the store at the call of `Environments` and at each call of `Snapshot`.
unfoldable pub store_source : Store → (ℕ → Store) → SnapshotSource
unfolding store_snapshot environments view_if
store_source s at_call = record {
  snapshot = λ n env. view_if (store_snapshot (at_call n) env);
  environments = environments s;
  age = λ env. none;
}

-- `BuildReport.Findings` of store.go
unfoldable pub env_findings : Map EnvResult → List Bytes → Findings
unfolding lookup
env_findings results [] = []
env_findings results (env ∷ envs) = elim (lookup env results) [
  | none ↦ env_findings results envs
  | some e ↦ e.rejected ++ (e.quarantined ++ (e.warnings ++ env_findings results envs))
]

unfoldable pub report_findings : BuildReport → Findings
unfolding env_findings sort_strings
report_findings rep = rep.global ++ env_findings rep.per_env (sort_strings (keys rep.per_env))

-- What a decoder gives: a value, or the text of its error.
pub data Parsed (A : Type 0) : Type 0 where
  parsed : A → Parsed A
  unparsed : Bytes → Parsed A

-- `layerEnvelope`
pub record LayerEnvelope : Type 0 where
  pub kind : Bytes
  pub body : Bytes

pub record LayerDecoders : Type 0 where
  pub envelope : Bytes → Parsed LayerEnvelope
  pub base : Bytes → Parsed BaseLayer
  pub overlay : Bytes → Parsed OverlayLayer
  pub ops : Bytes → Parsed OpsLayer

abbrev pub as_layer : {A : Type 0} → Bytes → (A → Layer) → Parsed A → Parsed Layer
as_layer what make (parsed a) = parsed (make a)
as_layer what make (unparsed err) =
    unparsed (codes "malformed " ++ (what ++ (codes " layer: " ++ err)))

-- The `switch` on the kind. `quote` is strconv.Quote.
unfoldable pub layer_of : TextLib → (Bytes → Bytes) → LayerDecoders → LayerEnvelope → Parsed Layer
layer_of t quote d env =
    let kind = t.to_lower (t.trim_space env.kind) in
    if str_eq kind (codes "base")
    then as_layer (codes "base") (λ l. base_layer (some l)) (d.base env.body)
    else if str_eq kind (codes "overlay")
    then as_layer (codes "overlay") overlay_layer (d.overlay env.body)
    else if str_eq kind (codes "ops")
    then as_layer (codes "ops") ops_layer (d.ops env.body)
    else unparsed
        (codes "unknown layer kind " ++ (quote env.kind ++ codes ", want base or overlay or ops"))

abbrev pub read_layer :
    TextLib → (Bytes → Bytes) → LayerDecoders → Parsed LayerEnvelope → Parsed Layer
unfolding layer_of
read_layer t quote d (unparsed err) = unparsed (codes "malformed layer envelope: " ++ err)
read_layer t quote d (parsed env) = layer_of t quote d env

abbrev pub len_of : Option ResolvedSnapshot → ℕ
unfolding snapshot_len
len_of none = 0
len_of (some snap) = snapshot_len snap

abbrev pub add_applied : Store → EnvResult → ApplyResult → ApplyResult
unfolding len_of store_snapshot
add_applied s e out = record {
  applied =
      record { env = e.env; generation = e.generation; flags = len_of (store_snapshot s e.env) }
      ∷ out.applied;
  flags_changed = if e.content_changed then e.env ∷ out.flags_changed else out.flags_changed;
}

abbrev pub add_result : Store → Option EnvResult → ApplyResult → ApplyResult
unfolding add_applied
add_result s none out = out
add_result s (some e) out = if e.published then add_applied s e out else out

-- `fmt.Errorf("…: %w", httpx.ErrValidation)`
abbrev pub invalid : Bytes → Applying
invalid text = apply_invalid (text ++ codes ": config validation failed")

module _ (marshal : Flag → Option Bytes) (digest : Bytes → Bytes) (t : TextLib)
    (quote : Bytes → Bytes) (d : LayerDecoders) (text_of : Findings → Bytes)
    (gap : Bytes → List Action) where
  -- The loop over the report, which reads what the store serves at each environment; and the store after
  -- it.
  unfoldable pub applied_of : Store → Map EnvResult → List Bytes → Store × ApplyResult
  unfolding lookup add_result
  applied_of s results [] = (s, record { applied = []; flags_changed = [] })
  applied_of s results (env ∷ envs) =
      let now_read = perform_all marshal digest (gap env) s in
      let rest = applied_of now_read results envs in
      (rest.0, add_result now_read (lookup env results) rest.1)

  abbrev pub told_of : Store × ApplyResult → Store × Applying
  told_of (s, res) = (s, apply_ok res)

  -- The end of `ApplyLayer`, on the report.
  unfoldable pub report_applied : Store × BuildReport → Store × Applying
  unfolding report_findings has_rejections applied_of
  report_applied (s, rep) =
      if has_rejections (report_findings rep)
      then (s, invalid (text_of (report_findings rep)))
      else told_of (applied_of s rep.per_env (keys rep.per_env))

  abbrev pub set_parsed : ℤ → Parsed Layer → Store → Store × Applying
  unfolding set_layer report_applied
  set_parsed now (unparsed err) s = (s, invalid err)
  set_parsed now (parsed l) s = report_applied (set_layer marshal digest now l s)

  -- `layerApplier.ApplyLayer`
  unfoldable pub apply_layer : ℤ → Bytes → Store → Store × Applying
  unfolding set_parsed read_layer
  apply_layer now body s = set_parsed now (read_layer t quote d (d.envelope body)) s
