-- ===== src/Config/Store/State.antt =====
-- The store of internal/config/store.go: layers, one slot for each environment, subscriptions. A method
-- that holds the mutex is one step, and `now` is what its clock said. A subscription's channel holds one
-- snapshot at most; `taken` is what its reader received last. A layer of another type is `other_layer`,
-- and only a base layer may be nil: the code reads a field of the other two. Snapshots, layers and
-- reports are values, so that copies are themselves.
use feature_flag_service.Common.{
  ℤ, pos, Bool, true, false, ◌&&◌, Bytes, codes, str_eq, List, [], ◌∷◌, Option, none, some,
  if◌then◌else◌, Map, lookup, insert, keys,
}
use feature_flag_service.Config.Layer.{layer_none, layer_base, BaseLayer, OverlayLayer, OpsLayer}
use feature_flag_service.Config.Findings.{Finding, Findings, severity_reject_global}
use feature_flag_service.Config.Snapshot.{ResolvedSnapshot, sort_strings}
use feature_flag_service.Config.Store.Build.{env_finding}

pub data Layer : Type 0 where
  base_layer : Option BaseLayer → Layer
  overlay_layer : OverlayLayer → Layer
  ops_layer : OpsLayer → Layer
  other_layer : Layer

pub record Subscription : Type 0 where
  pub id : ℤ
  pub buffer : Option ResolvedSnapshot
  pub taken : Option ResolvedSnapshot

pub record EnvState : Type 0 where
  pub cur : Option ResolvedSnapshot
  pub gen : ℤ
  pub subs : List Subscription
  pub next_id : ℤ

abbrev pub empty_env : EnvState
empty_env = record { cur = none; gen = pos 0; subs = []; next_id = pos 0 }

pub record EnvResult : Type 0 where
  pub env : Bytes
  pub content_changed : Bool
  pub published : Bool
  pub generation : ℤ
  pub previous_generation : ℤ
  pub rejected : Findings
  pub quarantined : Findings
  pub warnings : Findings
  pub quarantined_flags : List Bytes
  pub built_at : ℤ

pub record BuildReport : Type 0 where
  pub global : Findings
  pub per_env : Map EnvResult

pub record Store : Type 0 where
  pub base : Option BaseLayer
  pub overlays : Map OverlayLayer
  pub ops : Map OpsLayer
  pub last_rejected : Map Layer
  pub envs : Map EnvState

-- `sameKeys`
unfoldable pub same_keys : List Bytes → List Bytes → Bool
same_keys [] [] = true
same_keys [] (y ∷ ys) = false
same_keys (x ∷ xs) [] = false
same_keys (x ∷ xs) (y ∷ ys) = str_eq x y && same_keys xs ys

-- A `select` that sends or does nothing, on a channel of capacity one.
abbrev pub try_send : ResolvedSnapshot → Option ResolvedSnapshot → Option ResolvedSnapshot × Bool
try_send snap none = (some snap, true)
try_send snap (some old) = (some old, false)

-- A `select` that receives or does nothing.
abbrev pub drain : Option ResolvedSnapshot → Option ResolvedSnapshot
drain buffer = none

-- The body of the loop of `notify`: send; if there was no room, drain and send again.
unfoldable pub offer : ResolvedSnapshot → Subscription → Subscription
offer snap sub =
    let (sent, ok) = try_send snap sub.buffer in
    record sub { buffer = if ok then sent else (try_send snap (drain sub.buffer)).0 }

unfoldable pub notify : ResolvedSnapshot → List Subscription → List Subscription
unfolding offer
notify snap [] = []
notify snap (sub ∷ subs) = offer snap sub ∷ notify snap subs

abbrev pub generation_or_zero : Option ResolvedSnapshot → ℤ
generation_or_zero none = pos 0
generation_or_zero (some s) = s.generation

abbrev pub built_at_or_zero : Option ResolvedSnapshot → ℤ
built_at_or_zero none = pos 0
built_at_or_zero (some s) = s.built_at

-- A result that publishes nothing.
abbrev pub unpublished :
    Bytes → ℤ → Option ResolvedSnapshot → Findings → Findings → Findings → EnvResult
unpublished env at cur rejected quarantined warnings = record {
  env = env;
  content_changed = false;
  published = false;
  generation = generation_or_zero cur;
  previous_generation = generation_or_zero cur;
  rejected = rejected;
  quarantined = quarantined;
  warnings = warnings;
  quarantined_flags = [];
  built_at = at;
}

-- E01
abbrev pub no_base : Bytes → Finding
no_base env = env_finding (codes "E01") env layer_base

abbrev pub env_or_empty : Option EnvState → EnvState
env_or_empty none = empty_env
env_or_empty (some st) = st

-- `ensureEnvLocked`
unfoldable pub ensure_env : Bytes → Store → Store
ensure_env env s = elim (lookup env s.envs) [
  | some st ↦ s
  | none ↦ record s { envs = insert env empty_env s.envs }
]

-- `Environments`
unfoldable pub environments : Store → List Bytes
environments s = sort_strings (keys s.envs)

-- `envStatusLocked` for each environment
unfoldable pub env_status : Findings → Bytes → Store → EnvResult
env_status warnings env s =
    let cur = (env_or_empty (lookup env s.envs)).cur in
    unpublished env (built_at_or_zero cur) cur [] [] warnings

unfoldable pub status_all : Findings → List Bytes → Map EnvResult → Store → Map EnvResult
unfolding env_status
status_all warnings [] results s = results
status_all warnings (env ∷ envs) results s =
    status_all warnings envs (insert env (env_status warnings env s) results) s

-- E00
abbrev pub unknown_layer : Finding
unknown_layer = record {
  rule_id = codes "E00";
  flag = [];
  env = [];
  layer = layer_none;
  field = [];
  severity = severity_reject_global;
}
