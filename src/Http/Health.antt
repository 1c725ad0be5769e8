-- ===== src/Http/Health.antt =====
-- internal/transport/http/health.go: the rows of the environments, and whether the instance is ready.
-- Ages are nanoseconds here where the answer has seconds.
pub mod Ready
mod Examples
use feature_flag_service.Common.{
  ℕ, suc, ℤ, pos, negsuc, ltb_ℤ, Bool, true, false, not, ◌&&◌, ◌||◌, Bytes, codes, List, [], ◌∷◌,
  Option, none, some, if◌then◌else◌,
}
use feature_flag_service.Http.Requests.{Config}
use feature_flag_service.Http.Source.{SnapshotView, SnapshotSource, pin}

-- `EnvHealth`
pub record EnvHealth : Type 0 where
  pub env : Bytes
  pub loaded : Bool
  pub generation : ℤ
  pub flags : ℕ
  pub age : ℤ
  pub stale : Bool

-- `ReadyResponse`, with its status.
pub record ReadyResponse : Type 0 where
  pub status : ℕ
  pub ready : Bool
  pub reason : Bytes
  pub degraded : Bool
  pub environments : List EnvHealth

-- The two halves of a row.
abbrev pub loaded_row : Bytes → Option SnapshotView → EnvHealth
loaded_row env none = record {
  env = env;
  loaded = false;
  generation = pos 0;
  flags = 0;
  age = negsuc 0;
  stale = false;
}
loaded_row env (some snap) = record {
  env = env;
  loaded = true;
  generation = snap.generation;
  flags = snap.len;
  age = negsuc 0;
  stale = false;
}

abbrev pub aged_row : ℤ → Option ℤ → EnvHealth → EnvHealth
aged_row stale_after none row = row
aged_row stale_after (some age) row = record {
  env = row.env;
  loaded = row.loaded;
  generation = row.generation;
  flags = row.flags;
  age = age;
  stale = ltb_ℤ stale_after age;
}

-- The loop of `envHealth`, which pins for each environment anew.
unfoldable pub health_rows : Config → SnapshotSource → ℕ → List Bytes → List EnvHealth
health_rows cfg source n [] = []
health_rows cfg source n (env ∷ envs) =
    aged_row cfg.stale_after (source.age env) (loaded_row env (pin source n env))
    ∷ health_rows cfg source (suc n) envs

abbrev pub required_or : List Bytes → List Bytes → List Bytes
required_or [] present = present
required_or (env ∷ envs) present = env ∷ envs

-- `envHealth`
unfoldable pub env_health : Config → SnapshotSource → List EnvHealth
unfolding health_rows
env_health cfg source = health_rows cfg source 0 (required_or cfg.required_envs source.environments)

-- The loop of `handleReady`: ready, the reason, degraded.
unfoldable pub check_rows : List EnvHealth → Bool × Bytes × Bool → Bool × Bytes × Bool
check_rows [] so_far = so_far
check_rows (row ∷ rows) (ready, reason, degraded) = check_rows rows (
  if row.loaded then ready else false,
  if row.loaded then reason else codes "no_snapshot",
  if row.stale then true else degraded,
)

abbrev pub unless_empty : List EnvHealth → Bool × Bytes × Bool → Bool × Bytes × Bool
unless_empty [] (ready, reason, degraded) = (false, codes "no_snapshot", degraded)
unless_empty (row ∷ rows) checked = checked

abbrev pub ready_status : Bool → ℕ
ready_status ready = if ready then 200 else 503

-- `handleReady`
unfoldable pub handle_ready : Config → SnapshotSource → ReadyResponse
unfolding env_health check_rows
handle_ready cfg source =
    let rows = env_health cfg source in
    let (ready, reason, degraded) = unless_empty rows (check_rows rows (true, [], false)) in
    record {
      status = ready_status ready;
      ready = ready;
      reason = reason;
      degraded = degraded;
      environments = rows;
    }

-- `HealthResponse`, without the time since the start.
pub record HealthResponse : Type 0 where
  pub status : Bytes
  pub service : Bytes
  pub instance_id : Bytes
  pub environments : List EnvHealth

-- `handleHealth`
unfoldable pub handle_health : Config → SnapshotSource → HealthResponse
unfolding env_health
handle_health cfg source = record {
  status = codes "ok";
  service = cfg.service;
  instance_id = cfg.instance_id;
  environments = env_health cfg source;
}
