-- ===== src/Http/Health/Examples.antt =====
-- Tests of readiness.
use feature_flag_service.Common.{
  ◌≡◌, ◌≢◌, ◌↔◌, refl, pos, true, codes, str_eq, [], ◌∷◌, none, some, if◌then◌else◌,
}
use feature_flag_service.Http.Requests.{Config, with_defaults}
use feature_flag_service.Http.Source.{SnapshotView, SnapshotSource}
use feature_flag_service.Http.Health.{env_health, check_rows, handle_ready}
use feature_flag_service.Http.Health.Ready.{AreLoaded, asked_envs, handle_ready_iff}

abbrev empty_config : Config
empty_config = record {
  eval_addr = [];
  admin_addr = [];
  read_header_timeout = pos 0;
  read_timeout = pos 0;
  write_timeout = pos 0;
  idle_timeout = pos 0;
  handler_timeout = pos 0;
  max_body_bytes = pos 0;
  max_batch_flags = pos 0;
  required_envs = [];
  stale_after = pos 0;
  service = [];
  instance_id = [];
}

abbrev old_snapshot : SnapshotView
old_snapshot = record {
  env = codes "prod";
  generation = pos 7;
  len = 2;
  keys = none;
  flag = λ key. none;
}

abbrev old_source : SnapshotSource
old_source = record {
  snapshot = λ n env. if str_eq env (codes "prod") then some old_snapshot else none;
  environments = codes "prod" ∷ [];
  age = λ env. some (pos 90000000000);
}

old_but_ready :
    ((handle_ready (with_defaults empty_config) old_source).ready ≡ true)
    × ((handle_ready (with_defaults empty_config) old_source).degraded ≡ true)
unfolding handle_ready env_health check_rows with_defaults str_eq
old_but_ready = (refl, refl)

-- Nothing is required, one environment has a snapshot and another has none: that is not enough.
abbrev half_loaded : SnapshotSource
half_loaded = record old_source { environments = codes "prod" ∷ (codes "staging" ∷ []) }

one_is_not_enough : (handle_ready (with_defaults empty_config) half_loaded).status ≡ 503
unfolding handle_ready env_health check_rows with_defaults str_eq
one_is_not_enough = refl

handle_ready_iff_example : ((handle_ready (with_defaults empty_config) old_source).status ≡ 200) ↔ (
    (asked_envs (with_defaults empty_config) old_source ≢ [])
    × AreLoaded old_source 0 (asked_envs (with_defaults empty_config) old_source))
handle_ready_iff_example = handle_ready_iff (with_defaults empty_config) old_source
