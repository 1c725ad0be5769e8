-- ===== src/Http/Evaluate/Examples.antt =====
-- Tests of the evaluation handlers, over one snapshot with one flag.
use feature_flag_service.Common.{
  ◌≡◌, refl, ℕ, ◌+◌, pos, true, false, codes, is_empty, str_eq, [], ◌∷◌, none, some, if◌then◌else◌,
}
use feature_flag_service.Core.Value.{bool, string, type_bool, type_eq, value_type, is_unknown}
use feature_flag_service.Core.Model.{Flag, order_unspecified}
use feature_flag_service.Core.Trace.{panics}
use feature_flag_service.Core.Evaluator.{Evaluator}
use feature_flag_service.Http.Errors.{contains, internal, internal_message}
use feature_flag_service.Http.Requests.{
  EvaluateRequest, EvaluateBatchRequest, EvaluateBatchResponse, refused, accepted, Config,
  are_token_bytes, valid_env, valid_flag_key,
}
use feature_flag_service.Http.Evaluate.{
  after_boundary, safe_do, evaluate_one, batch_fault, handle_evaluate, handle_evaluate_batch,
}
use feature_flag_service.Http.Source.{SnapshotView, SnapshotSource, generation_of, pin}
use feature_flag_service.Http.Evaluate.Answers.{engine}
use feature_flag_service.Http.Evaluate.Batch.{AreAnswers, IsTaken, handle_evaluate_batch-AreAnswers}

abbrev banner : Flag
banner = record {
  key = codes "banner";
  type = type_bool;
  enabled = true;
  default_value = bool true;
  off_value = bool false;
  rules = [];
  rollout = none;
  evaluation_order = order_unspecified;
}

-- The snapshot at each load: every load finds the next generation.
abbrev view_at : ℕ → SnapshotView
view_at n = record {
  env = codes "prod";
  generation = pos (7 + n);
  len = 1;
  keys = none;
  flag = λ key. if str_eq key (codes "banner") then some banner else none;
}

abbrev source : SnapshotSource
source = record {
  snapshot = λ n env. if str_eq env (codes "prod") then some (view_at n) else none;
  environments = codes "prod" ∷ [];
  age = λ env. none;
}

abbrev bare : Evaluator
bare = record { strategy = none; hasher = none; observer = none }

abbrev config : Config
config = record {
  eval_addr = [];
  admin_addr = [];
  read_header_timeout = pos 1;
  read_timeout = pos 1;
  write_timeout = pos 1;
  idle_timeout = pos 1;
  handler_timeout = pos 1;
  max_body_bytes = pos 1;
  max_batch_flags = pos 2;
  required_envs = [];
  stale_after = pos 1;
  service = [];
  instance_id = [];
}

abbrev batch : EvaluateBatchRequest
batch = record {
  environment = codes "prod";
  context = record { user_id = codes "u-1"; tenant_id = []; attributes = [] };
  flags =
      record { flag = codes "banner"; default_value = bool false }
      ∷ (record { flag = codes "missing"; default_value = string (codes "old") } ∷ []);
}

batch-IsTaken : IsTaken config batch
unfolding valid_env valid_flag_key batch_fault are_token_bytes contains is_empty is_unknown
    value_type type_eq
batch-IsTaken = record { env_valid = refl; nonempty = refl; within = refl; flags_valid = refl }

handle_evaluate_batch-AreAnswers_example :
    (resp : EvaluateBatchResponse) × ((handle_evaluate_batch
        (engine bare)
        0
        config
        source
        none
        (accepted batch)
        (λ n. n)
        9).answer
      ≡ accepted resp)
    × (resp.generation ≡ generation_of (pin source 0 (codes "prod")))
    × AreAnswers resp.generation batch.flags resp.results
handle_evaluate_batch-AreAnswers_example =
    handle_evaluate_batch-AreAnswers bare 0 config source none batch (λ n. n) 9 batch-IsTaken

abbrev single : EvaluateRequest
single = record {
  environment = codes "prod";
  flag = codes "banner";
  default_value = bool false;
  context = batch.context;
}

-- An evaluator that panics.
contained_panic :
    (handle_evaluate {F = ℕ}
      (λ snap key ctx want d. panics)
      0
      source
      none
      (accepted single)
      1).answer
    ≡ refused internal internal_message
unfolding handle_evaluate evaluate_one after_boundary safe_do valid_env valid_flag_key
    are_token_bytes contains is_empty is_unknown value_type type_eq str_eq
contained_panic = refl
