-- ===== src/Http/Evaluate.antt =====
-- internal/transport/http/eval.go: the two handlers of the evaluation listener, on decoded requests.
-- `lap` is the time that an evaluation took, in seconds, by its place in the request.
pub mod Answers
pub mod Batch
mod Examples
use feature_flag_service.Common.{
  ℕ, suc, ◌+◌, ℤ, pos, eq_ℤ, ltb_ℤ, Bool, true, false, not, ◌&&◌, ◌||◌, Bytes, codes, List, [], ◌∷◌,
  ◌++◌, Option, none, some, if◌then◌else◌, length, ◌==◌, format_int,
}
use feature_flag_service.Core.Value.{Value, ValueType, value_type, is_unknown}
use feature_flag_service.Core.Model.{
  Flag, Reason, flag_not_found, error, reason_string, Result, is_fallback, no_bucket,
}
use feature_flag_service.Core.Context.{EvalContext}
use feature_flag_service.Core.Trace.{Run, returns, panics}
use feature_flag_service.Obs.Trace.{Trace, trace_from_context}
use feature_flag_service.Obs.Log.{EvalError}
use feature_flag_service.Obs.Recorder.{Recording, evaluation, batch_latency, panicked}
use feature_flag_service.Http.Errors.{
  Code, invalid_argument, too_many_flags, internal, internal_message,
}
use feature_flag_service.Http.Requests.{
  EvalContextWire, to_core, context_keys, EvaluateRequest, EvaluateResponse, BatchFlag,
  EvaluateBatchRequest, EvaluateBatchResponse, Checked, refused, accepted, Config, valid_env,
  valid_flag_key,
}
use feature_flag_service.Http.Source.{
  SnapshotView, SnapshotSource, EvaluatorFn, Event, measured, logged_error, logged_panic, logged,
  Reply, reply, generation_of, pin,
}

abbrev pub site_evaluate : Bytes
site_evaluate = codes "evaluate"

abbrev pub eval_error : Bytes → Bytes → Bytes → ℤ → Bytes → EvalContextWire → EvalError
unfolding context_keys
eval_error key env reason gen rule_id ec = record {
  flag = key;
  env = env;
  reason = reason;
  generation = gen;
  rule_id = rule_id;
  err = [];
  stack = [];
  ctx_keys = context_keys ec;
  value_source = codes "call_site_default";
}

unfoldable pub finish_response : Option Trace → Bytes → Bytes → Result → ℤ → EvaluateResponse
unfolding reason_string is_fallback
finish_response ctx key env res gen = record {
  flag = key;
  environment = env;
  value = res.value;
  reason = reason_string res.reason;
  rule_id = res.rule_id;
  bucket = res.bucket;
  generation = if eq_ℤ res.generation (pos 0) then gen else res.generation;
  fallback = is_fallback res.reason;
  trace_id = (trace_from_context ctx).trace_id;
}

abbrev pub missed : Value → Result
missed def = record {
  value = def;
  reason = flag_not_found;
  rule_id = [];
  bucket = no_bucket;
  generation = pos 0;
}

-- What is wrong with the flags of a batch, if anything is.
unfoldable pub batch_fault : List BatchFlag → Option Bytes
unfolding valid_flag_key is_unknown
batch_fault [] = none
batch_fault (f ∷ fs) =
    if not (valid_flag_key f.flag)
    then some (codes "every flag must be 1-128 characters of [A-Za-z0-9_.-]")
    else if is_unknown f.default_value
    then some (codes "every flag entry requires a default")
    else batch_fault fs

module _ {F : Type 0} where
  -- `safe.Do` with `safe.Reporter`: what a panic is told to, and what was returned otherwise.
  unfoldable pub safe_do : {A : Type 0} → Bytes → Run A → List (Event F) × Option A
  safe_do site (returns a) = ([], some a)
  safe_do site panics = (measured (panicked site) ∷ (logged_panic site ∷ []), none)

  -- The two things that `finish` does.
  unfoldable pub finish_events : Bytes → Bytes → EvalContextWire → Result → ℤ → F → List (Event F)
  unfolding reason_string is_fallback eval_error
  finish_events key env ec res gen lap =
      measured (evaluation key env (reason_string res.reason) (is_fallback res.reason) lap)
      ∷ (if is_fallback res.reason
          then logged_error (eval_error key env (reason_string res.reason) gen res.rule_id ec) ∷ []
          else [])

  -- `finish`
  abbrev pub finish :
      Option Trace → Bytes → Bytes → EvalContextWire → Result → ℤ → F → Reply F EvaluateResponse
  finish ctx key env ec res gen lap =
      reply (finish_events key env ec res gen lap) (accepted (finish_response ctx key env res gen))

  -- The end of `evaluateOne`, on what the panic boundary gave.
  unfoldable pub after_boundary :
      Option Trace
      → Bytes
      → Bytes
      → EvalContextWire
      → ℤ
      → F
      → List (Event F) × Option Result
      → Reply F EvaluateResponse
  unfolding finish_events finish_response reason_string eval_error
  after_boundary ctx key env ec gen lap (told, some res) =
      let r = finish ctx key env ec res gen lap in reply (told ++ r.events) r.answer
  after_boundary ctx key env ec gen lap (told, none) =
      reply
        (told
          ++ (logged_error (eval_error key env (reason_string error) gen [] ec)
              ∷ (measured (evaluation key env (reason_string error) true lap) ∷ [])))
        (refused internal internal_message)

  -- What the loop of the batch does with one reply, and with those of the rest.
  abbrev pub add_answer :
      Checked EvaluateResponse → Reply F (List EvaluateResponse) → Checked (List EvaluateResponse)
  add_answer (refused code msg) rest = refused code msg
  add_answer (accepted res) rest = elim rest.answer [
    | refused code msg ↦ refused code msg
    | accepted results ↦ accepted (res ∷ results)
  ]

  abbrev pub events_if : Checked EvaluateResponse → List (Event F) → List (Event F)
  events_if (refused code msg) rest = []
  events_if (accepted res) rest = rest

  abbrev pub batch_reply :
      Option Trace
      → Option SnapshotView
      → EvaluateBatchRequest
      → F
      → Reply F (List EvaluateResponse)
      → Reply F EvaluateBatchResponse
  batch_reply ctx snap req whole r = elim r.answer [
    | refused code msg ↦ reply r.events (refused code msg)
    | accepted results ↦ reply (r.events ++ (measured (batch_latency whole) ∷ [])) (
        accepted (record {
          environment = req.environment;
          generation = generation_of snap;
          trace_id = (trace_from_context ctx).trace_id;
          results = results;
        }))
  ]

  module _ (eval : EvaluatorFn) (zero_lap : F) where
    -- `evaluateOne`
    unfoldable pub evaluate_one :
        Option Trace
        → Option SnapshotView
        → Bytes
        → Bytes
        → EvalContextWire
        → Value
        → F
        → Reply F EvaluateResponse
    unfolding after_boundary safe_do to_core finish_events finish_response
    evaluate_one ctx none key env ec def lap = finish ctx key env ec (missed def) (pos 0) zero_lap
    evaluate_one ctx (some snap) key env ec def lap =
        after_boundary ctx key env ec snap.generation lap
          (safe_do site_evaluate (eval snap key (to_core ec) (value_type def) def))

    -- `handleEvaluate`
    unfoldable pub handle_evaluate :
        SnapshotSource → Option Trace → Checked EvaluateRequest → F → Reply F EvaluateResponse
    unfolding evaluate_one valid_env valid_flag_key is_unknown
    handle_evaluate source ctx (refused code msg) lap = reply [] (refused code msg)
    handle_evaluate source ctx (accepted req) lap =
        if not (valid_env req.environment)
        then reply [] (
            refused invalid_argument
              (codes "environment must be 1-32 characters of [A-Za-z0-9_.-]"))
        else if not (valid_flag_key req.flag)
        then reply []
            (refused invalid_argument (codes "flag must be 1-128 characters of [A-Za-z0-9_.-]"))
        else if is_unknown req.default_value
        then reply [] (
            refused invalid_argument
              (codes "default is required and must be a bool, string, or integer"))
        else evaluate_one ctx (pin source 0 req.environment) req.flag req.environment req.context
            req.default_value lap

    -- The loop of `handleEvaluateBatch`, which ends at the first flag that was refused.
    unfoldable pub evaluate_all :
        Option Trace
        → Option SnapshotView
        → Bytes
        → EvalContextWire
        → (ℕ → F)
        → ℕ
        → List BatchFlag
        → Reply F (List EvaluateResponse)
    unfolding evaluate_one
    evaluate_all ctx snap env ec lap n [] = reply [] (accepted [])
    evaluate_all ctx snap env ec lap n (f ∷ fs) =
        let one = evaluate_one ctx snap f.flag env ec f.default_value (lap n) in
        let rest = evaluate_all ctx snap env ec lap (suc n) fs in
        reply (one.events ++ events_if one.answer rest.events) (add_answer one.answer rest)

    unfoldable pub batch_checked :
        SnapshotSource
        → Option Trace
        → EvaluateBatchRequest
        → (ℕ → F)
        → F
        → Option Bytes
        → Reply F EvaluateBatchResponse
    unfolding evaluate_all
    batch_checked source ctx req lap whole (some msg) = reply [] (refused invalid_argument msg)
    batch_checked source ctx req lap whole none =
        let snap = pin source 0 req.environment in
        batch_reply ctx snap req whole
          (evaluate_all ctx snap req.environment req.context lap 0 req.flags)

    -- `handleEvaluateBatch`
    unfoldable pub handle_evaluate_batch :
        Config
        → SnapshotSource
        → Option Trace
        → Checked EvaluateBatchRequest
        → (ℕ → F)
        → F
        → Reply F EvaluateBatchResponse
    unfolding batch_checked batch_fault valid_env evaluate_all
    handle_evaluate_batch cfg source ctx (refused code msg) lap whole = reply [] (refused code msg)
    handle_evaluate_batch cfg source ctx (accepted req) lap whole =
        if not (valid_env req.environment)
        then reply [] (
            refused invalid_argument
              (codes "environment must be 1-32 characters of [A-Za-z0-9_.-]"))
        else if length req.flags == 0
        then reply [] (refused invalid_argument (codes "flags must contain at least one entry"))
        else if ltb_ℤ cfg.max_batch_flags (pos (length req.flags))
        then reply [] (
            refused too_many_flags (
              codes "batch exceeds the maximum of "
              ++ (format_int cfg.max_batch_flags ++ codes " flags")))
        else batch_checked source ctx req lap whole (batch_fault req.flags)
