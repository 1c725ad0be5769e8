-- ===== src/Http/Evaluate/Batch.antt =====
-- A batch is answered from one snapshot.
use feature_flag_service.Common.{
  ◌≡◌, refl, ℕ, suc, ℤ, pos, ltb_ℤ, ◌==◌, true, false, Bytes, List, [], ◌∷◌, Option, none, length,
  arith,
}
use feature_flag_service.Core.Value.{is_unknown}
use feature_flag_service.Core.Evaluator.{Evaluator}
use feature_flag_service.Obs.Trace.{Trace, trace_from_context}
use feature_flag_service.Http.Requests.{
  EvalContextWire, EvaluateResponse, BatchFlag, EvaluateBatchRequest, EvaluateBatchResponse,
  accepted, Config, valid_env,
}
use feature_flag_service.Http.Evaluate.{
  evaluate_all, batch_fault, batch_reply, batch_checked, handle_evaluate_batch,
}
use feature_flag_service.Http.Source.{SnapshotView, SnapshotSource, Reply, generation_of, pin}
use feature_flag_service.Http.Evaluate.Answers.{engine, IsAnswerTo, evaluate_one-IsAnswerTo}

-- One answer for each flag, in their order.
abbrev pub AreAnswers : ℤ → List BatchFlag → List EvaluateResponse → Type 0
AreAnswers gen [] [] = Unit
AreAnswers gen (f ∷ fs) (r ∷ rs) = IsAnswerTo gen f r × AreAnswers gen fs rs
AreAnswers gen [] (r ∷ rs) = ⊥
AreAnswers gen (f ∷ fs) [] = ⊥

-- A batch that the handler takes.
pub record IsTaken (cfg : Config) (req : EvaluateBatchRequest) : Type 0 where
  pub env_valid : valid_env req.environment ≡ true
  pub nonempty : (length req.flags == 0) ≡ false
  pub within : ltb_ℤ cfg.max_batch_flags (pos (length req.flags)) ≡ false
  pub flags_valid : batch_fault req.flags ≡ none

fault_rest :
    (f : BatchFlag) (fs : List BatchFlag)
    → batch_fault (f ∷ fs) ≡ none
    → (is_unknown f.default_value ≡ false) × (batch_fault fs ≡ none)
unfolding batch_fault
fault_rest f fs h = ground arith

abbrev batch_response :
    Option Trace
    → Option SnapshotView
    → EvaluateBatchRequest
    → List EvaluateResponse
    → EvaluateBatchResponse
batch_response ctx snap req rs = record {
  environment = req.environment;
  generation = generation_of snap;
  trace_id = (trace_from_context ctx).trace_id;
  results = rs;
}

batch_reply-accepted :
    {F : Type 0} (ctx : Option Trace) (snap : Option SnapshotView) (req : EvaluateBatchRequest)
    (whole : F) (r : Reply F (List EvaluateResponse)) (rs : List EvaluateResponse)
    → r.answer ≡ accepted rs
    → (batch_reply ctx snap req whole r).answer ≡ accepted (batch_response ctx snap req rs)
batch_reply-accepted ctx snap req whole r rs h = rw h refl

module _ {F : Type 0} (e : Evaluator) (zero_lap : F) where
  evaluate_all-AreAnswers :
      (ctx : Option Trace) (snap : Option SnapshotView) (env : Bytes) (ec : EvalContextWire)
      (lap : ℕ → F) (n : ℕ) (fs : List BatchFlag)
      → batch_fault fs ≡ none
      → (rs : List EvaluateResponse) × ((evaluate_all
            (engine e)
            zero_lap
            ctx
            snap
            env
            ec
            lap
            n
            fs).answer
          ≡ accepted rs)
        × AreAnswers (generation_of snap) fs rs
  unfolding evaluate_all
  evaluate_all-AreAnswers ctx snap env ec lap n [] h = ([], refl, tt)
  evaluate_all-AreAnswers ctx snap env ec lap n (f ∷ fs) h =
      let (known, fine) = fault_rest f fs h in
      let (r, one, is) = evaluate_one-IsAnswerTo e zero_lap ctx snap env ec f (lap n) known in
      let (rs, rest, are) = evaluate_all-AreAnswers ctx snap env ec lap (suc n) fs fine in
      (r ∷ rs, rw (one, rest) refl, (is, are))

  -- A batch that the handler takes is always answered, by the one snapshot of its environment that the
  -- first load gives, whatever later loads would give: with one
  -- result for each flag, in their order, each of the one generation that stands at the top, with a
  -- value of the type of its default, and with that default itself where it is a fallback.
  pub handle_evaluate_batch-AreAnswers :
      (cfg : Config) (source : SnapshotSource) (ctx : Option Trace) (req : EvaluateBatchRequest)
      (lap : ℕ → F) (whole : F)
      → IsTaken cfg req
      → (resp : EvaluateBatchResponse) × ((handle_evaluate_batch
            (engine e)
            zero_lap
            cfg
            source
            ctx
            (accepted req)
            lap
            whole).answer
          ≡ accepted resp)
        × (resp.generation ≡ generation_of (pin source 0 req.environment))
        × AreAnswers resp.generation req.flags resp.results
  unfolding handle_evaluate_batch batch_checked
  handle_evaluate_batch-AreAnswers cfg source ctx req lap whole taken =
      let (rs, all, are) =
        evaluate_all-AreAnswers ctx (pin source 0 req.environment) req.environment req.context lap 0
          req.flags taken.flags_valid in
      (
        batch_response ctx (pin source 0 req.environment) req rs,
        rw (taken.env_valid, taken.nonempty, taken.within, taken.flags_valid)
            (batch_reply-accepted ctx (pin source 0 req.environment) req whole _ rs all),
        refl,
        are,
      )
