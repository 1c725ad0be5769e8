-- ===== src/Http/Evaluate/Answers.antt =====
-- What one evaluation is answered with, over the engine of the core.
use feature_flag_service.Common.{
  ◌≡◌, ◌≢◌, refl, sym, ◌∙◌, inl, inr, ℤ, pos, eq_ℤ, true, false, false≢true, Bytes, Option, none,
  some, Bool-cases, if◌then◌else◌, arith,
}
use feature_flag_service.Core.Value.{
  Value, ValueType, type_unknown, type_eq, value_type, is_unknown,
}
use feature_flag_service.Core.Model.{Result, is_fallback}
use feature_flag_service.Core.Trace.{returns}
use feature_flag_service.Core.Evaluator.{Snapshot, Evaluator, evaluate}
use feature_flag_service.Core.Evaluator.Contract.{
  Served, defaulted, configured, evaluate-Served, generation-evaluate, value_type-evaluate,
}
use feature_flag_service.Config.Snapshot.{found}
use feature_flag_service.Obs.Trace.{Trace}
use feature_flag_service.Http.Requests.{
  EvalContextWire, to_core, EvaluateResponse, BatchFlag, accepted,
}
use feature_flag_service.Http.Evaluate.{
  missed, safe_do, after_boundary, finish_response, evaluate_one,
}
use feature_flag_service.Http.Source.{SnapshotView, EvaluatorFn, generation_of}

-- A snapshot as the engine calls it, and the engine as the handlers call it.
abbrev pub view_snapshot : SnapshotView → Snapshot
view_snapshot snap = record {
  generation = returns snap.generation;
  flag = λ key. returns (found (snap.flag key));
}

abbrev pub engine : Evaluator → EvaluatorFn
engine e snap key ctx want def = returns (evaluate e (some (view_snapshot snap)) key ctx want def).0

-- An answer for a flag: of the generation, of the type of the default, and the default if it is a fallback.
pub record IsAnswerTo (gen : ℤ) (f : BatchFlag) (res : EvaluateResponse) : Type 0 where
  pub named : res.flag ≡ f.flag
  pub pinned : res.generation ≡ gen
  pub typed : value_type res.value ≡ value_type f.default_value
  pub falls_back : res.fallback ≡ true → res.value ≡ f.default_value

known_type : (v : Value) → is_unknown v ≡ false → value_type v ≢ type_unknown
unfolding is_unknown type_eq
known_type v h e = ground (arith, h, e)

Served-default :
    (snap : Snapshot) (key : Bytes) (want : ValueType) (d : Value) (res : Result)
    → Served snap key want d res
    → is_fallback res.reason ≡ true
    → res.value ≡ d
Served-default snap key want d res (defaulted fb same) h = same
Served-default snap key want d res (configured flag found_at no_fb typed wanted) h =
    absurd (false≢true (sym no_fb ∙ h))

generation_out : (a gen : ℤ) → (a ≡ gen) → (if eq_ℤ a (pos 0) then gen else a) ≡ gen
generation_out a gen e = elim (Bool-cases (eq_ℤ a (pos 0))) [
  | inl zero_gen ↦ rw zero_gen refl
  | inr other ↦ rw other e
]

module _ {F : Type 0} (e : Evaluator) (zero_lap : F) where
  pub evaluate_one-IsAnswerTo :
      (ctx : Option Trace) (snap : Option SnapshotView) (env : Bytes) (ec : EvalContextWire)
      (f : BatchFlag) (lap : F)
      → is_unknown f.default_value ≡ false
      → (res : EvaluateResponse) × ((evaluate_one
            (engine e)
            zero_lap
            ctx
            snap
            f.flag
            env
            ec
            f.default_value
            lap).answer
          ≡ accepted res)
        × IsAnswerTo (generation_of snap) f res
  unfolding evaluate_one after_boundary safe_do finish_response is_fallback
  evaluate_one-IsAnswerTo ctx none env ec f lap known = (
    finish_response ctx f.flag env (missed f.default_value) (pos 0),
    refl,
    record { named = refl; pinned = refl; typed = refl; falls_back = λ h. refl },
  )
  evaluate_one-IsAnswerTo ctx (some snap) env ec f lap known =
      let d = f.default_value in
      let core = view_snapshot snap in
      let res = (evaluate e (some core) f.flag (to_core ec) (value_type d) d).0 in
      let from_snap =
        generation-evaluate e core f.flag (to_core ec) (value_type d) d snap.generation refl in
      (
        finish_response ctx f.flag env res snap.generation,
        refl,
        record {
          named = refl;
          pinned = generation_out res.generation snap.generation from_snap;
          typed =
              value_type-evaluate e (some core) f.flag (to_core ec) (value_type d) d
                (known_type d known) refl;
          falls_back =
              Served-default core f.flag (value_type d) d res
                (evaluate-Served e core f.flag (to_core ec) (value_type d) d).1;
        },
      )
