-- ===== src/Client/Evaluate/Shipped.antt =====
-- The calls of a client with the evaluator of internal/core, as `New` takes it by default.
use feature_flag_service.Common.{
  ◌≡◌, ◌≢◌, refl, sym, ap, ◌∙◌, inl, inr, ℤ, pos, eq_ℤ, true, Bytes, List, [], ◌∷◌, Option, none,
  some, All, Bool-cases, arith,
}
use feature_flag_service.Core.Value.{Value, ValueType, type_unknown, value_type}
use feature_flag_service.Core.Model.{reason_unknown, is_fallback, Result}
use feature_flag_service.Core.Context.{EvalContext}
use feature_flag_service.Core.Trace.{returns}
use feature_flag_service.Core.Evaluator.{Evaluator, Snapshot, evaluate}
use feature_flag_service.Core.Evaluator.Contract.{
  evaluate-Served, Served, defaulted, configured, generation-evaluate, value_type-evaluate,
}
use feature_flag_service.Client.Updater.{Entry}
use feature_flag_service.Client.Evaluate.{
  Evaluates, Records, Request, completed, is_unknown_reason, error_result, evaluate_entry, detail,
  eval_guarded, batch, kept-same, failed, passed, detail-IsAnswer,
}

-- `core.Evaluate` as the client calls it; it recovers from every panic itself.
abbrev pub shipped : Evaluator → Evaluates
shipped e snap key ctx want d = returns (evaluate e (some snap) key ctx want d).0

completed-fields :
    (gen : ℤ) (def : Value) (res : Result)
    → res.reason ≢ reason_unknown
    → ((completed gen def res).value ≡ res.value) × ((completed gen def res).reason ≡ res.reason)
unfolding completed
completed-fields gen def res known = elim (Bool-cases (is_unknown_reason res.reason)) [
  | inl unknown ↦ absurd (known (ground arith))
  | inr other ↦ rw other (refl, refl)
]

completed-generation :
    (gen : ℤ) (def : Value) (res : Result)
    → res.reason ≢ reason_unknown
    → res.generation ≡ gen
    → (completed gen def res).generation ≡ gen
unfolding completed
completed-generation gen def res known same = elim (Bool-cases (is_unknown_reason res.reason)) [
  | inl unknown ↦ absurd (known (ground arith))
  | inr other ↦ elim (Bool-cases (eq_ℤ res.generation (pos 0))) [
    | inl zero ↦ rw (other, zero) refl
    | inr numbered ↦ rw (other, numbered) same
  ]
]

module _ (core : Evaluator) (recorded : Records) where
  -- With an entry the call hands on the evaluator's result.
  detail-shipped :
      (e : Entry Snapshot) (flag : Bytes) (def : Value) (want : ValueType) (ec : EvalContext)
      → detail (shipped core) recorded (some e) flag def want ec
        ≡ completed e.gen def (evaluate core (some e.snap) flag ec want def).0
  detail-shipped e flag def want ec =
      elim (detail-IsAnswer (shipped core) recorded (some e) flag def want ec) [
        | failed why eq ↦ elim why [
          | inl gone ↦ absurd (cc)
          | inr (d, same, panicked) ↦ absurd (ground arith)
        ]
        | passed d said same says eq ↦ ground arith
      ]

  -- Whatever the interfaces below do, panics included, and whether or not a snapshot is held, a caller
  -- who asks for the type of its own default gets a value of that type, and under a fallback reason it
  -- gets the default itself.
  pub detail-typed :
      (e : Option (Entry Snapshot)) (flag : Bytes) (def : Value) (want : ValueType)
      (ec : EvalContext)
      → want ≢ type_unknown
      → value_type def ≡ want
      → let res = detail (shipped core) recorded e flag def want ec in
        (value_type res.value ≡ want) × (is_fallback res.reason ≡ true → res.value ≡ def)
  unfolding detail evaluate_entry
  detail-typed none flag def want ec asked typed =
      rw
        (kept-same (shipped core) recorded def (error_result def) (recorded flag (error_result def))
          (λ e. cc))
        (typed, λ fb. refl)
  detail-typed (some e) flag def want ec asked typed =
      let served = evaluate-Served core e.snap flag ec want def in
      let (value, reason) =
        completed-fields e.gen def (evaluate core (some e.snap) flag ec want def).0 served.0 in
      (
        ap value_type (ap (λ (r : Result). r.value) (detail-shipped e flag def want ec) ∙ value)
            ∙ value_type-evaluate core (some e.snap) flag ec want def asked typed,
        λ fb.
            ap (λ (r : Result). r.value) (detail-shipped e flag def want ec)
            ∙ value
            ∙ served_default e.snap flag want def (evaluate core (some e.snap) flag ec want def).0
                served.1
                (sym (
                    ap is_fallback
                      (ap (λ (r : Result). r.reason) (detail-shipped e flag def want ec) ∙ reason))
                  ∙ fb),
      )
    where
      served_default :
          (snap : Snapshot) (key : Bytes) (want : ValueType) (d : Value) (res : Result)
          → Served snap key want d res
          → is_fallback res.reason ≡ true
          → res.value ≡ d
      served_default snap key want d res (defaulted fb eq) h = eq
      served_default snap key want d res (configured flag found fb same wanted) h = absurd (cc)

  -- Every result of a batch has the generation of the one entry that the batch was evaluated on, also
  -- where a lookup, a strategy or a hook panics, if that entry's generation is its snapshot's.
  pub generation-batch :
      (e : Entry Snapshot) (reqs : List Request)
      → e.snap.generation ≡ returns e.gen
      → All (λ (r : Result). r.generation ≡ e.gen) (batch (shipped core) recorded (some e) reqs)
  unfolding batch eval_guarded detail
  generation-batch e [] h = tt
  generation-batch e (q ∷ reqs) h =
      let served =
        evaluate-Served core e.snap q.flag q.eval_context (value_type q.default) q.default in
      (
        ap (λ (r : Result). r.generation)
              (detail-shipped e q.flag q.default (value_type q.default) q.eval_context)
            ∙ completed-generation e.gen q.default
                (evaluate core (some e.snap) q.flag q.eval_context (value_type q.default)
                  q.default).0
                served.0
                (generation-evaluate core e.snap q.flag q.eval_context (value_type q.default)
                  q.default e.gen h),
        generation-batch e reqs h,
      )
