-- ===== src/Client/Evaluate.antt =====
-- The evaluation calls of pkg/client/client.go. The evaluator is a parameter, as it is an option of
-- `New`, and so is `record`, whose metrics hook is the one call here that nothing guards; both may panic.
-- `onPanic` only calls hooks that recover by themselves, and is left out.
pub mod Shipped
use feature_flag_service.Common.{
  ◌≡◌, ◌≢◌, refl, sym, ap, subst, ◌∙◌, ◌⊎◌, inl, inr, ℤ, pos, eq_ℤ, eq_ℤ_iff, Bool, true, false,
  Bytes, List, [], ◌∷◌, map, Option, none, some, if◌then◌else◌, All, Bool-cases, arith,
}
use feature_flag_service.Core.Value.{
  Value, bool, string, int, unset, ValueType, type_unknown, type_bool, type_string, type_int,
  value_type, as_bool, as_string, as_int,
}
use feature_flag_service.Core.Model.{
  Reason, reason_unknown, error, is_fallback, Result, no_bucket, Flag,
}
use feature_flag_service.Core.Context.{EvalContext}
use feature_flag_service.Core.Trace.{Run, returns, panics, after}
use feature_flag_service.Core.Evaluator.{Evaluator, Snapshot, result_of, evaluate}
use feature_flag_service.Core.Evaluator.Contract.{
  Served, defaulted, configured, evaluate-Served, generation-evaluate,
}
use feature_flag_service.Client.Updater.{Entry}

-- `c.ev.Evaluate`, and `record`
abbrev pub Evaluates : Type 0
Evaluates = Snapshot → Bytes → EvalContext → ValueType → Value → Run Result

abbrev pub Records : Type 0
Records = Bytes → Result → Run (Unit {0})

-- `Request`
pub record Request : Type 0 where
  pub flag : Bytes
  pub default : Value
  pub eval_context : EvalContext

abbrev pub error_result : Value → Result
error_result def = result_of def error no_bucket (pos 0)

abbrev pub is_unknown_reason : Reason → Bool
is_unknown_reason reason_unknown = true
is_unknown_reason _ = false

-- The end of `evaluate`: a missing generation is the entry's, and a missing reason an error.
unfoldable pub completed : ℤ → Value → Result → Result
completed gen def res =
    let numbered = record res {
      generation = if eq_ℤ res.generation (pos 0) then gen else res.generation;
    } in
    if is_unknown_reason res.reason
    then result_of def error res.bucket numbered.generation
    else numbered

abbrev pub or_default {ℓ} : {A : Type ℓ} → A → Option A → A
or_default def none = def
or_default def (some a) = a

module _ (ev : Evaluates) (recorded : Records) where
  unfoldable pub evaluate_entry :
      Option (Entry Snapshot) → Bytes → Value → ValueType → EvalContext → Run Result
  unfolding completed
  evaluate_entry none flag def want ec = returns (error_result def)
  evaluate_entry (some e) flag def want ec =
      after (ev e.snap flag ec want def) (λ res. returns (completed e.gen def res))

  -- The deferred function of `detail` and `evalGuarded`, on the result so far and what `record` did.
  abbrev pub kept : Value → Result → Run (Unit {0}) → Result
  kept def res (returns u) = res
  kept def res panics = if is_unknown_reason res.reason then error_result def else res

  abbrev pub answered : Bytes → Value → Run Result → Result
  answered flag def panics = error_result def
  answered flag def (returns res) = kept def res (recorded flag res)

  unfoldable pub detail : Option (Entry Snapshot) → Bytes → Value → ValueType → EvalContext → Result
  unfolding evaluate_entry
  detail e flag def want ec = answered flag def (evaluate_entry e flag def want ec)

  unfoldable pub bool_detail : Option (Entry Snapshot) → Bytes → Bool → EvalContext → Result
  unfolding detail
  bool_detail e flag def ec = detail e flag (bool def) type_bool ec

  unfoldable pub string_detail : Option (Entry Snapshot) → Bytes → Bytes → EvalContext → Result
  unfolding detail
  string_detail e flag def ec = detail e flag (string def) type_string ec

  unfoldable pub int_detail : Option (Entry Snapshot) → Bytes → ℤ → EvalContext → Result
  unfolding detail
  int_detail e flag def ec = detail e flag (int def) type_int ec

  unfoldable pub bool_value : Option (Entry Snapshot) → Bytes → Bool → EvalContext → Bool
  unfolding bool_detail as_bool
  bool_value e flag def ec = or_default def (as_bool (bool_detail e flag def ec).value)

  unfoldable pub string_value : Option (Entry Snapshot) → Bytes → Bytes → EvalContext → Bytes
  unfolding string_detail as_string
  string_value e flag def ec = or_default def (as_string (string_detail e flag def ec).value)

  unfoldable pub int_value : Option (Entry Snapshot) → Bytes → ℤ → EvalContext → ℤ
  unfolding int_detail as_int
  int_value e flag def ec = or_default def (as_int (int_detail e flag def ec).value)

  -- `evalGuarded`
  unfoldable pub eval_guarded : Option (Entry Snapshot) → Request → Result
  unfolding evaluate_entry value_type
  eval_guarded e req =
      answered req.flag req.default
        (evaluate_entry e req.flag req.default (value_type req.default) req.eval_context)

  -- `Batch` and `BatchAppend`: one load of the entry for all requests.
  unfoldable pub batch : Option (Entry Snapshot) → List Request → List Result
  unfolding eval_guarded
  batch e reqs = map (eval_guarded e) reqs

  pub kept-same :
      (def : Value) (res : Result) (r : Run (Unit {0}))
      → res.reason ≢ reason_unknown
      → kept def res r ≡ res
  kept-same def res (returns u) known = refl
  kept-same def res panics known = ground arith

  completed-known :
      (gen : ℤ) (def : Value) (res : Result) → (completed gen def res).reason ≢ reason_unknown
  unfolding completed
  completed-known gen def res = elim (Bool-cases (is_unknown_reason res.reason)) [
    | inl unknown ↦ rw unknown (λ e. cc)
    | inr known ↦ rw known (λ e. ground arith)
  ]

  -- The outcome of a call: the default with ERROR, or what the evaluator said, completed.
  pub data IsAnswer (e : Option (Entry Snapshot)) (flag : Bytes) (def : Value) (want : ValueType)
      (ec : EvalContext) (res : Result) : Type 0 where
    failed :
        (e ≡ none) ⊎ ((d : Entry Snapshot) × (e ≡ some d) × (ev d.snap flag ec want def ≡ panics))
        → res ≡ error_result def
        → IsAnswer e flag def want ec res
    passed :
        (d : Entry Snapshot) (said : Result)
        → e ≡ some d
        → ev d.snap flag ec want def ≡ returns said
        → res ≡ completed d.gen def said
        → IsAnswer e flag def want ec res

  after_ev-IsAnswer :
      (d : Entry Snapshot) (flag : Bytes) (def : Value) (want : ValueType) (ec : EvalContext)
      (r : Run Result)
      → ev d.snap flag ec want def ≡ r
      → IsAnswer
          (some d)
          flag
          def
          want
          ec
          (answered flag def (after r (λ res. returns (completed d.gen def res))))
  after_ev-IsAnswer d flag def want ec panics h = failed (inr (d, refl, h)) refl
  after_ev-IsAnswer d flag def want ec (returns said) h = passed d said refl h (
      kept-same def (completed d.gen def said) (recorded flag (completed d.gen def said))
        (completed-known d.gen def said))

  -- With any evaluator and any hook, panicking or not, a call returns: the default with ERROR where
  -- nothing is held or the evaluator panics, and else what the evaluator said, completed by the entry's
  -- generation and, if it gave no reason, by the default. A hook that panics changes nothing.
  pub detail-IsAnswer :
      (e : Option (Entry Snapshot)) (flag : Bytes) (def : Value) (want : ValueType)
      (ec : EvalContext)
      → IsAnswer e flag def want ec (detail e flag def want ec)
  unfolding detail evaluate_entry
  detail-IsAnswer none flag def want ec =
      failed (inl refl)
        (kept-same def (error_result def) (recorded flag (error_result def)) (λ e. cc))
  detail-IsAnswer (some d) flag def want ec =
      after_ev-IsAnswer d flag def want ec (ev d.snap flag ec want def) refl
