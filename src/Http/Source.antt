-- ===== src/Http/Source.antt =====
-- internal/transport/http/deps.go: what the handlers are given and what they give. A snapshot is what its
-- methods return; the evaluator is an interface, whose call may panic. A handler gives what it tells the
-- metrics and the log, in order, and its answer.
use feature_flag_service.Common.{ℕ, ℤ, pos, Bytes, List, Option, none, some}
use feature_flag_service.Core.Value.{Value, ValueType}
use feature_flag_service.Core.Model.{Flag, Result}
use feature_flag_service.Core.Context.{EvalContext}
use feature_flag_service.Core.Trace.{Run}
use feature_flag_service.Obs.Log.{EvalError}
use feature_flag_service.Obs.Recorder.{Recording}
use feature_flag_service.Http.Requests.{Checked}

-- What a snapshot's methods return, `Keys` if it has it.
pub record SnapshotView : Type 0 where
  pub env : Bytes
  pub generation : ℤ
  pub len : ℕ
  pub keys : Option (List Bytes)
  pub flag : Bytes → Option Flag

-- `SnapshotSource` in the course of one request: what each call of `Snapshot` returns, the first of them
-- with the number 0, as the store may change between any two; the environments, and the time since the
-- last apply if it reports one, in nanoseconds.
pub record SnapshotSource : Type 0 where
  pub snapshot : ℕ → Bytes → Option SnapshotView
  pub environments : List Bytes
  pub age : Bytes → Option ℤ

-- `Evaluator` of deps.go
abbrev pub EvaluatorFn : Type 0
EvaluatorFn = SnapshotView → Bytes → EvalContext → ValueType → Value → Run Result

-- What a handler tells the metrics and the log.
pub data Event (F : Type 0) : Type 0 where
  measured : Recording F → Event F
  logged_error : EvalError → Event F
  logged_panic : Bytes → Event F
  logged : Bytes → Event F

pub record Reply (F A : Type 0) : Type 0 where
  pub events : List (Event F)
  pub answer : Checked A

abbrev pub reply : {F A : Type 0} → List (Event F) → Checked A → Reply F A
reply events answer = record { events = events; answer = answer }

-- `generationOf`, on a snapshot or nil.
abbrev pub generation_of : Option SnapshotView → ℤ
generation_of none = pos 0
generation_of (some s) = s.generation

-- `pin`, as the call of that number.
abbrev pub pin : SnapshotSource → ℕ → Bytes → Option SnapshotView
pin source n env = source.snapshot n env
