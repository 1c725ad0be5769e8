-- ===== src/Http/Writer/Boundary.antt =====
-- What a request is answered with, whatever its handler does.
use feature_flag_service.Common.{
  ◌≡◌, ◌≢◌, refl, ap, sym, ◌∙◌, ℕ, true, Bytes, List, [], ◌∷◌, ◌++◌, Option, none, some, ◌≤◌, All,
  inl, inr, Bool-cases, arith,
}
use mathlib.Core.List.{append_assoc, append-nil}
use feature_flag_service.Http.Writer.{
  Act, write_header, write, Ending, handled, panicked, aborts, Wire, new_wire, wire_ops, Tracking,
  tracking_ops, act_all, end_boundary, metrics_end, safe_middleware, metrics_middleware, is_final,
  allows_body, body_allowed, status_or_ok,
}

-- The status that the first act of a handler settles.
abbrev pub first_status : List Act → Option ℕ
first_status [] = none
first_status (write_header code ∷ acts) = some code
first_status (write bytes ∷ acts) = some 200

abbrev pub all_written : List Act → Bytes
all_written [] = []
all_written (write_header code ∷ acts) = all_written acts
all_written (write bytes ∷ acts) = bytes ++ all_written acts

-- A status that net/http takes as the final one.
abbrev pub IsFinalAct : Act → Type 0
IsFinalAct (write_header code) = (200 ≤ code) × (code ≤ 999)
IsFinalAct (write bytes) = Unit

-- The status and the body of the answer, by what the handler did.
abbrev pub answer_of : Bytes → Option ℕ → Bytes → Ending → ℕ × Bytes
answer_of fault (some code) body ending = (code, body_allowed code body)
answer_of fault none body panicked = (500, fault)
answer_of fault none body handled = (200, body)
answer_of fault none body aborts = (200, body)

-- The two writers, once a status is out.
abbrev sent_through : ℕ → Bytes → Tracking Wire
sent_through code body = record {
  inner = record { sent = some code; body = body };
  wrote = true;
  status = code;
}

abbrev committed : ℕ → Bytes → Tracking (Tracking Wire)
committed code body = record { inner = sent_through code body; wrote = true; status = code }

body_allowed-append :
    (code : ℕ) (xs ys : Bytes)
    → body_allowed code xs ++ body_allowed code ys ≡ body_allowed code (xs ++ ys)
body_allowed-append code xs ys = elim (Bool-cases (allows_body code)) [
  | inl allowed ↦ rw allowed refl
  | inr none_there ↦ rw none_there refl
]

act_all-committed :
    (acts : List Act) (code : ℕ) (body : Bytes)
    → act_all (tracking_ops (tracking_ops wire_ops)) acts (committed code body)
      ≡ committed code (body ++ body_allowed code (all_written acts))
unfolding act_all
act_all-committed [] code body = ap (committed code) (sym (nothing code body))
  where
    nothing : (code : ℕ) (body : Bytes) → body ++ body_allowed code [] ≡ body
    nothing code body = elim (Bool-cases (allows_body code)) [
      | inl allowed ↦ rw allowed (append-nil body)
      | inr none_there ↦ rw none_there (append-nil body)
    ]
act_all-committed (write_header c ∷ acts) code body = act_all-committed acts code body
act_all-committed (write bytes ∷ acts) code body =
    act_all-committed acts code (body ++ body_allowed code bytes)
    ∙ ap (committed code) (
        append_assoc body (body_allowed code bytes) (body_allowed code (all_written acts))
        ∙ ap (λ more. body ++ more) (body_allowed-append code bytes (all_written acts)))

-- What `apierr.WriteInternal` does: a status of 500 and a body.
abbrev pub fault_acts : Bytes → List Act
fault_acts fault = write_header 500 ∷ (write fault ∷ [])

-- The end of a request that was answered so.
abbrev pub IsAnswered : ℕ × Bytes → Option ℕ × Wire × Ending → Type 0
IsAnswered (code, body) (metric, wire, ending) =
    (metric ≡ some code) × (status_or_ok wire.sent ≡ code) × (wire.body ≡ body) × (ending ≡ handled)

sent_end :
    (fault : Bytes) (code : ℕ) (body : Bytes) (acts : List Act) (ending : Ending)
    → ending ≢ aborts
    → IsAnswered
        (code, body ++ body_allowed code (all_written acts))
        (metrics_end (
          end_boundary
            (tracking_ops wire_ops)
            (fault_acts fault)
            ending
            (act_all (tracking_ops (tracking_ops wire_ops)) acts (committed code body))))
sent_end fault code body acts handled h =
    rw (act_all-committed acts code body) (refl, refl, refl, refl)
sent_end fault code body acts panicked h =
    rw (act_all-committed acts code body) (refl, refl, refl, refl)
sent_end fault code body acts aborts h = absurd (h refl)

final_status : (code : ℕ) → 200 ≤ code → is_final code ≡ true
unfolding is_final
final_status code h = ground (arith, h)

-- A handler that does not abort, and sets no status but one of 200 to 999, is always answered, whether it
-- panics or not; the panic goes no further, and the request ends like any other. The answer is what it
-- began to send, if it began, under its first status and without a body where that status has none;
-- else it is the envelope of an internal error under 500 if it panicked, and an empty 200 if it did not.
-- The status that is counted is the one that was sent.
pub metrics_middleware-IsAnswered :
    (fault : Bytes) (acts : List Act) (ending : Ending)
    → ending ≢ aborts
    → All IsFinalAct acts
    → IsAnswered
        (answer_of fault (first_status acts) (all_written acts) ending)
        (metrics_middleware (fault_acts fault) (acts, ending) new_wire)
unfolding metrics_middleware safe_middleware act_all is_final allows_body
metrics_middleware-IsAnswered fault [] handled h final = (refl, refl, refl, refl)
metrics_middleware-IsAnswered fault [] panicked h final = (refl, refl, refl, refl)
metrics_middleware-IsAnswered fault [] aborts h final = absurd (h refl)
metrics_middleware-IsAnswered fault (write_header code ∷ acts) ending h final =
    rw (final_status code final.0.0) (sent_end fault code [] acts ending h)
metrics_middleware-IsAnswered fault (write bytes ∷ acts) ending h final =
    sent_end fault 200 bytes acts ending h
