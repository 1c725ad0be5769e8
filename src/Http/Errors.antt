-- ===== src/Http/Errors.antt =====
-- internal/transport/apierr/apierr.go: the one envelope of every error, and what of a message may go in
-- it. Its time stamp is given.
pub mod Safe
mod Examples
use feature_flag_service.Common.{
  ℕ, zero, suc, ltb, ◌==◌, Bool, true, false, ◌||◌, Bytes, codes, is_empty, List, [], ◌∷◌, Option,
  none, some, if◌then◌else◌, length,
}
use feature_flag_service.Common.Text.{TextLib}
use feature_flag_service.Obs.Trace.{Trace, trace_from_context}

-- `Code`
pub data Code : Type 0 where
  invalid_json invalid_argument not_found method_not_allowed payload_too_large
        unsupported_media_type :
      Code
  too_many_flags invalid_config unavailable timeout internal : Code

unfoldable pub code_string : Code → Bytes
code_string invalid_json = codes "invalid_json"
code_string invalid_argument = codes "invalid_argument"
code_string not_found = codes "not_found"
code_string method_not_allowed = codes "method_not_allowed"
code_string payload_too_large = codes "payload_too_large"
code_string unsupported_media_type = codes "unsupported_media_type"
code_string too_many_flags = codes "too_many_flags"
code_string invalid_config = codes "invalid_config"
code_string unavailable = codes "unavailable"
code_string timeout = codes "timeout"
code_string internal = codes "internal"

unfoldable pub status_of : Code → ℕ
status_of invalid_json = 400
status_of invalid_argument = 400
status_of invalid_config = 400
status_of too_many_flags = 400
status_of not_found = 404
status_of method_not_allowed = 405
status_of payload_too_large = 413
status_of unsupported_media_type = 415
status_of unavailable = 503
status_of timeout = 504
status_of internal = 500

-- `Envelope`
pub record Envelope : Type 0 where
  pub error_code : Code
  pub message : Bytes
  pub trace_id : Bytes
  pub span_id : Bytes
  pub timestamp : Bytes

abbrev pub max_message_len : ℕ
max_message_len = 200

abbrev pub internal_message : Bytes
internal_message = codes "internal error"

-- strings.HasPrefix and strings.Contains
abbrev pub has_prefix : Bytes → Bytes → Bool
has_prefix [] s = true
has_prefix (a ∷ p) [] = false
has_prefix (a ∷ p) (b ∷ s) = if a == b then has_prefix p s else false

unfoldable pub contains : Bytes → Bytes → Bool
contains sub [] = has_prefix sub []
contains sub (c ∷ s) = has_prefix sub (c ∷ s) || contains sub s

-- strings.ContainsAny on the three control characters.
unfoldable pub has_control : Bytes → Bool
has_control [] = false
has_control (c ∷ s) = (c == 10) || (c == 13) || (c == 9) || has_control s

-- The first bytes of a text.
unfoldable pub take_bytes : ℕ → Bytes → Bytes
take_bytes zero s = []
take_bytes (suc n) [] = []
take_bytes (suc n) (c ∷ s) = c ∷ take_bytes n s

-- What gives a message away as that of a fault within.
unfoldable pub leaks : TextLib → Bytes → Bool
unfolding contains has_control
leaks t msg =
    has_control msg
    || contains (codes ".go:") (t.to_lower msg)
    || contains (codes "goroutine ") (t.to_lower msg)
    || contains (codes "/Users/") msg
    || contains (codes "/home/") msg
    || contains (codes "0x") msg

abbrev pub shortened : Bytes → Bytes
unfolding take_bytes
shortened msg = if ltb max_message_len (length msg) then take_bytes max_message_len msg else msg

-- `Sanitize`, after the blanks around the message are gone.
unfoldable pub sanitize_trimmed : TextLib → Bytes → Bytes
unfolding leaks shortened is_empty
sanitize_trimmed t msg =
    if is_empty msg
    then internal_message
    else if leaks t msg
    then internal_message
    else shortened msg

unfoldable pub sanitize : TextLib → Bytes → Bytes
unfolding sanitize_trimmed
sanitize t msg = sanitize_trimmed t (t.trim_space msg)

-- A refused request: the status and the envelope.
pub record Refusal : Type 0 where
  pub status : ℕ
  pub envelope : Envelope

-- `Write`
unfoldable pub write_error : TextLib → Bytes → Option Trace → Code → Bytes → Refusal
unfolding status_of sanitize
write_error t now ctx code msg = record {
  status = status_of code;
  envelope = record {
    error_code = code;
    message = sanitize t msg;
    trace_id = (trace_from_context ctx).trace_id;
    span_id = (trace_from_context ctx).span_id;
    timestamp = now;
  };
}

-- `WriteInternal`
unfoldable pub write_internal : TextLib → Bytes → Option Trace → Refusal
unfolding write_error
write_internal t now ctx = write_error t now ctx internal internal_message
