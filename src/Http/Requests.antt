-- ===== src/Http/Requests.antt =====
-- internal/transport/http/api.go and what of the middleware and of the configuration stands before a
-- handler: names that may be labels, the wire types, the body of a request. `equal_fold` is
-- strings.EqualFold; the decoder of a body is given by what its two calls did.
pub mod Names
mod Examples
use feature_flag_service.Common.{
  ℕ, ℤ, pos, leb_ℤ, ltb, leb, ◌==◌, Bool, true, false, not, ◌&&◌, ◌||◌, Bytes, codes, str_eq,
  is_empty, List, [], ◌∷◌, ◌++◌, Option, none, some, if◌then◌else◌, length, Map, lookup,
}
use feature_flag_service.Common.Text.{TextLib}
use feature_flag_service.Core.Value.{Value}
use feature_flag_service.Core.Context.{EvalContext}
use feature_flag_service.Obs.Log.{map_keys}
use feature_flag_service.Obs.Trace.{split_on}
use feature_flag_service.Http.Errors.{
  Code, invalid_json, payload_too_large, unsupported_media_type, has_prefix, contains,
}

abbrev pub is_token_byte : ℕ → Bool
is_token_byte c =
    (leb b'a' c && leb c b'z')
    || (leb b'A' c && leb c b'Z')
    || (leb b'0' c && leb c b'9')
    || (c == b'_')
    || (c == b'-')
    || (c == b'.')

-- The loop of `validToken`.
unfoldable pub are_token_bytes : Bytes → Bool
are_token_bytes [] = true
are_token_bytes (c ∷ s) = is_token_byte c && are_token_bytes s

unfoldable pub valid_token : Bytes → ℕ → Bool
unfolding are_token_bytes contains is_empty
valid_token s max_len =
    if is_empty s || ltb max_len (length s)
    then false
    else if are_token_bytes s
    then not (contains (codes "..") s)
    else false

unfoldable pub valid_env : Bytes → Bool
unfolding valid_token
valid_env s = valid_token s 32

unfoldable pub valid_flag_key : Bytes → Bool
unfolding valid_token
valid_flag_key s = valid_token s 128

-- `routes`
abbrev pub routes : Map Bytes
routes =
    (codes "/v1/evaluate", codes "eval")
    ∷ ((codes "/v1/evaluate/batch", codes "eval_batch")
        ∷ ((codes "/v1/config/layers", codes "config_apply")
            ∷ ((codes "/health", codes "health")
                ∷ ((codes "/live", codes "live")
                    ∷ ((codes "/ready", codes "ready")
                        ∷ ((codes "/debug/vars", codes "debug_vars") ∷ []))))))

abbrev pub or_route : Bytes → Option Bytes → Bytes
or_route path (some r) = r
or_route path none =
    if has_prefix (codes "/v1/config/snapshot/") path
    then codes "config_snapshot"
    else codes "other"

unfoldable pub route_label : Bytes → Bytes
unfolding lookup
route_label path = or_route path (lookup path routes)

-- `EvalContextWire`
pub record EvalContextWire : Type 0 where
  pub user_id : Bytes
  pub tenant_id : Bytes
  pub attributes : Map Value

unfoldable pub to_core : EvalContextWire → EvalContext
to_core c = record { user_id = c.user_id; tenant_id = c.tenant_id; attributes = c.attributes }

unfoldable pub context_keys : EvalContextWire → List Bytes
unfolding map_keys is_empty
context_keys c =
    map_keys c.attributes
    ++ ((if is_empty c.user_id then [] else codes "user_id" ∷ [])
        ++ (if is_empty c.tenant_id then [] else codes "tenant_id" ∷ []))

pub record EvaluateRequest : Type 0 where
  pub environment : Bytes
  pub flag : Bytes
  pub default_value : Value
  pub context : EvalContextWire

pub record EvaluateResponse : Type 0 where
  pub flag : Bytes
  pub environment : Bytes
  pub value : Value
  pub reason : Bytes
  pub rule_id : Bytes
  pub bucket : ℤ
  pub generation : ℤ
  pub fallback : Bool
  pub trace_id : Bytes

pub record BatchFlag : Type 0 where
  pub flag : Bytes
  pub default_value : Value

pub record EvaluateBatchRequest : Type 0 where
  pub environment : Bytes
  pub context : EvalContextWire
  pub flags : List BatchFlag

pub record EvaluateBatchResponse : Type 0 where
  pub environment : Bytes
  pub generation : ℤ
  pub trace_id : Bytes
  pub results : List EvaluateResponse

-- What the first call of a decoder did, and, if it gave a value, whether the second met the end.
pub data Decoded (A : Type 0) : Type 0 where
  body_too_large : Decoded A
  malformed : Decoded A
  decoded : A → Bool → Decoded A

-- A request that may go on, or the error that it is answered with.
pub data Checked (A : Type 0) : Type 0 where
  refused : Code → Bytes → Checked A
  accepted : A → Checked A

abbrev pub first_of : List Bytes → Bytes
first_of [] = []
first_of (p ∷ ps) = p

abbrev pub check_body : {A : Type 0} → Decoded A → Checked A
check_body body_too_large = refused payload_too_large (codes "request body exceeds the size limit")
check_body malformed =
    refused invalid_json (codes "request body is not valid JSON for this endpoint")
check_body (decoded a true) = accepted a
check_body (decoded a false) =
    refused invalid_json (codes "request body must contain exactly one JSON object")

-- `decodeJSON`, on the content type of the request and on what decoding its body does.
unfoldable pub decode_json :
    {A : Type 0} → TextLib → (Bytes → Bytes → Bool) → Bytes → Decoded A → Checked A
unfolding split_on is_empty
decode_json t equal_fold content_type body =
    if not (is_empty content_type)
      && not (
          equal_fold (t.trim_space (first_of (split_on b';' content_type)))
            (codes "application/json"))
    then refused unsupported_media_type (codes "content-type must be application/json")
    else check_body body

-- `Config`, durations in nanoseconds.
pub record Config : Type 0 where
  pub eval_addr : Bytes
  pub admin_addr : Bytes
  pub read_header_timeout : ℤ
  pub read_timeout : ℤ
  pub write_timeout : ℤ
  pub idle_timeout : ℤ
  pub handler_timeout : ℤ
  pub max_body_bytes : ℤ
  pub max_batch_flags : ℤ
  pub required_envs : List Bytes
  pub stale_after : ℤ
  pub service : Bytes
  pub instance_id : Bytes

abbrev pub or_text : Bytes → Bytes → Bytes
unfolding is_empty
or_text v default = if is_empty v then default else v

abbrev pub or_positive : ℤ → ℕ → ℤ
or_positive v default = if leb_ℤ v (pos 0) then pos default else v

-- `withDefaults`
unfoldable pub with_defaults : Config → Config
unfolding or_text
with_defaults c = record {
  eval_addr = or_text c.eval_addr (codes ":8080");
  admin_addr = or_text c.admin_addr (codes ":9090");
  read_header_timeout = or_positive c.read_header_timeout 2000000000;
  read_timeout = or_positive c.read_timeout 5000000000;
  write_timeout = or_positive c.write_timeout 10000000000;
  idle_timeout = or_positive c.idle_timeout 60000000000;
  handler_timeout = or_positive c.handler_timeout 3000000000;
  max_body_bytes = or_positive c.max_body_bytes 1048576;
  max_batch_flags = or_positive c.max_batch_flags 500;
  required_envs = c.required_envs;
  stale_after = or_positive c.stale_after 60000000000;
  service = or_text c.service (codes "flagd");
  instance_id = c.instance_id;
}
