-- ===== src/Obs/Log.antt =====
-- internal/obs/log.go: what reaches the handler that writes lines. A value is a type with the texts among
-- its elements. The handler inside is what it was bound to; that it writes JSON is not stated.
pub mod Redact
mod Examples
use feature_flag_service.Common.{
  ℕ, ◌+◌, ℤ, pos, Bool, true, false, not, ◌&&◌, ◌||◌, Bytes, codes, str_eq, is_empty, List, [], ◌∷◌,
  ◌++◌, Option, none, some, if◌then◌else◌, Map, keys, decimal,
}
use feature_flag_service.Common.Text.{TextLib}
use feature_flag_service.Config.Snapshot.{sort_strings}
use feature_flag_service.Obs.Trace.{Trace, valid, trace_from_context}
use feature_flag_service.Obs.Labels.{is_listed}
use feature_flag_service.Obs.Sampler.{TokenLib, Sampler, Admission, allow}

-- `piiKeys`
abbrev pub pii_keys : List Bytes
pii_keys =
    codes "user_id"
    ∷ (codes "userid"
        ∷ (codes "user"
            ∷ (codes "subject"
                ∷ (codes "bucket_key"
                    ∷ (codes "email"
                        ∷ (codes "phone"
                            ∷ (codes "ip"
                                ∷ (codes "ip_address"
                                    ∷ (codes "remote_addr"
                                        ∷ (codes "session_id"
                                            ∷ (codes "cookie"
                                                ∷ (codes "authorization"
                                                    ∷ (codes "token"
                                                        ∷ (codes "api_key"
                                                            ∷ (codes "password"
                                                            ∷ (codes "secret"
                                                            ∷ (codes "attributes"
                                                            ∷ (codes "context_values"
                                                            ∷ (codes "eval_context"
                                                            ∷ (codes "variant_payload"
                                                            ∷ []))))))))))))))))))))

abbrev pub redacted_value : Bytes
redacted_value = codes "[redacted]"

-- The levels of the four methods of a logger.
pub data Level : Type 0 where
  debug_level : Level
  info_level : Level
  warn_level : Level
  error_level : Level

abbrev pub is_below_error : Level → Bool
is_below_error debug_level = true
is_below_error info_level = true
is_below_error warn_level = true
is_below_error error_level = false

-- slog.Attr
pub record Attr (V : Type 0) : Type 0 where
  pub key : Bytes
  pub value : V

-- What the handler inside was given by `WithAttrs` and `WithGroup`.
pub data Binding (V : Type 0) : Type 0 where
  bound_attrs : List (Attr V) → Binding V
  bound_group : Bytes → Binding V

-- `redactHandler`
pub record RedactHandler (V : Type 0) : Type 0 where
  pub inner : List (Binding V)
  pub redact : Bool

-- `MapKeys`
unfoldable pub map_keys : {V : Type 0} → Map V → List Bytes
unfolding sort_strings
map_keys m = sort_strings (keys m)

module _ {V : Type 0} (t : TextLib) (text : Bytes → V) where
  -- `IsPIIKey`
  unfoldable pub is_pii_key : Bytes → Bool
  is_pii_key name = is_listed (t.to_lower name) pii_keys

  abbrev pub attr : Bytes → V → Attr V
  attr k v = record { key = k; value = v }

  -- `filter`: none for an attribute that is left out.
  unfoldable pub filter : RedactHandler V → Attr V → Level → Option (Attr V)
  unfolding is_pii_key
  filter h a level =
      if not h.redact || not (is_pii_key a.key)
      then some a
      else if is_below_error level
      then none
      else some (attr a.key (text redacted_value))

  abbrev pub add_attr : Option (Attr V) → List (Attr V) → List (Attr V)
  add_attr none rest = rest
  add_attr (some a) rest = a ∷ rest

  unfoldable pub filter_all : RedactHandler V → Level → List (Attr V) → List (Attr V)
  unfolding filter
  filter_all h level [] = []
  filter_all h level (a ∷ rest) = add_attr (filter h a level) (filter_all h level rest)

  unfoldable pub trace_attrs : Trace → List (Attr V)
  unfolding valid is_empty
  trace_attrs tr =
      if valid tr
      then attr (codes "trace_id") (text tr.trace_id)
        ∷ (if is_empty tr.span_id then [] else attr (codes "span_id") (text tr.span_id) ∷ [])
      else []

  -- `Handle`: the attributes of the record that the handler inside is given. Its time, level and
  -- message are those that came in.
  unfoldable pub handle : RedactHandler V → Option Trace → Level → List (Attr V) → List (Attr V)
  unfolding trace_attrs filter_all
  handle h ctx level attrs = trace_attrs (trace_from_context ctx) ++ filter_all h level attrs

  unfoldable pub kept_attrs : RedactHandler V → List (Attr V) → List (Attr V)
  unfolding is_pii_key
  kept_attrs h [] = []
  kept_attrs h (a ∷ rest) =
      if h.redact && is_pii_key a.key then kept_attrs h rest else a ∷ kept_attrs h rest

  -- `WithAttrs`
  unfoldable pub with_attrs : List (Attr V) → RedactHandler V → RedactHandler V
  unfolding kept_attrs
  with_attrs attrs h = record {
    inner = bound_attrs (kept_attrs h attrs) ∷ h.inner;
    redact = h.redact;
  }

  -- `WithGroup`
  unfoldable pub with_group : Bytes → RedactHandler V → RedactHandler V
  with_group name h = record { inner = bound_group name ∷ h.inner; redact = h.redact }

  -- `New`, with the two texts stamped on every line.
  abbrev pub with_stamp : Bytes → Bytes → RedactHandler V → RedactHandler V
  unfolding with_attrs is_empty
  with_stamp k v h = if is_empty v then h else with_attrs (attr k (text v) ∷ []) h

  unfoldable pub new_handler : Bool → Bytes → Bytes → RedactHandler V
  unfolding with_stamp
  new_handler allow_pii service instance_id =
      with_stamp (codes "instance_id") instance_id
        (with_stamp (codes "service") service (record { inner = []; redact = not allow_pii }))

-- `EvalError`; a missing error and a missing stack are empty texts.
pub record EvalError : Type 0 where
  pub flag : Bytes
  pub env : Bytes
  pub reason : Bytes
  pub generation : ℤ
  pub rule_id : Bytes
  pub err : Bytes
  pub stack : Bytes
  pub ctx_keys : List Bytes
  pub value_source : Bytes

-- The values that the attributes of an evaluation error have.
pub record ValueLib (V : Type 0) : Type 0 where
  pub text : Bytes → V
  pub number : ℤ → V
  pub texts : List Bytes → V

module _ {V : Type 0} (lib : ValueLib V) where
  abbrev pub text_attr : Bytes → Bytes → List (Attr V) → List (Attr V)
  unfolding is_empty
  text_attr k v rest = if is_empty v then rest else record { key = k; value = lib.text v } ∷ rest

  abbrev pub keys_attr : List Bytes → List (Attr V) → List (Attr V)
  keys_attr [] rest = rest
  keys_attr (k ∷ ks) rest = record { key = codes "ctx_keys"; value = lib.texts (k ∷ ks) } ∷ rest

  -- The attributes of the line of `EvaluationError`, which stands for `suppressed` more.
  unfoldable pub eval_error_attrs : EvalError → ℕ → List (Attr V)
  unfolding text_attr
  eval_error_attrs e suppressed =
      record { key = codes "event"; value = lib.text (codes "flag.evaluation.error") }
      ∷ (record { key = codes "flag"; value = lib.text e.flag }
          ∷ (record { key = codes "env"; value = lib.text e.env }
              ∷ (record { key = codes "reason"; value = lib.text e.reason }
                  ∷ (record { key = codes "generation"; value = lib.number e.generation }
                      ∷ (record {
                        key = codes "sampled_of";
                        value = lib.number (pos (suppressed + 1));
                      }
                          ∷ text_attr (codes "rule_id") e.rule_id (
                              text_attr (codes "returned_value_source") e.value_source (
                                keys_attr e.ctx_keys (
                                  text_attr (codes "err") e.err
                                    (text_attr (codes "stack") e.stack [])))))))))

  abbrev pub emitted : EvalError → Admission → Option (List (Attr V))
  unfolding eval_error_attrs
  emitted e a = if a.allow then some (eval_error_attrs e a.suppressed) else none

  abbrev pub line_of :
      EvalError → {F : Type 0} → Sampler F × Admission → Option (Sampler F) × Option (List (Attr V))
  unfolding emitted
  line_of e (s, a) = (some s, emitted e a)

  -- `EvaluationError`, with a sampler or without one: the line, if one is emitted.
  unfoldable pub evaluation_error :
      {F : Type 0}
      → TokenLib F
      → EvalError
      → ℕ
      → Option (Sampler F)
      → Option (Sampler F) × Option (List (Attr V))
  unfolding eval_error_attrs line_of allow
  evaluation_error tokens e now none = (none, some (eval_error_attrs e 0))
  evaluation_error tokens e now (some s) =
      line_of e (allow tokens (e.flag ++ (b'|' ∷ e.reason)) now s)
