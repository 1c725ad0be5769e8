-- ===== src/Obs/Trace.antt =====
-- internal/obs/trace.go: the trace of a request, read from headers and written to them. Headers are a
-- map from a name to the first value; `minted` ids are what the random source gave. A context is the
-- trace that it carries, if it carries one.
pub mod Accepted
pub mod Hops
mod Examples
use feature_flag_service.Common.{
  ℕ, ltb, leb, ◌==◌, Bool, true, false, not, ◌&&◌, ◌||◌, Bytes, codes, str_eq, is_empty, List, [],
  ◌∷◌, ◌++◌, Option, none, some, if◌then◌else◌, length, Map, lookup, insert,
}
use feature_flag_service.Common.Text.{TextLib}

abbrev pub header_trace_parent : Bytes
header_trace_parent = codes "traceparent"

abbrev pub header_trace_id : Bytes
header_trace_id = codes "X-Trace-Id"

abbrev pub header_request_id : Bytes
header_request_id = codes "X-Request-Id"

abbrev pub max_id_len : ℕ
max_id_len = 64

pub record Trace : Type 0 where
  pub trace_id : Bytes
  pub span_id : Bytes

abbrev pub no_trace : Trace
no_trace = record { trace_id = []; span_id = [] }

unfoldable pub valid : Trace → Bool
unfolding is_empty
valid t = not (is_empty t.trace_id)

-- `TraceFromContext`
abbrev pub trace_from_context : Option Trace → Trace
trace_from_context none = no_trace
trace_from_context (some t) = t

abbrev pub Header : Type 0
Header = Map Bytes

abbrev pub value_or_empty : Option Bytes → Bytes
value_or_empty none = []
value_or_empty (some v) = v

-- `h.Get`
unfoldable pub get_header : Bytes → Header → Bytes
get_header name h = value_or_empty (lookup name h)

-- strings.Split on one byte.
abbrev pub to_first : ℕ → List Bytes → List Bytes
to_first a [] = (a ∷ []) ∷ []
to_first a (p ∷ ps) = (a ∷ p) ∷ ps

unfoldable pub split_on : ℕ → Bytes → List Bytes
split_on c [] = [] ∷ []
split_on c (a ∷ s) = if a == c then [] ∷ split_on c s else to_first a (split_on c s)

abbrev pub is_hex_digit : ℕ → Bool
is_hex_digit c = (leb b'0' c && leb c b'9') || (leb b'a' c && leb c b'f')

unfoldable pub is_hex : Bytes → Bool
is_hex [] = true
is_hex (c ∷ s) = is_hex_digit c && is_hex s

abbrev pub is_id_byte : ℕ → Bool
is_id_byte c =
    (leb b'0' c && leb c b'9')
    || (leb b'a' c && leb c b'z')
    || (leb b'A' c && leb c b'Z')
    || (c == b'-')
    || (c == b'_')

-- The loop of `sanitizeID`.
unfoldable pub are_id_bytes : Bytes → Bool
are_id_bytes [] = true
are_id_bytes (c ∷ s) = is_id_byte c && are_id_bytes s

-- `parts[1]`
abbrev pub second : List Bytes → Bytes
second [] = []
second (p ∷ []) = []
second (p ∷ (q ∷ ps)) = q

-- `strings.Repeat("0", 32)`
abbrev pub zero_id : Bytes
zero_id = codes "00000000000000000000000000000000"

module _ (t : TextLib) where
  unfoldable pub sanitize_id : Bytes → Bytes
  unfolding are_id_bytes
  sanitize_id v =
      if ltb (length v) 4 || ltb max_id_len (length v)
      then []
      else if are_id_bytes v
      then t.to_lower v
      else []

  -- The tests of `traceIDFromTraceParent` on the second part.
  abbrev pub as_trace_id : Bytes → Option Bytes
  as_trace_id id =
      if (length id == 32) && is_hex id && not (str_eq id zero_id) then some id else none

  unfoldable pub trace_id_from_trace_parent : Bytes → Option Bytes
  unfolding split_on is_hex
  trace_id_from_trace_parent v =
      let parts = split_on b'-' (t.trim_space v) in
      if ltb (length parts) 4 then none else as_trace_id (t.to_lower (second parts))

  -- One round of the loop over the two plain headers, and what follows it.
  abbrev pub or_next : Bytes → Option Bytes → Option Bytes
  or_next id next = if is_empty id then next else some id

  unfoldable pub plain_id : Bytes → Header → Bytes
  unfolding sanitize_id get_header
  plain_id name h = sanitize_id (t.trim_space (get_header name h))

  abbrev pub or_plain : Option Bytes → Header → Option Bytes
  or_plain (some id) h = some id
  or_plain none h =
      or_next (plain_id header_trace_id h) (or_next (plain_id header_request_id h) none)

  unfoldable pub parent_id : Bytes → Option Bytes
  unfolding trace_id_from_trace_parent is_empty
  parent_id v = if is_empty v then none else trace_id_from_trace_parent v

  -- `TraceIDFromHeaders`. A plain header that is empty has no id either.
  unfoldable pub trace_id_from_headers : Header → Option Bytes
  unfolding parent_id plain_id get_header
  trace_id_from_headers h = or_plain (parent_id (get_header header_trace_parent h)) h

  abbrev pub or_minted : Bytes → Option Bytes → Bytes
  or_minted minted none = minted
  or_minted minted (some id) = id

  -- `EnsureTrace`, on the ids that are minted if need be.
  unfoldable pub ensure_trace : Option Trace → Header → Bytes → Bytes → Trace
  unfolding valid trace_id_from_headers
  ensure_trace ctx h minted_id minted_span =
      if valid (trace_from_context ctx) then trace_from_context ctx else record {
        trace_id = or_minted minted_id (trace_id_from_headers h);
        span_id = minted_span;
      }

-- The span that goes out with a trace.
unfoldable pub outbound_span : Trace → Bytes → Bytes
unfolding is_hex
outbound_span t minted = if (length t.span_id == 16) && is_hex t.span_id then t.span_id else minted

abbrev pub trace_parent : Bytes → Bytes → Bytes
trace_parent id span = codes "00-" ++ (id ++ (b'-' ∷ (span ++ codes "-01")))

-- `Inject`
unfoldable pub inject : Option Trace → Bytes → Header → Header
unfolding valid outbound_span is_hex
inject ctx minted h =
    let t = trace_from_context ctx in
    if valid t
    then (let named = insert header_trace_id t.trace_id h in
        if (length t.trace_id == 32) && is_hex t.trace_id
        then insert header_trace_parent (trace_parent t.trace_id (outbound_span t minted)) named
        else named)
    else h
