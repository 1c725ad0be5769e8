-- ===== src/Obs/Trace/Examples.antt =====
-- Tests of the trace headers, with package strings on ASCII texts.
use feature_flag_service.Common.{
  ◌≡◌, refl, true, Bytes, codes, [], ◌∷◌, none, some, lookup, insert, str_eq, is_empty, arith,
}
use feature_flag_service.Common.Text.{ascii, ascii-IsTextLib}
use feature_flag_service.Obs.Trace.{
  Trace, Header, header_trace_parent, header_trace_id, header_request_id, is_hex,
  trace_id_from_headers, inject, valid, sanitize_id,
}
use feature_flag_service.Obs.Trace.Accepted.{IsTraceId, trace_id_from_headers-IsTraceId}
use feature_flag_service.Obs.Trace.Hops.{trace_id_from_headers-inject}

abbrev caller : Trace
caller = record {
  trace_id = codes "0af7651916cd43dd8448eb211c80319c";
  span_id = codes "b7ad6b7169203331";
}

abbrev plain_caller : Trace
plain_caller = record { trace_id = codes "Order_17"; span_id = [] }

abbrev spare_span : Bytes
spare_span = codes "00f067aa0ba902b7"

abbrev sent : Header
sent = (header_request_id, codes " Order-17 ") ∷ []

short_id_refused : trace_id_from_headers ascii ((header_trace_id, codes "abc") ∷ []) ≡ none
unfolding trace_id_from_headers lookup str_eq is_empty
short_id_refused = refl

zero_parent_refused :
    trace_id_from_headers ascii
      ((header_trace_parent, codes "00-00000000000000000000000000000000-b7ad6b7169203331-01") ∷ [])
    ≡ none
unfolding trace_id_from_headers lookup str_eq is_empty
zero_parent_refused = refl

sent_id : trace_id_from_headers ascii sent ≡ some (codes "order-17")
unfolding trace_id_from_headers lookup str_eq is_empty
sent_id = refl

trace_id_from_headers-IsTraceId_example : IsTraceId (codes "order-17")
trace_id_from_headers-IsTraceId_example =
    trace_id_from_headers-IsTraceId ascii ascii-IsTextLib sent (codes "order-17") sent_id

caller-IsTraceId : IsTraceId caller.trace_id
caller-IsTraceId = ground arith

spare_span-IsHex : is_hex spare_span ≡ true
unfolding is_hex
spare_span-IsHex = refl

-- An id of two bytes is sent and not taken.
short_id :
    trace_id_from_headers ascii
      (inject (some (record { trace_id = codes "ab"; span_id = [] })) spare_span [])
    ≡ none
unfolding trace_id_from_headers inject is_hex lookup insert str_eq is_empty valid sanitize_id
short_id = refl

trace_id_from_headers-inject_example :
    trace_id_from_headers ascii (inject (some caller) spare_span []) ≡ some caller.trace_id
unfolding lookup
trace_id_from_headers-inject_example =
    trace_id_from_headers-inject ascii ascii-IsTextLib caller spare_span [] caller-IsTraceId
      (refl, spare_span-IsHex) refl
