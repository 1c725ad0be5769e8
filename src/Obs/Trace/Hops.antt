-- ===== src/Obs/Trace/Hops.antt =====
-- An id that goes out is the id that comes in at the next service.
use feature_flag_service.Common.{
  ◌≡◌, refl, ap, ◌∙◌, ◌⊎◌, inl, inr, ℕ, ◌≤◌, ltb, ◌==◌, true, false, not, ◌&&◌, ◌||◌, Bytes, codes,
  str_eq, Avoids, is_empty, [], ◌∷◌, ◌++◌, Option, none, some, if◌then◌else◌, length, All,
  All-append, lookup, insert, lookup-insert, Bool-cases, arith,
}
use feature_flag_service.Common.Text.{TextLib, IsTextLib, IsPrintable}
use feature_flag_service.Obs.Trace.{
  Trace, Header, header_trace_parent, header_trace_id, valid, max_id_len, is_hex, are_id_bytes,
  sanitize_id, as_trace_id, trace_id_from_trace_parent, parent_id, or_plain, plain_id,
  trace_id_from_headers, get_header, split_on, second, outbound_span, trace_parent, inject,
  ensure_trace,
}
use feature_flag_service.Obs.Trace.Accepted.{IsIdByte, ids-IsPrintable, lowered_id, IsTraceId}

-- What the random source gives for a span: 16 hex digits.
abbrev pub IsSpan : Bytes → Type 0
IsSpan s = (length s ≡ 16) × (is_hex s ≡ true)

are_id_bytes-true : (s : Bytes) → All IsIdByte s → are_id_bytes s ≡ true
unfolding are_id_bytes
are_id_bytes-true [] h = refl
are_id_bytes-true (c ∷ s) h = ground (arith, h.0, are_id_bytes-true s h.1)

is_hex-IsPrintable : (s : Bytes) → is_hex s ≡ true → All IsPrintable s
unfolding is_hex
is_hex-IsPrintable [] h = tt
is_hex-IsPrintable (c ∷ s) h = (ground arith, is_hex-IsPrintable s (ground arith))

is_hex-Avoids : (s : Bytes) → is_hex s ≡ true → Avoids b'-' s
unfolding is_hex
is_hex-Avoids [] h = tt
is_hex-Avoids (c ∷ s) h = ((λ e. ground arith), is_hex-Avoids s (ground arith))

split_on-append : (c : ℕ) (p q : Bytes) → Avoids c p → split_on c (p ++ (c ∷ q)) ≡ p ∷ split_on c q
unfolding split_on
split_on-append c [] q h = ground arith
split_on-append c (a ∷ p) q h =
    let other : (a == c) ≡ false = ground (arith, h.0) in rw (other, split_on-append c p q h.1) refl

last_part : split_on b'-' (codes "01") ≡ codes "01" ∷ []
unfolding split_on
last_part = refl

not_empty : (s : Bytes) → 4 ≤ length s → is_empty s ≡ false
unfolding is_empty
not_empty [] h = absurd (omega arith)
not_empty (c ∷ s) h = refl

split_parent :
    (id span : Bytes)
    → is_hex id ≡ true
    → is_hex span ≡ true
    → split_on b'-' (trace_parent id span) ≡ codes "00" ∷ (id ∷ (span ∷ (codes "01" ∷ [])))
split_parent id span hi hs =
    split_on-append b'-' (codes "00") (id ++ (b'-' ∷ (span ++ codes "-01"))) (ground arith)
    ∙ ap (λ ps. codes "00" ∷ ps)
        (split_on-append b'-' id (span ++ codes "-01") (is_hex-Avoids id hi)
          ∙ ap (λ ps. id ∷ ps)
              (split_on-append b'-' span (codes "01") (is_hex-Avoids span hs)
                ∙ ap (λ ps. span ∷ ps) last_part))

parent-IsPrintable :
    (id span : Bytes)
    → All IsPrintable id
    → is_hex span ≡ true
    → All IsPrintable (trace_parent id span)
parent-IsPrintable id span hi hs = All-append IsPrintable (codes "00-") _ (ground arith) (
    All-append IsPrintable id _ hi
      (omega arith, All-append IsPrintable span _ (is_hex-IsPrintable span hs) (ground arith)))

outbound_span-IsSpan :
    (t : Trace) (minted : Bytes) → IsSpan minted → is_hex (outbound_span t minted) ≡ true
unfolding outbound_span
outbound_span-IsSpan t minted h = elim (Bool-cases ((length t.span_id == 16) && is_hex t.span_id)) [
  | inl kept ↦ ground arith
  | inr other ↦ rw other h.1
]

module _ (t : TextLib) (lib : IsTextLib t) where
  sanitize_id-same : (id : Bytes) → IsTraceId id → sanitize_id t id ≡ id
  unfolding sanitize_id
  sanitize_id-same id (least, most, bytes) =
      let fits : (ltb (length id) 4 || ltb max_id_len (length id)) ≡ false = ground arith in
      rw (fits, are_id_bytes-true id bytes)
        (lib.lowers id (ids-IsPrintable id bytes) ∙ lowered_id id bytes)

  plain_id-same :
      (name id : Bytes) (h : Header)
      → IsTraceId id
      → lookup name h ≡ some id
      → plain_id t name h ≡ id
  unfolding plain_id get_header
  plain_id-same name id h is there =
      rw (there, lib.trims id (ids-IsPrintable id is.2)) (sanitize_id-same id is)

  or_plain-same :
      (parsed : Option Bytes) (id : Bytes) (h : Header)
      → IsTraceId id
      → lookup header_trace_id h ≡ some id
      → (parsed ≡ none) ⊎ (parsed ≡ some id)
      → or_plain t parsed h ≡ some id
  or_plain-same none id h is there e =
      let same = plain_id-same header_trace_id id h is there in
      let full : is_empty (plain_id t header_trace_id h) ≡ false = rw same (not_empty id is.0) in
      rw (full) (ap some same)
  or_plain-same (some p) id h is there (inl e) = absurd (cc)
  or_plain-same (some p) id h is there (inr e) = e

  no_parent : parent_id t [] ≡ none
  unfolding parent_id is_empty
  no_parent = refl

  trace_parent-parsed :
      (id span : Bytes)
      → IsTraceId id
      → is_hex id ≡ true
      → is_hex span ≡ true
      → trace_id_from_trace_parent t (trace_parent id span) ≡ as_trace_id t id
  unfolding trace_id_from_trace_parent
  trace_parent-parsed id span is hi hs =
      let parts =
        ap (split_on b'-') (
          lib.trims (trace_parent id span)
            (parent-IsPrintable id span (ids-IsPrintable id is.2) hs))
        ∙ split_parent id span hi hs in
      let lowered = lib.lowers id (ids-IsPrintable id is.2) ∙ lowered_id id is.2 in
      ap (λ ps. if ltb (length ps) 4 then none else as_trace_id t (t.to_lower (second ps))) parts
      ∙ ap (as_trace_id t) lowered

  parent_id-parsed :
      (id span : Bytes)
      → IsTraceId id
      → is_hex id ≡ true
      → is_hex span ≡ true
      → parent_id t (trace_parent id span) ≡ as_trace_id t id
  unfolding parent_id is_empty
  parent_id-parsed id span is hi hs = trace_parent-parsed id span is hi hs

  as_trace_id-either : (id : Bytes) → (as_trace_id t id ≡ none) ⊎ (as_trace_id t id ≡ some id)
  as_trace_id-either id = ground arith

  headers-read :
      (parsed : Option Bytes) (id : Bytes) (h : Header)
      → parent_id t (get_header header_trace_parent h) ≡ parsed
      → (parsed ≡ none) ⊎ (parsed ≡ some id)
      → IsTraceId id
      → lookup header_trace_id h ≡ some id
      → trace_id_from_headers t h ≡ some id
  unfolding trace_id_from_headers
  headers-read parsed id h e either is there =
      ap (λ p. or_plain t p h) e ∙ or_plain-same parsed id h is there either

  plain-read :
      (id : Bytes) (h : Header)
      → IsTraceId id
      → lookup header_trace_parent h ≡ none
      → trace_id_from_headers t (insert header_trace_id id h) ≡ some id
  unfolding get_header str_eq
  plain-read id h is absent =
      headers-read none id (insert header_trace_id id h)
        (rw (lookup-insert header_trace_id header_trace_parent id h, absent) no_parent) (inl refl)
        is (lookup-insert header_trace_id header_trace_id id h)

  parent-read :
      (id span : Bytes) (h : Header)
      → IsTraceId id
      → is_hex id ≡ true
      → is_hex span ≡ true
      → trace_id_from_headers t
          (insert header_trace_parent (trace_parent id span) (insert header_trace_id id h))
        ≡ some id
  unfolding get_header str_eq
  parent-read id span h is hi hs =
      let named = insert header_trace_id id h in
      headers-read (as_trace_id t id) id (insert header_trace_parent (trace_parent id span) named)
        (rw (lookup-insert header_trace_parent header_trace_parent (trace_parent id span) named)
          (parent_id-parsed id span is hi hs))
        (as_trace_id-either id) is
        (lookup-insert header_trace_parent header_trace_id (trace_parent id span) named
          ∙ lookup-insert header_trace_id header_trace_id id h)

  -- A trace id of 4 to 64 digits, lower case letters, dashes and underscores that a service sends out, in
  -- the headers of a request that had no trace parent, is the id that the next service reads from them:
  -- from the trace parent if it is written as one, else from the plain header; where a new span is 16 hex
  -- digits.
  pub trace_id_from_headers-inject :
      (tr : Trace) (minted : Bytes) (h : Header)
      → IsTraceId tr.trace_id
      → IsSpan minted
      → lookup header_trace_parent h ≡ none
      → trace_id_from_headers t (inject (some tr) minted h) ≡ some tr.trace_id
  unfolding inject valid
  trace_id_from_headers-inject tr minted h is span e =
      let there : not (is_empty tr.trace_id) ≡ true = rw (not_empty tr.trace_id is.0) refl in
      elim (Bool-cases ((length tr.trace_id == 32) && is_hex tr.trace_id)) [
        | inl hex ↦
            rw (there, hex)
              (parent-read tr.trace_id (outbound_span tr minted) h is (ground arith)
                (outbound_span-IsSpan tr minted span))
        | inr plain ↦ rw (there, plain) (plain-read tr.trace_id h is e)
      ]

  -- A service whose context carries no trace works under the caller's id, if the caller injected it in a
  -- request that had no trace parent.
  pub ensure_trace-inject :
      (tr : Trace) (span : Bytes) (h : Header) (minted_id minted_span : Bytes)
      → IsTraceId tr.trace_id
      → IsSpan span
      → lookup header_trace_parent h ≡ none
      → ensure_trace t none (inject (some tr) span h) minted_id minted_span
        ≡ record { trace_id = tr.trace_id; span_id = minted_span }
  unfolding ensure_trace valid is_empty
  ensure_trace-inject tr span h minted_id minted_span is spans e =
      rw (trace_id_from_headers-inject tr span h is spans e) refl
