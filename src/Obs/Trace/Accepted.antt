-- ===== src/Obs/Trace/Accepted.antt =====
-- Which ids are taken over from a caller.
use feature_flag_service.Common.{
  ◌≡◌, refl, sym, subst, ◌∙◌, ◌⊎◌, inl, inr, ℕ, ◌≤◌, ltb, true, false, ◌||◌, Bytes, is_empty, [],
  ◌∷◌, map, Option, none, some, length, All, Bool-cases, arith,
}
use feature_flag_service.Common.Text.{TextLib, IsTextLib, lower_byte, IsPrintable}
use feature_flag_service.Obs.Trace.{
  Header, max_id_len, is_hex, is_id_byte, are_id_bytes, sanitize_id, as_trace_id,
  trace_id_from_trace_parent, parent_id, header_trace_parent, or_next, or_plain, plain_id,
  trace_id_from_headers, get_header, split_on, second,
}

-- The bytes of an id: digits, lower case letters, dashes and underscores.
abbrev pub IsIdByte : ℕ → Type 0
IsIdByte c = ((b'0' ≤ c) × (c ≤ b'9')) ⊎ ((b'a' ≤ c) × (c ≤ b'z')) ⊎ (c ≡ b'-') ⊎ (c ≡ b'_')

abbrev pub IsTraceId : Bytes → Type 0
IsTraceId id = (4 ≤ length id) × (length id ≤ max_id_len) × All IsIdByte id

pub ids-IsPrintable : (s : Bytes) → All IsIdByte s → All IsPrintable s
ids-IsPrintable [] h = tt
ids-IsPrintable (c ∷ s) h = (ground (arith, h.0), ids-IsPrintable s h.1)

pub lowered_id : (s : Bytes) → All IsIdByte s → map lower_byte s ≡ s
lowered_id [] h = refl
lowered_id (c ∷ s) h = ground (arith, h.0, lowered_id s h.1)

is_hex-IsIdByte : (s : Bytes) → is_hex s ≡ true → All IsIdByte s
unfolding is_hex
is_hex-IsIdByte [] h = tt
is_hex-IsIdByte (c ∷ s) h = (ground arith, is_hex-IsIdByte s (ground arith))

are_id_bytes-IsPrintable : (s : Bytes) → are_id_bytes s ≡ true → All IsPrintable s
unfolding are_id_bytes
are_id_bytes-IsPrintable [] h = tt
are_id_bytes-IsPrintable (c ∷ s) h = (ground arith, are_id_bytes-IsPrintable s (ground arith))

lowered-IsIdByte : (s : Bytes) → are_id_bytes s ≡ true → All IsIdByte (map lower_byte s)
unfolding are_id_bytes
lowered-IsIdByte [] h = tt
lowered-IsIdByte (c ∷ s) h = (lowered_byte c (ground arith), lowered-IsIdByte s (ground arith))
  where
    lowered_byte : (c : ℕ) → is_id_byte c ≡ true → IsIdByte (lower_byte c)
    lowered_byte c h = ground arith

length-lowered : (s : Bytes) → length (map lower_byte s) ≡ length s
length-lowered [] = refl
length-lowered (c ∷ s) = omega (arith, length-lowered s)

module _ (t : TextLib) (lib : IsTextLib t) where
  sanitize_id-IsTraceId : (v id : Bytes) → sanitize_id t v ≡ id → is_empty id ≡ false → IsTraceId id
  unfolding sanitize_id is_empty
  sanitize_id-IsTraceId v id e there =
      elim (Bool-cases (ltb (length v) 4 || ltb max_id_len (length v))) [
        | inl outside ↦ absurd (ground arith)
        | inr within ↦ elim (Bool-cases (are_id_bytes v)) [
          | inl safe ↦
              let lowered : map lower_byte v ≡ id =
                sym (lib.lowers v (are_id_bytes-IsPrintable v safe)) ∙ (rw (within, safe) at e) in
              subst IsTraceId lowered (
                ground (arith, length-lowered v),
                ground (arith, length-lowered v),
                lowered-IsIdByte v safe,
              )
          | inr unsafe ↦ absurd (ground arith)
        ]
      ]

  as_trace_id-IsTraceId : (s id : Bytes) → as_trace_id t s ≡ some id → IsTraceId id
  as_trace_id-IsTraceId s id e =
      let same : s ≡ id = ground arith in
      let hex : is_hex s ≡ true = ground arith in
      let size : length s ≡ 32 = ground arith in
      subst IsTraceId same (omega (arith, size), omega (arith, size), is_hex-IsIdByte s hex)

  trace_parent-IsTraceId : (v id : Bytes) → trace_id_from_trace_parent t v ≡ some id → IsTraceId id
  unfolding trace_id_from_trace_parent
  trace_parent-IsTraceId v id e =
      elim (Bool-cases (ltb (length (split_on b'-' (t.trim_space v))) 4)) [
        | inl short ↦ absurd (ground arith)
        | inr long ↦
            as_trace_id-IsTraceId (t.to_lower (second (split_on b'-' (t.trim_space v)))) id
              (rw long at e)
      ]

  parent_id-IsTraceId : (v id : Bytes) → parent_id t v ≡ some id → IsTraceId id
  unfolding parent_id
  parent_id-IsTraceId v id e = elim (Bool-cases (is_empty v)) [
    | inl empty ↦ absurd (let wrong = rw empty at e in cc)
    | inr there ↦ trace_parent-IsTraceId v id (rw there at e)
  ]

  or_next-IsTraceId :
      (v : Bytes) (next : Option Bytes) (id : Bytes)
      → or_next t (sanitize_id t v) next ≡ some id
      → (next ≡ some id → IsTraceId id)
      → IsTraceId id
  or_next-IsTraceId v next id e rest = elim (Bool-cases (is_empty (sanitize_id t v))) [
    | inl empty ↦ rest (rw empty at e)
    | inr there ↦ sanitize_id-IsTraceId v id (ground arith) (ground arith)
  ]

  or_plain-IsTraceId :
      (parsed : Option Bytes) (h : Header) (id : Bytes)
      → (parsed ≡ some id → IsTraceId id)
      → or_plain t parsed h ≡ some id
      → IsTraceId id
  unfolding plain_id
  or_plain-IsTraceId (some p) h id given e = given e
  or_plain-IsTraceId none h id given e =
      or_next-IsTraceId (t.trim_space _) _ id e
        (λ rest. or_next-IsTraceId (t.trim_space _) none id rest (λ n. absurd (cc)))

  -- An id that is taken over from a caller has 4 to 64 bytes, each a digit, a lower case letter, a dash
  -- or an underscore, whatever the headers hold.
  pub trace_id_from_headers-IsTraceId :
      (h : Header) (id : Bytes) → trace_id_from_headers t h ≡ some id → IsTraceId id
  unfolding trace_id_from_headers
  trace_id_from_headers-IsTraceId h id e =
      or_plain-IsTraceId (parent_id t (get_header header_trace_parent h)) h id
        (parent_id-IsTraceId (get_header header_trace_parent h) id) e
