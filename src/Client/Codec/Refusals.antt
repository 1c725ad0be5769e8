-- ===== src/Client/Codec/Refusals.antt =====
-- What the codec refuses to read.
use feature_flag_service.Common.{
  ◌≡◌, refl, ◌⊎◌, inl, inr, eq_ℤ, eq_ℤ_iff, true, Bytes, str_eq_iff, is_empty, codes, List, [], ◌∷◌,
  All, Bool-cases, arith,
}
use feature_flag_service.Core.Value.{parse_value_type}
use feature_flag_service.Core.Model.{
  Condition, Rule, EvaluationOrder, order_unspecified, order_rules_first, Flag, parse_operator,
  order_string,
}
use feature_flag_service.Client.Codec.{
  MemSnapshot, JsonCond, JsonRule, JsonFlag, JsonSnapshot, Decoded, refused, decoded, and_then,
  decode_each, decode_cond, decode_rule, decode_order, decode_flag, decode_snapshot,
  l2_format_version,
}

-- The texts of a flag that this version can read.
abbrev pub IsReadableRule : JsonRule → Type 0
IsReadableRule jr = All (λ (jc : JsonCond). (parse_operator jc.op).1 ≡ true) jr.conditions

abbrev pub IsReadable : JsonFlag → Type 0
IsReadable jf =
    ((parse_value_type jf.type).1 ≡ true)
    × ((jf.evaluation_order ≡ [])
        ⊎ (jf.evaluation_order ≡ codes "unspecified")
        ⊎ (jf.evaluation_order ≡ codes "rules_first"))
    × All IsReadableRule jf.rules

-- What an `and_then` that succeeds went through.
and_then-decoded {ℓ κ} :
    {A : Type ℓ} {B : Type κ} (x : Decoded A) (f : A → Decoded B) (b : B)
    → and_then x f ≡ decoded b
    → (a : A) × (x ≡ decoded a) × (f a ≡ decoded b)
and_then-decoded (refused e) f b h = absurd (cc)
and_then-decoded (decoded a) f b h = (a, refl, h)

decode_each-All {ℓ κ} :
    {A : Type ℓ} {B : Type κ} (P : A → Type 0) (f : A → Decoded B)
    → ((a : A) (b : B) → f a ≡ decoded b → P a)
    → (xs : List A) (bs : List B) → decode_each f xs ≡ decoded bs
    → All P xs
unfolding decode_each
decode_each-All P f one [] bs h = tt
decode_each-All P f one (a ∷ xs) bs h =
    let (b, first, rest) = and_then-decoded (f a) _ bs h in
    let (bs', others, done) = and_then-decoded (decode_each f xs) _ bs rest in
    (one a b first, decode_each-All P f one xs bs' others)

decode_cond-read :
    (rule : Bytes) (jc : JsonCond) (c : Condition)
    → decode_cond rule jc ≡ decoded c
    → (parse_operator jc.op).1 ≡ true
unfolding decode_cond
decode_cond-read rule jc c h = elim (Bool-cases (parse_operator jc.op).1) [
  | inl known ↦ known
  | inr unknown ↦ absurd (ground arith)
]

decode_rule-IsReadableRule :
    (jr : JsonRule) (r : Rule) → decode_rule jr ≡ decoded r → IsReadableRule jr
unfolding decode_rule
decode_rule-IsReadableRule jr r h =
    let (conditions, read, done) =
      and_then-decoded (decode_each (decode_cond jr.id) jr.conditions) _ r h in
    decode_each-All (λ (jc : JsonCond). (parse_operator jc.op).1 ≡ true) (decode_cond jr.id)
      (decode_cond-read jr.id) jr.conditions conditions read

decode_order-read :
    (key s : Bytes) (o : EvaluationOrder)
    → decode_order key s ≡ decoded o
    → (s ≡ []) ⊎ (s ≡ codes "unspecified") ⊎ (s ≡ codes "rules_first")
unfolding decode_order order_string is_empty
decode_order-read key [] o h = inl refl
decode_order-read key (c ∷ s) o h = ground (
  arith,
  str_eq_iff (c ∷ s) (order_string order_unspecified),
  str_eq_iff (c ∷ s) (order_string order_rules_first),
)

decode_flag-IsReadable : (jf : JsonFlag) (f : Flag) → decode_flag jf ≡ decoded f → IsReadable jf
unfolding decode_flag
decode_flag-IsReadable jf f h = elim (Bool-cases (parse_value_type jf.type).1) [
  | inl known ↦
      let (order, ordered, rest) =
        and_then-decoded (decode_order jf.key jf.evaluation_order) _ f (rw known at h) in
      let (rules, read, done) = and_then-decoded (decode_each decode_rule jf.rules) _ f rest in
      (
        known,
        decode_order-read jf.key jf.evaluation_order order ordered,
        decode_each-All IsReadableRule decode_rule decode_rule-IsReadableRule jf.rules rules read,
      )
  | inr unknown ↦ absurd (ground arith)
]

-- A file that was read has the format of this version, and every type, order and operator in it has a
-- name that this version knows. Of a combiner nothing is asked: one that is not known is read as AND.
pub decode_snapshot-IsReadable :
    (j : JsonSnapshot) (s : MemSnapshot)
    → decode_snapshot j ≡ decoded s
    → (j.format ≡ l2_format_version) × All IsReadable j.flags
unfolding decode_snapshot
decode_snapshot-IsReadable j s h = elim (Bool-cases (eq_ℤ j.format l2_format_version)) [
  | inl same ↦
      let (flags, read, done) =
        and_then-decoded (decode_each decode_flag j.flags) _ s (rw same at h) in
      (
        (eq_ℤ_iff j.format l2_format_version).0 same,
        decode_each-All IsReadable decode_flag decode_flag-IsReadable j.flags flags read,
      )
  | inr other ↦ absurd (ground arith)
]
