-- ===== src/Client/Codec/Roundtrip.antt =====
-- What the codec writes it reads back.
use feature_flag_service.Common.{
  ◌≡◌, ◌≢◌, refl, sym, ◌∙◌, ◌⊎◌, inl, inr, Bytes, str_eq, str_eq_iff, is_empty, List, [], ◌∷◌, map,
  Option, none, some, Map, lookup, insert, lookup-insert, All, Any, Bool-cases, Option-cases, arith,
}
use feature_flag_service.Core.Value.{type_unknown}
use feature_flag_service.Core.Model.{
  op_unknown, operator_string, logic_and, logic_or, logic_string, Condition, Rule, Rollout,
  EvaluationOrder, order_unspecified, order_rules_first, order_string, Flag, LogicOp,
}
use feature_flag_service.Core.Model.Wire.{parse_operator_iff, parse_value_type-type_string_of}
use feature_flag_service.Client.Codec.{
  MemSnapshot, add_flags, new_mem_snapshot, encode_cond, encode_rule, encode_roll, encode_order,
  encode_flag, encode_snapshot, Decoded, decoded, decode_each, decode_cond, decode_combiner,
  decode_rule, decode_roll, decode_order, decode_flag, decode_snapshot,
}

-- A flag with a wire name for its type and for each operator.
abbrev pub IsNamedRule : Rule → Type 0
IsNamedRule r = All (λ (c : Condition). c.op ≢ op_unknown) r.conditions

abbrev pub IsNamed : Flag → Type 0
IsNamed f = (f.type ≢ type_unknown) × All IsNamedRule f.rules

-- The flags of a map, in some order; a flag may be met twice.
abbrev pub IsOrderOf : List Flag → Map Flag → Type 0
IsOrderOf order m =
    All (λ f. lookup f.key m ≡ some f) order
    × ((key : Bytes) (f : Flag) → lookup key m ≡ some f → Any (λ g. g.key ≡ key) order)

decode_each-map {ℓ κ} :
    {A : Type ℓ} {B : Type κ} (P : B → Type 0) (enc : B → A) (dec : A → Decoded B)
    → ((b : B) → P b → dec (enc b) ≡ decoded b)
    → (bs : List B) → All P bs
    → decode_each dec (map enc bs) ≡ decoded bs
unfolding decode_each
decode_each-map P enc dec one [] h = refl
decode_each-map P enc dec one (b ∷ bs) h = rw (one b h.0, decode_each-map P enc dec one bs h.1) refl

decode_cond-encode_cond :
    (rule : Bytes) (c : Condition)
    → c.op ≢ op_unknown
    → decode_cond rule (encode_cond c) ≡ decoded c
unfolding decode_cond encode_cond
decode_cond-encode_cond rule c h =
    rw ((parse_operator_iff (operator_string c.op) c.op).1 (h, refl)) refl

decode_combiner-logic_string : (l : LogicOp) → decode_combiner (logic_string l) ≡ l
unfolding decode_combiner logic_string str_eq
decode_combiner-logic_string logic_and = refl
decode_combiner-logic_string logic_or = refl

decode_rule-encode_rule : (r : Rule) → IsNamedRule r → decode_rule (encode_rule r) ≡ decoded r
unfolding decode_rule encode_rule
decode_rule-encode_rule r h =
    rw
      (
        decode_each-map (λ (c : Condition). c.op ≢ op_unknown) encode_cond (decode_cond r.id)
            (decode_cond-encode_cond r.id) r.conditions h,
        decode_combiner-logic_string r.combiner,
      )
      refl

decode_roll-encode_roll : (r : Option Rollout) → decode_roll (encode_roll r) ≡ r
unfolding decode_roll encode_roll
decode_roll-encode_roll none = refl
decode_roll-encode_roll (some r) = refl

decode_order-encode_order :
    (key : Bytes) (o : EvaluationOrder) → decode_order key (encode_order o) ≡ decoded o
unfolding decode_order encode_order order_string str_eq is_empty
decode_order-encode_order key order_unspecified = refl
decode_order-encode_order key order_rules_first = refl

decode_flag-encode_flag : (f : Flag) → IsNamed f → decode_flag (encode_flag f) ≡ decoded f
unfolding decode_flag encode_flag
decode_flag-encode_flag f h =
    rw
      (
        parse_value_type-type_string_of f.type h.0,
        decode_order-encode_order f.key f.evaluation_order,
        decode_each-map IsNamedRule encode_rule decode_rule decode_rule-encode_rule f.rules h.1,
        decode_roll-encode_roll f.rollout,
      )
      refl

add_flags-none :
    (m : Map Flag) (key : Bytes) (order : List Flag) (acc : Map Flag)
    → All (λ f. lookup f.key m ≡ some f) order
    → lookup key m ≡ none
    → lookup key acc ≡ none
    → lookup key (add_flags order acc) ≡ none
unfolding add_flags
add_flags-none m key [] acc h missing e = e
add_flags-none m key (f ∷ order) acc h missing e =
    add_flags-none m key order (insert f.key f acc) h.1 missing
      (ground (arith, lookup-insert f.key key f acc, str_eq_iff f.key key, h.0))

add_flags-some :
    (m : Map Flag) (key : Bytes) (g : Flag) (order : List Flag) (acc : Map Flag)
    → All (λ f. lookup f.key m ≡ some f) order
    → lookup key m ≡ some g
    → (lookup key acc ≡ some g) ⊎ Any (λ f. f.key ≡ key) order
    → lookup key (add_flags order acc) ≡ some g
unfolding add_flags
add_flags-some m key g [] acc h there (inl e) = e
add_flags-some m key g [] acc h there (inr none_left) = elim none_left [ ]
add_flags-some m key g (f ∷ order) acc h there e = elim (Bool-cases (str_eq f.key key)) [
  | inl same ↦
      add_flags-some m key g order (insert f.key f acc) h.1 there
        (inl (ground (arith, lookup-insert f.key key f acc, str_eq_iff f.key key, h.0)))
  | inr other ↦
      add_flags-some m key g order (insert f.key f acc) h.1 there
        (ground (arith, lookup-insert f.key key f acc, str_eq_iff f.key key, e))
]

-- Reading what was written gives a snapshot of the same environment and generation that has the same
-- flag under every key, whatever order the flags were written in, if each has a type and operators that
-- have a name.
pub decode_snapshot-encode_snapshot :
    (s : MemSnapshot) (order : List Flag)
    → IsOrderOf order s.flags
    → All IsNamed order
    → (t : MemSnapshot) × (decode_snapshot (encode_snapshot order s) ≡ decoded t)
      × (t.env ≡ s.env)
      × (t.gen ≡ s.gen)
      × ((key : Bytes) → lookup key t.flags ≡ lookup key s.flags)
unfolding decode_snapshot encode_snapshot new_mem_snapshot lookup
decode_snapshot-encode_snapshot s order h named = (
  new_mem_snapshot s.env s.gen order,
  rw (decode_each-map IsNamed encode_flag decode_flag decode_flag-encode_flag order named) refl,
  refl,
  refl,
  λ key. elim (Option-cases (lookup key s.flags)) [
    | inl missing ↦ add_flags-none s.flags key order [] h.0 missing refl ∙ sym missing
    | inr (f, there) ↦
        add_flags-some s.flags key f order [] h.0 there (inr (h.1 key f there)) ∙ sym there
  ],
)
