-- ===== src/Client/Codec.antt =====
-- MemSnapshot and JSONCodec of pkg/client/cache.go, between a snapshot and the structs that
-- encoding/json writes and reads. `order` is the order in which the loop over the map meets the flags;
-- an empty slice and a nil one are the same, and so are an omitted string and an empty one.
pub mod Roundtrip
pub mod Refusals
mod Examples
use feature_flag_service.Common.{
  ◌≡◌, ℕ, ℤ, pos, eq_ℤ, Bool, true, false, Bytes, codes, str_eq, is_empty, List, [], ◌∷◌, map,
  Option, none, some, if◌then◌else◌, ◌||◌, Map, lookup, insert,
}
use feature_flag_service.Core.Value.{Value, ValueType, type_string_of, parse_value_type}
use feature_flag_service.Core.Model.{
  Operator, operator_string, parse_operator, LogicOp, logic_and, logic_or, logic_string, Condition,
  Rule, Rollout, EvaluationOrder, order_unspecified, order_rules_first, order_string, Flag,
}

pub record MemSnapshot : Type 0 where
  pub env : Bytes
  pub gen : ℤ
  pub flags : Map Flag

unfoldable pub add_flags : List Flag → Map Flag → Map Flag
add_flags [] m = m
add_flags (f ∷ fs) m = add_flags fs (insert f.key f m)

unfoldable pub new_mem_snapshot : Bytes → ℤ → List Flag → MemSnapshot
unfolding add_flags
new_mem_snapshot env generation flags = record {
  env = env;
  gen = generation;
  flags = add_flags flags [];
}

abbrev pub l2_format_version : ℤ
l2_format_version = pos 1

pub record JsonCond : Type 0 where
  pub attribute : Bytes
  pub op : Bytes
  pub values : List Value
  pub negate : Bool

pub record JsonRule : Type 0 where
  pub id : Bytes
  pub conditions : List JsonCond
  pub combiner : Bytes
  pub value : Value

pub record JsonRoll : Type 0 where
  pub basis_points : ℤ
  pub bucket_namespace : Bytes
  pub bucket_by : Bytes
  pub on_value : Value
  pub off_value : Value

pub record JsonFlag : Type 0 where
  pub key : Bytes
  pub type : Bytes
  pub enabled : Bool
  pub default_value : Value
  pub off_value : Value
  pub rules : List JsonRule
  pub rollout : Option JsonRoll
  pub evaluation_order : Bytes

pub record JsonSnapshot : Type 0 where
  pub format : ℤ
  pub env : Bytes
  pub generation : ℤ
  pub flags : List JsonFlag

-- The loops of `Encode`, from the inside out.
unfoldable pub encode_cond : Condition → JsonCond
unfolding operator_string
encode_cond c = record {
  attribute = c.attribute;
  op = operator_string c.op;
  values = c.values;
  negate = c.negate;
}

unfoldable pub encode_rule : Rule → JsonRule
unfolding encode_cond logic_string
encode_rule r = record {
  id = r.id;
  conditions = map encode_cond r.conditions;
  combiner = logic_string r.combiner;
  value = r.value;
}

unfoldable pub encode_roll : Option Rollout → Option JsonRoll
encode_roll none = none
encode_roll (some r) = some (record {
  basis_points = r.basis_points;
  bucket_namespace = r.bucket_namespace;
  bucket_by = r.bucket_by;
  on_value = r.on_value;
  off_value = r.off_value;
})

unfoldable pub encode_order : EvaluationOrder → Bytes
unfolding order_string
encode_order order_unspecified = []
encode_order order_rules_first = order_string order_rules_first

unfoldable pub encode_flag : Flag → JsonFlag
unfolding type_string_of encode_order encode_rule encode_roll
encode_flag f = record {
  key = f.key;
  type = type_string_of f.type;
  enabled = f.enabled;
  default_value = f.default_value;
  off_value = f.off_value;
  rules = map encode_rule f.rules;
  rollout = encode_roll f.rollout;
  evaluation_order = encode_order f.evaluation_order;
}

unfoldable pub encode_snapshot : List Flag → MemSnapshot → JsonSnapshot
unfolding encode_flag
encode_snapshot order s = record {
  format = l2_format_version;
  env = s.env;
  generation = s.gen;
  flags = map encode_flag order;
}

-- The errors of `Decode`, with what their texts name.
pub data DecodeError : Type 0 where
  bad_format : ℤ → DecodeError
  unknown_type : Bytes → Bytes → DecodeError
  unknown_order : Bytes → Bytes → DecodeError
  unknown_operator : Bytes → Bytes → DecodeError

pub data Decoded {ℓ} (A : Type ℓ) : Type ℓ where
  refused : DecodeError → Decoded A
  decoded : A → Decoded A

abbrev pub and_then {ℓ κ} : {A : Type ℓ} {B : Type κ} → Decoded A → (A → Decoded B) → Decoded B
and_then (refused e) f = refused e
and_then (decoded a) f = f a

-- A loop that appends what it decodes, up to the first error.
unfoldable pub decode_each {ℓ κ} :
    {A : Type ℓ} {B : Type κ} → (A → Decoded B) → List A → Decoded (List B)
decode_each f [] = decoded []
decode_each f (a ∷ xs) = and_then (f a) (λ b. and_then (decode_each f xs) (λ bs. decoded (b ∷ bs)))

unfoldable pub decode_cond : Bytes → JsonCond → Decoded Condition
unfolding parse_operator
decode_cond rule jc =
    let (op, ok) = parse_operator jc.op in
    if ok
    then decoded
        (record { attribute = jc.attribute; op = op; values = jc.values; negate = jc.negate })
    else refused (unknown_operator rule jc.op)

unfoldable pub decode_combiner : Bytes → LogicOp
unfolding logic_string
decode_combiner s = if str_eq s (logic_string logic_or) then logic_or else logic_and

unfoldable pub decode_rule : JsonRule → Decoded Rule
unfolding decode_cond decode_each decode_combiner
decode_rule jr = and_then (decode_each (decode_cond jr.id) jr.conditions) (λ conditions.
    decoded (record {
      id = jr.id;
      conditions = conditions;
      combiner = decode_combiner jr.combiner;
      value = jr.value;
    }))

unfoldable pub decode_roll : Option JsonRoll → Option Rollout
decode_roll none = none
decode_roll (some r) = some (record {
  basis_points = r.basis_points;
  bucket_namespace = r.bucket_namespace;
  bucket_by = r.bucket_by;
  on_value = r.on_value;
  off_value = r.off_value;
})

unfoldable pub decode_order : Bytes → Bytes → Decoded EvaluationOrder
unfolding order_string
decode_order key s =
    if is_empty s || str_eq s (order_string order_unspecified)
    then decoded order_unspecified
    else if str_eq s (order_string order_rules_first)
    then decoded order_rules_first
    else refused (unknown_order key s)

unfoldable pub decode_flag : JsonFlag → Decoded Flag
unfolding parse_value_type decode_order decode_rule decode_roll decode_each
decode_flag jf =
    let (t, ok) = parse_value_type jf.type in
    if ok
    then (and_then (decode_order jf.key jf.evaluation_order) (λ order.
        and_then (decode_each decode_rule jf.rules) (λ rules. decoded (record {
          key = jf.key;
          type = t;
          enabled = jf.enabled;
          default_value = jf.default_value;
          off_value = jf.off_value;
          rules = rules;
          rollout = decode_roll jf.rollout;
          evaluation_order = order;
        }))))
    else refused (unknown_type jf.key jf.type)

unfoldable pub decode_snapshot : JsonSnapshot → Decoded MemSnapshot
unfolding decode_flag decode_each new_mem_snapshot
decode_snapshot j =
    if eq_ℤ j.format l2_format_version
    then and_then (decode_each decode_flag j.flags)
        (λ flags. decoded (new_mem_snapshot j.env j.generation flags))
    else refused (bad_format j.format)
