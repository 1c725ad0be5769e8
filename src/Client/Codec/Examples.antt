-- ===== src/Client/Codec/Examples.antt =====
-- File names and files on concrete data.
use feature_flag_service.Common.{
  ◌≡◌, refl, ◌⊎◌, pos, true, false, Bytes, codes, str_eq, str_eq_iff, is_empty, [], ◌∷◌, none, some,
  lookup, All, arith,
}
use feature_flag_service.Core.Value.{bool, string, type_bool, parse_value_type}
use feature_flag_service.Core.Model.{
  Flag, logic_and, logic_string, logic_or, op_in, order_unspecified, order_rules_first,
  order_string,
}
use feature_flag_service.Client.Names.{
  encode_bytes, encode_env_name, IsNameByte, encode_env_name-injective, encode_env_name-IsNameByte,
}
use feature_flag_service.Client.Codec.{
  MemSnapshot, JsonSnapshot, decoded, new_mem_snapshot, encode_snapshot, decode_snapshot,
  decode_flag, decode_each, decode_roll, decode_order, decode_combiner, l2_format_version,
}
use feature_flag_service.Client.Codec.Roundtrip.{decode_snapshot-encode_snapshot}
use feature_flag_service.Client.Codec.Refusals.{IsReadable, decode_snapshot-IsReadable}

prod_bang : encode_env_name (codes "Prod!") ≡ codes "~50rod~21"
unfolding encode_env_name encode_bytes
prod_bang = refl

-- A combiner that is not known.
unknown_combiner : decode_combiner (codes "xor") ≡ logic_and
unfolding decode_combiner logic_string str_eq
unknown_combiner = refl

encode_env_name-injective_example : codes "prod!" ≡ codes "prod!"
encode_env_name-injective_example =
    encode_env_name-injective (codes "prod!") (codes "prod!") (ground arith) (ground arith) refl

encode_env_name-IsNameByte_example : All IsNameByte (encode_env_name (codes "../prod"))
encode_env_name-IsNameByte_example = encode_env_name-IsNameByte (codes "../prod") (ground arith)

abbrev checkout : Flag
checkout = record {
  key = codes "checkout";
  type = type_bool;
  enabled = true;
  default_value = bool false;
  off_value = bool false;
  rules =
      record {
        id = codes "r-1";
        conditions =
            record {
              attribute = codes "country";
              op = op_in;
              values = string (codes "IN") ∷ [];
              negate = true;
            }
            ∷ [];
        combiner = logic_or;
        value = bool true;
      }
      ∷ [];
  rollout = some (record {
    basis_points = pos 2500;
    bucket_namespace = codes "ns";
    bucket_by = [];
    on_value = bool true;
    off_value = bool false;
  });
  evaluation_order = order_rules_first;
}

abbrev saved : MemSnapshot
saved = record { env = codes "prod"; gen = pos 7; flags = (codes "checkout", checkout) ∷ [] }

only_checkout :
    (key : Bytes) (f : Flag) → lookup key saved.flags ≡ some f → (codes "checkout" ≡ key) ⊎ ⊥
unfolding lookup
only_checkout key f e = ground (arith, str_eq_iff (codes "checkout") key)

checkout_there : lookup (codes "checkout") saved.flags ≡ some checkout
unfolding lookup str_eq
checkout_there = refl

decode_snapshot-encode_snapshot_example :
    (t : MemSnapshot) × (decode_snapshot (encode_snapshot (checkout ∷ []) saved) ≡ decoded t)
    × (t.env ≡ saved.env)
    × (t.gen ≡ saved.gen)
    × ((key : Bytes) → lookup key t.flags ≡ lookup key saved.flags)
decode_snapshot-encode_snapshot_example =
    decode_snapshot-encode_snapshot saved (checkout ∷ []) ((checkout_there, tt), only_checkout)
      (((λ e. cc), (((λ e. cc), tt), tt)), tt)

abbrev file : JsonSnapshot
file = record {
  format = l2_format_version;
  env = codes "prod";
  generation = pos 7;
  flags =
      record {
        key = codes "beta";
        type = codes "boolean";
        enabled = true;
        default_value = bool false;
        off_value = bool false;
        rules = [];
        rollout = none;
        evaluation_order = codes "unspecified";
      }
      ∷ [];
}

abbrev beta : Flag
beta = record {
  key = codes "beta";
  type = type_bool;
  enabled = true;
  default_value = bool false;
  off_value = bool false;
  rules = [];
  rollout = none;
  evaluation_order = order_unspecified;
}

file_read : decode_snapshot file ≡ decoded (new_mem_snapshot (codes "prod") (pos 7) (beta ∷ []))
unfolding decode_snapshot decode_flag decode_each decode_order decode_roll parse_value_type
    order_string str_eq is_empty
file_read = refl

decode_snapshot-IsReadable_example : (file.format ≡ l2_format_version) × All IsReadable file.flags
decode_snapshot-IsReadable_example =
    decode_snapshot-IsReadable file (new_mem_snapshot (codes "prod") (pos 7) (beta ∷ [])) file_read
