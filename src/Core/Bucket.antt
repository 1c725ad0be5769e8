-- ===== src/Core/Bucket.antt =====
-- internal/core/bucket.go and the constants of contract.go: bucketing keys and buckets.
-- xxhash.Sum64String is of another module (github.com/cespare/xxhash/v2): a parameter.
pub mod Range
pub mod Keys
use feature_flag_service.Common.{
  ℕ, ◌*◌, ◌/◌, ◌%◌, ◌^◌, ◌-◌, ltb, ℤ, pos, negsuc, Bytes, codes, length, is_empty, format_int,
  Option, none, some, ◌++◌, ◌∷◌, if◌then◌else◌,
}
use feature_flag_service.Core.Value.{Value, is_unknown, value_string}
use feature_flag_service.Core.Model.{Flag, Rollout}
use feature_flag_service.Core.Context.{EvalContext, attribute}

abbrev pub bucket_space : ℕ
bucket_space = 10000

-- Go's conversion of a uint64 to int32: the low 32 bits, read as two's complement.
unfoldable pub to_int32 : ℕ → ℤ
to_int32 n = let low = n % 2 ^ 32 in if ltb low (2 ^ 31) then pos low else negsuc (2 ^ 32 - 1 - low)

-- `int32((h >> 32) * uint64(BucketSpace) >> 32)`: `*` and `>>` bind alike and group to the left.
unfoldable pub reduce_hash : ℕ → ℤ
unfolding to_int32
reduce_hash h = to_int32 (h / 2 ^ 32 * bucket_space % 2 ^ 64 / 2 ^ 32)

-- `XXHasher.Bucket`
unfoldable pub xx_bucket : (Bytes → ℕ) → Bytes → ℤ
unfolding reduce_hash
xx_bucket sum64 key = reduce_hash (sum64 key)

abbrev non_empty_or : Bytes → Bytes → Bytes
non_empty_or s fallback = if is_empty s then fallback else s

-- The namespace and the subject's attribute that `Key` selects.
unfoldable pub namespace_of : Flag → Bytes
unfolding is_empty
namespace_of flag = elim flag.rollout [
  | none ↦ flag.key
  | some r ↦ non_empty_or r.bucket_namespace flag.key
]

unfoldable pub subject_attribute : Flag → Bytes
unfolding is_empty
subject_attribute flag = elim flag.rollout [
  | none ↦ codes "user_id"
  | some r ↦ non_empty_or r.bucket_by (codes "user_id")
]

unfoldable pub subject_of : Flag → EvalContext → Option Bytes
unfolding is_empty subject_attribute
subject_of flag ctx = elim (attribute ctx (subject_attribute flag)) [
  | none ↦ none
  | some v ↦
      if is_unknown v
      then none
      else let subject = value_string v in if is_empty subject then none else some subject
]

-- <len(namespace)> ':' <namespace> ':' <subject>
unfoldable pub compose_key : Bytes → Bytes → Bytes
unfolding format_int
compose_key namespace subject =
    format_int (pos (length namespace)) ++ (b':' ∷ (namespace ++ (b':' ∷ subject)))

abbrev pub keyed : Bytes → Option Bytes → Option Bytes
keyed namespace none = none
keyed namespace (some subject) = some (compose_key namespace subject)

-- `NamespaceStrategy.Key`; the `none` in is a nil flag, the one out is `ok == false`.
unfoldable pub namespace_key : Option Flag → EvalContext → Option Bytes
namespace_key none ctx = none
namespace_key (some flag) ctx = keyed (namespace_of flag) (subject_of flag ctx)
