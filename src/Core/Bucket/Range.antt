-- ===== src/Core/Bucket/Range.antt =====
-- The reduction of a 64-bit hash to a bucket: the machine arithmetic does not wrap, every bucket lies
-- in the space, and the buckets are of almost equal width.
use feature_flag_service.Common.{
  ℕ, ◌+◌, ◌-◌, ◌*◌, ◌/◌, ◌^◌, ◌≤◌, ◌<◌, ◌≡◌, sym, ap, ◌∙◌, ◌↔◌, pos, arith,
}
use feature_flag_service.Core.Bucket.{bucket_space, reduce_hash}

-- For every 64-bit hash the bucket is hi * 10000 / 2^32 of its high half `hi`, computed without
-- wrapping at 64 or 32 bits, and is below 10000.
pub reduce_hash_exact :
    (h : ℕ)
    → h < 2 ^ 64
    → (reduce_hash h ≡ pos (h / 2 ^ 32 * bucket_space / 2 ^ 32))
      × (h / 2 ^ 32 * bucket_space / 2 ^ 32 < bucket_space)
unfolding reduce_hash
reduce_hash_exact h bound = ground arith

-- The least high half of bucket `b`.
abbrev pub first_high : ℕ → ℕ
first_high b = (b * 2 ^ 32 + (bucket_space - 1)) / bucket_space

hi_in_bucket :
    (b hi : ℕ)
    → (hi * bucket_space / 2 ^ 32 ≡ b) ↔ ((first_high b ≤ hi) × (hi < first_high (b + 1)))
hi_in_bucket b hi = ((λ e. (omega arith, omega arith)), (λ e. omega arith))

pos-injective : (a b : ℕ) → pos a ≡ pos b → a ≡ b
pos-injective a b e = cc

-- The 64-bit hashes that fall in bucket `b` are those whose high half lies from `first_high b` up to,
-- and not at, `first_high (b + 1)`: 429496 or 429497 of the 2^32 high halves.
pub reduce_hash_width :
    (b h : ℕ)
    → h < 2 ^ 64
    → ((reduce_hash h ≡ pos b) ↔ ((first_high b ≤ h / 2 ^ 32) × (h / 2 ^ 32 < first_high (b + 1))))
      × (429496 ≤ first_high (b + 1) - first_high b)
      × (first_high (b + 1) - first_high b ≤ 429497)
reduce_hash_width b h bound =
    let exact = (reduce_hash_exact h bound).0 in
    let split = hi_in_bucket b (h / 2 ^ 32) in
    (
      ((λ e. split.0 (pos-injective _ b (sym exact ∙ e))), (λ e. exact ∙ ap pos (split.1 e))),
      omega arith,
      omega arith,
    )
