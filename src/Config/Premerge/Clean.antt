-- ===== src/Config/Premerge/Clean.antt =====
-- What the shared checks of one layer leave when they find nothing.
use feature_flag_service.Common.{
  ◌≡◌, ◌≢◌, ℤ, pos, ◌≤ℤ◌, false, Bytes, is_empty, [], Option, none, some, arith,
}
use feature_flag_service.Core.Bucket.{bucket_space}
use feature_flag_service.Config.Premerge.{given_out_of_range}

abbrev pub InRange : Option ℤ → Type 0
InRange none = Unit
InRange (some bp) = (pos 0 ≤ℤ bp) × (bp ≤ℤ pos bucket_space)

pub range_lem : (o : Option ℤ) → given_out_of_range o ≡ false → InRange o
range_lem none h = tt
range_lem (some bp) h = ground arith

pub nonempty_lem : (s : Bytes) → is_empty s ≡ false → s ≢ []
unfolding is_empty
nonempty_lem s h e = ground arith
