-- ===== src/Config/Premerge.antt =====
-- internal/config/validate.go, the first pass: what the checks of one layer alone share.
pub mod Clean
pub mod Rules
pub mod Base
pub mod Overlay
pub mod Ops
mod Examples
use feature_flag_service.Common.{
  ℕ, ◌+◌, ℤ, pos, ltb_ℤ, leb, ◌==◌, Bool, true, false, not, ◌&&◌, ◌||◌, Bytes, codes, is_empty,
  length, List, [], ◌∷◌, ◌++◌, Option, none, some,
}
use feature_flag_service.Core.Bucket.{bucket_space}

-- `[a-z0-9]`
abbrev pub is_key_start : ℕ → Bool
is_key_start c = leb b'a' c && leb c b'z' || leb b'0' c && leb c b'9'

-- `[a-z0-9._-]`
abbrev pub is_key_byte : ℕ → Bool
is_key_byte c = is_key_start c || c == b'.' || c == b'_' || c == b'-'

abbrev pub all_key_bytes : Bytes → Bool
all_key_bytes [] = true
all_key_bytes (c ∷ s) = is_key_byte c && all_key_bytes s

-- `flagKeyRE.MatchString`
unfoldable pub is_flag_key : Bytes → Bool
is_flag_key [] = false
is_flag_key (c ∷ s) = is_key_start c && all_key_bytes s && leb (length s) 127

-- `bp < 0 || bp > core.BucketSpace`
abbrev pub out_of_range : ℤ → Bool
out_of_range bp = ltb_ℤ bp (pos 0) || ltb_ℤ (pos bucket_space) bp

abbrev pub given_out_of_range : Option ℤ → Bool
given_out_of_range none = false
given_out_of_range (some bp) = out_of_range bp
