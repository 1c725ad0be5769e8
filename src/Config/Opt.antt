-- ===== src/Config/Opt.antt =====
-- internal/config/opt.go: a field that is absent, an explicit null, or a value. The struct's flags
-- are set by its constructors and its decoder in these three ways only.
use feature_flag_service.Common.{Bool, true, false, Option, none, some}

pub data Opt {ℓ} (A : Type ℓ) : Type ℓ where
  absent : Opt A
  null : Opt A
  value : A → Opt A

module _ {ℓ} {A : Type ℓ} where
  unfoldable pub get : Opt A → Option A
  get (value v) = some v
  get null = none
  get absent = none

  unfoldable pub or_else : Opt A → A → A
  or_else (value v) d = v
  or_else null d = d
  or_else absent d = d

  unfoldable pub is_absent : Opt A → Bool
  is_absent absent = true
  is_absent null = false
  is_absent (value v) = false

  unfoldable pub is_null : Opt A → Bool
  is_null null = true
  is_null absent = false
  is_null (value v) = false

  unfoldable pub is_value : Opt A → Bool
  is_value (value v) = true
  is_value null = false
  is_value absent = false
