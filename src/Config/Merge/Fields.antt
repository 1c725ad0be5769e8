-- ===== src/Config/Merge/Fields.antt =====
-- The field names of internal/config/merge.go, and the layers that fields come from.
use feature_flag_service.Common.{ℕ, if◌then◌else◌, ◌==◌, Bytes, codes}
use feature_flag_service.Config.Layer.{LayerId, layer_none}

pub data Field : Type 0 where
  field_key field_type field_enabled field_default_value field_off_value field_rules
        field_rules_mode field_evaluation_order field_rollout field_basis_points
        field_bucket_namespace field_bucket_by field_on_value field_rollout_off_value
        field_expires_at field_reason field_owner :
      Field

-- A number for each name, so that names can be compared.
abbrev pub field_code : Field → ℕ
field_code field_key = 0
field_code field_type = 1
field_code field_enabled = 2
field_code field_default_value = 3
field_code field_off_value = 4
field_code field_rules = 5
field_code field_rules_mode = 6
field_code field_evaluation_order = 7
field_code field_rollout = 8
field_code field_basis_points = 9
field_code field_bucket_namespace = 10
field_code field_bucket_by = 11
field_code field_on_value = 12
field_code field_rollout_off_value = 13
field_code field_expires_at = 14
field_code field_reason = 15
field_code field_owner = 16

-- The constants themselves.
unfoldable pub field_name : Field → Bytes
field_name field_key = codes "key"
field_name field_type = codes "type"
field_name field_enabled = codes "enabled"
field_name field_default_value = codes "default_value"
field_name field_off_value = codes "off_value"
field_name field_rules = codes "rules"
field_name field_rules_mode = codes "rules_mode"
field_name field_evaluation_order = codes "evaluation_order"
field_name field_rollout = codes "rollout"
field_name field_basis_points = codes "rollout.basis_points"
field_name field_bucket_namespace = codes "rollout.bucket_namespace"
field_name field_bucket_by = codes "rollout.bucket_by"
field_name field_on_value = codes "rollout.on_value"
field_name field_rollout_off_value = codes "rollout.off_value"
field_name field_expires_at = codes "expires_at"
field_name field_reason = codes "reason"
field_name field_owner = codes "owner"

abbrev pub Layers : Type 0
Layers = Field → LayerId

abbrev pub no_layers : Layers
no_layers f = layer_none

-- `set` of merge.go; with `layer_none` it is `delete`.
abbrev pub put : Field → LayerId → Layers → Layers
put f l p g = if field_code g == field_code f then l else p g
