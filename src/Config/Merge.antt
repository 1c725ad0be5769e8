-- ===== src/Config/Merge.antt =====
-- internal/config/merge.go: `mergeFlag`, the resolution of one flag from its base entry, the
-- environment's overlay and the ops override, with the layer that each field came from. The map of
-- layers is a function from the fields that merge.go names; a missing entry is `layer_none`.
pub mod Fields
pub mod Spec
pub mod Provenance
use feature_flag_service.Common.{
  ℤ, Bool, true, false, ◌&&◌, not, Bytes, str_eq, List, [], ◌++◌, ◌∷◌, Option, none, some,
  if◌then◌else◌, ◌==◌,
}
use feature_flag_service.Core.Value.{Value, unset, is_unknown, parse_value_type}
use feature_flag_service.Core.Model.{Rule, Rollout, Flag, EvaluationOrder}
use feature_flag_service.Config.Opt.{Opt, absent, null, value, get, or_else}
use feature_flag_service.Config.Layer.{
  LayerId, layer_none, layer_base, layer_overlay, layer_ops, WireRule, OverlayRollout, BaseFlag,
  OverlayFlag, OpsOverride, to_core, wire_rules_to_core, parse_evaluation_order, rule_mode_replace,
  rule_mode_append,
}
use Fields.{
  Field, field_key, field_type, field_enabled, field_default_value, field_off_value, field_rules,
  field_evaluation_order, field_rollout, field_basis_points, field_bucket_namespace,
  field_bucket_by, field_on_value, field_rollout_off_value, Layers, put, no_layers,
}

-- The flag being built and its provenance.
pub record Merged : Type 0 where
  pub flag : Flag
  pub layers : Layers

abbrev pub put_all : List Field → LayerId → Layers → Layers
put_all [] l p = p
put_all (f ∷ fs) l p = put_all fs l (put f l p)

abbrev pub rollout_fields : List Field
rollout_fields =
    field_basis_points ∷ field_bucket_namespace ∷ field_bucket_by ∷ field_on_value
    ∷ field_rollout_off_value ∷ []

unfoldable pub base_layers : Option Rollout → Layers
base_layers ro =
    let common =
      put_all
        (field_key ∷ field_type ∷ field_enabled ∷ field_default_value ∷ field_off_value
          ∷ field_rules ∷ field_evaluation_order ∷ [])
        layer_base no_layers in
    elim ro [ none ↦ common | some r ↦ put_all (field_rollout ∷ rollout_fields) layer_base common ]

unfoldable pub merge_base : BaseFlag → Merged
unfolding base_layers
merge_base base = record {
  flag = record {
    key = base.key;
    type = (parse_value_type base.type).0;
    enabled = base.enabled;
    default_value = base.default_value;
    off_value = if is_unknown base.off_value then base.default_value else base.off_value;
    rules = wire_rules_to_core base.rules;
    rollout = to_core base.rollout;
    evaluation_order = (parse_evaluation_order base.evaluation_order).0;
  };
  layers = base_layers (to_core base.rollout);
}

-- `if v, ok := o.Get(); ok { <set it>; prov.set(field, layer) }`
unfoldable pub supply {ℓ} :
    {A : Type ℓ} → Option A → (A → Flag → Flag) → Field → LayerId → Merged → Merged
supply none change field l m = m
supply (some v) change field l m = record { flag = change v m.flag; layers = put field l m.layers }

unfoldable pub set_enabled : Bool → Flag → Flag
set_enabled v f = record f { enabled = v }

unfoldable pub set_default : Value → Flag → Flag
set_default v f = record f { default_value = v }

unfoldable pub set_off : Value → Flag → Flag
set_off v f = record f { off_value = v }

unfoldable pub set_order : EvaluationOrder → Flag → Flag
set_order v f = record f { evaluation_order = v }

unfoldable pub set_rules : List Rule → Flag → Flag
set_rules v f = record f { rules = v }

-- Writing through `out.Rollout`, which is not nil where the code does so.
abbrev pub change_some : (Rollout → Rollout) → Option Rollout → Option Rollout
change_some g none = none
change_some g (some r) = some (g r)

unfoldable pub in_rollout {ℓ} : {A : Type ℓ} → (A → Rollout → Rollout) → A → Flag → Flag
in_rollout g v f = record f { rollout = change_some (g v) f.rollout }

-- An order that does not parse is left as it was.
abbrev pub parsed_order : Option Bytes → Option EvaluationOrder
parsed_order none = none
parsed_order (some v) =
    if (parse_evaluation_order v).1 then some (parse_evaluation_order v).0 else none

-- The incoming rule list, appended to or put in place of the one held; null is the empty list.
unfoldable pub overlay_rules : OverlayFlag → List Rule → Option (List Rule)
overlay_rules ov held =
    let joined : List Rule → List Rule = λ incoming.
      if str_eq (or_else ov.rules_mode rule_mode_replace) rule_mode_append
      then held ++ incoming
      else incoming in
    elim ov.rules [
      | absent ↦ none
      | null ↦ some (joined [])
      | value rules ↦ some (joined (wire_rules_to_core rules))
    ]

abbrev pub empty_rollout : Rollout
empty_rollout = record {
  basis_points = ℤ.pos 0;
  bucket_namespace = [];
  bucket_by = [];
  on_value = unset;
  off_value = unset;
}

-- A rollout that the base does not have is created empty, its fields the overlay's.
unfoldable pub ensure_rollout : Option Rollout → Merged → Merged
ensure_rollout (some r) m = m
ensure_rollout none m = record {
  flag = record m.flag { rollout = some empty_rollout };
  layers = put_all (field_rollout ∷ rollout_fields) layer_overlay m.layers;
}

unfoldable pub supply_rollout : OverlayRollout → Merged → Merged
unfolding supply in_rollout get
supply_rollout r m =
    supply (get r.off_value) (in_rollout (λ v o. record o { off_value = v }))
      field_rollout_off_value layer_overlay
      (supply (get r.on_value) (in_rollout (λ v o. record o { on_value = v })) field_on_value
        layer_overlay
        (supply (get r.bucket_by) (in_rollout (λ v o. record o { bucket_by = v })) field_bucket_by
          layer_overlay
          (supply (get r.bucket_namespace) (in_rollout (λ v o. record o { bucket_namespace = v }))
            field_bucket_namespace layer_overlay
            (supply (get r.basis_points) (in_rollout (λ v o. record o { basis_points = v }))
              field_basis_points layer_overlay m))))

-- The block under `if ov.Rollout.Set`; an explicit null deletes the rollout.
unfoldable pub overlay_rollout : Opt OverlayRollout → Merged → Merged
unfolding supply_rollout ensure_rollout
overlay_rollout absent m = m
overlay_rollout null m = record {
  flag = record m.flag { rollout = none };
  layers = put_all rollout_fields layer_none (put field_rollout layer_overlay m.layers);
}
overlay_rollout (value r) m = supply_rollout r (ensure_rollout m.flag.rollout m)

unfoldable pub merge_overlay : Option OverlayFlag → Merged → Merged
unfolding overlay_rollout overlay_rules supply get set_enabled set_default set_off set_order
    set_rules
merge_overlay none m = m
merge_overlay (some ov) m =
    let m1 = supply (get ov.enabled) set_enabled field_enabled layer_overlay m in
    let m2 = supply (get ov.default_value) set_default field_default_value layer_overlay m1 in
    let m3 = supply (get ov.off_value) set_off field_off_value layer_overlay m2 in
    let m4 =
      supply (parsed_order (get ov.evaluation_order)) set_order field_evaluation_order layer_overlay
        m3 in
    let m5 = supply (overlay_rules ov m4.flag.rules) set_rules field_rules layer_overlay m4 in
    overlay_rollout ov.rollout m5

-- `&& out.Rollout != nil`
abbrev pub if_rollout : Option Rollout → Option ℤ → Option ℤ
if_rollout none bp = none
if_rollout (some r) bp = bp

unfoldable pub merge_ops : Option OpsOverride → Merged → Merged
unfolding supply in_rollout get set_enabled
merge_ops none m = m
merge_ops (some ops) m =
    let m1 = supply (get ops.enabled) set_enabled field_enabled layer_ops m in
    supply (if_rollout m1.flag.rollout (get ops.basis_points))
      (in_rollout (λ v o. record o { basis_points = v })) field_basis_points layer_ops m1

unfoldable pub merge_flag : BaseFlag → Option OverlayFlag → Option OpsOverride → Merged
unfolding merge_base merge_overlay merge_ops
merge_flag base ov ops = merge_ops ops (merge_overlay ov (merge_base base))
