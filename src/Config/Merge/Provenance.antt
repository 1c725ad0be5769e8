-- ===== src/Config/Merge/Provenance.antt =====
-- Which layer `mergeFlag` records for a field, against the layers that supply it.
use feature_flag_service.Common.{
  List, ◌≡◌, refl, ap, ◌∙◌, Bool, true, false, ◌&&◌, not, ◌==◌, Option, none, some, if◌then◌else◌,
  arith, ℕ, leb,
}
use feature_flag_service.Core.Model.{Flag, Rollout, Rule}
use feature_flag_service.Config.Opt.{Opt, absent, null, value, get, is_absent}
use feature_flag_service.Config.Layer.{
  LayerId, layer_none, layer_base, layer_overlay, layer_ops, OverlayRollout, BaseFlag, OverlayFlag,
  OpsOverride, to_core,
}
use feature_flag_service.Config.Merge.Fields.{
  Field, field_code, field_enabled, field_default_value, field_off_value, field_rules,
  field_evaluation_order, field_rollout, field_basis_points, Layers, put,
}
use feature_flag_service.Config.Merge.{
  Merged, in_rollout, put_all, base_layers, merge_base, supply, set_enabled, parsed_order,
  overlay_rules, rollout_fields, ensure_rollout, supply_rollout, overlay_rollout, merge_overlay,
  if_rollout, merge_ops, merge_flag,
}
use feature_flag_service.Config.Merge.Spec.{given}

abbrev pub is_given {ℓ} : {A : Type ℓ} → Option A → Bool
is_given none = false
is_given (some a) = true

-- The highest layer of those that supply a field: `ops`, `overlay`, and the base below both.
abbrev pub top : Bool → Bool → LayerId
top ops overlay = if ops then layer_ops else if overlay then layer_overlay else layer_base

supply-layers :
    {A : Type 0} (o : Option A) (change : A → Flag → Flag) (f : Field) (l : LayerId) (m : Merged)
    (g : Field)
    → (supply o change f l m).layers g
      ≡ (if is_given o && (field_code g == field_code f) then l else m.layers g)
unfolding supply
supply-layers none change f l m g = refl
supply-layers (some v) change f l m g = refl

-- A field that is not of the rollout.
abbrev is_scalar : Field → Bool
is_scalar g = leb (field_code g) 7

supply-other :
    {A : Type 0} (o : Option A) (change : A → Flag → Flag) (f : Field) (l : LayerId) (m : Merged)
    (g : Field)
    → (field_code g == field_code f) ≡ false
    → (supply o change f l m).layers g ≡ m.layers g
unfolding supply
supply-other none change f l m g h = refl
supply-other (some v) change f l m g h = rw h refl

scalar_apart : (n k : ℕ) → leb n 7 ≡ true → leb k 7 ≡ false → (n == k) ≡ false
scalar_apart n k h j = ground arith

module _ (g : Field) (scalar : is_scalar g ≡ true) where
  apart : (k : ℕ) → leb k 7 ≡ false → (field_code g == k) ≡ false
  apart k = scalar_apart (field_code g) k scalar

  supply_rollout-scalar :
      (r : OverlayRollout) (m : Merged) → (supply_rollout r m).layers g ≡ m.layers g
  unfolding supply_rollout
  supply_rollout-scalar r m =
      supply-other (get r.off_value) _ _ _ _ g (apart 13 refl)
      ∙ (supply-other (get r.on_value) _ _ _ _ g (apart 12 refl)
          ∙ (supply-other (get r.bucket_by) _ _ _ _ g (apart 11 refl)
              ∙ (supply-other (get r.bucket_namespace) _ _ _ _ g (apart 10 refl)
                  ∙ supply-other (get r.basis_points) _ _ _ m g (apart 9 refl))))

  put_all-scalar : (l : LayerId) (p : Layers) → put_all rollout_fields l p g ≡ p g
  put_all-scalar l p =
      rw (apart 13 refl, apart 12 refl, apart 11 refl, apart 10 refl, apart 9 refl) refl

  put_rollout-scalar : (l : LayerId) (p : Layers) → put field_rollout l p g ≡ p g
  put_rollout-scalar l p = rw (apart 8 refl) refl

  ensure_rollout-scalar :
      (ro : Option Rollout) (m : Merged) → (ensure_rollout ro m).layers g ≡ m.layers g
  unfolding ensure_rollout
  ensure_rollout-scalar (some r) m = refl
  ensure_rollout-scalar none m =
      put_all-scalar layer_overlay (put field_rollout layer_overlay m.layers)
      ∙ put_rollout-scalar layer_overlay m.layers

  overlay_rollout-scalar :
      (r : Opt OverlayRollout) (m : Merged) → (overlay_rollout r m).layers g ≡ m.layers g
  unfolding overlay_rollout
  overlay_rollout-scalar absent m = refl
  overlay_rollout-scalar null m =
      put_all-scalar layer_none (put field_rollout layer_overlay m.layers)
      ∙ put_rollout-scalar layer_overlay m.layers
  overlay_rollout-scalar (value r) m =
      supply_rollout-scalar r (ensure_rollout m.flag.rollout m)
      ∙ ensure_rollout-scalar m.flag.rollout m

  base_layers-scalar : (ro : Option Rollout) → base_layers ro g ≡ base_layers none g
  unfolding base_layers
  base_layers-scalar none = refl
  base_layers-scalar (some r) =
      put_all-scalar layer_base (put field_rollout layer_base (base_layers none))
      ∙ put_rollout-scalar layer_base (base_layers none)

kept : (b : Bool) (l x y : LayerId) → x ≡ y → (if b && true then l else x) ≡ (if b then l else y)
kept b l x y h = ground (arith, h)

given_rules :
    (ov : OverlayFlag) (held : List Rule)
    → is_given (overlay_rules ov held) ≡ not (is_absent ov.rules)
unfolding overlay_rules is_absent
given_rules ov held = ground arith

-- The layer of each scalar after the overlay, and of the rule list.
module _ (ov : OverlayFlag) (m : Merged) where
  overlay-enabled :
      (merge_overlay (some ov) m).layers field_enabled
      ≡ (if is_given (get ov.enabled) then layer_overlay else m.layers field_enabled)
  unfolding merge_overlay
  overlay-enabled =
      overlay_rollout-scalar field_enabled refl ov.rollout _
      ∙ (supply-other (overlay_rules ov _) _ _ _ _ field_enabled refl
          ∙ (supply-other (parsed_order (get ov.evaluation_order)) _ _ _ _ field_enabled refl
              ∙ (supply-other (get ov.off_value) _ _ _ _ field_enabled refl
                  ∙ (supply-other (get ov.default_value) _ _ _ _ field_enabled refl
                      ∙ ((supply-layers (get ov.enabled) _ _ _ _ field_enabled
                          ∙ kept (is_given (get ov.enabled)) _ _ _ (refl)))))))

  overlay-default :
      (merge_overlay (some ov) m).layers field_default_value
      ≡ (if is_given (get ov.default_value) then layer_overlay else m.layers field_default_value)
  unfolding merge_overlay
  overlay-default =
      overlay_rollout-scalar field_default_value refl ov.rollout _
      ∙ (supply-other (overlay_rules ov _) _ _ _ _ field_default_value refl
          ∙ (supply-other (parsed_order (get ov.evaluation_order)) _ _ _ _ field_default_value refl
              ∙ (supply-other (get ov.off_value) _ _ _ _ field_default_value refl
                  ∙ ((supply-layers (get ov.default_value) _ _ _ _ field_default_value
                      ∙ kept (is_given (get ov.default_value)) _ _ _
                          (supply-other (get ov.enabled) _ _ _ _ field_default_value refl))))))

  overlay-off :
      (merge_overlay (some ov) m).layers field_off_value
      ≡ (if is_given (get ov.off_value) then layer_overlay else m.layers field_off_value)
  unfolding merge_overlay
  overlay-off =
      overlay_rollout-scalar field_off_value refl ov.rollout _
      ∙ (supply-other (overlay_rules ov _) _ _ _ _ field_off_value refl
          ∙ (supply-other (parsed_order (get ov.evaluation_order)) _ _ _ _ field_off_value refl
              ∙ ((supply-layers (get ov.off_value) _ _ _ _ field_off_value
                  ∙ kept (is_given (get ov.off_value)) _ _ _ (
                      supply-other (get ov.default_value) _ _ _ _ field_off_value refl
                      ∙ supply-other (get ov.enabled) _ _ _ _ field_off_value refl)))))

  overlay-order : (merge_overlay (some ov) m).layers field_evaluation_order ≡ (
      if is_given (parsed_order (get ov.evaluation_order))
      then layer_overlay
      else m.layers field_evaluation_order)
  unfolding merge_overlay
  overlay-order =
      overlay_rollout-scalar field_evaluation_order refl ov.rollout _
      ∙ (supply-other (overlay_rules ov _) _ _ _ _ field_evaluation_order refl
          ∙ ((supply-layers (parsed_order (get ov.evaluation_order)) _ _ _ _ field_evaluation_order
              ∙ kept (is_given (parsed_order (get ov.evaluation_order))) _ _ _ (
                  supply-other (get ov.off_value) _ _ _ _ field_evaluation_order refl
                  ∙ supply-other (get ov.default_value) _ _ _ _ field_evaluation_order refl
                  ∙ supply-other (get ov.enabled) _ _ _ _ field_evaluation_order refl))))

  overlay-rules :
      (merge_overlay (some ov) m).layers field_rules
      ≡ (if not (is_absent ov.rules) then layer_overlay else m.layers field_rules)
  unfolding merge_overlay
  overlay-rules =
      overlay_rollout-scalar field_rules refl ov.rollout _
      ∙ ((supply-layers (overlay_rules ov _) _ _ _ _ field_rules
          ∙ (kept (is_given (overlay_rules ov _)) _ _ _ (
                supply-other (parsed_order (get ov.evaluation_order)) _ _ _ _ field_rules refl
                ∙ supply-other (get ov.off_value) _ _ _ _ field_rules refl
                ∙ supply-other (get ov.default_value) _ _ _ _ field_rules refl
                ∙ supply-other (get ov.enabled) _ _ _ _ field_rules refl)
              ∙ ap (λ b. if b then layer_overlay else m.layers field_rules) (given_rules ov _))))

merge_ops-other :
    (ops : Option OpsOverride) (m : Merged) (g : Field)
    → is_scalar g ≡ true
    → (field_code g == 2) ≡ false
    → (merge_ops ops m).layers g ≡ m.layers g
unfolding merge_ops
merge_ops-other none m g h k = refl
merge_ops-other (some ops) m g h k =
    let switched = supply (get ops.enabled) set_enabled field_enabled layer_ops m in
    supply-other (if_rollout switched.flag.rollout (get ops.basis_points))
      (in_rollout (λ v o. record o { basis_points = v })) field_basis_points layer_ops switched g
      (apart g h 9 refl)
    ∙ supply-other (get ops.enabled) set_enabled field_enabled layer_ops m g k

merge_ops-enabled :
    (ops : Option OpsOverride) (m : Merged)
    → (merge_ops ops m).layers field_enabled
      ≡ (if is_given (given (λ o. get o.enabled) ops) then layer_ops else m.layers field_enabled)
unfolding merge_ops
merge_ops-enabled none m = refl
merge_ops-enabled (some ops) m =
    let switched = supply (get ops.enabled) set_enabled field_enabled layer_ops m in
    supply-other (if_rollout switched.flag.rollout (get ops.basis_points))
      (in_rollout (λ v o. record o { basis_points = v })) field_basis_points layer_ops switched
      field_enabled refl
    ∙ (supply-layers (get ops.enabled) set_enabled field_enabled layer_ops m field_enabled
        ∙ kept (is_given (get ops.enabled)) layer_ops _ _ refl)

-- The overlay has a rule list, which may be null.
abbrev pub sets_rules : Option OverlayFlag → Bool
sets_rules none = false
sets_rules (some ov) = not (is_absent ov.rules)

-- The provenance of the fields that are not of the rollout.
pub record IsTruthful (ov : Option OverlayFlag) (ops : Option OpsOverride) (layers : Layers)
    : Type 0 where
  pub enabled :
      layers field_enabled
      ≡ top (is_given (given (λ o. get o.enabled) ops)) (is_given (given (λ o. get o.enabled) ov))
  pub default_value :
      layers field_default_value ≡ top false (is_given (given (λ o. get o.default_value) ov))
  pub off_value : layers field_off_value ≡ top false (is_given (given (λ o. get o.off_value) ov))
  pub order :
      layers field_evaluation_order
      ≡ top false (is_given (given (λ o. parsed_order (get o.evaluation_order)) ov))
  pub rules : layers field_rules ≡ top false (sets_rules ov)

merge_base-layers :
    (base : BaseFlag) (g : Field)
    → is_scalar g ≡ true
    → base_layers none g ≡ layer_base
    → (merge_base base).layers g ≡ layer_base
unfolding merge_base
merge_base-layers base g h k = base_layers-scalar g h (to_core base.rollout) ∙ k

overlay-IsTruthful :
    (base : BaseFlag) (ov : Option OverlayFlag)
    → IsTruthful ov none (merge_overlay ov (merge_base base)).layers
unfolding merge_overlay base_layers
overlay-IsTruthful base none = record {
  enabled = merge_base-layers base field_enabled refl refl;
  default_value = merge_base-layers base field_default_value refl refl;
  off_value = merge_base-layers base field_off_value refl refl;
  order = merge_base-layers base field_evaluation_order refl refl;
  rules = merge_base-layers base field_rules refl refl;
}
overlay-IsTruthful base (some ov) = record {
  enabled =
      overlay-enabled ov (merge_base base)
      ∙ ap (λ l. if is_given (get ov.enabled) then layer_overlay else l)
          (merge_base-layers base field_enabled refl refl);
  default_value =
      overlay-default ov (merge_base base)
      ∙ ap (λ l. if is_given (get ov.default_value) then layer_overlay else l)
          (merge_base-layers base field_default_value refl refl);
  off_value =
      overlay-off ov (merge_base base)
      ∙ ap (λ l. if is_given (get ov.off_value) then layer_overlay else l)
          (merge_base-layers base field_off_value refl refl);
  order =
      overlay-order ov (merge_base base)
      ∙ ap (λ l. if is_given (parsed_order (get ov.evaluation_order)) then layer_overlay else l)
          (merge_base-layers base field_evaluation_order refl refl);
  rules =
      overlay-rules ov (merge_base base)
      ∙ ap (λ l. if not (is_absent ov.rules) then layer_overlay else l)
          (merge_base-layers base field_rules refl refl);
}

-- The provenance of the switch, the default, the off value, the order and the rules names the highest
-- layer that supplies the field, and the base if none above it does.
pub merge_flag-IsTruthful :
    (base : BaseFlag) (ov : Option OverlayFlag) (ops : Option OpsOverride)
    → IsTruthful ov ops (merge_flag base ov ops).layers
unfolding merge_flag
merge_flag-IsTruthful base ov ops =
    let m = merge_overlay ov (merge_base base) in
    let below = overlay-IsTruthful base ov in
    record {
      enabled =
          merge_ops-enabled ops m
          ∙ ap
              (λ l.
                if is_given (given (λ (o : OpsOverride). get o.enabled) ops) then layer_ops else l)
              below.enabled;
      default_value = merge_ops-other ops m field_default_value refl refl ∙ below.default_value;
      off_value = merge_ops-other ops m field_off_value refl refl ∙ below.off_value;
      order = merge_ops-other ops m field_evaluation_order refl refl ∙ below.order;
      rules = merge_ops-other ops m field_rules refl refl ∙ below.rules;
    }
