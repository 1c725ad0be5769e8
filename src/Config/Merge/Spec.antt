-- ===== src/Config/Merge/Spec.antt =====
-- What a merged flag is, field by field, with no order of steps: the highest layer that supplies a
-- scalar wins.
use feature_flag_service.Common.{
  ℤ, ◌≡◌, refl, sym, ap, ◌∙◌, ◌⊎◌, inl, inr, Bool, false, ◌||◌, Bytes, codes, str_eq, is_empty,
  List, [], ◌++◌, Option, none, some, if◌then◌else◌, Bool-cases,
}
use mathlib.Core.List.{append-nil}
use feature_flag_service.Core.Value.{
  Value, unset, bool, string, int, type_eq, value_type, is_unknown, parse_value_type,
}
use feature_flag_service.Core.Model.{
  Rule, Rollout, Flag, EvaluationOrder, order_unspecified, order_rules_first,
}
use feature_flag_service.Config.Opt.{Opt, absent, null, value, get, or_else}
use feature_flag_service.Config.Layer.{
  LayerId, WireRule, OverlayRollout, BaseFlag, OverlayFlag, OpsOverride, to_core,
  wire_rules_to_core, parse_evaluation_order, rule_mode_replace, rule_mode_append,
}
use feature_flag_service.Config.Merge.Fields.{Field}
use feature_flag_service.Config.Merge.{
  Merged, merge_base, supply, set_enabled, set_default, set_off, set_order, set_rules, change_some,
  in_rollout, parsed_order, overlay_rules, empty_rollout, ensure_rollout, supply_rollout,
  overlay_rollout, merge_overlay, if_rollout, merge_ops, merge_flag,
}

-- The value of a higher layer, if it supplies one.
abbrev pub choose {ℓ} : {A : Type ℓ} → Option A → A → A
choose none a = a
choose (some v) a = v

-- What an optional layer supplies for a field.
abbrev pub given {ℓ} : {A : Type 0} {L : Type ℓ} → (L → Option A) → Option L → Option A
given f none = none
given f (some l) = f l

-- The overlay's rollout block laid over a rollout, member by member.
abbrev pub over_rollout : OverlayRollout → Rollout → Rollout
over_rollout r o = record {
  basis_points = choose (get r.basis_points) o.basis_points;
  bucket_namespace = choose (get r.bucket_namespace) o.bucket_namespace;
  bucket_by = choose (get r.bucket_by) o.bucket_by;
  on_value = choose (get r.on_value) o.on_value;
  off_value = choose (get r.off_value) o.off_value;
}

-- A rollout of nobody.
abbrev pub blank_rollout : Rollout
blank_rollout = record {
  basis_points = ℤ.pos 0;
  bucket_namespace = [];
  bucket_by = [];
  on_value = unset;
  off_value = unset;
}

-- Absent inherits, null deletes, and a block is laid over what is held, or over an empty rollout.
abbrev pub spec_rollout : Opt OverlayRollout → Option Rollout → Option Rollout
spec_rollout absent held = held
spec_rollout null held = none
spec_rollout (value r) held = some (over_rollout r (choose held blank_rollout))

-- An off value that is left out is the default.
abbrev pub spec_off : Value → Value → Value
spec_off unset d = d
spec_off (bool b) d = bool b
spec_off (string s) d = string s
spec_off (int n) d = int n

-- An empty order is the unspecified one, two names are that of the rules first, and any other, as one that
-- is left out, leaves the order held.
abbrev pub spec_order : Opt Bytes → EvaluationOrder → EvaluationOrder
spec_order absent held = held
spec_order null held = held
spec_order (value v) held =
    if is_empty v
    then order_unspecified
    else if str_eq v (codes "rules_first") || str_eq v (codes "rules_then_rollout")
    then order_rules_first
    else held

abbrev pub appends : Opt Bytes → Bool
appends absent = false
appends null = false
appends (value mode) = str_eq mode (codes "append")

-- The rules, by the mode: behind those held if it is to append, and in their place otherwise; null is the
-- empty list, and rules that are left out leave those held.
abbrev pub spec_rules : Opt (List WireRule) → Opt Bytes → List Rule → List Rule
spec_rules absent mode held = held
spec_rules null mode held = if appends mode then held else []
spec_rules (value rules) mode held =
    if appends mode then held ++ wire_rules_to_core rules else wire_rules_to_core rules

-- The flag of a base entry: each field its own, an off value that is left out the default, and an order
-- of an unknown name the unspecified one.
abbrev pub spec_base : BaseFlag → Flag
spec_base base = record {
  key = base.key;
  type = (parse_value_type base.type).0;
  enabled = base.enabled;
  default_value = base.default_value;
  off_value = spec_off base.off_value base.default_value;
  rules = wire_rules_to_core base.rules;
  rollout = to_core base.rollout;
  evaluation_order = spec_order (value base.evaluation_order) order_unspecified;
}

abbrev pub spec_overlay : Option OverlayFlag → Flag → Flag
spec_overlay none f = f
spec_overlay (some ov) f = record f {
  enabled = choose (get ov.enabled) f.enabled;
  default_value = choose (get ov.default_value) f.default_value;
  off_value = choose (get ov.off_value) f.off_value;
  evaluation_order = spec_order ov.evaluation_order f.evaluation_order;
  rules = spec_rules ov.rules ov.rules_mode f.rules;
  rollout = spec_rollout ov.rollout f.rollout;
}

-- The size of a rollout that there is.
abbrev pub spec_size : Option ℤ → Option Rollout → Option Rollout
spec_size bp none = none
spec_size bp (some r) = some (record r { basis_points = choose bp r.basis_points })

-- The ops layer has the switch and the size of a rollout that there is.
abbrev pub spec_ops : Option OpsOverride → Flag → Flag
spec_ops none f = f
spec_ops (some ops) f = record f {
  enabled = choose (get ops.enabled) f.enabled;
  rollout = spec_size (get ops.basis_points) f.rollout;
}

change_some_id :
    (h : Rollout → Rollout) → ((r : Rollout) → h r ≡ r) → (o : Option Rollout) → change_some h o ≡ o
change_some_id h same none = refl
change_some_id h same (some r) = ap some (same r)

module _ (field : Field) (l : LayerId) (m : Merged) where
  supply_enabled :
      (o : Option Bool)
      → (supply o set_enabled field l m).flag ≡ record m.flag { enabled = choose o m.flag.enabled }
  unfolding supply set_enabled
  supply_enabled none = refl
  supply_enabled (some v) = refl

  supply_default :
      (o : Option Value)
      → (supply o set_default field l m).flag
        ≡ record m.flag { default_value = choose o m.flag.default_value }
  unfolding supply set_default
  supply_default none = refl
  supply_default (some v) = refl

  supply_off :
      (o : Option Value)
      → (supply o set_off field l m).flag ≡ record m.flag { off_value = choose o m.flag.off_value }
  unfolding supply set_off
  supply_off none = refl
  supply_off (some v) = refl

  supply_order :
      (o : Option EvaluationOrder)
      → (supply o set_order field l m).flag
        ≡ record m.flag { evaluation_order = choose o m.flag.evaluation_order }
  unfolding supply set_order
  supply_order none = refl
  supply_order (some v) = refl

  supply_rules :
      (o : Option (List Rule))
      → (supply o set_rules field l m).flag ≡ record m.flag { rules = choose o m.flag.rules }
  unfolding supply set_rules
  supply_rules none = refl
  supply_rules (some v) = refl

  -- A member of the rollout.
  supply_in :
      {A : Type 0} (g : A → Rollout → Rollout) (get_member : Rollout → A)
      (same : (r : Rollout) → g (get_member r) r ≡ r) (o : Option A)
      → (supply o (in_rollout g) field l m).flag ≡ record m.flag {
        rollout = change_some (λ r. g (choose o (get_member r)) r) m.flag.rollout;
      }
  unfolding supply in_rollout
  supply_in g get_member same none =
      ap (λ ro. record m.flag { rollout = ro }) (sym (change_some_id _ same m.flag.rollout))
  supply_in g get_member same (some v) = refl

-- The five members in turn.
change_some_fuse :
    (f g : Rollout → Rollout) (o : Option Rollout)
    → change_some f (change_some g o) ≡ change_some (λ r. f (g r)) o
change_some_fuse f g none = refl
change_some_fuse f g (some r) = refl

supply_rollout-flag :
    (r : OverlayRollout) (m : Merged)
    → (supply_rollout r m).flag
      ≡ record m.flag { rollout = change_some (over_rollout r) m.flag.rollout }
unfolding supply_rollout
supply_rollout-flag r m =
    rw
      (
        supply_in _ _ _ (λ v o. record o { off_value = v }) (λ o. o.off_value) (λ o. refl),
        supply_in _ _ _ (λ v o. record o { on_value = v }) (λ o. o.on_value) (λ o. refl),
        supply_in _ _ _ (λ v o. record o { bucket_by = v }) (λ o. o.bucket_by) (λ o. refl),
        supply_in _ _ _ (λ v o. record o { bucket_namespace = v }) (λ o. o.bucket_namespace)
            (λ o. refl),
        supply_in _ _ _ (λ v o. record o { basis_points = v }) (λ o. o.basis_points) (λ o. refl),
      )
      (simp change_some_fuse)

ensure_rollout-flag :
    (o : Option Rollout) (m : Merged)
    → m.flag.rollout ≡ o
    → (ensure_rollout o m).flag ≡ record m.flag { rollout = some (choose o empty_rollout) }
unfolding ensure_rollout
ensure_rollout-flag none m e = refl
ensure_rollout-flag (some r) m e = ap (λ o. record m.flag { rollout = o }) e

overlay_rollout-flag :
    (o : Opt OverlayRollout) (m : Merged)
    → (overlay_rollout o m).flag ≡ record m.flag { rollout = spec_rollout o m.flag.rollout }
unfolding overlay_rollout
overlay_rollout-flag absent m = refl
overlay_rollout-flag null m = refl
overlay_rollout-flag (value r) m =
    supply_rollout-flag r (ensure_rollout m.flag.rollout m)
    ∙ ap (λ (f : Flag). record f { rollout = change_some (over_rollout r) f.rollout })
        (ensure_rollout-flag m.flag.rollout m refl)

spec_off-eq : (v d : Value) → (if is_unknown v then d else v) ≡ spec_off v d
unfolding is_unknown value_type type_eq
spec_off-eq unset d = refl
spec_off-eq (bool b) d = refl
spec_off-eq (string s) d = refl
spec_off-eq (int n) d = refl

spec_order-eq :
    (o : Opt Bytes) (held : EvaluationOrder)
    → choose (parsed_order (get o)) held ≡ spec_order o held
unfolding get parse_evaluation_order
spec_order-eq absent held = refl
spec_order-eq null held = refl
spec_order-eq (value v) held = elim (Bool-cases (is_empty v)) [
  | inl empty ↦ rw empty refl
  | inr full ↦
      elim (Bool-cases (str_eq v (codes "rules_first") || str_eq v (codes "rules_then_rollout"))) [
        | inl named ↦ rw (full, named) refl
        | inr other ↦ rw (full, other) refl
      ]
]

base_order-eq : (v : Bytes) → (parse_evaluation_order v).0 ≡ spec_order (value v) order_unspecified
unfolding parse_evaluation_order
base_order-eq v = elim (Bool-cases (is_empty v)) [
  | inl empty ↦ rw empty refl
  | inr full ↦
      elim (Bool-cases (str_eq v (codes "rules_first") || str_eq v (codes "rules_then_rollout"))) [
        | inl named ↦ rw (full, named) refl
        | inr other ↦ rw (full, other) refl
      ]
]

-- The list that the code puts in place, on the mode of the layer.
joined-eq :
    (mode : Opt Bytes) (held incoming : List Rule)
    → (if str_eq (or_else mode rule_mode_replace) rule_mode_append
        then held ++ incoming
        else incoming)
      ≡ (if appends mode then held ++ incoming else incoming)
unfolding or_else str_eq
joined-eq absent held incoming = refl
joined-eq null held incoming = refl
joined-eq (value m) held incoming = refl

three_ways : {A : Type 0} (o : Opt A) → (o ≡ absent) ⊎ (o ≡ null) ⊎ ((v : A) × (o ≡ value v))
three_ways absent = inl refl
three_ways null = inr (inl refl)
three_ways (value v) = inr (inr (v, refl))

spec_rules-eq :
    (ov : OverlayFlag) (held : List Rule)
    → choose (overlay_rules ov held) held ≡ spec_rules ov.rules ov.rules_mode held
unfolding overlay_rules
spec_rules-eq ov held = elim (three_ways ov.rules) [
  | inl e ↦ rw e refl
  | inr (inl e) ↦ rw e (
      joined-eq ov.rules_mode held []
      ∙ ap (λ xs. if appends ov.rules_mode then xs else []) (append-nil held))
  | inr (inr (rules, e)) ↦ rw e (joined-eq ov.rules_mode held (wire_rules_to_core rules))
]

merge_base-flag : (base : BaseFlag) → (merge_base base).flag ≡ spec_base base
unfolding merge_base
merge_base-flag base =
    rw (spec_off-eq base.off_value base.default_value, base_order-eq base.evaluation_order) refl

merge_overlay-flag :
    (ov : Option OverlayFlag) (m : Merged) → (merge_overlay ov m).flag ≡ spec_overlay ov m.flag
unfolding merge_overlay
merge_overlay-flag none m = refl
merge_overlay-flag (some ov) m =
    rw
      (
        overlay_rollout-flag, supply_rules, supply_order, supply_off, supply_default,
        supply_enabled, spec_order-eq, spec_rules-eq,
      )
      refl

change_some_if :
    (bp : Option ℤ) (o : Option Rollout)
    → change_some (λ r. record r { basis_points = choose (if_rollout o bp) r.basis_points }) o
      ≡ spec_size bp o
change_some_if bp none = refl
change_some_if bp (some r) = refl

merge_ops-flag :
    (ops : Option OpsOverride) (m : Merged) → (merge_ops ops m).flag ≡ spec_ops ops m.flag
unfolding merge_ops
merge_ops-flag none m = refl
merge_ops-flag (some ops) m =
    rw
      (
        supply_in _ _ _ (λ v o. record o { basis_points = v }) (λ o. o.basis_points) (λ o. refl),
        supply_enabled,
      )
      (ap (λ ro. record m.flag { enabled = choose (get ops.enabled) m.flag.enabled; rollout = ro })
        (change_some_if (get ops.basis_points) m.flag.rollout))

-- The merged flag is what the layers prescribe field by field: the highest layer that supplies a
-- scalar wins, an off value that the base leaves out is its default, an order that does not parse is
-- passed over, rules are replaced or, in append mode, appended to, the rollout is laid over member by
-- member or deleted by an explicit null, and the ops layer has the switch and the size of a rollout that
-- there is.
pub merge_flag-eq-spec :
    (base : BaseFlag) (ov : Option OverlayFlag) (ops : Option OpsOverride)
    → (merge_flag base ov ops).flag ≡ spec_ops ops (spec_overlay ov (spec_base base))
unfolding merge_flag
merge_flag-eq-spec base ov ops =
    merge_ops-flag ops (merge_overlay ov (merge_base base))
    ∙ ap (spec_ops ops)
        (merge_overlay-flag ov (merge_base base) ∙ ap (spec_overlay ov) (merge_base-flag base))
