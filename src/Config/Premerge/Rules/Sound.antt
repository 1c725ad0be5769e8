-- ===== src/Config/Premerge/Rules/Sound.antt =====
-- What a rule list that its validation accepts is, and what the engine finds in its conditions.
use feature_flag_service.Common.{
  ◌≡◌, ◌≢◌, inl, inr, ℕ, ◌+◌, true, false, not, ◌||◌, Bytes, length, is_empty, List, [], ◌∷◌, All,
  arith, Bool-cases,
}
use feature_flag_service.Core.Value.{Value, is_unknown}
use feature_flag_service.Core.Model.{parse_operator}
use feature_flag_service.Config.Layer.{LayerId, WireCondition, WireRule, parse_logic_op}
use feature_flag_service.Config.Findings.{Findings, Severity, is_rejection, rejections, when}
use feature_flag_service.Config.Resolved.{member}
use feature_flag_service.Config.Resolved.Sound.{split_clean, when_unmade}
use feature_flag_service.Config.Premerge.Clean.{nonempty_lem}
use feature_flag_service.Config.Premerge.Rules.{
  bad_count, tell, value_findings, condition_findings, conditions_findings, lacks_conditions,
  wire_rule_findings, rules_findings, validate_rule_list,
}

pub record IsSoundCondition (c : WireCondition) : Type 0 where
  pub named : c.attribute ≢ []
  pub op_known : (parse_operator c.op).1 ≡ true
  pub counted : bad_count (parse_operator c.op).0 (length c.values) ≡ false
  pub values_known : All (λ v. is_unknown v ≡ false) c.values

pub record IsSoundWireRule (r : WireRule) : Type 0 where
  pub named : r.id ≢ []
  pub combined : (parse_logic_op r.combiner).1 ≡ true
  pub targeted : r.conditions ≢ []
  pub sound : All IsSoundCondition r.conditions

-- No id twice, and none of `seen`.
abbrev pub DistinctIds : List Bytes → List WireRule → Type 0
DistinctIds seen [] = Unit
DistinctIds seen (r ∷ rules) = (member r.id seen ≡ false) × DistinctIds (r.id ∷ seen) rules

lacks_conditions_lem : (cs : List WireCondition) → lacks_conditions cs ≡ false → cs ≢ []
lacks_conditions_lem cs h e = ground arith

module _ (env : Bytes) (layer : LayerId) (flag_key field : Bytes) (sev : Severity)
    (rejects : is_rejection sev ≡ true) where
  made_none :
      (id path : Bytes) (fs : Findings)
      → rejections (tell env layer flag_key field sev id path ∷ fs) ≡ []
      → ⊥
  unfolding rejections
  made_none id path fs h = ground (arith, rejects)

  value_findings-All :
      (path : Bytes) (k : ℕ) (values : List Value)
      → rejections (value_findings env layer flag_key field sev path k values) ≡ []
      → All (λ v. is_unknown v ≡ false) values
  unfolding value_findings
  value_findings-All path k [] h = tt
  value_findings-All path k (v ∷ values) h =
      let (here, later) = split_clean (when (is_unknown v) _) _ h in
      (when_unmade _ _ rejects here, value_findings-All path (k + 1) values later)

  condition-IsSoundCondition :
      (path : Bytes) (c : WireCondition)
      → rejections (condition_findings env layer flag_key field sev path c) ≡ []
      → IsSoundCondition c
  unfolding condition_findings
  condition-IsSoundCondition path c h = elim (Bool-cases (parse_operator c.op).1) [
    | inl known ↦
        let (named, rest) = split_clean (when (is_empty c.attribute) _) _ (rw known at h) in
        let (count, values) =
          split_clean (when (bad_count (parse_operator c.op).0 (length c.values)) _) _ rest in
        record {
          named = nonempty_lem c.attribute (when_unmade _ _ rejects named);
          op_known = known;
          counted = when_unmade _ _ rejects count;
          values_known = value_findings-All path 0 c.values values;
        }
    | inr unknown ↦
        let (named, rest) = split_clean (when (is_empty c.attribute) _) _ (rw unknown at h) in
        absurd (made_none _ _ [] rest)
  ]

  conditions_findings-All :
      (path : Bytes) (j : ℕ) (cs : List WireCondition)
      → rejections (conditions_findings env layer flag_key field sev path j cs) ≡ []
      → All IsSoundCondition cs
  unfolding conditions_findings
  conditions_findings-All path j [] h = tt
  conditions_findings-All path j (c ∷ cs) h =
      let (here, later) = split_clean (condition_findings env layer flag_key field sev _ c) _ h in
      (condition-IsSoundCondition _ c here, conditions_findings-All path (j + 1) cs later)

  rule-IsSoundWireRule :
      (path : Bytes) (seen : List Bytes) (r : WireRule)
      → rejections (wire_rule_findings env layer flag_key field sev path seen r) ≡ []
      → IsSoundWireRule r × (member r.id seen ≡ false)
  unfolding wire_rule_findings
  rule-IsSoundWireRule path seen r h =
      let (h1, k1) = split_clean (when (is_empty r.id || member r.id seen) _) _ h in
      let (h2, k2) = split_clean (when (not (parse_logic_op r.combiner).1) _) _ k1 in
      let (h3, k3) = split_clean (when (lacks_conditions r.conditions) _) _ k2 in
      let fresh = when_unmade (is_empty r.id || member r.id seen) _ rejects h1 in
      let combined = when_unmade (not (parse_logic_op r.combiner).1) _ rejects h2 in
      (
        record {
          named = nonempty_lem r.id (ground (arith, fresh));
          combined = ground (arith, combined);
          targeted = lacks_conditions_lem r.conditions (when_unmade _ _ rejects h3);
          sound = conditions_findings-All path 0 r.conditions k3;
        },
        ground (arith, fresh),
      )

  rules_findings-All :
      (i : ℕ) (seen : List Bytes) (rules : List WireRule)
      → rejections (rules_findings env layer flag_key field sev i seen rules) ≡ []
      → All IsSoundWireRule rules × DistinctIds seen rules
  unfolding rules_findings
  rules_findings-All i seen [] h = (tt, tt)
  rules_findings-All i seen (r ∷ rules) h =
      let (here, later) =
        split_clean (wire_rule_findings env layer flag_key field sev _ seen r) _ h in
      let first = rule-IsSoundWireRule _ seen r here in
      let rest = rules_findings-All (i + 1) (r.id ∷ seen) rules later in
      ((first.0, rest.0), (first.1, rest.1))

  -- A rule list without a rejection, at a severity that rejects, has distinct ids that are not empty;
  -- each rule has a known combiner and at least one condition, and each condition an attribute, a
  -- known operator, as many values as the operator takes, and none that is unset.
  pub validate_rule_list-IsSoundWireRule :
      (rules : List WireRule)
      → rejections (validate_rule_list env layer flag_key field sev rules) ≡ []
      → All IsSoundWireRule rules × DistinctIds [] rules
  unfolding validate_rule_list
  validate_rule_list-IsSoundWireRule rules h = rules_findings-All 0 [] rules h
