-- ===== src/Core/Matcher/Rules.antt =====
-- Rules: which conditions are consulted, and what the observer is told of them.
use feature_flag_service.Common.{
  ◌≡◌, refl, Bool, not, Bytes, List, [], ◌∷◌, some, arith, if◌then◌else◌,
}
use feature_flag_service.Core.Model.{Condition, Rule}
use feature_flag_service.Core.Context.{EvalContext}
use feature_flag_service.Core.Trace.{Observation}
use feature_flag_service.Core.Matcher.{
  ConditionObserver, IsQuiet, countable, match_condition, observe, match_loop, match_rule, is_or,
}

-- The conditions that are consulted: up to the first that matches under LogicOr, and up to the first
-- that does not under LogicAnd.
pub consulted : Bool → EvalContext → List Condition → List Condition
consulted any ctx [] = []
consulted any ctx (c ∷ cs) =
    if (if any then (match_condition (some c) ctx).0 else not (match_condition (some c) ctx).0)
    then c ∷ []
    else c ∷ consulted any ctx cs

-- What is told of a condition: its outcome, if that is a defect.
pub told : Bytes → Bytes → EvalContext → List Condition → List Observation
told k i ctx [] = []
told k i ctx (c ∷ cs) =
    let seen : Observation = record {
      flag_key = k;
      rule_id = i;
      attribute = c.attribute;
      outcome = (match_condition (some c) ctx).1;
    } in
    if countable (match_condition (some c) ctx).1 then seen ∷ told k i ctx cs else told k i ctx cs

match_loop-told :
    (any : Bool) (k i : Bytes) (cs : List Condition) (ctx : EvalContext) (obs : ConditionObserver)
    → IsQuiet (some obs)
    → (match_loop any k i cs ctx (some obs)).1 ≡ told k i ctx (consulted any ctx cs)
unfolding match_loop told consulted observe
match_loop-told any k i [] ctx obs q = refl
match_loop-told any k i (c ∷ cs) ctx obs q = ground (
  arith,
  match_loop-told any k i cs ctx obs q,
  q (record {
    flag_key = k;
    rule_id = i;
    attribute = c.attribute;
    outcome = (match_condition (some c) ctx).1;
  }),
)

-- An observer that does not panic is told, in order, of the outcomes that are defects among the
-- conditions consulted: those up to the one that decides the rule, and none behind it.
pub match_rule-told :
    (k : Bytes) (r : Rule) (ctx : EvalContext) (obs : ConditionObserver)
    → IsQuiet (some obs)
    → (match_rule k (some r) ctx (some obs)).1
      ≡ told k r.id ctx (consulted (is_or r.combiner) ctx r.conditions)
unfolding match_rule
match_rule-told k r ctx obs q = match_loop-told (is_or r.combiner) k r.id r.conditions ctx obs q
