-- ===== src/Core/Matcher/Negation.antt =====
-- Negation applies to a decided outcome and to nothing else.
use feature_flag_service.Common.{◌≡◌, false, not, none, some, arith, if◌then◌else◌}
use feature_flag_service.Core.Model.{Condition}
use feature_flag_service.Core.Context.{EvalContext, attribute}
use feature_flag_service.Core.Trace.{tri_absent, tri_false}
use feature_flag_service.Core.Matcher.{decided, is_exists, decide_condition, match_condition}

abbrev pub negated : Condition → Condition
negated c = record c { negate = not c.negate }

-- Flipping `Negate` leaves the raw outcome as it is and flips the match exactly where that outcome is
-- decided; an undecided condition matches under neither.
pub match_condition-negated :
    (c : Condition) (ctx : EvalContext)
    → ((match_condition (some (negated c)) ctx).1 ≡ (match_condition (some c) ctx).1)
      × ((match_condition (some (negated c)) ctx).0 ≡ (
          if decided (match_condition (some c) ctx).1
          then not (match_condition (some c) ctx).0
          else (match_condition (some c) ctx).0))
      × ((if decided (match_condition (some c) ctx).1
            then false
            else (match_condition (some c) ctx).0)
          ≡ false)
unfolding match_condition decide_condition decided
match_condition-negated c ctx = ground arith

-- On an absent attribute no condition but one on existence can match, negated or not; the outcome is
-- `absent`, and `exists` is a decided false, so that only its negation matches.
pub match_condition-absent :
    (c : Condition) (ctx : EvalContext)
    → attribute ctx c.attribute ≡ none
    → match_condition (some c) ctx
      ≡ (if is_exists c.op then (c.negate, tri_false) else (false, tri_absent))
unfolding match_condition decide_condition
match_condition-absent c ctx h = ground arith
