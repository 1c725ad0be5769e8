-- ===== src/Config/Findings.antt =====
-- The findings of internal/config/validate.go and the filters over them. `Message` is text for people
-- and is left out.
use feature_flag_service.Common.{
  Bool, true, false, not, ◌||◌, Bytes, str_eq, List, [], ◌∷◌, if◌then◌else◌,
}
use feature_flag_service.Config.Layer.{LayerId}

pub data Severity : Type 0 where
  severity_warn severity_reject_flag severity_reject_env severity_reject_global : Severity

unfoldable pub is_rejection : Severity → Bool
is_rejection severity_warn = false
is_rejection _ = true

pub record Finding : Type 0 where
  pub rule_id : Bytes
  pub flag : Bytes
  pub env : Bytes
  pub layer : LayerId
  pub field : Bytes
  pub severity : Severity

abbrev pub Findings : Type 0
Findings = List Finding

unfoldable pub has_rejections : Findings → Bool
unfolding is_rejection
has_rejections [] = false
has_rejections (f ∷ fs) = is_rejection f.severity || has_rejections fs

unfoldable pub filter_findings : (Finding → Bool) → Findings → Findings
filter_findings keep [] = []
filter_findings keep (f ∷ fs) =
    let rest = filter_findings keep fs in if keep f then f ∷ rest else rest

unfoldable pub rejections : Findings → Findings
unfolding filter_findings is_rejection
rejections fs = filter_findings (λ f. is_rejection f.severity) fs

unfoldable pub warns : Findings → Findings
unfolding filter_findings is_rejection
warns fs = filter_findings (λ f. not (is_rejection f.severity)) fs

unfoldable pub for_flag : Bytes → Findings → Findings
unfolding filter_findings
for_flag key fs = filter_findings (λ f. str_eq f.flag key) fs

-- `if test { add(finding) }`
abbrev pub when : Bool → Finding → Findings
when true f = f ∷ []
when false f = []
