-- ===== src/Config/Premerge/Ops.antt =====
-- `ValidateOps` and `opsExpired` of internal/config/validate.go. Instants and durations are in
-- nanoseconds; where `Sub` saturates, every comparison made here has the same outcome.
pub mod Sound
use feature_flag_service.Common.{
  ℤ, pos, ltb_ℤ, leb_ℤ, ◌-ℤ◌, Bool, true, false, not, ◌&&◌, ◌||◌, Bytes, codes, is_empty, List, [],
  ◌∷◌, ◌++◌, Option, none, some, if◌then◌else◌,
}
use feature_flag_service.Config.Opt.{Opt, get, is_value}
use feature_flag_service.Config.Layer.{
  layer_ops, OpsOverride, OpsLayer, max_ops_override_ttl, ops_override_ttl_warn,
}
use feature_flag_service.Config.Findings.{
  Finding, Findings, Severity, severity_warn, severity_reject_flag, severity_reject_env, when,
}
use feature_flag_service.Config.Merge.Fields.{
  Field, field_key, field_expires_at, field_reason, field_owner, field_basis_points, field_name,
}
use feature_flag_service.Config.Resolved.{member}
use feature_flag_service.Config.Premerge.{is_flag_key, given_out_of_range}

unfoldable pub is_expired_at : ℤ → Option ℤ → Bool
is_expired_at now none = false
is_expired_at now (some exp) = leb_ℤ exp now

unfoldable pub ops_expired : ℤ → OpsOverride → Bool
unfolding is_expired_at get
ops_expired now o = is_expired_at now (get o.expires_at)

module _ (env : Bytes) (now : ℤ) where
  module _ (key : Bytes) where
    abbrev pub tell_ops : Bytes → Bytes → Severity → Finding
    tell_ops id field sev = record {
      rule_id = id;
      flag = key;
      env = env;
      layer = layer_ops;
      field = field;
      severity = sev;
    }

    -- O07, for the fields outside the whitelist.
    unfoldable pub disallowed_findings : List Bytes → Findings
    disallowed_findings [] = []
    disallowed_findings (k ∷ names) =
        tell_ops (codes "O07") k severity_reject_flag ∷ disallowed_findings names

    -- O08, on a missing `expires_at`.
    abbrev pub no_expiry_findings : Option ℤ → Findings
    no_expiry_findings none =
        tell_ops (codes "O08") (field_name field_expires_at) severity_reject_flag ∷ []
    no_expiry_findings (some exp) = []

    -- O09, O10 and M11, on one that is there.
    abbrev pub ttl_findings : ℤ → Findings
    ttl_findings ttl =
        if ltb_ℤ max_ops_override_ttl ttl
        then tell_ops (codes "O09") (field_name field_expires_at) severity_reject_flag ∷ []
        else if ltb_ℤ ops_override_ttl_warn ttl
        then tell_ops (codes "O10") (field_name field_expires_at) severity_warn ∷ []
        else when (leb_ℤ ttl (pos 0))
            (tell_ops (codes "M11") (field_name field_expires_at) severity_warn)

    unfoldable pub expiry_findings : Option ℤ → Findings
    expiry_findings none = []
    expiry_findings (some exp) = ttl_findings (exp -ℤ now)

  -- One override, with the keys seen before it.
  unfoldable pub override_findings : List Bytes → OpsOverride → Findings
  override_findings seen o =
      when (not (is_flag_key o.key))
        (tell_ops o.key (codes "O01") (field_name field_key) severity_reject_flag)
      ++ (when (member o.key seen)
            (tell_ops o.key (codes "O14") (field_name field_key) severity_reject_flag)
          ++ (disallowed_findings o.key o.disallowed
              ++ (no_expiry_findings o.key (get o.expires_at)
                  ++ (when (is_empty o.reason) (
                        tell_ops o.key (codes "O08") (field_name field_reason) severity_reject_flag)
                      ++ (when (is_empty o.owner) (
                            tell_ops o.key (codes "O08") (field_name field_owner)
                              severity_reject_flag)
                          ++ (expiry_findings o.key (get o.expires_at)
                              ++ (when (given_out_of_range (get o.basis_points)) (
                                    tell_ops o.key (codes "O05") (field_name field_basis_points)
                                      severity_reject_flag)
                                  ++ when
                                      (not (is_value o.enabled) && not (is_value o.basis_points))
                                      (tell_ops o.key (codes "O15") [] severity_warn))))))))

  unfoldable pub overrides_findings : List Bytes → List OpsOverride → Findings
  overrides_findings seen [] = []
  overrides_findings seen (o ∷ overrides) =
      override_findings seen o ++ overrides_findings (o.key ∷ seen) overrides

-- O00; the finding names no flag and no environment: the environment is empty.
abbrev pub unnamed_ops : Bytes → Findings
unnamed_ops env =
    when (is_empty env)
      (tell_ops env (pos 0) [] (codes "O00") (codes "environment") severity_reject_env)

unfoldable pub validate_ops : Option OpsLayer → ℤ → Findings
validate_ops none now = []
validate_ops (some l) now =
    unnamed_ops l.environment ++ overrides_findings l.environment now [] l.overrides
