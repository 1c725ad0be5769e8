-- ===== src/Config/Premerge/Ops/Sound.antt =====
-- What an ops layer that its validation accepts is.
use feature_flag_service.Common.{
  ◌≡◌, ◌≢◌, refl, ◌↔◌, ℤ, ◌≤ℤ◌, ◌-ℤ◌, true, false, not, Bytes, codes, map, is_empty, List, [], ◌∷◌,
  Option, none, some, All, arith,
}
use feature_flag_service.Config.Opt.{get}
use feature_flag_service.Config.Layer.{OpsOverride, OpsLayer, max_ops_override_ttl}
use feature_flag_service.Config.Findings.{Finding, is_rejection, rejections, when}
use feature_flag_service.Config.Resolved.{member}
use feature_flag_service.Config.Resolved.Sound.{split_clean, when_unmade}
use feature_flag_service.Config.Premerge.{is_flag_key, given_out_of_range}
use feature_flag_service.Config.Premerge.Clean.{InRange, range_lem, nonempty_lem}
use feature_flag_service.Config.Premerge.Ops.{
  is_expired_at, ops_expired, disallowed_findings, no_expiry_findings, expiry_findings,
  override_findings, overrides_findings, unnamed_ops, validate_ops,
}

-- The time to live: there is an expiry, at most 30 days ahead.
abbrev pub ExpiresSoon : ℤ → Option ℤ → Type 0
ExpiresSoon now none = ⊥
ExpiresSoon now (some exp) = exp -ℤ now ≤ℤ max_ops_override_ttl

pub record IsSoundOverride (now : ℤ) (o : OpsOverride) : Type 0 where
  pub key_known : is_flag_key o.key ≡ true
  pub whitelisted : o.disallowed ≡ []
  pub expiring : ExpiresSoon now (get o.expires_at)
  pub reasoned : o.reason ≢ []
  pub owned : o.owner ≢ []
  pub sized : InRange (get o.basis_points)

-- No key twice, and none of `seen`.
abbrev pub DistinctKeys : List Bytes → List OpsOverride → Type 0
DistinctKeys seen [] = Unit
DistinctKeys seen (o ∷ os) = (member o.key seen ≡ false) × DistinctKeys (o.key ∷ seen) os

disallowed_lem :
    (env key : Bytes) (now : ℤ) (names : List Bytes)
    → rejections (disallowed_findings env now key names) ≡ []
    → names ≡ []
unfolding disallowed_findings rejections
disallowed_lem env key now [] h = refl
disallowed_lem env key now (k ∷ names) h = absurd (cc)

expiring_lem :
    (env key : Bytes) (now : ℤ) (e : Option ℤ)
    → rejections (no_expiry_findings env now key e) ≡ []
    → rejections (expiry_findings env now key e) ≡ []
    → ExpiresSoon now e
unfolding expiry_findings rejections
expiring_lem env key now none h k = absurd (cc)
expiring_lem env key now (some exp) h k = ground arith

override-IsSoundOverride :
    (env : Bytes) (now : ℤ) (seen : List Bytes) (o : OpsOverride)
    → rejections (override_findings env now seen o) ≡ []
    → IsSoundOverride now o × (member o.key seen ≡ false)
unfolding override_findings is_rejection
override-IsSoundOverride env now seen o h =
    let (h1, k1) = split_clean (when (not (is_flag_key o.key)) _) _ h in
    let (h2, k2) = split_clean (when (member o.key seen) _) _ k1 in
    let (h3, k3) = split_clean (disallowed_findings env now o.key o.disallowed) _ k2 in
    let (h4, k4) = split_clean (no_expiry_findings env now o.key (get o.expires_at)) _ k3 in
    let (h5, k5) = split_clean (when (is_empty o.reason) _) _ k4 in
    let (h6, k6) = split_clean (when (is_empty o.owner) _) _ k5 in
    let (h7, k7) = split_clean (expiry_findings env now o.key (get o.expires_at)) _ k6 in
    let (h8, k8) = split_clean (when (given_out_of_range (get o.basis_points)) _) _ k7 in
    let known = when_unmade (not (is_flag_key o.key)) _ refl h1 in
    (
      record {
        key_known = ground (arith, known);
        whitelisted = disallowed_lem env o.key now o.disallowed h3;
        expiring = expiring_lem env o.key now (get o.expires_at) h4 h7;
        reasoned = nonempty_lem o.reason (when_unmade _ _ refl h5);
        owned = nonempty_lem o.owner (when_unmade _ _ refl h6);
        sized = range_lem (get o.basis_points) (when_unmade _ _ refl h8);
      },
      when_unmade _ _ refl h2,
    )

overrides-All :
    (env : Bytes) (now : ℤ) (seen : List Bytes) (os : List OpsOverride)
    → rejections (overrides_findings env now seen os) ≡ []
    → All (IsSoundOverride now) os × DistinctKeys seen os
unfolding overrides_findings
overrides-All env now seen [] h = (tt, tt)
overrides-All env now seen (o ∷ os) h =
    let (here, later) = split_clean (override_findings env now seen o) _ h in
    let first = override-IsSoundOverride env now seen o here in
    let rest = overrides-All env now (o.key ∷ seen) os later in
    ((first.0, rest.0), (first.1, rest.1))

-- An ops layer without a rejection names its environment; its overrides have well-formed, distinct
-- keys, only whitelisted fields, a reason, an owner, an expiry at most 30 days ahead, and a size, if
-- they set one, from 0 to 10000.
pub validate_ops-IsSoundOverride :
    (l : OpsLayer) (now : ℤ)
    → rejections (validate_ops (some l) now) ≡ []
    → (l.environment ≢ []) × (All (IsSoundOverride now) l.overrides × DistinctKeys [] l.overrides)
unfolding validate_ops is_rejection
validate_ops-IsSoundOverride l now h =
    let (named, rest) = split_clean (unnamed_ops l.environment) _ h in
    (
      nonempty_lem l.environment (when_unmade _ _ refl named),
      overrides-All l.environment now [] l.overrides rest,
    )

-- The finding on the time to live is the warning M11 exactly where `opsExpired` holds.
pub ops_expired_iff :
    (env : Bytes) (now : ℤ) (o : OpsOverride)
    → (ops_expired now o ≡ true) ↔ (
        map (λ (f : Finding). f.rule_id) (expiry_findings env now o.key (get o.expires_at))
        ≡ codes "M11" ∷ [])
unfolding ops_expired is_expired_at expiry_findings
ops_expired_iff env now o = expired_iff (get o.expires_at)
  where
    expired_iff :
        (e : Option ℤ)
        → (is_expired_at now e ≡ true)
          ↔ (map (λ (f : Finding). f.rule_id) (expiry_findings env now o.key e) ≡ codes "M11" ∷ [])
    expired_iff none = (λ h. absurd (cc), λ h. absurd (cc))
    expired_iff (some exp) = ground arith
