-- ===== src/Obs/Sampler.antt =====
-- internal/obs/log.go: the sampler of evaluation errors, a bucket of tokens for each key. The tokens are
-- floating point numbers; times are those of the clock.
pub mod Volume
mod Examples
use feature_flag_service.Common.{
  ℕ, ◌+◌, leb, Bool, true, false, Bytes, List, [], ◌∷◌, Option, none, some, if◌then◌else◌, length,
  Map, lookup, insert,
}

-- What the sampler does with float64, and the seconds from one time to another.
pub record TokenLib (F : Type 0) : Type 0 where
  pub one : F
  pub plus : F → F → F
  pub minus : F → F → F
  pub times : F → F → F
  pub is_less : F → F → Bool
  pub seconds_from : ℕ → ℕ → F

-- `bucket`
pub record Tokens (F : Type 0) : Type 0 where
  pub tokens : F
  pub last : ℕ
  pub suppressed : ℕ

-- `Sampler`
pub record Sampler (F : Type 0) : Type 0 where
  pub rate : F
  pub burst : F
  pub buckets : Map (Tokens F)
  pub max_keys : ℕ

-- Whether the line may be emitted, and how many were suppressed since the last one that was.
pub record Admission : Type 0 where
  pub allow : Bool
  pub suppressed : ℕ

-- `NewSampler`. A limit of zero or less comes as 0.
abbrev pub new_sampler : {F : Type 0} → F → F → ℕ → Sampler F
new_sampler rate burst max_keys = record {
  rate = rate;
  burst = burst;
  buckets = [];
  max_keys = if leb max_keys 0 then 4096 else max_keys;
}

module _ {F : Type 0} (lib : TokenLib F) where
  abbrev pub with_bucket : Bytes → Tokens F → Sampler F → Sampler F
  with_bucket key b s = record {
    rate = s.rate;
    burst = s.burst;
    buckets = insert key b s.buckets;
    max_keys = s.max_keys;
  }

  -- The tokens after the time since the last call.
  abbrev pub refilled : F → F → ℕ → Tokens F → F
  refilled rate burst now b =
      let full = lib.plus b.tokens (lib.times (lib.seconds_from b.last now) rate) in
      if lib.is_less burst full then burst else full

  -- The second half of `Allow`, on the tokens there are.
  abbrev pub take_token : Bytes → ℕ → F → ℕ → Sampler F → Sampler F × Admission
  take_token key now tokens suppressed s =
      if lib.is_less tokens lib.one
      then (
        with_bucket key (record { tokens = tokens; last = now; suppressed = suppressed + 1 }) s,
        record { allow = false; suppressed = 0 },
      )
      else (
        with_bucket key (record { tokens = lib.minus tokens lib.one; last = now; suppressed = 0 })
            s,
        record { allow = true; suppressed = suppressed },
      )

  abbrev pub draw : Bytes → ℕ → Tokens F → Sampler F → Sampler F × Admission
  draw key now b s = take_token key now (refilled s.rate s.burst now b) b.suppressed s

  abbrev pub allow_found : Bytes → ℕ → Option (Tokens F) → Sampler F → Sampler F × Admission
  allow_found key now (some b) s = draw key now b s
  allow_found key now none s =
      if leb s.max_keys (length s.buckets)
      then (s, record { allow = true; suppressed = 0 })
      else draw key now (record { tokens = s.burst; last = now; suppressed = 0 }) s

  -- `Allow`
  unfoldable pub allow : Bytes → ℕ → Sampler F → Sampler F × Admission
  unfolding lookup insert
  allow key now s = allow_found key now (lookup key s.buckets) s

  -- Calls for keys at times, each with what it gave.
  unfoldable pub allow_all : List (Bytes × ℕ) → Sampler F → Sampler F × List (Bytes × Admission)
  unfolding allow
  allow_all [] s = (s, [])
  allow_all ((key, now) ∷ calls) s =
      let (next, given) = allow key now s in
      let (last, rest) = allow_all calls next in (last, (key, given) ∷ rest)
