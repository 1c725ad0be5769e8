-- ===== src/Http/Admin.antt =====
-- internal/transport/http/admin.go: the two handlers of the admin listener. The applier is given by its
-- step on the state behind it; `as_float` makes the number for a gauge.
use feature_flag_service.Common.{
  ℕ, ℤ, pos, not, Bytes, codes, is_empty, List, [], ◌∷◌, ◌++◌, Option, none, some, if◌then◌else◌,
}
use feature_flag_service.Core.Model.{Flag}
use feature_flag_service.Obs.Recorder.{config_apply, generation_set, flags_set}
use feature_flag_service.Http.Errors.{
  unavailable, payload_too_large, invalid_argument, invalid_config, internal, not_found,
  internal_message,
}
use feature_flag_service.Http.Requests.{Checked, refused, accepted, valid_env, valid_flag_key}
use feature_flag_service.Http.Source.{
  SnapshotView, SnapshotSource, pin, Event, measured, logged, Reply, reply,
}

-- `AppliedEnv` and `ApplyResult` of deps.go
pub record AppliedEnv : Type 0 where
  pub env : Bytes
  pub generation : ℤ
  pub flags : ℕ

pub record ApplyResult : Type 0 where
  pub applied : List AppliedEnv
  pub flags_changed : List Bytes

-- What `ApplyLayer` returns: a result, an error that is `ErrValidation`, or another error.
pub data Applying : Type 0 where
  apply_ok : ApplyResult → Applying
  apply_invalid : Bytes → Applying
  apply_failed : Bytes → Applying

-- What reading a body under a limit does.
pub data BodyRead : Type 0 where
  over_limit : BodyRead
  read_failed : BodyRead
  body_read : Bytes → BodyRead

module _ {F : Type 0} (as_float : ℤ → F) where
  unfoldable pub applied_gauges : List AppliedEnv → List (Event F)
  applied_gauges [] = []
  applied_gauges (a ∷ rest) =
      measured (generation_set a.env (as_float a.generation))
      ∷ (measured (flags_set a.env (as_float (pos a.flags))) ∷ applied_gauges rest)

  -- The end of `handleApplyLayer`.
  unfoldable pub applied_reply : F → Applying → Reply F ApplyResult
  unfolding applied_gauges
  applied_reply lap (apply_ok res) =
      reply
        (measured (config_apply (codes "ok") lap)
          ∷ (applied_gauges res.applied ++ (logged (codes "config applied") ∷ [])))
        (accepted res)
  applied_reply lap (apply_invalid text) =
      reply
        (measured (config_apply (codes "rejected_validation") lap)
          ∷ (logged (codes "config rejected by validation") ∷ []))
        (refused invalid_config text)
  applied_reply lap (apply_failed text) =
      reply
        (measured (config_apply (codes "rejected_internal") lap)
          ∷ (logged (codes "config apply failed") ∷ []))
        (refused internal internal_message)

  abbrev pub after_apply : {S : Type 0} → F → S × Applying → S × Reply F ApplyResult
  unfolding applied_reply
  after_apply lap (s, res) = (s, applied_reply lap res)

  -- `handleApplyLayer`, with the state behind the applier, which may be nil.
  unfoldable pub handle_apply_layer :
      {S : Type 0} → Option (Bytes → S → S × Applying) → BodyRead → F → S → S × Reply F ApplyResult
  unfolding after_apply is_empty
  handle_apply_layer none body lap s =
      (s, reply [] (refused unavailable (codes "config apply is not wired on this instance")))
  handle_apply_layer (some apply) over_limit lap s =
      (s, reply [] (refused payload_too_large (codes "config layer exceeds the size limit")))
  handle_apply_layer (some apply) read_failed lap s =
      (s, reply [] (refused invalid_argument (codes "could not read request body")))
  handle_apply_layer (some apply) (body_read body) lap s =
      if is_empty body
      then (s, reply [] (refused invalid_argument (codes "config layer body is empty")))
      else after_apply lap (apply body s)

-- `SnapshotDebugResponse`
pub record SnapshotDebugResponse : Type 0 where
  pub environment : Bytes
  pub generation : ℤ
  pub flags : ℕ
  pub keys : List Bytes
  pub flag : Option Flag

abbrev pub keys_or_none : Option (List Bytes) → List Bytes
keys_or_none none = []
keys_or_none (some ks) = ks

abbrev pub debug_flag : SnapshotDebugResponse → Option Flag → Checked SnapshotDebugResponse
debug_flag resp none = refused not_found (codes "no such flag in this snapshot")
debug_flag resp (some f) = accepted (record {
  environment = resp.environment;
  generation = resp.generation;
  flags = resp.flags;
  keys = resp.keys;
  flag = some f;
})

unfoldable pub debug_snapshot : Bytes → Option SnapshotView → Checked SnapshotDebugResponse
unfolding valid_flag_key is_empty
debug_snapshot key none =
    refused not_found (codes "no snapshot has been published for this environment")
debug_snapshot key (some snap) =
    let resp : SnapshotDebugResponse = record {
      environment = snap.env;
      generation = snap.generation;
      flags = snap.len;
      keys = keys_or_none snap.keys;
      flag = none;
    } in
    if is_empty key
    then accepted resp
    else if not (valid_flag_key key)
    then refused invalid_argument (codes "flag must be 1-128 characters of [A-Za-z0-9_.-]")
    else debug_flag resp (snap.flag key)

-- `handleSnapshotDebug`, on the environment of the path and the flag of the query.
unfoldable pub handle_snapshot_debug :
    SnapshotSource → Bytes → Bytes → Checked SnapshotDebugResponse
unfolding debug_snapshot valid_env
handle_snapshot_debug source env key =
    if not (valid_env env)
    then refused invalid_argument (codes "environment must be 1-32 characters of [A-Za-z0-9_.-]")
    else debug_snapshot key (pin source 0 env)
