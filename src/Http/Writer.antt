-- ===== src/Http/Writer.antt =====
-- internal/transport/safe/safe.go and http/middleware.go: the response writers of the two middlewares and
-- the panic boundary of a request. A handler is what it does with its writer, in order, and how it ends.
-- The writer of net/http, for a request other than HEAD, is as its documentation has it: the first status
-- that is not informational goes out, and 200 before the first byte if there was none; a status that has
-- no body drops what is written. Its panic on a code outside 100 to 999 is left out.
pub mod Boundary
mod Examples
use feature_flag_service.Common.{
  ℕ, leb, ◌==◌, ◌&&◌, ◌||◌, not, Bool, true, false, Bytes, codes, List, [], ◌∷◌, ◌++◌, Option, none,
  some, if◌then◌else◌,
}

-- What a handler does with its writer.
pub data Act : Type 0 where
  write_header : ℕ → Act
  write : Bytes → Act

-- How a handler ends; `aborts` is a panic with http.ErrAbortHandler.
pub data Ending : Type 0 where
  handled : Ending
  panicked : Ending
  aborts : Ending

-- The methods of http.ResponseWriter.
pub record WriterOps (W : Type 0) : Type 0 where
  pub header_op : ℕ → W → W
  pub write_op : Bytes → W → W

-- The connection: the final status that went out, if one did, and the body.
pub record Wire : Type 0 where
  pub sent : Option ℕ
  pub body : Bytes

abbrev pub new_wire : Wire
new_wire = record { sent = none; body = [] }

abbrev pub sent_or : ℕ → Option ℕ → Option ℕ
sent_or code none = some code
sent_or code (some first) = some first

-- A status that settles the answer, as 100 to 199 but 101 do not.
unfoldable pub is_final : ℕ → Bool
is_final code = leb 200 code || (code == 101)

-- A status whose answer has a body: 100 to 199, 204 and 304 have none.
unfoldable pub allows_body : ℕ → Bool
allows_body code = leb 200 code && (not (code == 204) && not (code == 304))

abbrev pub body_allowed : ℕ → Bytes → Bytes
body_allowed code bytes = if allows_body code then bytes else []

abbrev pub status_or_ok : Option ℕ → ℕ
status_or_ok none = 200
status_or_ok (some code) = code

abbrev pub wire_ops : WriterOps Wire
wire_ops = record {
  header_op =
      λ code w. if is_final code then record { sent = sent_or code w.sent; body = w.body } else w;
  write_op = λ bytes w. record {
    sent = sent_or 200 w.sent;
    body = w.body ++ body_allowed (status_or_ok w.sent) bytes;
  };
}

-- `recordingWriter` and `statusWriter`, which are alike.
pub record Tracking (W : Type 0) : Type 0 where
  pub inner : W
  pub wrote : Bool
  pub status : ℕ

module _ {W : Type 0} (ops : WriterOps W) where
  -- `WriteHeader`
  abbrev pub track_header : ℕ → Tracking W → Tracking W
  track_header code w =
      if w.wrote
      then w
      else record { inner = ops.header_op code w.inner; wrote = true; status = code }

  -- `Write`
  abbrev pub track_write : Bytes → Tracking W → Tracking W
  track_write bytes w =
      let u = if w.wrote then w else track_header 200 w in
      record { inner = ops.write_op bytes u.inner; wrote = u.wrote; status = u.status }

  abbrev pub tracking_ops : WriterOps (Tracking W)
  tracking_ops = record { header_op = track_header; write_op = track_write }

  abbrev pub act_on : Act → W → W
  act_on (write_header code) w = ops.header_op code w
  act_on (write bytes) w = ops.write_op bytes w

  unfoldable pub act_all : List Act → W → W
  act_all [] w = w
  act_all (a ∷ acts) w = act_all acts (act_on a w)

-- A handler, as the acts on its writer and its end.
abbrev pub Handler : Type 0
Handler = List Act × Ending

-- `safe.Middleware` over a writer, where `fault` is what `apierr.WriteInternal` does. An abort goes on as
-- one; any other panic stops here.
abbrev pub end_boundary : {W : Type 0} → WriterOps W → List Act → Ending → Tracking W → W × Ending
end_boundary ops fault handled rw_end = (rw_end.inner, handled)
end_boundary ops fault aborts rw_end = (rw_end.inner, aborts)
end_boundary ops fault panicked rw_end =
    if rw_end.wrote then (rw_end.inner, handled) else (act_all ops fault rw_end.inner, handled)

unfoldable pub safe_middleware : {W : Type 0} → WriterOps W → List Act → Handler → W → W × Ending
unfolding act_all
safe_middleware ops fault (acts, ending) w =
    end_boundary ops fault ending
      (act_all (tracking_ops ops) acts (record { inner = w; wrote = false; status = 0 }))

-- What `metricsMiddleware` counts, if the handler came back: the status; and the connection.
abbrev pub metrics_end : Tracking Wire × Ending → Option ℕ × Wire × Ending
metrics_end (sw, handled) = (some sw.status, sw.inner, handled)
metrics_end (sw, panicked) = (none, sw.inner, panicked)
metrics_end (sw, aborts) = (none, sw.inner, aborts)

-- `metricsMiddleware` over the panic boundary.
unfoldable pub metrics_middleware : List Act → Handler → Wire → Option ℕ × Wire × Ending
unfolding safe_middleware
metrics_middleware fault h w = metrics_end (
    safe_middleware (tracking_ops wire_ops) fault h
      (record { inner = w; wrote = false; status = 200 }))
