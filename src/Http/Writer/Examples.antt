-- ===== src/Http/Writer/Examples.antt =====
-- Tests of the two writers.
use feature_flag_service.Common.{◌≡◌, ◌≢◌, refl, codes, [], ◌∷◌, some}
use feature_flag_service.Http.Writer.{
  write_header, write, handled, panicked, aborts, new_wire, act_all, metrics_middleware, is_final,
  allows_body,
}
use feature_flag_service.Http.Writer.Boundary.{
  fault_acts, IsAnswered, metrics_middleware-IsAnswered,
}

panicked-aborts : panicked ≢ aborts
panicked-aborts e = cc

-- A panic after the first byte leaves the answer as it is.
late_panic :
    metrics_middleware
      (fault_acts (codes "fault"))
      (write (codes "part") ∷ (write_header 404 ∷ []), panicked)
      new_wire
    ≡ (some 200, record { sent = some 200; body = codes "part" }, handled)
unfolding metrics_middleware act_all is_final allows_body
late_panic = refl

-- A 204 has no body.
no_content :
    metrics_middleware
      (fault_acts (codes "fault"))
      (write_header 204 ∷ (write (codes "gone") ∷ []), handled)
      new_wire
    ≡ (some 204, record { sent = some 204; body = [] }, handled)
unfolding metrics_middleware act_all is_final allows_body
no_content = refl

metrics_middleware-IsAnswered_example :
    IsAnswered
      (500, codes "fault")
      (metrics_middleware (fault_acts (codes "fault")) ([], panicked) new_wire)
metrics_middleware-IsAnswered_example =
    metrics_middleware-IsAnswered (codes "fault") [] panicked panicked-aborts tt
