-- ===== src/Client/Updater/Backoff.antt =====
-- The bound on reconnect delays.
use feature_flag_service.Common.{
  ◌≡◌, ◌+◌, ◌-◌, ◌^◌, ltb, ℤ, pos, negsuc, pos_part, incr_int64, ltb_ℤ, leb_ℤ, ◌≤ℤ◌, ◌<ℤ◌, true,
  ◌||◌, if◌then◌else◌, Bool-cases, inl, inr, arith,
}
use feature_flag_service.Client.Updater.{
  shifted, backoff_base, backoff_max, clamp_attempt, backoff_window, full_jitter_backoff,
}

backoff_max-positive : (base max_delay : ℤ) → pos 0 <ℤ backoff_max base max_delay
backoff_max-positive base max_delay = elim (Bool-cases (leb_ℤ base (pos 0))) [
  | inl default ↦ rw default (ground arith)
  | inr given ↦ rw given (ground arith)
]

window_within :
    (w most : ℤ)
    → pos 0 <ℤ most
    → let r = if ltb_ℤ most w || leb_ℤ w (pos 0) then most else w in (pos 0 <ℤ r) × (r ≤ℤ most)
window_within w most h = elim (Bool-cases (ltb_ℤ most w || leb_ℤ w (pos 0))) [
  | inl replaced ↦ rw replaced (h, omega arith)
  | inr kept ↦ rw kept (ground arith, ground arith)
]

drawn_within :
    (draw : ℤ → ℤ) (w most : ℤ)
    → ((n : ℤ) → pos 0 <ℤ n → (pos 0 ≤ℤ draw n) × (draw n <ℤ n))
    → most <ℤ pos (2 ^ 63 - 1)
    → pos 0 <ℤ w
    → w ≤ℤ most
    → (pos 0 ≤ℤ draw (incr_int64 w)) × (draw (incr_int64 w) ≤ℤ most)
drawn_within draw (pos n) most h small low high =
    let fits : ltb (n + 1) (2 ^ 63) ≡ true = ground arith in
    let (least, greatest) = h (pos (n + 1)) (omega arith) in
    rw fits (least, omega (arith, greatest, high))
drawn_within draw (negsuc n) most h small low high = absurd (omega arith)

-- Every delay is from 0 to the greatest delay, whatever the attempt and the two durations are, if the
-- greatest delay is below the greatest int64 and the draw is below its bound.
pub full_jitter_backoff-within :
    (draw : ℤ → ℤ) (base max_delay attempt : ℤ)
    → ((n : ℤ) → pos 0 <ℤ n → (pos 0 ≤ℤ draw n) × (draw n <ℤ n))
    → backoff_max base max_delay <ℤ pos (2 ^ 63 - 1)
    → (pos 0 ≤ℤ full_jitter_backoff draw base max_delay attempt)
      × (full_jitter_backoff draw base max_delay attempt ≤ℤ backoff_max base max_delay)
unfolding full_jitter_backoff backoff_window
full_jitter_backoff-within draw base max_delay attempt h small =
    let most = backoff_max base max_delay in
    let within =
      window_within (shifted (pos_part (backoff_base base)) (clamp_attempt attempt)) most
        (backoff_max-positive base max_delay) in
    drawn_within draw (backoff_window base max_delay attempt) most h small within.0 within.1
