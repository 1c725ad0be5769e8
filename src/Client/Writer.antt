-- ===== src/Client/Writer.antt =====
-- asyncWriter of pkg/client/cache.go: a mailbox of one entry, a signal channel of one place, and one
-- goroutine that writes. Its steps are those that the mutex and the channels separate, so that callers
-- of `enqueue` and `close` run between any two of them.
pub mod Rest
pub mod Settles
use feature_flag_service.Common.{
  ◌≡◌, refl, subst, ◌⊎◌, inl, inr, ℕ, ◌+◌, ◌-◌, ◌<◌, zero, suc, Bool, true, false, List, [], ◌∷◌,
  Option, none, some, if◌then◌else◌, arith,
}

module _ {ℓ} (E : Type ℓ) where
  -- Where the goroutine is: at the `select`, before the locked section of `drain`, in the write, or gone.
  -- The flag tells whether it came by way of `done`.
  pub data Phase : Type ℓ where
    waiting : Phase
    draining : Bool → Phase
    writing : E → Bool → Phase
    stopped : Phase

  -- `waking` counts the callers of `enqueue` between its two parts; `written` has what was handed to
  -- the write function, `newest` what was enqueued last.
  pub record Writer : Type ℓ where
    pub pending : Option E
    pub sig : Bool
    pub done : Bool
    pub waking : ℕ
    pub phase : Phase
    pub written : List E
    pub newest : Option E

module _ {ℓ} {E : Type ℓ} where
  unfoldable pub new_async_writer : Writer E
  new_async_writer = record {
    pending = none;
    sig = false;
    done = false;
    waking = 0;
    phase = waiting;
    written = [];
    newest = none;
  }

  -- `enqueue`: the locked section, then the send, which does nothing where a signal is queued.
  abbrev pub put : E → Writer E → Writer E
  put e w = record w { pending = some e; waking = w.waking + 1; newest = some e }

  abbrev pub wake : Writer E → Writer E
  wake w = record w { sig = true; waking = w.waking - 1 }

  abbrev pub close_done : Writer E → Writer E
  close_done w = record w { done = true }

  -- The two cases of the `select` in `run`.
  abbrev pub take_signal : Writer E → Writer E
  take_signal w = record w { sig = false; phase = draining false }

  abbrev pub take_done : Writer E → Writer E
  take_done w = record w { phase = draining true }

  -- After `drain`: back to the `select`, or the end.
  abbrev pub resume : Bool → Phase E
  resume last = if last then stopped else waiting

  -- The locked section of `drain`, and its return on an empty mailbox.
  abbrev pub swapped : Option E → Bool → Phase E
  swapped none last = resume last
  swapped (some e) last = writing e last

  abbrev pub swap : Bool → Writer E → Writer E
  swap last w = record w { pending = none; phase = swapped w.pending last }

  -- The write, which returns or whose panic is recovered from.
  abbrev pub finish_write : E → Bool → Writer E → Writer E
  finish_write e last w = record w { phase = resume last; written = e ∷ w.written }

  -- The states that a new writer can come to.
  pub data Reachable : Writer E → Type ℓ where
    start : Reachable new_async_writer
    puts : (e : E) (w : Writer E) → Reachable w → Reachable (put e w)
    wakes : (w : Writer E) → 0 < w.waking → Reachable w → Reachable (wake w)
    closes : (w : Writer E) → Reachable w → Reachable (close_done w)
    takes_signal :
        (w : Writer E) → w.phase ≡ waiting → w.sig ≡ true → Reachable w → Reachable (take_signal w)
    takes_done :
        (w : Writer E) → w.phase ≡ waiting → w.done ≡ true → Reachable w → Reachable (take_done w)
    swaps :
        (last : Bool) (w : Writer E)
        → w.phase ≡ draining last
        → Reachable w
        → Reachable (swap last w)
    writes :
        (e : E) (last : Bool) (w : Writer E)
        → w.phase ≡ writing e last
        → Reachable w
        → Reachable (finish_write e last w)

  -- The `select` of `run`. Where both cases are ready Go takes either, which `signal_first` decides;
  -- `none` where neither is.
  abbrev pub selected : Bool → Writer E → Option (Writer E)
  selected signal_first w =
      if w.sig
      then if w.done
        then if signal_first then some (take_signal w) else some (take_done w)
        else some (take_signal w)
      else (if w.done then some (take_done w) else none)

  -- What the goroutine does next; `none` where it has nothing to do.
  unfoldable pub next_step : Bool → Phase E → Writer E → Option (Writer E)
  next_step signal_first waiting w = selected signal_first w
  next_step signal_first (draining last) w = some (swap last w)
  next_step signal_first (writing e last) w = some (finish_write e last w)
  next_step signal_first stopped w = none

  abbrev pub or_stay : Writer E → Option (Writer E) → Writer E
  or_stay w none = w
  or_stay w (some next) = next

  -- Steps of the goroutine alone, one for each way in which the `select` would go.
  unfoldable pub settle : List Bool → Writer E → Writer E
  unfolding next_step
  settle [] w = w
  settle (pick ∷ picks) w = settle picks (or_stay w (next_step pick w.phase w))
