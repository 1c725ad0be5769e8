-- ===== src/Client/State/Runs.antt =====
-- Sequences of calls on one machine, each returning before the next, against the state that the calls
-- alone determine.
use feature_flag_service.Common.{
  ◌≡◌, refl, ap, ◌∙◌, ◌⊎◌, inl, ℤ, ltb_ℤ, Bool, true, false, ◌||◌, ◌&&◌, not, Bytes, List, [], ◌∷◌,
  if◌then◌else◌, arith,
}
use feature_flag_service.Client.State.{
  State, uninitialized, healthy, degraded_stale, closed, serving, state_eq, Machine, lock,
  signal_ready, announce, set, on_hydrated_from_disk, on_stream_dead, on_live_confirmation, close,
  new_state_machine,
}

pub data Call : Type 0 where
  hydrated : Call
  stream_dead : Bytes → Call
  live_confirmation : ℤ → ℤ → Call
  shutdown : Call

abbrev pub act : Call → Machine → Machine
act hydrated m = on_hydrated_from_disk m
act (stream_dead reason) m = on_stream_dead reason m
act (live_confirmation held source) m = on_live_confirmation held source m
act shutdown m = close m

-- The first call first.
abbrev pub act_all : List Call → Machine → Machine
act_all [] m = m
act_all (c ∷ calls) m = act_all calls (act c m)

-- What one call makes of a state.
abbrev pub next : State → Call → State
next closed c = closed
next s hydrated = degraded_stale
next s (stream_dead reason) = degraded_stale
next s (live_confirmation held source) = if ltb_ℤ held source then s else healthy
next s shutdown = closed

abbrev pub next_all : State → List Call → State
next_all s [] = s
next_all s (c ∷ calls) = next_all (next s c) calls

-- Whether a call of the list finds real config, before the first shutdown.
abbrev pub serves : List Call → Bool
serves [] = false
serves (hydrated ∷ calls) = true
serves (stream_dead reason ∷ calls) = true
serves (live_confirmation held source ∷ calls) =
    let rest = serves calls in if ltb_ℤ held source then rest else true
serves (shutdown ∷ calls) = false

act-next : (c : Call) (m : Machine) → (act c m).cur ≡ next m.cur c
unfolding on_hydrated_from_disk on_stream_dead on_live_confirmation close set lock announce
    signal_ready serving state_eq
act-next hydrated m = ground arith
act-next (stream_dead reason) m = ground arith
act-next (live_confirmation held source) m = ground arith
act-next shutdown m = ground arith

-- After any calls the state is the one that the calls determine: closed for good after a shutdown,
-- and else healthy or stale by the last call that is not a confirmation of an older generation.
pub act_all-next_all :
    (calls : List Call) (m : Machine) → (act_all calls m).cur ≡ next_all m.cur calls
act_all-next_all [] m = refl
act_all-next_all (c ∷ calls) m =
    act_all-next_all calls (act c m) ∙ ap (λ s. next_all s calls) (act-next c m)

act-closed : (c : Call) (m : Machine) → m.cur ≡ closed → act c m ≡ m
unfolding on_hydrated_from_disk on_stream_dead on_live_confirmation close set lock state_eq
act-closed hydrated m h = ground arith
act-closed (stream_dead reason) m h = ground arith
act-closed (live_confirmation held source) m h = ground arith
act-closed shutdown m h = ground arith

-- A closed machine is left as it is by every later call: no move, no report, no channel operation.
pub act_all-closed : (calls : List Call) (m : Machine) → m.cur ≡ closed → act_all calls m ≡ m
act_all-closed [] m h = refl
act_all-closed (c ∷ calls) m h =
    act_all-closed calls (act c m) (ap (λ (n : Machine). n.cur) (act-closed c m h) ∙ h)
    ∙ act-closed c m h

-- A machine whose channel is open has not served.
record IsReadied (m : Machine) : Type 0 where
  closed_as : m.closes ≡ (if m.ready_once then 1 else 0)
  waiting : m.ready_once ≡ false → (m.cur ≡ uninitialized) ⊎ (m.cur ≡ closed)

act-IsReadied : (c : Call) (m : Machine) → IsReadied m → IsReadied (act c m)
unfolding on_hydrated_from_disk on_stream_dead on_live_confirmation close set lock announce
    signal_ready serving state_eq
act-IsReadied hydrated m h = record {
  closed_as = ground (arith, h.closed_as);
  waiting = λ e. ground (arith, h.waiting);
}
act-IsReadied (stream_dead reason) m h = record {
  closed_as = ground (arith, h.closed_as);
  waiting = λ e. ground (arith, h.waiting);
}
act-IsReadied (live_confirmation held source) m h = record {
  closed_as = ground (arith, h.closed_as);
  waiting = λ e. ground (arith, h.waiting);
}
act-IsReadied shutdown m h = record {
  closed_as = ground (arith, h.closed_as);
  waiting = λ e. ground (arith, h.waiting);
}

-- Whether the channel is closed after the calls.
abbrev readied_after : Machine → List Call → Bool
readied_after m calls = m.ready_once || (not (state_eq m.cur closed) && serves calls)

act-readied_after :
    (c : Call) (calls : List Call) (m : Machine)
    → IsReadied m
    → readied_after (act c m) calls ≡ readied_after m (c ∷ calls)
unfolding on_hydrated_from_disk on_stream_dead on_live_confirmation close set lock announce
    signal_ready serving state_eq
act-readied_after hydrated calls m h = ground (arith, h.waiting)
act-readied_after (stream_dead reason) calls m h = ground (arith, h.waiting)
act-readied_after (live_confirmation held source) calls m h = ground (arith, h.waiting)
act-readied_after shutdown calls m h = ground (arith, h.waiting)

act_all-closes_from :
    (calls : List Call) (m : Machine)
    → IsReadied m
    → (act_all calls m).closes ≡ (if readied_after m calls then 1 else 0)
unfolding state_eq
act_all-closes_from [] m h = ground (arith, h.closed_as)
act_all-closes_from (c ∷ calls) m h =
    act_all-closes_from calls (act c m) (act-IsReadied c m h)
    ∙ ap (λ b. if b then 1 else 0) (act-readied_after c calls m h)

-- After any calls the ready channel was closed once if a call before the first shutdown found real
-- config, and else never.
pub act_all-closes :
    (calls : List Call) → (act_all calls new_state_machine).closes ≡ (if serves calls then 1 else 0)
unfolding new_state_machine state_eq
act_all-closes calls =
    act_all-closes_from calls new_state_machine
      (record { closed_as = refl; waiting = λ e. inl refl })
