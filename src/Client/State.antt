-- ===== src/Client/State.antt =====
-- pkg/client/state.go: the client's lifecycle. `set` is its locked section, `lock`, and what it does
-- after the mutex is released, `announce`, so that the calls of several goroutines can be interleaved
-- between the two. The mutex and `sync.Once` are the state's own: a locked section is one step, and
-- `ready_once` tells whether the function was run. Calls of the `onChange` hook are recorded, newest
-- first.
pub mod Runs
pub mod Interleaved
use feature_flag_service.Common.{
  ℕ, ◌+◌, ℤ, ltb_ℤ, Bool, true, false, ◌||◌, Bytes, codes, List, [], ◌∷◌, Option, none, some,
  if◌then◌else◌,
}

pub data State : Type 0 where
  uninitialized healthy degraded_stale closed : State

unfoldable pub state_string : State → Bytes
state_string uninitialized = codes "UNINITIALIZED"
state_string healthy = codes "HEALTHY"
state_string degraded_stale = codes "DEGRADED_STALE"
state_string closed = codes "CLOSED"

unfoldable pub state_eq : State → State → Bool
state_eq uninitialized uninitialized = true
state_eq healthy healthy = true
state_eq degraded_stale degraded_stale = true
state_eq closed closed = true
state_eq _ _ = false

unfoldable pub serving : State → Bool
unfolding state_eq
serving s = state_eq s healthy || state_eq s degraded_stale

-- The arguments of one call of `onChange`.
pub record Change : Type 0 where
  pub from : State
  pub to : State
  pub reason : Bytes

-- `stateMachine`; `closes` counts the closings of `readyCh`.
pub record Machine : Type 0 where
  pub cur : State
  pub ready_once : Bool
  pub closes : ℕ
  pub reported : List Change

unfoldable pub new_state_machine : Machine
new_state_machine = record { cur = uninitialized; ready_once = false; closes = 0; reported = [] }

-- The locked section of `set`: a move, unless the machine is closed or there already.
unfoldable pub lock : State → Bytes → Machine → Machine × Option Change
unfolding state_eq
lock to reason m =
    if state_eq m.cur closed || state_eq m.cur to
    then (m, none)
    else (record m { cur = to }, some (record { from = m.cur; to = to; reason = reason }))

-- `sm.readyOnce.Do(func() { close(sm.readyCh) })`
unfoldable pub signal_ready : Machine → Machine
signal_ready m = if m.ready_once then m else record m { ready_once = true; closes = m.closes + 1 }

-- The rest of `set`, for a move that was made.
unfoldable pub announce : Change → Machine → Machine
unfolding serving signal_ready
announce c m =
    let signalled = if serving c.to then signal_ready m else m in
    record signalled { reported = c ∷ signalled.reported }

abbrev pub announce_move : Machine × Option Change → Machine × Bool
announce_move (m, none) = (m, false)
announce_move (m, some c) = (announce c m, true)

unfoldable pub set : State → Bytes → Machine → Machine × Bool
unfolding lock announce
set to reason m = announce_move (lock to reason m)

unfoldable pub on_hydrated_from_disk : Machine → Machine
unfolding set
on_hydrated_from_disk m = (set degraded_stale (codes "l2_hydrated") m).0

unfoldable pub on_stream_dead : Bytes → Machine → Machine
unfolding set
on_stream_dead reason m = (set degraded_stale reason m).0

unfoldable pub on_live_confirmation : ℤ → ℤ → Machine → Machine
unfolding set
on_live_confirmation held_gen source_gen m =
    if ltb_ℤ held_gen source_gen then m else (set healthy (codes "recovered") m).0

unfoldable pub close : Machine → Machine
unfolding set
close m = (set closed (codes "shutdown") m).0

-- `waitForReady` on the states it reads: the state at its start, whether the channel is closed before
-- the context is done, and the state then.
unfoldable pub wait_for_ready : State → Bool → State → Bool
unfolding serving
wait_for_ready start ready_first finally =
    if serving start then true else if ready_first then true else serving finally
