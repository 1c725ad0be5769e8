-- ===== src/Client/State/Interleaved.antt =====
-- Calls of several goroutines on one machine: `set` is two steps, the locked section and what follows
-- it, and any locked section and any unfinished call may come next.
use feature_flag_service.Common.{
  ◌≡◌, refl, sym, ◌≢◌, ℕ, ◌+◌, ◌≤◌, Bool, true, false, Bytes, List, [], ◌∷◌, ◌++◌, leb, Option,
  none, some, if◌then◌else◌, arith, subst,
}
use feature_flag_service.Client.State.{
  State, uninitialized, closed, serving, state_eq, Machine, lock, signal_ready, announce,
  new_state_machine, Change,
}

-- The machine, the moves whose calls have not finished, and all moves, newest first.
pub record Shared : Type 0 where
  pub machine : Machine
  pub pending : List Change
  pub moves : List Change

abbrev pub initial : Shared
initial = record { machine = new_state_machine; pending = []; moves = [] }

abbrev pub added : Option Change → List Change → List Change
added none cs = cs
added (some c) cs = c ∷ cs

abbrev pub entered : State → Bytes → Shared → Shared
entered to reason s = record {
  machine = (lock to reason s.machine).0;
  pending = added (lock to reason s.machine).1 s.pending;
  moves = added (lock to reason s.machine).1 s.moves;
}

abbrev pub left : Machine → List Change → Change → List Change → List Change → Shared
left m before c after moves = record {
  machine = announce c m;
  pending = before ++ after;
  moves = moves;
}

pub data Reachable : Shared → Type 0 where
  start : Reachable initial
  enter : (to : State) (reason : Bytes) (s : Shared) → Reachable s → Reachable (entered to reason s)
  leave :
      (m : Machine) (before : List Change) (c : Change) (after : List Change) (moves : List Change)
      → Reachable (record { machine = m; pending = before ++ (c ∷ after); moves = moves })
      → Reachable (left m before c after moves)

abbrev pub count : (Change → Bool) → List Change → ℕ
count p [] = 0
count p (c ∷ cs) = (if p c then 1 else 0) + count p cs

count-append :
    (p : Change → Bool) (xs ys : List Change) → count p (xs ++ ys) ≡ count p xs + count p ys
count-append p [] ys = omega arith
count-append p (x ∷ xs) ys = ground (arith, count-append p xs ys)

-- The moves lead from the start to the state `s`, each to another state and none out of closed.
abbrev pub IsPath : List Change → State → Type 0
IsPath [] s = s ≡ uninitialized
IsPath (c ∷ cs) s = (c.to ≡ s) × (c.from ≢ c.to) × (c.from ≢ closed) × IsPath cs c.from

lock-IsPath :
    (to : State) (reason : Bytes) (m : Machine) (moves : List Change)
    → IsPath moves m.cur
    → IsPath (added (lock to reason m).1 moves) (lock to reason m).0.cur
unfolding lock state_eq
lock-IsPath to reason m moves h = ground arith

announce-cur : (c : Change) (m : Machine) → (announce c m).cur ≡ m.cur
unfolding announce signal_ready serving
announce-cur c m = ground arith

-- Whatever the interleaving, the moves form a path from the start to the state of the machine, which
-- never stays in place and never leaves closed.
pub moves-IsPath : (s : Shared) → Reachable s → IsPath s.moves s.machine.cur
unfolding new_state_machine
moves-IsPath _ start = refl
moves-IsPath _ (enter to reason s r) = lock-IsPath to reason s.machine s.moves (moves-IsPath s r)
moves-IsPath _ (leave m before c after moves r) =
    subst (IsPath moves) (sym (announce-cur c m)) (moves-IsPath _ r)

abbrev pub leads : Change → Bool
leads c = serving c.to

-- The books of a machine: moves are the reports and the pending ones; the channel was closed once if
-- the function ran, and it ran exactly if a report was of a move to a state that serves.
pub record IsBooked (s : Shared) : Type 0 where
  pub told : (p : Change → Bool) → count p s.machine.reported + count p s.pending ≡ count p s.moves
  pub closed_as : s.machine.closes ≡ (if s.machine.ready_once then 1 else 0)
  pub ran_as : s.machine.ready_once ≡ false → count leads s.machine.reported ≡ 0
  pub ran_for : s.machine.ready_once ≡ true → 1 ≤ count leads s.machine.reported

IsBooked-entered :
    (to : State) (reason : Bytes) (s : Shared) → IsBooked s → IsBooked (entered to reason s)
unfolding lock state_eq
IsBooked-entered to reason s h = record {
  told = λ p. ground (arith, h.told p);
  closed_as = ground (arith, h.closed_as);
  ran_as = λ e. ground (arith, h.ran_as);
  ran_for = λ e. ground (arith, h.ran_for);
}

IsBooked-left :
    (m : Machine) (before : List Change) (c : Change) (after : List Change) (moves : List Change)
    → IsBooked (record { machine = m; pending = before ++ (c ∷ after); moves = moves })
    → IsBooked (left m before c after moves)
unfolding announce signal_ready
IsBooked-left m before c after moves h = record {
  told =
      λ p. ground (arith, h.told p, count-append p before (c ∷ after), count-append p before after);
  closed_as = ground (arith, h.closed_as);
  ran_as = λ e. ground (arith, h.ran_as);
  ran_for = λ e. ground (arith, h.ran_for);
}

-- The books are kept under every interleaving.
pub Reachable-IsBooked : (s : Shared) → Reachable s → IsBooked s
unfolding new_state_machine
Reachable-IsBooked _ start = record {
  told = λ p. refl;
  closed_as = refl;
  ran_as = λ e. refl;
  ran_for = λ e. absurd (cc);
}
Reachable-IsBooked _ (enter to reason s r) = IsBooked-entered to reason s (Reachable-IsBooked s r)
Reachable-IsBooked _ (leave m before c after moves r) =
    IsBooked-left m before c after moves (Reachable-IsBooked _ r)

-- Under every interleaving, once no call is under way, every move was reported exactly once; and the
-- ready channel was closed once if some move led to a state that serves, and else never.
pub reported_at_rest :
    (s : Shared)
    → Reachable s
    → s.pending ≡ []
    → ((p : Change → Bool) → count p s.machine.reported ≡ count p s.moves)
      × (s.machine.closes ≡ (if leb 1 (count leads s.moves) then 1 else 0))
reported_at_rest s r h =
    let books = Reachable-IsBooked s r in
    let told : (p : Change → Bool) → count p s.machine.reported ≡ count p s.moves =
      λ p. ground (arith, books.told p) in
    (told, ground (arith, told leads, books.closed_as, books.ran_as, books.ran_for))
