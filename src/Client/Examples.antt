-- ===== src/Client/Examples.antt =====
-- The client's lifecycle on concrete runs.
use feature_flag_service.Common.{
  ◌≡◌, refl, true, pos, codes, Bool, List, [], ◌∷◌, ◌++◌, if◌then◌else◌, leb,
}
use feature_flag_service.Client.State.{
  uninitialized, healthy, degraded_stale, closed, new_state_machine, Machine, Change, lock,
  announce, state_eq,
}
use feature_flag_service.Client.State.Runs.{
  Call, hydrated, stream_dead, live_confirmation, shutdown, act_all, next_all, act_all-next_all,
  act_all-closes,
}
use feature_flag_service.Client.State.Interleaved.{
  Shared, initial, entered, left, Reachable, start, enter, leave, count, leads, reported_at_rest,
}

-- A restart from disk, a confirmation, a stream that dies, and a confirmation of an older generation.
abbrev outage : List Call
outage =
    hydrated
    ∷ live_confirmation (pos 3) (pos 3)
    ∷ stream_dead (codes "silent")
    ∷ live_confirmation (pos 3) (pos 4)
    ∷ []

outage_is_stale : next_all uninitialized outage ≡ degraded_stale
outage_is_stale = refl

act_all-next_all_example :
    (act_all outage new_state_machine).cur ≡ next_all new_state_machine.cur outage
act_all-next_all_example = act_all-next_all outage new_state_machine

abbrev stopped : Machine
stopped = record { cur = closed; ready_once = true; closes = 1; reported = [] }

-- A client closed before it ever served: the channel stays open, and a waiter is not woken by it.
closed_unserved : (act_all (shutdown ∷ outage) new_state_machine).closes ≡ 0
closed_unserved = act_all-closes (shutdown ∷ outage)

abbrev to_stale : Change
to_stale = record { from = uninitialized; to = degraded_stale; reason = codes "l2_hydrated" }

abbrev to_healthy : Change
to_healthy = record { from = degraded_stale; to = healthy; reason = codes "recovered" }

-- Two calls in their locked sections, one after the other.
abbrev both : Shared
both = entered healthy (codes "recovered") (entered degraded_stale (codes "l2_hydrated") initial)

both-Reachable : Reachable both
both-Reachable =
    enter healthy (codes "recovered") (entered degraded_stale (codes "l2_hydrated") initial)
      (enter degraded_stale (codes "l2_hydrated") initial start)

-- They finish in the other order.
abbrev done : Shared
done = left (announce to_healthy both.machine) [] to_stale [] (to_healthy ∷ to_stale ∷ [])

both_pending : both ≡ record {
  machine = both.machine;
  pending = [] ++ (to_healthy ∷ (to_stale ∷ []));
  moves = to_healthy ∷ to_stale ∷ [];
}
unfolding lock new_state_machine state_eq
both_pending = refl

done-Reachable : Reachable done
unfolding lock new_state_machine state_eq
done-Reachable =
    leave (announce to_healthy both.machine) [] to_stale [] (to_healthy ∷ to_stale ∷ [])
      (leave both.machine [] to_healthy (to_stale ∷ []) (to_healthy ∷ to_stale ∷ []) both-Reachable)

reported_at_rest_example :
    ((p : Change → Bool) → count p done.machine.reported ≡ count p done.moves)
    × (done.machine.closes ≡ (if leb 1 (count leads done.moves) then 1 else 0))
reported_at_rest_example = reported_at_rest done done-Reachable refl
