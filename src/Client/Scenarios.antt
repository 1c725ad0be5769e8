-- ===== src/Client/Scenarios.antt =====
-- The writer, the updater and evaluation on concrete data.
use feature_flag_service.Common.{
  ◌≡◌, refl, ℕ, ℤ, pos, Bool, true, false, Bytes, codes, is_empty, List, [], ◌∷◌, Option, none,
  some, All, arith,
}
use feature_flag_service.Core.Value.{bool, type_bool, value_type}
use feature_flag_service.Core.Model.{is_fallback}
use feature_flag_service.Core.Context.{EvalContext}
use feature_flag_service.Core.Trace.{returns, panics}
use feature_flag_service.Core.Evaluator.{Evaluator, Snapshot}
use feature_flag_service.Core.Evaluator.Decision.{total}
use feature_flag_service.Client.State.{
  healthy, serving, state_eq, new_state_machine, set, lock, announce, signal_ready,
  on_live_confirmation, on_hydrated_from_disk,
}
use feature_flag_service.Client.Writer.{
  Writer, waiting, new_async_writer, put, wake, take_signal, swap, finish_write, Reachable, start,
  puts, wakes, takes_signal, swaps, writes,
}
use feature_flag_service.Client.Writer.Rest.{written_at_rest}
use feature_flag_service.Client.Writer.Rest.{last_written}
use feature_flag_service.Client.Writer.{settle, next_step, close_done, closes, stopped}
use feature_flag_service.Client.Writer.Settles.{first_of, IsSettled, settle-IsSettled}
use feature_flag_service.Client.Updater.{
  Entry, Update, new_client, apply_from, hydrate, apply_update, apply_offer, apply_loaded,
  instance_changed, mark_live, on_frame, fetch_once, needs_resync, client_generation,
}
use feature_flag_service.Client.Updater.Newest.{
  apply_all, Handler, AreInTurn, HoldsAtLeast, apply_all-newest,
}
use feature_flag_service.Client.Updater.Backed.{
  Event, frame, fetch, stream_lost, shutdown, react_all,
}
use feature_flag_service.Client.Evaluate.{Evaluates, Records, Request, detail}
use feature_flag_service.Client.Evaluate.Shipped.{shipped, detail-typed}

-- Two entries are enqueued before the goroutine runs; it writes the second only.
abbrev two_put : Writer ℕ
two_put = wake (put 2 (wake (put 1 new_async_writer)))

abbrev drained : Writer ℕ
drained = swap false (take_signal two_put)

abbrev settled : Writer ℕ
settled = finish_write 2 false drained

two_put-Reachable : Reachable two_put
unfolding new_async_writer
two_put-Reachable = wakes (put 2 (wake (put 1 new_async_writer))) (omega arith) (
    puts 2 (wake (put 1 new_async_writer))
      (wakes (put 1 new_async_writer) (omega arith) (puts 1 new_async_writer start)))

settled-Reachable : Reachable settled
unfolding new_async_writer
settled-Reachable =
    writes 2 false drained refl
      (swaps false (take_signal two_put) refl (takes_signal two_put refl refl two_put-Reachable))

-- The end is taken before the signal; the final drain writes what is pending.
abbrev end_first : ℕ → Bool
end_first n = false

closed_first : settle (first_of 7 end_first) (close_done two_put) ≡ record {
  pending = none;
  sig = true;
  done = true;
  waking = 0;
  phase = stopped;
  written = 2 ∷ [];
  newest = some 2;
}
unfolding settle next_step new_async_writer
closed_first = refl

settle-IsSettled_example : IsSettled (settle (first_of 7 end_first) (close_done two_put))
unfolding new_async_writer
settle-IsSettled_example =
    settle-IsSettled end_first (close_done two_put) (closes two_put two_put-Reachable) refl tt

settled_idle : (settled.phase ≡ waiting) × (settled.sig ≡ false) × (settled.waking ≡ 0)
unfolding new_async_writer
settled_idle = (refl, refl, refl)

written_at_rest_example : settled.newest ≡ last_written settled.written
written_at_rest_example =
    written_at_rest settled settled-Reachable settled_idle.0 settled_idle.1 settled_idle.2

-- Snapshots that are their generation.
abbrev told : ℤ → ℤ
told g = g

abbrev config : ℤ → Bytes → Update ℤ
config g i = record { snapshot = some g; generation = g; instance_id = i }

abbrev beat : ℤ → Bytes → Update ℤ
beat g i = record { snapshot = none; generation = g; instance_id = i }

abbrev fifth : Entry ℤ
fifth = record {
  snap = pos 5;
  gen = pos 5;
  instance_id = codes "a";
  applied_at = pos 10;
  from_disk = false;
}

-- Generation 4 comes after generation 5; its handler loads `seen`.
abbrev late : Option (Entry ℤ) → List (Handler ℤ)
late seen =
    record { loaded = none; now = pos 10; up = config (pos 5) (codes "a") }
    ∷ (record { loaded = seen; now = pos 11; up = config (pos 4) (codes "a") } ∷ [])

late-AreInTurn : AreInTurn told (late (some fifth)) new_client
unfolding new_client apply_from apply_loaded instance_changed
late-AreInTurn = (refl, (refl, tt))

-- The second handler loads before the first one stores, and puts the older generation in place.
overtaken : client_generation (apply_all told (late none) new_client) ≡ pos 4
unfolding new_client apply_from apply_loaded instance_changed client_generation
overtaken = refl

apply_all-newest_example :
    All
      (λ h.
        (snap : ℤ)
        → h.up.snapshot ≡ some snap
        → HoldsAtLeast told (told snap) (apply_all told (late (some fifth)) new_client))
      (late (some fifth))
unfolding new_client
apply_all-newest_example =
    apply_all-newest told (codes "a") (late (some fifth)) new_client tt (refl, (refl, tt))
      late-AreInTurn

abbrev outage : List (Event ℤ)
outage =
    frame (pos 10) (config (pos 5) (codes "a")) none
    ∷ stream_lost (codes "stream_dead")
    ∷ fetch (pos 20) (some (config (pos 5) (codes "a")))
    ∷ frame (pos 30) (beat (pos 6) (codes "a")) (some (config (pos 6) (codes "a")))
    ∷ shutdown
    ∷ []

-- A heartbeat of generation 0 makes a client healthy that holds nothing.
healthy_empty :
    let c = react_all told (frame (pos 10) (beat (pos 0) (codes "a")) none ∷ []) new_client in
    (c.sm.cur ≡ healthy) × (c.l1 ≡ none)
unfolding new_client new_state_machine on_frame needs_resync instance_changed client_generation
    mark_live on_live_confirmation set lock announce signal_ready serving state_eq
healthy_empty = (refl, refl)

-- After a start from a file of generation 9, the snapshot of a source that counts from 1 again is not
-- taken, and the client is healthy on the file's.
healthy_on_file :
    let c =
      react_all told
        (fetch (pos 10) (some (config (pos 3) (codes "b"))) ∷ [])
        (hydrate told (some (pos 9, pos 1)) new_client) in
    (c.sm.cur ≡ healthy) × (client_generation c ≡ pos 9)
unfolding new_client new_state_machine hydrate fetch_once apply_update apply_offer apply_loaded
    instance_changed client_generation mark_live on_live_confirmation on_hydrated_from_disk set lock
    announce signal_ready serving state_eq is_empty
healthy_on_file = (refl, refl)

abbrev crashing : Evaluates
crashing snap key ctx want d = panics

abbrev loud : Records
loud flag res = panics

abbrev visitor : EvalContext
visitor = record { user_id = codes "u-42"; tenant_id = []; attributes = [] }

abbrev snapshot : Snapshot
snapshot = record { generation = returns (pos 7); flag = λ key. panics }

abbrev entry : Entry Snapshot
entry = record {
  snap = snapshot;
  gen = pos 7;
  instance_id = codes "a";
  applied_at = pos 1;
  from_disk = false;
}

abbrev keyless : Evaluator
keyless = total (λ f ctx. none) (λ key. pos 0) none

detail-typed_example :
    let res =
      detail (shipped keyless) loud (some entry) (codes "checkout") (bool true) type_bool visitor in
    (value_type res.value ≡ type_bool) × (is_fallback res.reason ≡ true → res.value ≡ bool true)
unfolding value_type
detail-typed_example =
    detail-typed keyless loud (some entry) (codes "checkout") (bool true) type_bool visitor
      (λ e. cc) refl

abbrev request : Request
request = record { flag = codes "checkout"; default = bool true; eval_context = visitor }
