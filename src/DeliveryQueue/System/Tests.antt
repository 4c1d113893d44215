-- ===== src/DeliveryQueue/System/Tests.antt =====
-- Runs of the delivery queue on small inputs, and the theorems at them.
use forge_ops_tracker_cpp.Prelude.{
  ℕ, ◌+◌, ◌≤◌, max, Bool, true, false, ◌≡◌, refl, List, [], ◌∷◌, ◌++◌, some, length, count, run,
}
use forge_ops_tracker_cpp.DeliveryQueue.{Members, enqueue, ensure_worker_started, wake, drain_turn}
use forge_ops_tracker_cpp.DeliveryQueue.System.{
  waiting, sending, finished, Settings, System, Event, push, ensure, wakes, sent, drain_lock,
  drain_settle, init, step,
}
use forge_ops_tracker_cpp.DeliveryQueue.System.Invariant.{worker_holds, drainer_holds}
use forge_ops_tracker_cpp.DeliveryQueue.System.Delivery.{
  drain_turn_bounds, TurnIs, fifo_bounded, conserved, shutdown_drains, last_turns, drained,
}

abbrev small : Settings
small = record { queue_size = 2; deadline = 5000000; drains_on_worker = false }

-- A third push is refused while two payloads are queued; the worker takes the first.
abbrev pushes : List (Event ℕ)
pushes = push 7 ∷ ensure ∷ push 8 ∷ push 9 ∷ wakes ∷ []

abbrev after_pushes : System ℕ
after_pushes = record (init {A = ℕ}) {
  members = record { queue = 8 ∷ []; in_flight = 1; worker_started = true; stopping = false };
  worker = sending 7;
  owed = 1;
  accepted = 7 ∷ 8 ∷ [];
  taken = 7 ∷ [];
}

pushes-run : run (step small) pushes init ≡ some after_pushes
unfolding run step enqueue ensure_worker_started wake
pushes-run = refl

fifo_bounded_example :
    (after_pushes.accepted ≡ after_pushes.taken ++ after_pushes.members.queue)
    × (length after_pushes.members.queue ≤ max 1 small.queue_size)
fifo_bounded_example = fifo_bounded small pushes pushes-run

conserved_example :
    (after_pushes.members.in_flight ≡ length (worker_holds after_pushes.worker))
    × ((test : ℕ → Bool)
        → count test after_pushes.taken
          ≡ count test after_pushes.attempted
            + count test (worker_holds after_pushes.worker)
            + count test (drainer_holds after_pushes.drainer))
conserved_example = conserved small pushes pushes-run

-- The drain sends the second payload itself and then waits for the worker's.
abbrev draining : List (Event ℕ)
draining =
    drain_lock 1000000 true
    ∷ Event.drain_sent false
    ∷ drain_lock 2000000 true
    ∷ drain_settle 2000000
    ∷ sent
    ∷ drain_settle 3000000
    ∷ []

abbrev after_drain : System ℕ
after_drain = record after_pushes {
  members = record { queue = []; in_flight = 0; worker_started = true; stopping = false };
  worker = waiting;
  drainer = finished true;
  taken = 7 ∷ 8 ∷ [];
  attempted = 8 ∷ 7 ∷ [];
  seen = 7 ∷ 8 ∷ [];
}

abbrev closing : System ℕ
closing = record (init {A = ℕ}) {
  members = record { queue = 1 ∷ 2 ∷ []; in_flight = 0; worker_started = true; stopping = true };
  worker = waiting;
  accepted = 1 ∷ 2 ∷ [];
}

shutdown_drains_example :
    run (step small) (last_turns 2) closing ≡ some (drained closing (1 ∷ 2 ∷ []))
shutdown_drains_example = shutdown_drains small closing refl refl

abbrev two_queued : Members ℕ
two_queued = record { queue = 4 ∷ 5 ∷ []; in_flight = 0; worker_started = false; stopping = false }

drain_turn_bounds_example :
    TurnIs 9000000 2000000 two_queued (drain_turn 9000000 2000000 two_queued)
drain_turn_bounds_example = drain_turn_bounds 9000000 2000000 two_queued
