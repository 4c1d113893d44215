-- ===== src/SpanQueue/Tests.antt =====
-- Runs of the span queue on small inputs, and the theorems at them.
use forge_ops_tracker_cpp.Prelude.{
  ℕ, ◌≤◌, max, true, false, ◌≡◌, refl, List, [], ◌∷◌, ◌++◌, some, length, run,
}
use forge_ops_tracker_cpp.SpanQueue.{
  absent, waiting, sending, System, Event, push, ensure, wakes, stop, drop_all, init, enqueue,
  ensure_worker_started, shutdown, discard, step,
}
use forge_ops_tracker_cpp.SpanQueue.Order.{
  gone, taken_of, holds, accepted_once, no_late_thread, last_turns, drained, stopped_drains,
}

-- The worker takes the first trace, and discard drops the second; a third push finds the queue full.
abbrev discards : List (Event ℕ)
discards = push 7 ∷ ensure ∷ wakes ∷ push 8 ∷ push 9 ∷ drop_all ∷ []

abbrev after_discards : System ℕ
after_discards = record (init {A = ℕ}) {
  members = record { queue = []; worker_started = true; stopping = true };
  worker = sending 7;
  owed = 1;
  accepted = 7 ∷ 8 ∷ [];
  left = (7, true) ∷ (8, false) ∷ [];
}

discards-run : run (step 1) discards init ≡ some after_discards
unfolding run step enqueue ensure_worker_started discard
discards-run = refl

accepted_once_example :
    (after_discards.accepted ≡ gone after_discards.left ++ after_discards.members.queue)
    × (taken_of after_discards.left ≡ after_discards.attempted ++ holds after_discards.worker)
    × (length after_discards.members.queue ≤ max 1 1)
accepted_once_example = accepted_once 1 discards discards-run

abbrev stopped : System ℕ
stopped = record (init {A = ℕ}) {
  members = record { queue = []; worker_started = false; stopping = true };
}

abbrev after_late : System ℕ
after_late = record stopped {
  members = record { queue = 4 ∷ []; worker_started = false; stopping = true };
  accepted = 4 ∷ [];
}

late-run : run (step 2) (push 4 ∷ ensure ∷ stop ∷ []) stopped ≡ some after_late
unfolding run step enqueue ensure_worker_started shutdown
late-run = refl

no_late_thread_example : (after_late.worker ≡ absent) × (after_late.attempted ≡ stopped.attempted)
no_late_thread_example = no_late_thread 2 (push 4 ∷ ensure ∷ stop ∷ []) stopped refl refl late-run

abbrev closing : System ℕ
closing = record (init {A = ℕ}) {
  members = record { queue = 1 ∷ 2 ∷ []; worker_started = true; stopping = true };
  worker = waiting;
  accepted = 1 ∷ 2 ∷ [];
}

stopped_drains_example : run (step 2) (last_turns 2) closing ≡ some (drained closing (1 ∷ 2 ∷ []))
stopped_drains_example = stopped_drains 2 closing refl refl
