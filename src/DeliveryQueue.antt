-- ===== src/DeliveryQueue.antt =====
-- src/delivery_queue.cpp: the members that the mutex guards, and one function for each critical
-- section. A payload is any value. `in_flight` is the atomic counter; clock readings are
-- nanoseconds, and `remaining` truncates to milliseconds.
pub mod System
use forge_ops_tracker_cpp.Prelude.{
  ℕ, ◌+◌, ◌-◌, ◌*◌, ◌/◌, max, Bool, true, false, ◌||◌, List, [], ◌∷◌, ◌++◌, Option, none, some,
  length, leb, ◌==◌, if◌then◌else◌,
}

pub record Members {ℓ} (A : Type ℓ) : Type ℓ where
  pub queue : List A
  pub in_flight : ℕ
  pub worker_started : Bool
  pub stopping : Bool

-- What one turn of the worker's loop does under the lock: sleep on, leave, or take a payload.
pub data Wake {ℓ} (A : Type ℓ) : Type ℓ where
  sleeps : Wake A
  leaves : Wake A
  takes : A → Members A → Wake A

-- What one turn of a drain does once it has the lock.
pub data Turn {ℓ} (A : Type ℓ) : Type ℓ where
  emptied : Turn A
  timed_out : Turn A
  takes : A → ℕ → Members A → Turn A

abbrev pub ns_per_ms : ℕ
ns_per_ms = 1000000

-- duration_cast<milliseconds>(deadline - now), 0 for a deadline that has passed.
pub remaining : ℕ → ℕ → ℕ
remaining deadline now = (deadline - now) / ns_per_ms

module _ {ℓ} {A : Type ℓ} where
  abbrev pub empty : Members A
  empty = record { queue = []; in_flight = 0; worker_started = false; stopping = false }

  -- The first critical section of push; `none` is a full queue.
  unfoldable pub enqueue : ℕ → A → Members A → Option (Members A)
  enqueue queue_size p m =
      if leb (max 1 queue_size) (length m.queue)
      then none
      else some (record m { queue = m.queue ++ p ∷ [] })

  -- `some` starts the thread.
  unfoldable pub ensure_worker_started : Members A → Option (Members A)
  ensure_worker_started m =
      if m.worker_started || m.stopping then none else some (record m { worker_started = true })

  pub shutdown : Members A → Members A
  shutdown m = record m { stopping = true }

  wake_on : List A → Members A → Wake A
  wake_on [] m = if m.stopping then leaves else sleeps
  wake_on (p ∷ rest) m = takes p (record m { queue = rest; in_flight = m.in_flight + 1 })

  -- The critical section of run.
  pub wake : Members A → Wake A
  unfolding wake_on
  wake m = wake_on m.queue m

  -- Behind client_.deliver, on both ways out of the try block.
  pub landed : Members A → Members A
  landed m = record m { in_flight = m.in_flight - 1 }

  turn_on : List A → ℕ → Members A → Turn A
  turn_on [] left m = emptied
  turn_on (p ∷ rest) left m =
      if left == 0 then timed_out else Turn.takes p left (record m { queue = rest })

  -- The critical section of drain.
  pub drain_turn : ℕ → ℕ → Members A → Turn A
  unfolding turn_on remaining
  drain_turn deadline now m = turn_on m.queue (remaining deadline now) m
