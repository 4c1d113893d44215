-- ===== src/SpanQueue.antt =====
-- src/span_queue.cpp: the bounded queue behind finished traces and recorded changes, as threads: any
-- number of callers of push, shutdown and discard, and the worker. An event is one critical section
-- or one finished delivery; a trace is any value.
pub mod Order
mod Tests
use forge_ops_tracker_cpp.Prelude.{
  ℕ, ◌+◌, ◌-◌, max, Bool, true, false, ◌||◌, List, [], ◌∷◌, ◌++◌, map, Option, none, some, length,
  leb, ◌==◌, if◌then◌else◌,
}

pub record Members {ℓ} (A : Type ℓ) : Type ℓ where
  pub queue : List A
  pub worker_started : Bool
  pub stopping : Bool

-- Where the worker stands in run.
pub data Worker {ℓ} (A : Type ℓ) : Type ℓ where
  absent waiting : Worker A
  sending : A → Worker A
  returned : Worker A

-- What one turn of the worker's loop does under the lock.
pub data Wake {ℓ} (A : Type ℓ) : Type ℓ where
  sleeps : Wake A
  leaves : Wake A
  takes : A → Members A → Wake A

-- The members, the worker, and a log: what push accepted, what left the queue, with whether the
-- worker took it or discard dropped it, and what was delivered, each in that order. `owed` counts
-- the pushes between their two critical sections.
pub record System {ℓ} (A : Type ℓ) : Type ℓ where
  pub members : Members A
  pub worker : Worker A
  pub owed : ℕ
  pub accepted : List A
  pub left : List (A × Bool)
  pub attempted : List A

pub data Event {ℓ} (A : Type ℓ) : Type ℓ where
  push : A → Event A
  ensure : Event A
  wakes : Event A
  sent : Event A
  stop : Event A
  drop_all : Event A

module _ {ℓ} {A : Type ℓ} where
  abbrev pub init : System A
  init = record {
    members = record { queue = []; worker_started = false; stopping = false };
    worker = absent;
    owed = 0;
    accepted = [];
    left = [];
    attempted = [];
  }

  -- The first critical section of push; `none` is a full queue.
  pub enqueue : ℕ → A → Members A → Option (Members A)
  enqueue queue_size p m =
      if leb (max 1 queue_size) (length m.queue)
      then none
      else some (record m { queue = m.queue ++ p ∷ [] })

  -- `some` starts the thread.
  pub ensure_worker_started : Members A → Option (Members A)
  ensure_worker_started m =
      if m.worker_started || m.stopping then none else some (record m { worker_started = true })

  pub shutdown : Members A → Members A
  shutdown m = record m { stopping = true }

  pub discard : Members A → Members A
  discard m = record m { queue = []; stopping = true }

  pub wake : List A → Members A → Wake A
  wake [] m = if m.stopping then leaves else sleeps
  wake (p ∷ rest) m = takes p (record m { queue = rest })

  pub pushed : A → Option (Members A) → System A → System A
  pushed p none s = s
  pushed p (some m) s = record s { members = m; owed = s.owed + 1; accepted = s.accepted ++ p ∷ [] }

  pub ensured : Option (Members A) → System A → System A
  ensured none s = record s { owed = s.owed - 1 }
  ensured (some m) s = record s { members = m; owed = s.owed - 1; worker = waiting }

  pub woken : Wake A → System A → Option (System A)
  woken sleeps s = none
  woken leaves s = some (record s { worker = returned })
  woken (takes p m) s =
      some (record s { members = m; worker = sending p; left = s.left ++ (p, true) ∷ [] })

  -- The critical section of run.
  pub worker_step : Worker A → System A → Option (System A)
  unfolding woken wake
  worker_step waiting s = woken (wake s.members.queue s.members) s
  worker_step _ s = none

  -- The delivery has ended, by an exception or not.
  pub delivered : Worker A → System A → Option (System A)
  delivered (sending p) s = some (record s { worker = waiting; attempted = s.attempted ++ p ∷ [] })
  delivered _ s = none

  -- `none` is an event that cannot happen in this state.
  pub step : ℕ → Event A → System A → Option (System A)
  unfolding pushed ensured worker_step delivered
  step queue_size (push p) s = some (pushed p (enqueue queue_size p s.members) s)
  step queue_size ensure s =
      if s.owed == 0 then none else some (ensured (ensure_worker_started s.members) s)
  step queue_size wakes s = worker_step s.worker s
  step queue_size sent s = delivered s.worker s
  step queue_size stop s = some (record s { members = shutdown s.members })
  step queue_size drop_all s = some (record s {
    members = discard s.members;
    left = s.left ++ map (λ p. (p, false)) s.members.queue;
  })
