-- ===== src/DeliveryQueue/System.antt =====
-- src/delivery_queue.cpp as threads: any number of callers of push and shutdown, the worker, and
-- one thread that drains. An event is one critical section or one finished delivery.
pub mod Invariant
pub mod Delivery
mod Tests
use forge_ops_tracker_cpp.Prelude.{
  ℕ, ◌+◌, ◌-◌, Bool, true, false, ◌&&◌, List, [], ◌∷◌, ◌++◌, Option, none, some, leb, ◌==◌,
  if◌then◌else◌,
}
use forge_ops_tracker_cpp.DeliveryQueue.{
  Members, Wake, Turn, empty, enqueue, ensure_worker_started, shutdown, wake, landed, drain_turn,
}

-- Where the worker stands in run.
pub data Worker {ℓ} (A : Type ℓ) : Type ℓ where
  absent waiting : Worker A
  sending : A → Worker A
  returned : Worker A

-- Where the draining thread stands in drain; the flag is on_worker.
pub data Drainer {ℓ} (A : Type ℓ) : Type ℓ where
  locking : Drainer A
  delivering : A → ℕ → Drainer A
  settling : Bool → Drainer A
  finished : Bool → Drainer A

pub record Settings : Type 0 where
  pub queue_size : ℕ
  pub deadline : ℕ
  -- the draining thread is the worker's own
  pub drains_on_worker : Bool

-- The members, the threads, and a log: what push accepted, what left the queue, and what was
-- handed to the client, each in that order. `owed` counts pushes between their two sections;
-- `seen` is what had been accepted when the drain found the queue empty.
pub record System {ℓ} (A : Type ℓ) : Type ℓ where
  pub members : Members A
  pub open members use *
  pub worker : Worker A
  pub drainer : Drainer A
  pub owed : ℕ
  pub accepted : List A
  pub taken : List A
  pub attempted : List A
  pub seen : List A

pub data Event {ℓ} (A : Type ℓ) : Type ℓ where
  push : A → Event A
  ensure : Event A
  stop : Event A
  wakes : Event A
  sent : Event A
  drain_lock : ℕ → Bool → Event A
  drain_sent : Bool → Event A
  drain_settle : ℕ → Event A

module _ {ℓ} {A : Type ℓ} where
  abbrev pub init : System A
  init = record {
    members = empty;
    worker = absent;
    drainer = locking;
    owed = 0;
    accepted = [];
    taken = [];
    attempted = [];
    seen = [];
  }

  pushed : A → Option (Members A) → System A → System A
  pushed p none s = s
  pushed p (some m) s = record s { members = m; owed = s.owed + 1; accepted = s.accepted ++ p ∷ [] }

  ensured : Option (Members A) → System A → System A
  ensured none s = record s { owed = s.owed - 1 }
  ensured (some m) s = record s { members = m; owed = s.owed - 1; worker = waiting }

  woken : Wake A → System A → Option (System A)
  woken Wake.sleeps s = none
  woken Wake.leaves s = some (record s { worker = returned })
  woken (Wake.takes p m) s =
      some (record s { members = m; worker = sending p; taken = s.taken ++ p ∷ [] })

  worker_step : Worker A → System A → Option (System A)
  unfolding woken
  worker_step waiting s = woken (wake s.members) s
  worker_step _ s = none

  delivered : Worker A → System A → Option (System A)
  delivered (sending p) s =
      some (record s {
        members = landed s.members;
        worker = waiting;
        attempted = s.attempted ++ p ∷ [];
      })
  delivered _ s = none

  turned : Settings → Turn A → System A → System A
  turned cfg Turn.emptied s = record s {
    drainer = settling (s.members.worker_started && cfg.drains_on_worker);
    seen = s.accepted;
  }
  turned cfg Turn.timed_out s = record s { drainer = finished false }
  turned cfg (Turn.takes p left m) s = record s {
    members = m;
    drainer = delivering p left;
    taken = s.taken ++ p ∷ [];
  }

  -- `locked` is what try_lock answered.
  drain_locking : Settings → Drainer A → ℕ → Bool → System A → Option (System A)
  unfolding turned
  drain_locking cfg locking now locked s = some (
      if locked
      then turned cfg (drain_turn cfg.deadline now s.members) s
      else if leb cfg.deadline now
      then record s { drainer = finished false }
      else s)
  drain_locking cfg _ now locked s = none

  -- A delivery that throws ends the drain by its catch clause.
  drain_delivered : Drainer A → Bool → System A → Option (System A)
  drain_delivered (delivering p left) threw s = some (record s {
    drainer = if threw then finished false else locking;
    attempted = s.attempted ++ p ∷ [];
  })
  drain_delivered _ threw s = none

  drain_settling : Settings → Drainer A → ℕ → System A → Option (System A)
  drain_settling cfg (settling on_worker) now s = some (
      if on_worker
      then record s { drainer = finished true }
      else if s.members.in_flight == 0
      then record s { drainer = finished true }
      else if leb cfg.deadline now
      then record s { drainer = finished false }
      else s)
  drain_settling cfg _ now s = none

  -- `none` is an event that cannot happen in this state.
  pub step : Settings → Event A → System A → Option (System A)
  unfolding pushed ensured worker_step delivered drain_locking drain_delivered drain_settling
  step cfg (push p) s = some (pushed p (enqueue cfg.queue_size p s.members) s)
  step cfg ensure s =
      if s.owed == 0 then none else some (ensured (ensure_worker_started s.members) s)
  step cfg stop s = some (record s { members = shutdown s.members })
  step cfg wakes s = worker_step s.worker s
  step cfg sent s = delivered s.worker s
  step cfg (drain_lock now locked) s = drain_locking cfg s.drainer now locked s
  step cfg (drain_sent threw) s = drain_delivered s.drainer threw s
  step cfg (drain_settle now) s = drain_settling cfg s.drainer now s
