-- ===== src/DeliveryQueue/System/Invariant.antt =====
-- What every event of the delivery queue keeps, for one fixed test on payloads.
use forge_ops_tracker_cpp.Prelude.{
  ℕ, ◌+◌, ◌≤◌, max, Bool, true, false, ◌≡◌, refl, List, [], ◌∷◌, ◌++◌, append-nil, append_assoc,
  Option, none, some, arith, length, length-append, count, count-append_one, count-nil, After,
}
use forge_ops_tracker_cpp.DeliveryQueue.{
  Members, enqueue, ensure_worker_started, shutdown, wake, wake_on, landed, remaining, turn_on,
  drain_turn,
}
use forge_ops_tracker_cpp.DeliveryQueue.System.{
  Worker, absent, waiting, sending, Drainer, locking, delivering, settling, finished, Settings,
  System, Event, push, ensure, stop, wakes, sent, drain_lock, drain_sent, drain_settle, step,
  ensured, woken, worker_step, delivered, turned, drain_locking, drain_delivered,
}

module _ {A : Type 0} where
  -- The payload that the worker, or the drain, has taken and not finished delivering.
  abbrev pub worker_holds : Worker A → List A
  worker_holds (sending p) = p ∷ []
  worker_holds _ = []

  abbrev pub drainer_holds : Drainer A → List A
  drainer_holds (delivering p left) = p ∷ []
  drainer_holds _ = []

module _ {A : Type 0} (cfg : Settings) (test : A → Bool) where
  abbrev Answered : Drainer A → System A → Type 0
  Answered (settling on_worker) s = on_worker ≡ true → cfg.drains_on_worker ≡ true
  Answered (finished true) s =
      cfg.drains_on_worker ≡ false → count test s.seen ≤ count test s.attempted
  Answered _ s = Unit

  pub record Inv (s : System A) : Type 0 where
    pub fifo : s.accepted ≡ s.taken ++ s.members.queue
    pub bounded : length s.members.queue ≤ max 1 cfg.queue_size
    pub counted : s.members.in_flight ≡ length (worker_holds s.worker)
    pub conserved :
        count test s.taken
        ≡ count test s.attempted
          + count test (worker_holds s.worker)
          + count test (drainer_holds s.drainer)
    pub lazy : s.members.worker_started ≡ false → s.worker ≡ absent
    pub settled : count test s.seen ≤ count test s.taken
    pub answered : Answered s.drainer s

  push-Inv : (p : A) (s : System A) → Inv s → After Inv (step cfg (push p) s)
  unfolding step enqueue
  push-Inv p s v =
      ground (
        arith,
        append_assoc s.taken s.members.queue (p ∷ []),
        length-append s.members.queue (p ∷ []),
      )

  -- The worker has not been started as long as `worker_started` is false.
  ensured-Inv :
      (r : Option (Members A)) (s : System A)
      → r ≡ ensure_worker_started s.members
      → Inv s
      → Inv (ensured r s)
  unfolding ensured ensure_worker_started
  ensured-Inv none s e v = ground arith
  ensured-Inv (some m) s e v = ground arith

  ensure-Inv : (s : System A) → Inv s → After Inv (step cfg ensure s)
  unfolding step
  ensure-Inv s v = ground (arith, ensured-Inv (ensure_worker_started s.members) s refl v)

  stop-Inv : (s : System A) → Inv s → After Inv (step cfg stop s)
  unfolding step shutdown
  stop-Inv s v = ground arith

  woken-Inv :
      (q : List A) (s : System A)
      → s.members.queue ≡ q
      → s.worker ≡ waiting
      → Inv s
      → After Inv (woken (wake_on q s.members) s)
  unfolding woken wake_on
  woken-Inv [] s e w v = ground arith
  woken-Inv (p ∷ rest) s e w v =
      ground
        (arith, count-append_one test s.taken p, append_assoc s.taken (p ∷ []) rest, count-nil test)

  worker_step-Inv :
      (w : Worker A) (s : System A) → s.worker ≡ w → Inv s → After Inv (worker_step w s)
  unfolding worker_step wake
  worker_step-Inv waiting s e v = woken-Inv s.members.queue s refl e v
  worker_step-Inv _ s e v = tt

  delivered-Inv : (w : Worker A) (s : System A) → s.worker ≡ w → Inv s → After Inv (delivered w s)
  unfolding delivered landed
  delivered-Inv (sending p) s e v =
      ground (arith, count-nil test, count-append_one test s.attempted p)
  delivered-Inv _ s e v = tt

  turned-Inv :
      (q : List A) (left : ℕ) (s : System A)
      → s.members.queue ≡ q
      → s.drainer ≡ locking
      → Inv s
      → Inv (turned cfg (turn_on q left s.members) s)
  unfolding turned turn_on
  turned-Inv [] left s e d v = ground (arith, append-nil s.taken)
  turned-Inv (p ∷ rest) left s e d v =
      ground
        (arith, count-append_one test s.taken p, append_assoc s.taken (p ∷ []) rest, count-nil test)

  drain_locking-Inv :
      (d : Drainer A) (now : ℕ) (locked : Bool) (s : System A)
      → s.drainer ≡ d
      → Inv s
      → After Inv (drain_locking cfg d now locked s)
  unfolding drain_locking drain_turn
  drain_locking-Inv locking now locked s e v =
      ground
        (arith, turned-Inv s.members.queue (remaining cfg.deadline now) s refl e v, count-nil test)
  drain_locking-Inv _ now locked s e v = tt

  drain_delivered-Inv :
      (d : Drainer A) (threw : Bool) (s : System A)
      → s.drainer ≡ d
      → Inv s
      → After Inv (drain_delivered d threw s)
  unfolding drain_delivered
  drain_delivered-Inv (delivering p left) threw s e v =
      ground (arith, count-nil test, count-append_one test s.attempted p)
  drain_delivered-Inv _ threw s e v = tt

  drain_settle-Inv : (now : ℕ) (s : System A) → Inv s → After Inv (step cfg (drain_settle now) s)
  unfolding step
  drain_settle-Inv now s v = ground (arith, count-nil test)

  pub step-Inv : (e : Event A) (s : System A) → Inv s → After Inv (step cfg e s)
  step-Inv (push p) s v = push-Inv p s v
  step-Inv ensure s v = ensure-Inv s v
  step-Inv stop s v = stop-Inv s v
  step-Inv wakes s v = unfold step in worker_step-Inv s.worker s refl v
  step-Inv sent s v = unfold step in delivered-Inv s.worker s refl v
  step-Inv (drain_lock now locked) s v =
      unfold step in drain_locking-Inv s.drainer now locked s refl v
  step-Inv (drain_sent threw) s v = unfold step in drain_delivered-Inv s.drainer threw s refl v
  step-Inv (drain_settle now) s v = drain_settle-Inv now s v
