-- ===== src/DeliveryQueue/System/Delivery.antt =====
-- src/delivery_queue.cpp: what push, the worker, drain and shutdown promise, over every
-- interleaving of their critical sections.
use forge_ops_tracker_cpp.Prelude.{
  ℕ, ◌+◌, ◌-◌, ◌*◌, ◌≤◌, ◌<◌, max, zero, suc, Bool, true, ◌≡◌, ◌≢◌, refl, sym, subst, List, [], ◌∷◌,
  ◌++◌, append-nil, append_assoc, some, arith, length, count, count-nil, run, run_induction,
}
use forge_ops_tracker_cpp.DeliveryQueue.{
  Members, Turn, wake, wake_on, landed, remaining, turn_on, drain_turn, ns_per_ms,
}
use forge_ops_tracker_cpp.DeliveryQueue.System.{
  waiting, returned, Drainer, settling, finished, Settings, System, Event, wakes, sent, init, step,
  woken, worker_step, delivered,
}
use forge_ops_tracker_cpp.DeliveryQueue.System.Invariant.{
  Inv, step-Inv, worker_holds, drainer_holds,
}

module _ {A : Type 0} (cfg : Settings) (test : A → Bool) where
  Inv-init : Inv cfg test (init {A = A})
  Inv-init = record {
    fifo = refl;
    bounded = omega arith;
    counted = refl;
    conserved = ground (arith, count-nil test);
    lazy = λ _. refl;
    settled = omega arith;
    answered = tt;
  }

  run-Inv : (es : List (Event A)) {s : System A} → run (step cfg) es init ≡ some s → Inv cfg test s
  run-Inv es h = run_induction (step cfg) (Inv cfg test) (step-Inv cfg test) es init Inv-init h

-- Payloads leave the queue in the order in which push accepted them, none is lost between, and the
-- queue never holds more than its bound.
pub fifo_bounded :
    {A : Type 0} (cfg : Settings) (es : List (Event A)) {s : System A}
    → run (step cfg) es init ≡ some s
    → (s.accepted ≡ s.taken ++ s.members.queue) × (length s.members.queue ≤ max 1 cfg.queue_size)
fifo_bounded cfg es h = let v = run-Inv cfg (λ _. true) es h in (v.fifo, v.bounded)

-- Each payload that has left the queue was handed to the client exactly once, but for the one in
-- the worker's hands and the one in the drain's, and `in_flight` counts the worker's.
pub conserved :
    {A : Type 0} (cfg : Settings) (es : List (Event A)) {s : System A}
    → run (step cfg) es init ≡ some s
    → (s.members.in_flight ≡ length (worker_holds s.worker))
      × ((test : A → Bool)
          → count test s.taken
            ≡ count test s.attempted
              + count test (worker_holds s.worker)
              + count test (drainer_holds s.drainer))
conserved cfg es h =
    ((run-Inv cfg (λ _. true) es h).counted, λ test. (run-Inv cfg test es h).conserved)

module _ {A : Type 0} (cfg : Settings) (test : A → Bool) (base : List A) where
  abbrev Answers : Drainer A → System A → Type 0
  Answers (settling on_worker) s = count test base ≤ count test s.seen
  Answers (finished true) s = count test base ≤ count test s.seen
  Answers _ s = Unit

  -- Once the drain has found the queue empty, what it saw includes `base`.
  record Covers (s : System A) : Type 0 where
    known : count test base ≤ count test s.accepted
    answers : Answers s.drainer s

abbrev pub TurnIs {ℓ} : {A : Type ℓ} → ℕ → ℕ → Members A → Turn A → Type ℓ
TurnIs deadline now m Turn.emptied = m.queue ≡ []
TurnIs deadline now m Turn.timed_out = (m.queue ≢ []) × (deadline < now + ns_per_ms)
TurnIs deadline now m (Turn.takes p left m') =
    (m.queue ≡ p ∷ m'.queue)
    × (m' ≡ record m { queue = m'.queue })
    × (1 ≤ left)
    × (now + left * ns_per_ms ≤ deadline)

turn_on-TurnIs :
    {A : Type 0} (q : List A) (deadline now : ℕ) (m : Members A)
    → m.queue ≡ q
    → TurnIs deadline now m (turn_on q (remaining deadline now) m)
unfolding turn_on remaining
turn_on-TurnIs [] deadline now m e = e
turn_on-TurnIs (p ∷ rest) deadline now m e = ground arith

-- One turn of a drain: it stops only at an empty queue or with less than a millisecond left, takes
-- the oldest payload otherwise, and gives its delivery no more time than the deadline leaves.
pub drain_turn_bounds :
    {A : Type 0} (deadline now : ℕ) (m : Members A)
    → TurnIs deadline now m (drain_turn deadline now m)
unfolding drain_turn
drain_turn_bounds deadline now m = turn_on-TurnIs m.queue deadline now m refl

add_one_sub : (n : ℕ) → n + 1 - 1 ≡ n
add_one_sub n = omega arith

-- The worker's events from the moment at which it alone is left, with `n` payloads queued.
abbrev pub last_turns {ℓ} : {A : Type ℓ} → ℕ → List (Event A)
last_turns zero = wakes ∷ []
last_turns (suc n) = wakes ∷ sent ∷ last_turns n

abbrev exiting {ℓ} : {A : Type ℓ} → System A → ℕ → List A → System A
exiting s n q = record s {
  members = record s.members { queue = q; stopping = true; in_flight = n };
  worker = waiting;
}

abbrev pub drained {ℓ} : {A : Type ℓ} → System A → List A → System A
drained s q = record s {
  members = record s.members { queue = [] };
  worker = returned;
  taken = s.taken ++ q;
  attempted = s.attempted ++ q;
}

exiting_drains :
    {A : Type 0} (cfg : Settings) (q : List A) (n : ℕ) (s : System A)
    → run (step cfg) (last_turns (length q)) (exiting s n q) ≡ some (drained (exiting s n []) q)
unfolding run step worker_step wake woken wake_on delivered landed
exiting_drains cfg [] n s = ground (arith, append-nil s.taken, append-nil s.attempted)
exiting_drains cfg (p ∷ q) n s = rw (add_one_sub n) (
    ground (
      arith,
      exiting_drains cfg q n
          (record s { taken = s.taken ++ p ∷ []; attempted = s.attempted ++ p ∷ [] }),
      append_assoc s.taken (p ∷ []) q,
      append_assoc s.attempted (p ∷ []) q,
    ))

shutdown_state :
    {A : Type 0} (s : System A)
    → s.worker ≡ waiting
    → s.members.stopping ≡ true
    → s ≡ exiting s s.members.in_flight s.members.queue
shutdown_state s w st = ground arith

-- After shutdown the worker, when it next gets the lock, hands over every payload still queued, in
-- order, and then returns, so the join ends: its events are those of `last_turns`, and no others.
pub shutdown_drains :
    {A : Type 0} (cfg : Settings) (s : System A)
    → s.worker ≡ waiting
    → s.members.stopping ≡ true
    → run (step cfg) (last_turns (length s.members.queue)) s ≡ some (drained s s.members.queue)
shutdown_drains {A} cfg s w st =
    subst
      (λ (u : System A).
        run (step cfg) (last_turns (length s.members.queue)) u ≡ some (drained u s.members.queue))
      (sym (shutdown_state s w st)) (exiting_drains cfg s.members.queue s.members.in_flight s)
