-- ===== src/SpanQueue/Order.antt =====
-- src/span_queue.cpp: what becomes of an accepted trace, and how the queue stops, over every
-- interleaving of its critical sections.
use forge_ops_tracker_cpp.Prelude.{
  ℕ, zero, suc, ◌≤◌, max, Bool, true, false, ◌≡◌, refl, sym, ap, subst, ◌∙◌, List, [], ◌∷◌, ◌++◌,
  map, append-nil, append_assoc, Option, none, some, arith, length, length-append, After, run,
  run_induction,
}
use forge_ops_tracker_cpp.SpanQueue.{
  Members, Worker, absent, waiting, sending, returned, System, Event, push, ensure, wakes, sent,
  stop, drop_all, init, enqueue, ensure_worker_started, shutdown, discard, wake, pushed, ensured,
  woken, worker_step, delivered, step,
}

module _ {A : Type 0} where
  -- The traces that left, and those of them that the worker took.
  pub gone : List (A × Bool) → List A
  gone [] = []
  gone ((p, taken) ∷ rest) = p ∷ gone rest

  pub taken_of : List (A × Bool) → List A
  taken_of [] = []
  taken_of ((p, true) ∷ rest) = p ∷ taken_of rest
  taken_of ((p, false) ∷ rest) = taken_of rest

  abbrev pub holds : Worker A → List A
  holds (sending p) = p ∷ []
  holds _ = []

  gone-append : (a b : List (A × Bool)) → gone (a ++ b) ≡ gone a ++ gone b
  unfolding gone
  gone-append [] b = refl
  gone-append ((p, taken) ∷ a) b = ap (◌∷◌ p) (gone-append a b)

  taken_of-append : (a b : List (A × Bool)) → taken_of (a ++ b) ≡ taken_of a ++ taken_of b
  unfolding taken_of
  taken_of-append [] b = refl
  taken_of-append ((p, true) ∷ a) b = ap (◌∷◌ p) (taken_of-append a b)
  taken_of-append ((p, false) ∷ a) b = taken_of-append a b

  gone-map : (q : List A) → gone (map (λ p. (p, false)) q) ≡ q
  unfolding gone
  gone-map [] = refl
  gone-map (p ∷ q) = ap (◌∷◌ p) (gone-map q)

  taken_of-map : (q : List A) → taken_of (map (λ p. (p, false)) q) ≡ []
  unfolding taken_of
  taken_of-map [] = refl
  taken_of-map (p ∷ q) = taken_of-map q

  gone-one : (a : List (A × Bool)) (p : A) → gone (a ++ (p, true) ∷ []) ≡ gone a ++ p ∷ []
  gone-one a p = gone-append a ((p, true) ∷ []) ∙ unfold gone in refl

  taken_of-one :
      (a : List (A × Bool)) (p : A) → taken_of (a ++ (p, true) ∷ []) ≡ taken_of a ++ p ∷ []
  taken_of-one a p = taken_of-append a ((p, true) ∷ []) ∙ unfold taken_of in refl

module _ {A : Type 0} (queue_size : ℕ) where
  record Inv (s : System A) : Type 0 where
    fifo : s.accepted ≡ gone s.left ++ s.members.queue
    sends : taken_of s.left ≡ s.attempted ++ holds s.worker
    bounded : length s.members.queue ≤ max 1 queue_size
    lazy : s.members.worker_started ≡ false → s.worker ≡ absent

  push-Inv : (p : A) (s : System A) → Inv s → After Inv (step queue_size (push p) s)
  unfolding step enqueue pushed
  push-Inv p s v = ground (
    arith,
    append_assoc (gone s.left) s.members.queue (p ∷ []),
    length-append s.members.queue (p ∷ []),
  )

  ensured-Inv :
      (r : Option (Members A)) (s : System A)
      → r ≡ ensure_worker_started s.members
      → Inv s
      → Inv (ensured r s)
  unfolding ensured ensure_worker_started
  ensured-Inv none s e v = ground arith
  ensured-Inv (some m) s e v = ground arith

  woken-Inv :
      (q : List A) (s : System A)
      → s.members.queue ≡ q
      → s.worker ≡ waiting
      → Inv s
      → After Inv (woken (wake q s.members) s)
  unfolding woken wake
  woken-Inv [] s e w v = ground arith
  woken-Inv (p ∷ rest) s e w v = ground (
    arith,
    gone-one s.left p,
    taken_of-one s.left p,
    append-nil s.attempted,
    append_assoc (gone s.left) (p ∷ []) rest,
  )

  worker_step-Inv :
      (w : Worker A) (s : System A) → s.worker ≡ w → Inv s → After Inv (worker_step w s)
  unfolding worker_step
  worker_step-Inv waiting s e v = woken-Inv s.members.queue s refl e v
  worker_step-Inv _ s e v = tt

  delivered-Inv : (w : Worker A) (s : System A) → s.worker ≡ w → Inv s → After Inv (delivered w s)
  unfolding delivered
  delivered-Inv (sending p) s e v = ground (arith, append-nil (s.attempted ++ p ∷ []))
  delivered-Inv _ s e v = tt

  drop_all-Inv : (s : System A) → Inv s → After Inv (step queue_size drop_all s)
  unfolding step discard
  drop_all-Inv s v = ground (
    arith,
    gone-append s.left (map (λ p. (p, false)) s.members.queue),
    taken_of-append s.left (map (λ p. (p, false)) s.members.queue),
    gone-map s.members.queue,
    taken_of-map s.members.queue,
    append-nil (gone s.left ++ s.members.queue),
    append-nil (taken_of s.left),
  )

  step-Inv : (e : Event A) (s : System A) → Inv s → After Inv (step queue_size e s)
  step-Inv (push p) s v = push-Inv p s v
  step-Inv ensure s v =
      unfold step in ground (arith, ensured-Inv (ensure_worker_started s.members) s refl v)
  step-Inv wakes s v = unfold step in worker_step-Inv s.worker s refl v
  step-Inv sent s v = unfold step in delivered-Inv s.worker s refl v
  step-Inv stop s v = unfold step shutdown in ground arith
  step-Inv drop_all s v = drop_all-Inv s v

  Inv-init : Inv init
  Inv-init =
      unfold gone taken_of in
      record { fifo = refl; sends = refl; bounded = omega arith; lazy = λ _. refl }

-- In every reachable state the accepted traces are, in order, those that left the queue and then
-- those in it; the worker has delivered those it took, in order, but for the one in its hands; and
-- the queue keeps its bound.
pub accepted_once :
    {A : Type 0} (queue_size : ℕ) (es : List (Event A)) {s : System A}
    → run (step queue_size) es init ≡ some s
    → (s.accepted ≡ gone s.left ++ s.members.queue)
      × (taken_of s.left ≡ s.attempted ++ holds s.worker)
      × (length s.members.queue ≤ max 1 queue_size)
accepted_once queue_size es h =
    let v =
      run_induction (step queue_size) (Inv queue_size) (step-Inv queue_size) es init
        (Inv-init queue_size) h in
    (v.fifo, v.sends, v.bounded)

module _ {A : Type 0} (queue_size : ℕ) (before : List A) where
  -- Stopped before a thread was started.
  record Quiet (s : System A) : Type 0 where
    stopped : s.members.stopping ≡ true
    unstarted : s.worker ≡ absent
    silent : s.attempted ≡ before

  pushed-Quiet :
      (p : A) (s : System A) → Quiet s → Quiet (pushed p (enqueue queue_size p s.members) s)
  unfolding pushed enqueue
  pushed-Quiet p s v = ground arith

  step-Quiet : (e : Event A) (s : System A) → Quiet s → After Quiet (step queue_size e s)
  step-Quiet (push p) s v = unfold step in pushed-Quiet p s v
  step-Quiet ensure s v = unfold step ensured ensure_worker_started in ground arith
  step-Quiet wakes s v = unfold step worker_step in ground arith
  step-Quiet sent s v = unfold step delivered in ground arith
  step-Quiet stop s v = unfold step shutdown in ground arith
  step-Quiet drop_all s v = unfold step discard in ground arith

-- Once the queue is stopped with no thread started, by shutdown or by discard, no later push starts
-- one, and nothing is delivered any more.
pub no_late_thread :
    {A : Type 0} (queue_size : ℕ) (es : List (Event A)) (s : System A) {t : System A}
    → s.members.stopping ≡ true
    → s.worker ≡ absent
    → run (step queue_size) es s ≡ some t
    → (t.worker ≡ absent) × (t.attempted ≡ s.attempted)
no_late_thread queue_size es s stopped unstarted h =
    let v =
      run_induction (step queue_size) (Quiet queue_size s.attempted)
        (step-Quiet queue_size s.attempted) es s
        (record { stopped = stopped; unstarted = unstarted; silent = refl }) h in
    (v.unstarted, v.silent)

-- The worker's events from when it alone is left, with `n` traces queued.
abbrev pub last_turns {ℓ} : {A : Type ℓ} → ℕ → List (Event A)
last_turns zero = wakes ∷ []
last_turns (suc n) = wakes ∷ sent ∷ last_turns n

abbrev exiting {ℓ} : {A : Type ℓ} → System A → List A → System A
exiting s q = record s {
  members = record s.members { queue = q; stopping = true };
  worker = waiting;
}

abbrev pub drained {ℓ} : {A : Type ℓ} → System A → List A → System A
drained s q = record s {
  members = record s.members { queue = [] };
  worker = returned;
  left = s.left ++ map (λ p. (p, true)) q;
  attempted = s.attempted ++ q;
}

exiting_drains :
    {A : Type 0} (n : ℕ) (q : List A) (s : System A)
    → run (step n) (last_turns (length q)) (exiting s q) ≡ some (drained (exiting s []) q)
unfolding run step worker_step wake woken delivered
exiting_drains n [] s = ground (arith, append-nil s.left, append-nil s.attempted)
exiting_drains n (p ∷ q) s = ground (
  arith,
  exiting_drains n q
      (record s { left = s.left ++ (p, true) ∷ []; attempted = s.attempted ++ p ∷ [] }),
  append_assoc s.left ((p, true) ∷ []) (map (λ p. (p, true)) q),
  append_assoc s.attempted (p ∷ []) q,
)

stopped_state :
    {A : Type 0} (s : System A)
    → s.worker ≡ waiting
    → s.members.stopping ≡ true
    → s ≡ exiting s s.members.queue
stopped_state s w st = ground arith

-- The worker of a stopped queue, once it has the lock, delivers every trace still queued, in order,
-- and returns, so that the join of shutdown ends; behind a discard that is none.
pub stopped_drains :
    {A : Type 0} (queue_size : ℕ) (s : System A)
    → s.worker ≡ waiting
    → s.members.stopping ≡ true
    → run (step queue_size) (last_turns (length s.members.queue)) s
      ≡ some (drained s s.members.queue)
stopped_drains {A} n s w st =
    subst
      (λ (u : System A).
        run (step n) (last_turns (length s.members.queue)) u ≡ some (drained u s.members.queue))
      (sym (stopped_state s w st)) (exiting_drains n s.members.queue s)
