-- ===== src/Reporter/Contained.antt =====
-- src/reporter.cpp: what report does to the queue, and what it lets out.
use forge_ops_tracker_cpp.Prelude.{
  ℕ, ◌≤◌, ◌<◌, max, ◌≡◌, refl, sym, ap, subst, ◌∙◌, Bool, true, false, ◌||◌, [], ◌∷◌, ◌++◌, length,
  Option, none, some, some-injective, Bytes, leb, length-append, ◌+◌, if◌then◌else◌, arith, ◌⊎◌,
  inl, inr, Bool-cases,
}
use forge_ops_tracker_cpp.Json.{JsonOps}
use forge_ops_tracker_cpp.Configuration.{is_enabled}
use forge_ops_tracker_cpp.Configuration.Values.{Configuration}
use forge_ops_tracker_cpp.DeliveryQueue.{Members, enqueue, ensure_worker_started}
use forge_ops_tracker_cpp.EventBuilder.{build}
use forge_ops_tracker_cpp.EventBuilder.Inputs.{Runtime, Thrown}
use forge_ops_tracker_cpp.Reporter.{
  Raised, standard, other, Faults, World, Outcome, k_full, k_failed, k_failed_otherwise, log,
  started, push, caught, push_built, attempt, report,
}

module _ {ℓ} {A : Type ℓ} where
  -- Nothing comes out, and at most one line is logged.
  record Quiet (w : World A) (r : Outcome A) : Type 0 where
    pub nothing_out : r.1 ≡ none
    pub one_line : length r.0.logged ≤ length w.logged + 1

  -- What a push does: the payload is dropped by a full queue, or it is the last of the queue.
  abbrev Dropped : ℕ → World A → World A → Type ℓ
  Dropped size w r = (max 1 size ≤ length w.members.queue) × (r.members ≡ w.members)

  abbrev Added : ℕ → A → World A → World A → Type ℓ
  Added size payload w r =
      (length w.members.queue < max 1 size) × (r.members.queue ≡ w.members.queue ++ payload ∷ [])

  log-members :
      (on : Bool) (faults : Faults) (line : Bytes) (w : World A)
      → (log on faults line w).0.members ≡ w.members
  log-members true faults line w = refl
  log-members false faults line w = refl

  log-Quiet :
      (on : Bool) (faults : Faults) (line : Bytes) (w : World A)
      → ((l : Bytes) → faults.logger_raises l ≡ none)
      → Quiet w (log on faults line w)
  log-Quiet true faults line w silent = record {
    nothing_out = silent line;
    one_line = omega (arith, length-append w.logged (line ∷ []));
  }
  log-Quiet false faults line w silent = record { nothing_out = refl; one_line = omega arith }

  caught-members :
      (cfg : Configuration) (faults : Faults) (o : Outcome A)
      → (caught cfg faults o).0.members ≡ o.0.members
  caught-members cfg faults (w, none) = refl
  caught-members cfg faults (w, some (standard text)) = log-members cfg.has_logger faults _ w
  caught-members cfg faults (w, some other) = log-members cfg.has_logger faults _ w

  -- What is caught is logged.
  caught-Quiet :
      (cfg : Configuration) (faults : Faults) (w : World A) (o : Outcome A)
      → ((l : Bytes) → faults.logger_raises l ≡ none)
      → (Quiet w o) ⊎ (o.0.logged ≡ w.logged)
      → Quiet w (caught cfg faults o)
  caught-Quiet cfg faults w (v, none) silent (inl q) = q
  caught-Quiet cfg faults w (v, none) silent (inr same) = record {
    nothing_out = refl;
    one_line = rw same (omega arith);
  }
  caught-Quiet cfg faults w (v, some (standard text)) silent (inr same) =
      let q = log-Quiet cfg.has_logger faults (k_failed ++ text) v silent in
      record { nothing_out = q.nothing_out; one_line = rw⁻¹ same q.one_line }
  caught-Quiet cfg faults w (v, some other) silent (inr same) =
      let q = log-Quiet cfg.has_logger faults k_failed_otherwise v silent in
      record { nothing_out = q.nothing_out; one_line = rw⁻¹ same q.one_line }
  caught-Quiet cfg faults w (v, some e) silent (inl q) = absurd (some_apart e q.nothing_out)
    where
      some_apart : (e : Raised) → some e ≡ none → ⊥
      some_apart e h = cc

  -- A push either finds the queue full, or puts the payload at its end.
  record Pushes (size : ℕ) (payload : A) (w : World A) (o : Outcome A) : Type ℓ where
    pub placed : Dropped size w o.0 ⊎ Added size payload w o.0
    pub logs : (Quiet w o) ⊎ (o.0.logged ≡ w.logged)

  started-Pushes :
      (size : ℕ) (payload : A) (faults : Faults) (m : Option (Members A)) (w v : World A)
      → length w.members.queue < max 1 size
      → v.members.queue ≡ w.members.queue ++ payload ∷ []
      → v.logged ≡ w.logged
      → ((n : Members A) → m ≡ some n → n.queue ≡ v.members.queue)
      → Pushes size payload w (started faults m v)
  started-Pushes size payload faults none w v room put same kept = record {
    placed = inr (room, put);
    logs = inr same;
  }
  started-Pushes size payload faults (some m) w v room put same kept = record {
    placed = inr (room, kept m refl ∙ put);
    logs = inr same;
  }

  ensure-queue : (m n : Members A) → ensure_worker_started m ≡ some n → n.queue ≡ m.queue
  unfolding ensure_worker_started
  ensure-queue m n = elim (Bool-cases (m.worker_started || m.stopping)) [
    | inl busy ↦ rw busy (λ e. absurd (ground arith))
    | inr off ↦ rw off (λ e. sym (ap (λ (k : Members A). k.queue) (some-injective _ _ e)))
  ]

  push-Pushes :
      (cfg : Configuration) (faults : Faults) (payload : A) (w : World A)
      → ((l : Bytes) → faults.logger_raises l ≡ none)
      → Pushes cfg.queue_size payload w (push cfg faults payload w)
  unfolding push enqueue
  push-Pushes cfg faults payload w silent =
      elim (Bool-cases (leb (max 1 cfg.queue_size) (length w.members.queue))) [
        | inl full ↦ rw full (record {
          placed = inl (ground arith, log-members cfg.has_logger faults k_full w);
          logs = inl (log-Quiet cfg.has_logger faults k_full w silent);
        })
        | inr room ↦
            let m = record w.members { queue = w.members.queue ++ payload ∷ [] } in
            rw room (
              started-Pushes cfg.queue_size payload faults (ensure_worker_started m) w
                (record w { members = m }) (ground arith) refl refl (ensure-queue m))
      ]

module _ (json : JsonOps) where
  abbrev enabled : Configuration → Faults → Bool
  enabled cfg faults = is_enabled faults.read_hex cfg.dsn cfg.environment cfg.enabled_environments

  -- What report does to the queue, by the answer of build.
  abbrev pub Reported :
      Configuration → Bool → Option json.Json → World json.Json → World json.Json → Type 0
  Reported cfg on built w r =
      ((on ≡ false) × (r.members ≡ w.members))
      ⊎ ((on ≡ true) × (built ≡ none) × (r.members ≡ w.members))
      ⊎ ((on ≡ true)
          × ((payload : json.Json) × (built ≡ some payload)
              × (Dropped cfg.queue_size w r ⊎ Added cfg.queue_size payload w r)))

  attempt-Reported :
      (cfg : Configuration) (faults : Faults) (on : Bool) (built : Option json.Json)
      (w : World json.Json)
      → ((l : Bytes) → faults.logger_raises l ≡ none)
      → let o : Outcome json.Json = if on then push_built cfg faults built w else (w, none) in
        Reported cfg on built w o.0 × ((Quiet w o) ⊎ (o.0.logged ≡ w.logged))
  attempt-Reported cfg faults false built w silent = (inl (refl, refl), inr refl)
  attempt-Reported cfg faults true none w silent = (inr (inl (refl, refl, refl)), inr refl)
  attempt-Reported cfg faults true (some payload) w silent =
      let p = push-Pushes cfg faults payload w silent in
      (inr (inr (refl, (payload, refl, p.placed))), p.logs)

  subst-Reported :
      (cfg : Configuration) (on : Bool) (built : Option json.Json) (w v r : World json.Json)
      → r.members ≡ v.members
      → Reported cfg on built w v
      → Reported cfg on built w r
  subst-Reported cfg on built w v r same h =
      subst (λ m. Reported cfg on built w (record v { members = m })) (sym same) h

  -- With a logger that throws nothing, report lets nothing out, whatever is thrown in the builder or by
  -- the start of a thread, and logs one line at most. The queue stays as it is if sending is disabled,
  -- if build throws, or if the queue is full; else what build gave is put at its end.
  pub report_contained :
      (rt : Runtime) (cfg : Configuration) (faults : Faults) (thrown : Thrown)
      (context user breadcrumbs : json.Json) (sql : Bytes) (trace_id : Option Bytes)
      (w : World json.Json)
      → ((l : Bytes) → faults.logger_raises l ≡ none)
      → let o = report json rt cfg faults thrown context user breadcrumbs sql trace_id w in
        (o.1 ≡ none)
        × (length o.0.logged ≤ length w.logged + 1)
        × Reported cfg
            (enabled cfg faults)
            (build json rt cfg thrown context user breadcrumbs sql trace_id)
            w
            o.0
  unfolding report attempt
  report_contained rt cfg faults thrown context user breadcrumbs sql trace_id w silent =
      let o = attempt json rt cfg faults thrown context user breadcrumbs sql trace_id w in
      let (reported, logs) =
        attempt-Reported cfg faults (enabled cfg faults)
          (build json rt cfg thrown context user breadcrumbs sql trace_id) w silent in
      let q = caught-Quiet cfg faults w o silent logs in
      (
        q.nothing_out,
        q.one_line,
        subst-Reported cfg (enabled cfg faults) _ w o.0 (caught cfg faults o).0
            (caught-members cfg faults o) reported,
      )
