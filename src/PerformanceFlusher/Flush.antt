-- ===== src/PerformanceFlusher/Flush.antt =====
-- src/performance_flusher.cpp: a whole flush, from its snapshot to its answer, with calls of record
-- under way meanwhile.
use forge_ops_tracker_cpp.Prelude.{
  ℕ, ◌+◌, ◌≤◌, ◌<◌, ◌≡◌, ◌≢◌, ◌⊎◌, refl, sym, ap, subst, ◌∙◌, inl, inr, Bool, true, ◌||◌,
  Bool-cases, List, [], ◌∷◌, some, Bytes, arith, length, ltb, if◌then◌else◌,
}
use forge_ops_tracker_cpp.StdMap.{Map}
use forge_ops_tracker_cpp.Histogram.{DoubleOps}
use forge_ops_tracker_cpp.Client.{
  DeliveryOutcome, delivered, rejected, failed, delivery_outcome_for_status,
}
use forge_ops_tracker_cpp.PerformanceFlusher.{
  Bucket, Members, ulong_mod, tally, record_duration, ensure_worker_started, remove_each,
  remove_sent, begin_flush, settle, finish_flush, max_consecutive_failures,
}
use forge_ops_tracker_cpp.PerformanceFlusher.Tallies.{
  Call, record_all, calls, calls_in, hits, tally-record_all, hits-record_all,
}
use forge_ops_tracker_cpp.PerformanceFlusher.Window.{IsTallied, buckets_left}

module _ (fp : DoubleOps) where
  -- The members but for those of the worker's thread.
  record Recorded (late : List (Call fp)) (m n : Members fp) : Type 0 where
    pub buckets : n.buckets ≡ record_all fp late m.buckets
    pub period : n.period_started_at ≡ m.period_started_at
    pub failures : n.consecutive_failures ≡ m.consecutive_failures

module _ (fp : DoubleOps) (transaction_name : Bytes → Bytes) (strict : Bool) where
  -- Calls of record that are tracked, and the same calls under the names that the buckets have.
  pub recorded_during : List (Call fp) → Members fp → Members fp
  recorded_during [] m = m
  recorded_during ((name, d) ∷ rs) m =
      recorded_during rs (record_duration fp transaction_name true strict name d m)

  pub reduced : List (Call fp) → List (Call fp)
  reduced [] = []
  reduced ((name, d) ∷ rs) = ((if strict then transaction_name name else name), d) ∷ reduced rs

  length-reduced : (rs : List (Call fp)) → length (reduced rs) ≡ length rs
  unfolding reduced
  length-reduced [] = refl
  length-reduced (r ∷ rs) = omega (arith, length-reduced rs)

  record_duration-Recorded :
      (name : Bytes) (d : fp.Double) (m : Members fp)
      → Recorded fp
          (((if strict then transaction_name name else name), d) ∷ [])
          m
          (record_duration fp transaction_name true strict name d m)
  unfolding record_duration ensure_worker_started record_all
  record_duration-Recorded name d m = elim (Bool-cases (m.worker_started || m.stopping)) [
    | inl busy ↦ rw busy (record { buckets = refl; period = refl; failures = refl })
    | inr idle ↦ rw idle (record { buckets = refl; period = refl; failures = refl })
  ]

  recorded_during-Recorded :
      (rs : List (Call fp)) (m : Members fp) → Recorded fp (reduced rs) m (recorded_during rs m)
  unfolding recorded_during reduced record_all
  recorded_during-Recorded [] m = record { buckets = refl; period = refl; failures = refl }
  recorded_during-Recorded ((name, d) ∷ rs) m =
      let one = record_duration-Recorded name d m in
      let rest =
        recorded_during-Recorded rs (record_duration fp transaction_name true strict name d m) in
      record {
        buckets = rest.buckets ∙ ap (record_all fp (reduced rs)) one.buckets;
        period = rest.period ∙ one.period;
        failures = rest.failures ∙ one.failures;
      }

module _ (fp : DoubleOps) (name label : Bytes) where
  -- A flush that keeps what it sent for the next one: the counts are those from before it and those of
  -- the calls meanwhile, and the period goes on.
  pub record Kept (late : List (Call fp)) (period_end : ℕ) (was m : Members fp) : Type 0 where
    pub count : tally fp name m.buckets ≡ calls fp name late + tally fp name was.buckets
    pub histogram :
        hits fp name label m.buckets ≡ calls_in fp name label late + hits fp name label was.buckets
    pub period : m.period_started_at ≡ was.period_started_at
    pub failures : m.consecutive_failures ≡ was.consecutive_failures + 1

  -- A flush that takes away what it sent: the counts are those of the calls meanwhile, and a new
  -- period starts where the old one ended.
  pub record Taken (late : List (Call fp)) (period_end : ℕ) (was m : Members fp) : Type 0 where
    pub count : tally fp name m.buckets ≡ calls fp name late
    pub histogram : hits fp name label m.buckets ≡ calls_in fp name label late
    pub period : m.period_started_at ≡ period_end
    pub failures : m.consecutive_failures ≡ 0

  -- By the class of the answer and the failures in a row before it.
  abbrev pub Flushed : DeliveryOutcome → List (Call fp) → ℕ → Members fp → Members fp → Type 0
  Flushed outcome late period_end was m =
      ((outcome ≡ failed) × (was.consecutive_failures + 1 < 5) × Kept late period_end was m)
      ⊎ (((outcome ≢ failed) ⊎ (5 ≤ was.consecutive_failures + 1)) × Taken late period_end was m)

module _ (fp : DoubleOps) (name label : Bytes) (late : List (Call fp)) (period_end : ℕ)
    (was now : Members fp) (r : Recorded fp late was now) where
  keeps :
      tally fp name was.buckets + length late < ulong_mod
      → hits fp name label was.buckets + length late < ulong_mod
      → Kept fp name label late period_end was
          (record now { consecutive_failures = now.consecutive_failures + 1 })
  keeps few few' = record {
    count = ap (tally fp name) r.buckets ∙ tally-record_all fp name late was.buckets few;
    histogram =
        ap (hits fp name label) r.buckets ∙ hits-record_all fp name label late was.buckets few';
    period = r.period;
    failures = ap (λ n. n + 1) r.failures;
  }

  takes :
      IsTallied fp was.buckets
      → tally fp name was.buckets + length late < ulong_mod
      → hits fp name label was.buckets + length late < ulong_mod
      → Taken fp name label late period_end was
          (remove_sent fp was.buckets period_end (record now { consecutive_failures = 0 }))
  unfolding remove_sent
  takes v few few' =
      let (tallies, histograms) = buckets_left fp was.buckets late name label v few few' in
      record {
        count = ap (λ b. tally fp name (remove_each fp was.buckets b)) r.buckets ∙ tallies;
        histogram =
            ap (λ b. hits fp name label (remove_each fp was.buckets b)) r.buckets ∙ histograms;
        period = refl;
        failures = refl;
      }

  settle-Flushed :
      (outcome : DeliveryOutcome)
      → IsTallied fp was.buckets
      → tally fp name was.buckets + length late < ulong_mod
      → hits fp name label was.buckets + length late < ulong_mod
      → Flushed fp name label outcome late period_end was
          (settle fp outcome was.buckets period_end now)
  unfolding settle
  settle-Flushed delivered v few few' = inr (inl (λ e. cc (e)), takes v few few')
  settle-Flushed rejected v few few' = inr (inl (λ e. cc (e)), takes v few few')
  settle-Flushed failed v few few' =
      elim (Bool-cases (ltb (now.consecutive_failures + 1) max_consecutive_failures)) [
        | inl again ↦ rw again (inl (refl, ground (arith, r.failures, again), keeps few few'))
        | inr over ↦ rw over (inr (inr (ground (arith, r.failures, over)), takes v few few'))
      ]

begin_flush-some :
    (fp : DoubleOps) (m snapshot : Map (Bucket fp))
    → begin_flush fp m ≡ some snapshot
    → snapshot ≡ m
unfolding begin_flush
begin_flush-some fp [] snapshot e = cc (e)
begin_flush-some fp (b ∷ m) snapshot e = cc (e)

-- A flush of buckets, while calls of record are tracked between its snapshot and its answer, and no
-- count nears the range of an unsigned long. If the answer is a failure, and fewer than five came in a
-- row, nothing is lost: every count is the one from before the flush and the calls meanwhile. Otherwise
-- (delivered, rejected, or the fifth failure) what was sent is taken away and just the calls meanwhile
-- are left, and the period starts anew. A call counts under the name that strict privacy leaves of it.
pub flush_leaves_window :
    (fp : DoubleOps) (transaction_name : Bytes → Bytes) (strict : Bool) (m : Members fp)
    (snapshot : Map (Bucket fp)) (rs : List (Call fp)) (status period_end : ℕ) (name label : Bytes)
    → begin_flush fp m.buckets ≡ some snapshot
    → IsTallied fp m.buckets
    → tally fp name m.buckets + length rs < ulong_mod
    → hits fp name label m.buckets + length rs < ulong_mod
    → Flushed fp name label
        (delivery_outcome_for_status status)
        (reduced fp transaction_name strict rs)
        period_end
        m
        (finish_flush fp status snapshot period_end
          (recorded_during fp transaction_name strict rs m))
unfolding finish_flush
flush_leaves_window fp transaction_name strict m snapshot rs status period_end name label begun v
      few few' =
    let late = reduced fp transaction_name strict rs in
    let now = recorded_during fp transaction_name strict rs m in
    let fits = length-reduced fp transaction_name strict rs in
    let outcome = delivery_outcome_for_status status in
    subst
      (λ s. Flushed fp name label outcome late period_end m (settle fp outcome s period_end now))
      (sym (begin_flush-some fp m.buckets snapshot begun))
      (settle-Flushed fp name label late period_end m now
        (recorded_during-Recorded fp transaction_name strict rs m) outcome v (omega arith)
        (omega arith))
