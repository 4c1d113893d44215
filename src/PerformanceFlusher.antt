-- ===== src/PerformanceFlusher.antt =====
-- src/performance_flusher.cpp and its header: the buckets by transaction name, their snapshot, and
-- what a flush takes away again. Clock readings are numbers, and durations the doubles of `fp`.
pub mod Tallies
pub mod Window
pub mod Flush
mod Tests
use forge_ops_tracker_cpp.Prelude.{
  ℕ, ◌+◌, ◌-◌, ◌^◌, ◌%◌, Bool, true, false, not, ◌&&◌, ◌||◌, List, [], ◌∷◌, Option, none, some,
  Bytes, ltb, ◌==◌, if◌then◌else◌,
}
use forge_ops_tracker_cpp.StdMap.{Map, lookup, insert, erase}
use forge_ops_tracker_cpp.Histogram.{DoubleOps, histogram_bucket_for}
use forge_ops_tracker_cpp.Client.{
  DeliveryOutcome, delivered, rejected, failed, delivery_outcome_for_status,
}

abbrev pub max_consecutive_failures : ℕ
max_consecutive_failures = 5

-- unsigned long
abbrev pub ulong_mod : ℕ
ulong_mod = 2 ^ 64

abbrev pub or_default {ℓ} : {A : Type ℓ} → A → Option A → A
or_default d none = d
or_default d (some a) = a

module _ (fp : DoubleOps) where
  pub record Bucket : Type 0 where
    pub count : ℕ
    pub duration_sum_ms : fp.Double
    pub max_duration_ms : fp.Double
    pub histogram : Map ℕ

  pub record Members : Type 0 where
    pub buckets : Map Bucket
    pub period_started_at : ℕ
    pub consecutive_failures : ℕ
    pub worker_started : Bool
    pub stopping : Bool
    pub discarded : Bool

  abbrev pub new_bucket : Bucket
  new_bucket = record {
    count = 0;
    duration_sum_ms = fp.zero_ms;
    max_duration_ms = fp.zero_ms;
    histogram = [];
  }

  -- map[label]++
  pub bump : Bytes → Map ℕ → Map ℕ
  bump label h = insert label ((or_default 0 (lookup label h) + 1) % ulong_mod) h

  pub tally_one : fp.Double → Bucket → Bucket
  unfolding bump
  tally_one duration b = record {
    count = (b.count + 1) % ulong_mod;
    duration_sum_ms = fp.add b.duration_sum_ms duration;
    max_duration_ms = if fp.less b.max_duration_ms duration then duration else b.max_duration_ms;
    histogram = bump (histogram_bucket_for fp duration) b.histogram;
  }

  -- The critical section of record, under the name that strict privacy may have reduced.
  pub record_in : Bytes → fp.Double → Map Bucket → Map Bucket
  unfolding tally_one
  record_in name duration m =
      insert name (tally_one duration (or_default new_bucket (lookup name m))) m

  ensure_worker_started : Members → Members
  ensure_worker_started m =
      if m.worker_started || m.stopping then m else record m { worker_started = true }

  -- record: `tracked` is track_performance && is_enabled(), and `transaction_name` is the function
  -- of strict_privacy.cpp.
  pub record_duration : (Bytes → Bytes) → Bool → Bool → Bytes → fp.Double → Members → Members
  unfolding record_in ensure_worker_started
  record_duration transaction_name tracked strict name duration m =
      if not tracked
      then m
      else ensure_worker_started (record m {
        buckets = record_in (if strict then transaction_name name else name) duration m.buckets;
      })

  subtract_label : Bytes → ℕ → Map ℕ → Map ℕ
  subtract_label label sent h = elim (lookup label h) [
    | none ↦ h
    | some now ↦ if ltb sent now then insert label (now - sent) h else erase label h
  ]

  -- The histogram of a bucket without the counts that were sent.
  pub subtract_histogram : Map ℕ → Map ℕ → Map ℕ
  subtract_histogram [] h = h
  subtract_histogram ((label, sent) ∷ rest) h =
      subtract_histogram rest (subtract_label label sent h)

  -- std::max(0.0, a - b)
  floor_sub : fp.Double → fp.Double → fp.Double
  floor_sub a b = if fp.less fp.zero_ms (fp.sub a b) then fp.sub a b else fp.zero_ms

  pub subtract : Bucket → Bucket → Bucket
  unfolding subtract_histogram floor_sub
  subtract sent current = record {
    count = if ltb sent.count current.count then current.count - sent.count else 0;
    duration_sum_ms = floor_sub current.duration_sum_ms sent.duration_sum_ms;
    max_duration_ms = current.max_duration_ms;
    histogram = subtract_histogram sent.histogram current.histogram;
  }

  -- One round of the loop of remove_sent.
  pub remove_one : Bytes → Bucket → Option Bucket → Map Bucket → Map Bucket
  unfolding subtract
  remove_one name sent none m = m
  remove_one name sent (some current) m =
      if (subtract sent current).count == 0
      then erase name m
      else insert name (subtract sent current) m

  pub remove_each : Map Bucket → Map Bucket → Map Bucket
  unfolding remove_one
  remove_each [] m = m
  remove_each ((name, sent) ∷ rest) m = remove_each rest (remove_one name sent (lookup name m) m)

  pub remove_sent : Map Bucket → ℕ → Members → Members
  unfolding remove_each
  remove_sent snapshot period_end m = record m {
    buckets = remove_each snapshot m.buckets;
    period_started_at = period_end;
  }

  -- The first critical section of flush: the snapshot, unless there is nothing to send.
  pub begin_flush : Map Bucket → Option (Map Bucket)
  begin_flush [] = none
  begin_flush (b ∷ m) = some (b ∷ m)

  -- The second one, on the status of the delivery.
  settle : DeliveryOutcome → Map Bucket → ℕ → Members → Members
  unfolding remove_sent
  settle failed snapshot period_end m =
      if ltb (m.consecutive_failures + 1) max_consecutive_failures
      then record m { consecutive_failures = m.consecutive_failures + 1 }
      else remove_sent snapshot period_end (record m { consecutive_failures = 0 })
  settle _ snapshot period_end m =
      remove_sent snapshot period_end (record m { consecutive_failures = 0 })

  pub finish_flush : ℕ → Map Bucket → ℕ → Members → Members
  unfolding settle
  finish_flush status snapshot period_end m =
      settle (delivery_outcome_for_status status) snapshot period_end m

  pub stop : Members → Members
  stop m = record m { stopping = true }

  pub discard : Members → Members
  unfolding stop
  discard m = record (stop m) { discarded = true; buckets = []; consecutive_failures = 0 }

  -- tally_for_testing, the count only.
  pub tally : Bytes → Map Bucket → ℕ
  tally name m = elim (lookup name m) [ none ↦ 0 | some b ↦ b.count ]
