-- ===== src/PerformanceFlusher/Tests.antt =====
-- Flushes of the performance tallies on small inputs, with durations as whole milliseconds.
use forge_ops_tracker_cpp.Prelude.{
  ℕ, ◌+◌, ◌-◌, ◌<◌, ◌≡◌, refl, true, false, List, [], ◌∷◌, some, codes, arith, ltb, leb, to_string,
}
use forge_ops_tracker_cpp.StdMap.{Map, lookup, insert}
use forge_ops_tracker_cpp.Client.{delivery_outcome_for_status}
use forge_ops_tracker_cpp.StrictPrivacy.Paths.{transaction_name}
use forge_ops_tracker_cpp.Histogram.{DoubleOps, histogram_bucket_for}
use forge_ops_tracker_cpp.PerformanceFlusher.{
  Bucket, Members, ulong_mod, record_in, begin_flush, finish_flush, tally,
}
use forge_ops_tracker_cpp.PerformanceFlusher.Tallies.{Call, record_all, hits}
use forge_ops_tracker_cpp.PerformanceFlusher.Window.{recorded-IsTallied}
use forge_ops_tracker_cpp.PerformanceFlusher.Flush.{
  Flushed, reduced, recorded_during, flush_leaves_window,
}

abbrev whole_ms : DoubleOps
whole_ms = record {
  Double = ℕ;
  zero_ms = 0;
  add = λ a b. a + b;
  sub = λ a b. a - b;
  less = ltb;
  at_most = leb;
}

label_of_70 : histogram_bucket_for whole_ms 70 ≡ codes "100"
unfolding histogram_bucket_for to_string
label_of_70 = refl

label_of_long : histogram_bucket_for whole_ms 20000 ≡ codes "inf"
unfolding histogram_bucket_for to_string
label_of_long = refl

abbrev sent_calls : List (Call whole_ms)
sent_calls = (codes "a", 20) ∷ (codes "b", 300) ∷ (codes "a", 70) ∷ []

abbrev late_calls : List (Call whole_ms)
late_calls = (codes "a", 90) ∷ (codes "c", 5) ∷ []

sent_buckets : Map (Bucket whole_ms)
unfolding record_all record_in
sent_buckets = record_all whole_ms sent_calls []

abbrev sent_members : Members whole_ms
sent_members = record {
  buckets = sent_buckets;
  period_started_at = 1000;
  consecutive_failures = 1;
  worker_started = true;
  stopping = false;
  discarded = false;
}

has_snapshot : begin_flush whole_ms sent_buckets ≡ some sent_buckets
unfolding sent_buckets begin_flush insert lookup
has_snapshot = refl

few : tally whole_ms (codes "a") sent_buckets + 2 < ulong_mod
unfolding sent_buckets tally lookup insert
few = omega arith

few_of_100 : hits whole_ms (codes "a") (codes "100") sent_buckets + 2 < ulong_mod
unfolding sent_buckets hits lookup insert histogram_bucket_for to_string
few_of_100 = omega arith

-- The second failure in a row.
flush_leaves_window_example :
    Flushed whole_ms
      (codes "a")
      (codes "100")
      (delivery_outcome_for_status 503)
      (reduced whole_ms transaction_name true late_calls)
      2000
      sent_members
      (finish_flush whole_ms 503 sent_buckets 2000
        (recorded_during whole_ms transaction_name true late_calls sent_members))
unfolding sent_buckets record_all
flush_leaves_window_example =
    flush_leaves_window whole_ms transaction_name true sent_members sent_buckets late_calls 503 2000
      (codes "a") (codes "100") has_snapshot (recorded-IsTallied whole_ms sent_calls) few few_of_100
