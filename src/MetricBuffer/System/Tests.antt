-- ===== src/MetricBuffer/System/Tests.antt =====
-- Runs of the metric buffer on small inputs, and the theorems at them.
use forge_ops_tracker_cpp.Prelude.{
  ℕ, ◌≤◌, ◌<◌, ◌≡◌, refl, List, [], ◌∷◌, ◌++◌, some, none, codes, length, drop, leb, if◌then◌else◌,
  All, run, true,
}
use forge_ops_tracker_cpp.MetricBuffer.{
  Entry, Members, finite, max_entries, max_consecutive_failures, empty, begin_flush, finish_flush,
  record_entry, ensure_worker_started,
}
use forge_ops_tracker_cpp.MetricBuffer.System.{System, Event, records, begins, answers, init, step}
use forge_ops_tracker_cpp.Client.{delivery_outcome_for_status}
use forge_ops_tracker_cpp.MetricBuffer.System.Invariant.{AtMost}
use forge_ops_tracker_cpp.MetricBuffer.System.Delivery.{flush_exact, retries_bounded}
use forge_ops_tracker_cpp.MetricBuffer.System.Overlap.{overlapping_flushes}

abbrev reading : ℕ → Entry ℕ
reading n = record { value = finite; fields = n; recorded_at = codes "2026-01-01T00:00:00Z" }

-- One reading is recorded while a batch of one is on the wire, and the batch is delivered.
abbrev recorded_in_flight : List (Event ℕ)
recorded_in_flight =
    records (reading 1).recorded_at (reading 1)
    ∷ begins
    ∷ records (reading 2).recorded_at (reading 2)
    ∷ answers 503
    ∷ begins
    ∷ answers 200
    ∷ records (reading 3).recorded_at (reading 3)
    ∷ []

abbrev afterwards : System ℕ
afterwards = record {
  members = record (empty {A = ℕ}) { entries = reading 3 ∷ []; worker_started = true };
  flight = none;
  accepted = reading 1 ∷ reading 2 ∷ reading 3 ∷ [];
  gone = reading 1 ∷ reading 2 ∷ [];
  posts = 0 ∷ [];
}

in_flight_run : run step recorded_in_flight init ≡ some afterwards
unfolding run step record_entry ensure_worker_started begin_flush finish_flush
    delivery_outcome_for_status
in_flight_run = refl

flush_exact_example :
    (afterwards.accepted ≡ afterwards.gone ++ afterwards.members.entries)
    × (length afterwards.members.entries ≤ max_entries)
flush_exact_example = flush_exact recorded_in_flight in_flight_run

retries_bounded_example :
    (length afterwards.posts ≡ length afterwards.members.entries)
    × All (AtMost max_consecutive_failures) afterwards.posts
    × (afterwards.members.consecutive_failures < max_consecutive_failures)
retries_bounded_example = retries_bounded recorded_in_flight in_flight_run

abbrev two_readings : Members ℕ
two_readings = record (empty {A = ℕ}) { entries = reading 1 ∷ reading 2 ∷ [] }

abbrev later : List (Entry ℕ)
later = reading 3 ∷ []

overlapping_flushes_example :
    (m' : Members ℕ) × (begin_flush two_readings ≡ some two_readings.entries)
    × (finish_flush 200 2 two_readings ≡ some m')
    × (m'.entries ≡ [])
    × (finish_flush 200 2 (record m' { entries = later })
        ≡ (if leb 2 (length later) then some (record m' { entries = drop 2 later }) else none))
unfolding finish_flush delivery_outcome_for_status
overlapping_flushes_example =
    overlapping_flushes two_readings (reading 1) (reading 2 ∷ []) later 200 200 refl refl refl
