-- ===== src/MetricBuffer/System/Delivery.antt =====
-- src/metric_buffer.cpp: no reading is lost or sent without end while one flush runs at a time.
use forge_ops_tracker_cpp.Prelude.{◌≤◌, ◌<◌, ◌≡◌, List, ◌++◌, some, length, All, run}
use forge_ops_tracker_cpp.MetricBuffer.{max_entries, max_consecutive_failures}
use forge_ops_tracker_cpp.MetricBuffer.System.{System, Event, init, step}
use forge_ops_tracker_cpp.MetricBuffer.System.Invariant.{AtMost, run-Inv, posts_bounded}
use mathlib.Core.Path.{refl}

-- After any interleaving of records with flushes that do not overlap and with discards: what record
-- accepted is, in order, what has left the buffer and then what is still in it, so a flush removes
-- exactly its own batch and keeps what came later; and the buffer is within its bound.
pub flush_exact :
    {A : Type 0} (es : List (Event A)) {s : System A}
    → run step es init ≡ some s
    → (s.accepted ≡ s.gone ++ s.members.entries) × (length s.members.entries ≤ max_entries)
flush_exact es h = let v = run-Inv es h in (v.exact, v.bounded)

-- In such an interleaving no entry that is still buffered has been sent more than five times, and
-- the count of failed flushes in a row stays below five between flushes.
pub retries_bounded :
    {A : Type 0} (es : List (Event A)) {s : System A}
    → run step es init ≡ some s
    → (length s.posts ≡ length s.members.entries)
      × All (AtMost max_consecutive_failures) s.posts
      × (s.members.consecutive_failures < max_consecutive_failures)
retries_bounded es {s} h =
    let v = run-Inv es h in (v.paired, posts_bounded s.flight s refl v, v.patient)
