-- ===== src/MetricBuffer/System/Overlap.antt =====
-- src/metric_buffer.cpp: two flushes at once, the worker's and a caller's flush_metrics().
use forge_ops_tracker_cpp.Prelude.{
  ℕ, ◌≡◌, refl, List, [], ◌∷◌, some, none, arith, length, drop, leb, if◌then◌else◌, drop_all,
}
use forge_ops_tracker_cpp.Client.{delivered, delivery_outcome_for_status}
use forge_ops_tracker_cpp.MetricBuffer.{
  Entry, Members, begin_flush, snapshot, finish_flush, settle, fate_of, erase_front,
}

-- Two flushes begin on the same buffer, so both take all of it. The first is answered with success
-- and empties the buffer; `ys` is recorded then; the second is answered with success too. It
-- erases as many entries of `ys`, which neither batch held, as the batch had, and where `ys` is
-- shorter than the batch it erases past the end (`none`).
pub overlapping_flushes :
    {A : Type 0} (m : Members A) (e : Entry A) (es ys : List (Entry A)) (first second : ℕ)
    → m.entries ≡ e ∷ es
    → delivery_outcome_for_status first ≡ delivered
    → delivery_outcome_for_status second ≡ delivered
    → (m' : Members A) × (begin_flush m ≡ some m.entries)
      × (finish_flush first (length m.entries) m ≡ some m')
      × (m'.entries ≡ [])
      × (finish_flush second (length m.entries) (record m' { entries = ys }) ≡ (
          if leb (length m.entries) (length ys)
          then some (record m' { entries = drop (length m.entries) ys })
          else none))
unfolding begin_flush snapshot finish_flush settle fate_of erase_front
overlapping_flushes m e es ys first second h ok ok' = (
  record m { entries = []; consecutive_failures = 0 },
  ground arith,
  ground (arith, drop_all (length m.entries) m.entries),
  refl,
  ground arith,
)
