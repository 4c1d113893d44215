-- ===== src/MetricBuffer.antt =====
-- src/metric_buffer.cpp and its header: the members that the mutex guards, and one function for
-- each critical section. An entry is the value found under "value", everything else of the JSON
-- object as one field of any type, and the stamp that record adds.
pub mod System
use forge_ops_tracker_cpp.Prelude.{
  ℕ, ◌+◌, max, Bool, true, false, ◌||◌, List, [], ◌∷◌, ◌++◌, Option, none, some, Bytes, length,
  drop, leb, ltb, if◌then◌else◌,
}
use forge_ops_tracker_cpp.Client.{
  DeliveryOutcome, delivered, rejected, failed, delivery_outcome_for_status,
}

abbrev pub max_entries : ℕ
max_entries = 1000

abbrev pub max_consecutive_failures : ℕ
max_consecutive_failures = 5

-- What entry.find("value") gives.
pub data Reading : Type 0 where
  missing not_a_number not_finite finite : Reading

pub record Entry {ℓ} (A : Type ℓ) : Type ℓ where
  pub value : Reading
  pub fields : A
  pub recorded_at : Bytes

pub record Members {ℓ} (A : Type ℓ) : Type ℓ where
  pub entries : List (Entry A)
  pub consecutive_failures : ℕ
  pub worker_started : Bool
  pub stopping : Bool
  pub discarded : Bool

-- The constructor that takes a plain true or false: a false is no response.
pub status_of_bool : Bool → ℕ
status_of_bool ok = if ok then 200 else 0

is_recordable : Reading → Bool
is_recordable finite = true
is_recordable _ = false

-- What became of a batch at the end of a flush.
pub data Fate : Type 0 where
  kept sent dropped : Fate

pub fate_of : DeliveryOutcome → ℕ → Fate
fate_of delivered failures = sent
fate_of rejected failures = dropped
fate_of failed failures = if ltb (failures + 1) max_consecutive_failures then kept else dropped

module _ {ℓ} {A : Type ℓ} where
  abbrev pub empty : Members A
  empty = record {
    entries = [];
    consecutive_failures = 0;
    worker_started = false;
    stopping = false;
    discarded = false;
  }

  -- record up to ensure_worker_started; `none` is a false result, with a line in the log.
  pub record_entry : Bytes → Entry A → Members A → Option (Members A)
  unfolding is_recordable
  record_entry now e m =
      if is_recordable e.value
      then if leb max_entries (length m.entries)
        then none
        else some (record m { entries = m.entries ++ record e { recorded_at = now } ∷ [] })
      else none

  pub ensure_worker_started : Members A → Members A
  ensure_worker_started m =
      if m.worker_started || m.stopping then m else record m { worker_started = true }

  snapshot : List (Entry A) → Option (List (Entry A))
  snapshot [] = none
  snapshot (e ∷ es) = some (e ∷ es)

  -- The first critical section of flush: the batch, or nothing to do.
  pub begin_flush : Members A → Option (List (Entry A))
  unfolding snapshot
  begin_flush m = snapshot m.entries

  -- Erasing more entries than there are is undefined behaviour: `none`.
  erase_front : ℕ → Members A → Option (Members A)
  erase_front n m =
      if leb n (length m.entries)
      then some (record m { entries = drop n m.entries; consecutive_failures = 0 })
      else none

  settle : Fate → ℕ → Members A → Option (Members A)
  unfolding erase_front
  settle kept n m = some (record m { consecutive_failures = m.consecutive_failures + 1 })
  settle _ n m = erase_front n m

  -- The second critical section of flush, on the status of the delivery and the batch's size.
  pub finish_flush : ℕ → ℕ → Members A → Option (Members A)
  unfolding settle fate_of
  finish_flush status n m =
      settle (fate_of (delivery_outcome_for_status status) m.consecutive_failures) n m

  pub stop : Members A → Members A
  stop m = record m { stopping = true }

  pub discard : Members A → Members A
  unfolding stop
  discard m = record (stop m) { discarded = true; entries = []; consecutive_failures = 0 }

  -- shutdown after its stop: the batch of its last flush, if there is one to make.
  pub shutdown_flush : Members A → Option (List (Entry A))
  unfolding begin_flush
  shutdown_flush m = if m.discarded then none else begin_flush m

-- What the worker's loop does at the top of a turn, and how long it waits.
pub wait_ms : ℕ → ℕ
wait_ms interval = max 1 interval
