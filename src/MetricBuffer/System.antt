-- ===== src/MetricBuffer/System.antt =====
-- src/metric_buffer.cpp as threads: any number of callers of record, and flushes, one at a time.
-- An event is one critical section, except that a call of record joins its two, the push and the start
-- of the worker. Left out: a delivery or a hook that throws out of a flush, which then ends without a
-- status, and a discard while a caller's own flush is under way.
pub mod Invariant
pub mod Delivery
pub mod Overlap
mod Tests
use forge_ops_tracker_cpp.Prelude.{
  ℕ, suc, ◌+◌, Bool, true, false, List, [], ◌∷◌, ◌++◌, map, Option, none, some, Bytes, length, drop,
  if◌then◌else◌,
}
use forge_ops_tracker_cpp.Client.{delivery_outcome_for_status}
use forge_ops_tracker_cpp.MetricBuffer.{
  Entry, Members, Fate, kept, sent, dropped, empty, record_entry, ensure_worker_started,
  begin_flush, fate_of, finish_flush, discard,
}

-- The members, the batch that a flush has on the wire, and a log: what record accepted, and each
-- batch that left the buffer, in order. `posts` says of each buffered entry how often it was sent.
pub record System {ℓ} (A : Type ℓ) : Type ℓ where
  pub members : Members A
  pub open members use *
  pub flight : Option (List (Entry A))
  pub accepted : List (Entry A)
  pub gone : List (Entry A)
  pub posts : List ℕ

pub data Event {ℓ} (A : Type ℓ) : Type ℓ where
  records : Bytes → Entry A → Event A
  begins : Event A
  answers : ℕ → Event A
  discards : Event A

module _ {ℓ} {A : Type ℓ} where
  abbrev pub init : System A
  init = record { members = empty; flight = none; accepted = []; gone = []; posts = [] }

  recorded : Bytes → Entry A → Option (Members A) → System A → System A
  recorded now e none s = s
  recorded now e (some m) s = record s {
    members = ensure_worker_started m;
    accepted = s.accepted ++ record e { recorded_at = now } ∷ [];
    posts = s.posts ++ 0 ∷ [];
  }

  begun : Option (List (Entry A)) → System A → System A
  begun none s = s
  begun (some batch) s = record s { flight = some batch; posts = map suc s.posts }

  finished : Fate → List (Entry A) → Option (Members A) → System A → Option (System A)
  finished fate batch none s = none
  finished kept batch (some m) s = some (record s { members = m; flight = none })
  finished _ batch (some m) s = some (record s {
    members = m;
    flight = none;
    gone = s.gone ++ batch;
    posts = drop (length batch) s.posts;
  })

  answered : Option (List (Entry A)) → ℕ → System A → Option (System A)
  unfolding finished
  answered none status s = none
  answered (some batch) status s =
      finished (fate_of (delivery_outcome_for_status status) s.members.consecutive_failures) batch
        (finish_flush status (length batch) s.members) s

  begin_alone : Option (List (Entry A)) → System A → Option (System A)
  unfolding begun
  begin_alone none s = some (begun (begin_flush s.members) s)
  begin_alone (some batch) s = none

  discard_alone : Option (List (Entry A)) → System A → Option (System A)
  discard_alone none s =
      some
        (record s { members = discard s.members; gone = s.gone ++ s.members.entries; posts = [] })
  discard_alone (some batch) s = none

  -- `none` is an event that cannot happen in this state.
  pub step : Event A → System A → Option (System A)
  unfolding recorded begin_alone answered discard_alone
  step (records now e) s = some (recorded now e (record_entry now e s.members) s)
  step begins s = begin_alone s.flight s
  step (answers status) s = answered s.flight status s
  step discards s = discard_alone s.flight s
