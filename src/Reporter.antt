-- ===== src/Reporter.antt =====
-- src/reporter.cpp: report, over the builder and the queue, with Configuration::log and what
-- DeliveryQueue::push does around its critical sections. An exception that a call lets out is a value
-- beside the state; what a logger, the start of a thread and the JSON library throw are parameters.
pub mod Contained
mod Tests
use forge_ops_tracker_cpp.Prelude.{
  ℕ, Bool, true, false, List, [], ◌∷◌, ◌++◌, Option, none, some, Bytes, codes, if◌then◌else◌,
}
use forge_ops_tracker_cpp.Json.{JsonOps}
use forge_ops_tracker_cpp.Configuration.{is_enabled}
use forge_ops_tracker_cpp.Configuration.Values.{Configuration}
use forge_ops_tracker_cpp.DeliveryQueue.{Members, enqueue, ensure_worker_started}
use forge_ops_tracker_cpp.EventBuilder.{build}
use forge_ops_tracker_cpp.EventBuilder.Inputs.{Runtime, Thrown}

-- An exception: a std::exception with its what(), or anything else.
pub data Raised : Type 0 where
  standard : Bytes → Raised
  other : Raised

-- What is thrown by the logger for a line, by std::thread, and by the JSON library in build; and what
-- a stream reads from two hexadecimal digits.
pub record Faults : Type 0 where
  pub logger_raises : Bytes → Option Raised
  pub thread_raises : Option Raised
  pub build_raises : Bytes
  pub read_hex : Bytes → Option ℕ

pub record World {ℓ} (A : Type ℓ) : Type ℓ where
  pub members : Members A
  pub logged : List Bytes

abbrev pub k_full : Bytes
k_full = codes "[forge-ops-tracker] delivery queue full, dropping event"

abbrev pub k_failed : Bytes
k_failed = codes "[forge-ops-tracker] report failed: "

abbrev pub k_failed_otherwise : Bytes
k_failed_otherwise = codes "[forge-ops-tracker] report failed with a non-standard exception"

-- A state, and the exception that is on its way.
abbrev pub Outcome {ℓ} : Type ℓ → Type ℓ
Outcome A = World A × Option Raised

module _ {ℓ} {A : Type ℓ} where
  abbrev pub log : Bool → Faults → Bytes → World A → Outcome A
  log false faults line w = (w, none)
  log true faults line w = (record w { logged = w.logged ++ line ∷ [] }, faults.logger_raises line)

  -- ensure_worker_started, `none` if there is no thread to start.
  abbrev pub started : Faults → Option (Members A) → World A → Outcome A
  started faults none w = (w, none)
  started faults (some m) w = (record w { members = m }, faults.thread_raises)

  abbrev pub pushed_on : Configuration → Faults → Option (Members A) → World A → Outcome A
  pushed_on cfg faults none w = log cfg.has_logger faults k_full w
  pushed_on cfg faults (some m) w =
      started faults (ensure_worker_started m) (record w { members = m })

  pub push : Configuration → Faults → A → World A → Outcome A
  push cfg faults payload w = pushed_on cfg faults (enqueue cfg.queue_size payload w.members) w

  -- The two catch clauses.
  abbrev pub caught : Configuration → Faults → Outcome A → Outcome A
  caught cfg faults (w, none) = (w, none)
  caught cfg faults (w, some (standard text)) = log cfg.has_logger faults (k_failed ++ text) w
  caught cfg faults (w, some other) = log cfg.has_logger faults k_failed_otherwise w

  abbrev pub push_built : Configuration → Faults → Option A → World A → Outcome A
  push_built cfg faults none w = (w, some (standard faults.build_raises))
  push_built cfg faults (some payload) w = push cfg faults payload w

module _ (json : JsonOps) where
  -- The try block.
  pub attempt :
      Runtime
      → Configuration
      → Faults
      → Thrown
      → json.Json
      → json.Json
      → json.Json
      → Bytes
      → Option Bytes
      → World json.Json
      → Outcome json.Json
  attempt rt cfg faults thrown context user breadcrumbs sql trace_id w =
      if is_enabled faults.read_hex cfg.dsn cfg.environment cfg.enabled_environments
      then push_built cfg faults (build json rt cfg thrown context user breadcrumbs sql trace_id) w
      else (w, none)

  pub report :
      Runtime
      → Configuration
      → Faults
      → Thrown
      → json.Json
      → json.Json
      → json.Json
      → Bytes
      → Option Bytes
      → World json.Json
      → Outcome json.Json
  unfolding attempt
  report rt cfg faults thrown context user breadcrumbs sql trace_id w =
      caught cfg faults (attempt rt cfg faults thrown context user breadcrumbs sql trace_id w)
