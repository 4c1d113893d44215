-- ===== src/Reporter/Tests.antt =====
-- A report to an empty queue.
use forge_ops_tracker_cpp.Prelude.{◌+◌, ◌≤◌, ◌≡◌, refl, [], length, none, some, codes}
use forge_ops_tracker_cpp.Json.Example.{Value, fields, end, nothing, values}
use forge_ops_tracker_cpp.Configuration.{is_enabled}
use forge_ops_tracker_cpp.Configuration.Values.{Configuration, defaults}
use forge_ops_tracker_cpp.DeliveryQueue.{empty}
use forge_ops_tracker_cpp.EventBuilder.{build}
use forge_ops_tracker_cpp.EventBuilder.Inputs.{Runtime, other}
use forge_ops_tracker_cpp.Reporter.{Raised, Faults, World, report}
use forge_ops_tracker_cpp.Reporter.Contained.{Reported, report_contained}

abbrev runtime : Runtime
runtime = record {
  demangled = λ mangled. none;
  executable_path = none;
  symbols = none;
  match_frame = λ line. none;
  occurred_at = codes "2026-01-01T00:00:00Z";
  replace_patterns = λ s. s;
}

abbrev config : Configuration
config = record (defaults (λ name. none)) { dsn = some (codes "https://k@h/api/v1/events") }

abbrev faults : Faults
faults = record {
  logger_raises = λ line. none;
  thread_raises = some Raised.other;
  build_raises = [];
  read_hex = λ text. none;
}

abbrev idle : World Value
idle = record { members = empty; logged = [] }

report_contained_example :
    let o = report values runtime config faults other (fields end) nothing nothing [] none idle in
    (o.1 ≡ none)
    × (length o.0.logged ≤ length idle.logged + 1)
    × Reported values config
        (is_enabled faults.read_hex config.dsn config.environment config.enabled_environments)
        (build values runtime config other (fields end) nothing nothing [] none)
        idle
        o.0
report_contained_example =
    report_contained values runtime config faults other (fields end) nothing nothing [] none idle
      (λ line. refl)
