-- ===== src/Tracker/Captures.antt =====
-- src/forge_ops_tracker.cpp: what a call of a program captures: an exception with the thread's user,
-- breadcrumbs and trace, a metric, a change; and the warning that nothing is sent.
use forge_ops_tracker_cpp.Prelude.{
  ◌≡◌, Bool, true, false, ◌||◌, List, [], ◌∷◌, ◌++◌, any, length, leb, Option, none, some, Bytes,
  codes, bytes_eq, if◌then◌else◌, ◌>>=◌, arith,
}
use forge_ops_tracker_cpp.Json.{JsonOps}
use forge_ops_tracker_cpp.Configuration.{is_enabled}
use forge_ops_tracker_cpp.Configuration.Values.{Configuration}
use forge_ops_tracker_cpp.Change.{ChangeOptions, Change, build_change}
use forge_ops_tracker_cpp.MetricBuffer.{Reading, Entry, record_entry}
use forge_ops_tracker_cpp.MetricBuffer as MetricBuffer
use forge_ops_tracker_cpp.SpanQueue as SpanQueue
use forge_ops_tracker_cpp.EventBuilder.{text_or_null}
use forge_ops_tracker_cpp.EventBuilder.Inputs.{Runtime, Thrown}
use forge_ops_tracker_cpp.Reporter.{Faults, World, Outcome, report}

abbrev enabled : Configuration → Faults → Bool
enabled cfg faults = is_enabled faults.read_hex cfg.dsn cfg.environment cfg.enabled_environments

-- The names with ", " between them.
unfoldable pub joined : List Bytes → Bytes
joined [] = []
joined (name ∷ []) = name
joined (name ∷ other ∷ names) = name ++ (codes ", " ++ joined (other ∷ names))

abbrev is_unset : Option Bytes → Bool
is_unset none = true
is_unset (some dsn) = leb (length dsn) 0

pub warning : Configuration → Bytes
unfolding joined
warning cfg =
    codes "[ForgeOps] Not sending: this environment is \""
    ++ (cfg.environment
        ++ (codes "\", and only "
            ++ (joined cfg.enabled_environments
                ++ (codes " are enabled. Set FORGE_OPS_ENVIRONMENT=production (or add \""
                    ++ (cfg.environment
                        ++ codes "\" to the enabled environments) to send from here.")))))

-- The flag that the warning was given, and the line that goes out: to the logger, or to stderr.
pub warn_once_if_environment_is_not_enabled : Configuration → Bool → Bool × Option Bytes
unfolding warning
warn_once_if_environment_is_not_enabled cfg given =
    if is_unset cfg.dsn || any (λ name. bytes_eq name cfg.environment) cfg.enabled_environments
    then (given, none)
    else if given
    then (true, none)
    else (true, some (warning cfg))

-- A warning that was given is not given again, whatever the configuration has become.
warned_once :
    (cfg later : Configuration) (given : Bool) (line : Bytes)
    → (warn_once_if_environment_is_not_enabled cfg given).1 ≡ some line
    → (warn_once_if_environment_is_not_enabled later
        (warn_once_if_environment_is_not_enabled cfg given).0).1
      ≡ none
unfolding warn_once_if_environment_is_not_enabled
warned_once cfg later given line h = ground arith

module _ (json : JsonOps) where
  -- The user of a call, or else the thread's.
  abbrev pub chosen_user : json.Json → json.Json → json.Json
  chosen_user user current = if json.is_empty user then current else user

  abbrev pub trail_json : List json.Json → json.Json → json.Json
  trail_json [] out = out
  trail_json (crumb ∷ trail) out = trail_json trail (json.push crumb out)

  -- The three overloads: an exception without a statement has the empty one.
  pub capture_exception :
      Runtime
      → Configuration
      → Faults
      → Thrown
      → Bytes
      → json.Json
      → json.Json
      → json.Json
      → List json.Json
      → Option Bytes
      → World json.Json
      → Outcome json.Json
  capture_exception rt cfg faults thrown sql context user current_user trail trace_id w =
      report json rt cfg faults thrown context (chosen_user user current_user)
        (trail_json trail json.empty_array) sql trace_id w

  abbrev pub metric_fields : Configuration → Bytes → json.Json
  metric_fields cfg name = json.set (codes "release") (text_or_null json cfg.release) (
      json.set (codes "environment") (json.of_text cfg.environment)
        (json.set (codes "metric_name") (json.of_text name) json.empty_object))

  abbrev hostname_or_server : Configuration → Bytes → Bytes
  hostname_or_server cfg [] = elim cfg.server_name [ none ↦ [] | some name ↦ name ]
  hostname_or_server cfg (c ∷ hostname) = c ∷ hostname

  abbrev pub infrastructure_fields : Configuration → Bytes → Bytes → json.Json
  infrastructure_fields cfg name hostname =
      json.set (codes "hostname") (json.of_text (hostname_or_server cfg hostname))
        (json.set (codes "metric_name") (json.of_text name) json.empty_object)

  -- What the buffer becomes; `none` is a metric that is not recorded.
  abbrev recorded :
      Bool
      → Bytes
      → Reading
      → json.Json
      → MetricBuffer.Members json.Json
      → Option (MetricBuffer.Members json.Json)
  recorded false now value fields m = none
  recorded true now value fields m =
      record_entry now (record { value = value; fields = fields; recorded_at = [] }) m

  pub capture_metric :
      Configuration
      → Faults
      → Bytes
      → Bytes
      → Reading
      → MetricBuffer.Members json.Json
      → Option (MetricBuffer.Members json.Json)
  capture_metric cfg faults now name value m =
      recorded (enabled cfg faults) now value (metric_fields cfg name) m

  pub capture_infrastructure_metric :
      Configuration
      → Faults
      → Bytes
      → Bytes
      → Reading
      → Bytes
      → MetricBuffer.Members json.Json
      → Option (MetricBuffer.Members json.Json)
  capture_infrastructure_metric cfg faults now name value hostname m =
      recorded (enabled cfg faults) now value (infrastructure_fields cfg name hostname) m

  -- `has_fields` is the test of the details; `none` is a change that is not queued.
  pub record_change :
      Configuration
      → Faults
      → (json.Json → Bool)
      → Bytes
      → Bytes
      → Bytes
      → json.Json
      → ChangeOptions
      → SpanQueue.Members (Change json.Json)
      → Option (SpanQueue.Members (Change json.Json))
  record_change cfg faults has_fields now kind title details options m =
      if enabled cfg faults
      then (build_change has_fields cfg.environment now kind title details options >>= λ change.
          SpanQueue.enqueue cfg.queue_size change m)
      else none
