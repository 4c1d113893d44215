-- ===== src/Configuration/Values.antt =====
-- src/configuration.cpp and its header: the values of a configuration, and what they start as. What
-- std::getenv answers is a parameter.
use forge_ops_tracker_cpp.Prelude.{
  ℕ, Bool, true, false, List, [], ◌∷◌, map, Option, none, some, Bytes, codes, bytes_eq, to_lower,
  ◌==◌, if◌then◌else◌,
}
use forge_ops_tracker_cpp.TraceParent.{trimmed}
use forge_ops_tracker_cpp.Configuration.{Target}

-- Intervals are in milliseconds; `enabled_environments` is in the order of the set; `has_logger` says
-- whether the logger is set.
pub record Configuration : Type 0 where
  pub dsn : Option Bytes
  pub environment : Bytes
  pub release : Option Bytes
  pub server_name : Option Bytes
  pub app_root : Bytes
  pub enabled_environments : List Bytes
  pub queue_size : ℕ
  pub timeout_seconds : ℕ
  pub scrub_pii : Bool
  pub capture_source_context : Bool
  pub capture_sql_objects : Bool
  pub capture_sql_statement : Bool
  pub track_breadcrumbs : Bool
  pub max_breadcrumbs : ℕ
  pub track_performance : Bool
  pub performance_flush_interval : ℕ
  pub track_tracing : Bool
  pub metric_flush_interval : ℕ
  pub infrastructure_metric_flush_interval : ℕ
  pub trace_capture_threshold : ℕ
  pub propagate_traces : Bool
  pub trace_propagation_targets : Option (List Target)
  pub strict_privacy : Bool
  pub privacy_allowed_fields : List Bytes
  pub has_logger : Bool

pub default_environment : (Bytes → Option Bytes) → Bytes
default_environment getenv = elim (getenv (codes "FORGE_OPS_ENVIRONMENT")) [
  | none ↦ codes "production"
  | some value ↦ elim value [ [] ↦ codes "production" | c ∷ rest ↦ c ∷ rest ]
]

pub default_strict_privacy : (Bytes → Option Bytes) → Bool
default_strict_privacy getenv = elim (getenv (codes "FORGE_OPS_STRICT_PRIVACY")) [
  | none ↦ false
  | some value ↦ bytes_eq (map to_lower (trimmed value)) (codes "true")
]

-- A list split on its commas: the first part, and the others.
pub comma_parts : Bytes → Bytes × List Bytes
comma_parts [] = ([], [])
comma_parts (c ∷ s) =
    let (first, rest) = comma_parts s in if c == b',' then ([], first ∷ rest) else (c ∷ first, rest)

pub filled_names : List Bytes → List Bytes
filled_names [] = []
filled_names (part ∷ parts) =
    let rest = filled_names parts in
    elim (trimmed part) [ [] ↦ rest | c ∷ name ↦ (c ∷ name) ∷ rest ]

pub default_privacy_allowed_fields : (Bytes → Option Bytes) → List Bytes
unfolding filled_names comma_parts
default_privacy_allowed_fields getenv = elim (getenv (codes "FORGE_OPS_PRIVACY_ALLOWED_FIELDS")) [
  | none ↦ []
  | some list ↦ let (first, rest) = comma_parts list in filled_names (first ∷ rest)
]

unfoldable pub defaults : (Bytes → Option Bytes) → Configuration
unfolding default_environment default_strict_privacy default_privacy_allowed_fields
defaults getenv = record {
  dsn = none;
  environment = default_environment getenv;
  release = none;
  server_name = none;
  app_root = [];
  enabled_environments = codes "production" ∷ codes "staging" ∷ [];
  queue_size = 1000;
  timeout_seconds = 2;
  scrub_pii = true;
  capture_source_context = true;
  capture_sql_objects = true;
  capture_sql_statement = false;
  track_breadcrumbs = true;
  max_breadcrumbs = 30;
  track_performance = true;
  performance_flush_interval = 60000;
  track_tracing = true;
  metric_flush_interval = 60000;
  infrastructure_metric_flush_interval = 60000;
  trace_capture_threshold = 1000;
  propagate_traces = true;
  trace_propagation_targets = none;
  strict_privacy = default_strict_privacy getenv;
  privacy_allowed_fields = default_privacy_allowed_fields getenv;
  has_logger = false;
}
