-- ===== src/Tracker/Scopes.antt =====
-- src/forge_ops_tracker.cpp: ScopedSpan, ScopedTrace and ScopedHttpSpan, and the spans recorded outright,
-- on the open trace of a thread. Generated ids and clock readings are arguments; `sent` is what is
-- pushed onto the span queue.
pub mod Blocks
use forge_ops_tracker_cpp.Prelude.{
  ℕ, ◌-◌, Bool, true, false, not, ◌&&◌, ◌||◌, List, [], ◌∷◌, ◌++◌, map, Option, none, some, Bytes,
  codes, bytes_eq, leb, ◌>>=◌, if◌then◌else◌,
}
use forge_ops_tracker_cpp.Json.{JsonOps}
use forge_ops_tracker_cpp.Configuration.{is_enabled, should_propagate_trace}
use forge_ops_tracker_cpp.Configuration.Values.{Configuration}
use forge_ops_tracker_cpp.SqlStatement.{mask}
use forge_ops_tracker_cpp.SqlStatement.Objects.{upper_byte}
use forge_ops_tracker_cpp.TraceParent.{trimmed, parse, url_host}
use forge_ops_tracker_cpp.TraceParent as TraceParent
use forge_ops_tracker_cpp.SpanBuffer.{
  Outside, Settings, Details, Members, Payload, start, open_span, close_span, record_leaf, finish,
}

-- What a buffer reads of the configuration.
abbrev pub settings : Configuration → Settings
settings cfg = record {
  strict_privacy = cfg.strict_privacy;
  environment = cfg.environment;
  release = cfg.release;
  track_tracing = cfg.track_tracing;
  trace_capture_threshold = cfg.trace_capture_threshold;
}

abbrev is_blank_text : Bytes → Bool
is_blank_text [] = true
is_blank_text (c ∷ s) = false

module _ (out : Outside) (json : JsonOps) where
  pub record Thread : Type 0 where
    pub trace : Option (Members out json)
    pub sent : List (Payload out json)

  -- `span_id` is empty outside a trace.
  pub record ScopedSpan : Type 0 where
    pub name : Bytes
    pub kind : Bytes
    pub fields : json.Json
    pub span_id : Bytes
    pub started_at : out.Time

  abbrev pub trace_id_of : Option (Members out json) → Option Bytes
  trace_id_of none = none
  trace_id_of (some m) = some m.trace_id

  -- open_trace_id and current_trace_id.
  abbrev pub open_trace_id : Thread → Option Bytes
  open_trace_id t = trace_id_of t.trace

  abbrev pub id_in : Option (Members out json) → Bytes → Bytes
  id_in none id = []
  id_in (some m) id = id

  abbrev pub opened_in : Option (Members out json) → Bytes → Option (Members out json)
  opened_in none id = none
  opened_in (some m) id = some (open_span out json id m)

  -- The constructor: the span, and what becomes of the thread.
  abbrev pub new_span : Bytes → Bytes → json.Json → Bytes → out.Time → Thread → ScopedSpan
  new_span name kind fields id now t = record {
    name = name;
    kind = kind;
    fields = fields;
    span_id = id_in t.trace id;
    started_at = now;
  }

  abbrev pub opening : Bytes → Thread → Thread
  opening id t = record t { trace = opened_in t.trace id }

  abbrev pub put_text : Bytes → Option Bytes → json.Json → json.Json
  put_text key none j = j
  put_text key (some text) j = json.set key (json.of_text text) j

  abbrev trimmed_system : Option Bytes → Option Bytes
  trimmed_system none = none
  trimmed_system (some system) = some (trimmed system)

  pub set_statement : Bytes → Option Bytes → ScopedSpan → ScopedSpan
  set_statement statement db_system s = record s {
    fields =
        if not (bytes_eq s.kind (codes "database")) || is_blank_text s.span_id
        then s.fields
        else put_text (codes "db.system") db_system (
            put_text (codes "db.statement") (mask statement (trimmed_system db_system))
              (if json.is_object s.fields then s.fields else json.empty_object));
  }

  abbrev pub details : out.Double → ScopedSpan → Details out json
  details elapsed s = record {
    name = s.name;
    kind = s.kind;
    started_at = s.started_at;
    duration_ms = elapsed;
    fields = s.fields;
  }

  abbrev pub closed_in :
      Configuration
      → Details out json
      → Bytes
      → Option (Members out json)
      → Option (Members out json)
  closed_in cfg d [] trace = trace
  closed_in cfg d (c ∷ id) none = none
  closed_in cfg d (c ∷ id) (some m) = some (close_span out json (settings cfg) (c ∷ id) d m)

  -- The destructor.
  abbrev pub closing_span : Configuration → out.Double → ScopedSpan → Thread → Thread
  closing_span cfg elapsed s t = record t {
    trace = closed_in cfg (details elapsed s) s.span_id t.trace;
  }

  abbrev pub leaf_in :
      Configuration
      → Bytes
      → Details out json
      → Option (Members out json)
      → Option (Members out json)
  leaf_in cfg id d none = none
  leaf_in cfg id d (some m) = some (record_leaf out json (settings cfg) id d m)

  abbrev pub record_span : Configuration → Bytes → Details out json → Thread → Thread
  record_span cfg id d t = record t { trace = leaf_in cfg id d t.trace }

  -- What record_database_span makes of the data.
  pub with_sql : Bytes → Option Bytes → json.Json → json.Json
  with_sql statement db_system fields = put_text (codes "db.system") db_system (
      json.set (codes "db.statement") (json.of_text statement)
        (if json.is_object fields then fields else json.empty_object))

  abbrev pub record_database_span :
      Configuration
      → Bytes
      → Bytes
      → out.Time
      → out.Double
      → Bytes
      → Option Bytes
      → json.Json
      → Thread
      → Thread
  record_database_span cfg id name started_at duration_ms statement db_system fields t =
      record_span cfg id
        (record {
          name = name;
          kind = codes "database";
          started_at = started_at;
          duration_ms = duration_ms;
          fields = with_sql statement db_system fields;
        })
        t

  -- The ids that a trace generates and the clock that it reads: `started_at` as it starts, and
  -- `nested_at` as its span does, where it has one.
  pub record NewTrace : Type 0 where
    pub trace_id : Bytes
    pub span_id : Bytes
    pub root_name : Bytes
    pub traceparent : Option Bytes
    pub started_at : out.Time
    pub nested_at : out.Time

  pub record ScopedTrace : Type 0 where
    pub root_name : Bytes
    pub started_at : out.Time
    pub owns_trace : Bool
    pub nested : Option ScopedSpan

  -- The span of a trace inside an open one.
  abbrev pub nested_span : NewTrace → Thread → ScopedSpan
  nested_span new t =
      new_span new.root_name (codes "service") json.empty_object new.span_id new.nested_at t

  abbrev pub trace_in : NewTrace → Thread → Option (Members out json) → ScopedTrace
  trace_in new t none = record {
    root_name = new.root_name;
    started_at = new.started_at;
    owns_trace = true;
    nested = none;
  }
  trace_in new t (some m) = record {
    root_name = new.root_name;
    started_at = new.started_at;
    owns_trace = false;
    nested = some (nested_span new t);
  }

  abbrev pub started : Configuration → NewTrace → Members out json
  started cfg new =
      start out json (settings cfg) new.trace_id new.span_id (new.traceparent >>= parse)

  abbrev pub traced_in :
      Configuration → Bool → NewTrace → Option (Members out json) → Option (Members out json)
  traced_in cfg enabled new (some m) = some (open_span out json new.span_id m)
  traced_in cfg false new none = none
  traced_in cfg true new none = some (started cfg new)

  -- The constructor: the trace, and what becomes of the thread.
  abbrev pub new_trace : NewTrace → Thread → ScopedTrace
  new_trace new t = trace_in new t t.trace

  abbrev pub starting : Configuration → Bool → NewTrace → Thread → Thread
  starting cfg enabled new t = record t { trace = traced_in cfg enabled new t.trace }

  abbrev pub root_details : out.Double → ScopedTrace → Details out json
  root_details elapsed s = record {
    name = s.root_name;
    kind = codes "controller";
    started_at = s.started_at;
    duration_ms = elapsed;
    fields = json.empty_object;
  }

  abbrev pub listed : Option (Payload out json) → List (Payload out json)
  listed none = []
  listed (some p) = p ∷ []

  -- The payload of an owned trace, if it has a buffer.
  abbrev pub payload_of :
      Configuration → Details out json → Option (Members out json) → List (Payload out json)
  payload_of cfg root none = []
  payload_of cfg root (some m) = listed (finish out json (settings cfg) root m)

  abbrev pub end_nested : Configuration → out.Double → Option ScopedSpan → Thread → Thread
  end_nested cfg elapsed none t = t
  end_nested cfg elapsed (some s) t = closing_span cfg elapsed s t

  abbrev pub end_as : Configuration → out.Double → Bool → ScopedTrace → Thread → Thread
  end_as cfg elapsed false s t = end_nested cfg elapsed s.nested t
  end_as cfg elapsed true s t = record {
    trace = none;
    sent = t.sent ++ payload_of cfg (root_details elapsed s) t.trace;
  }

  -- The destructor, with that of the nested span behind it.
  abbrev pub ending_trace : Configuration → out.Double → ScopedTrace → Thread → Thread
  ending_trace cfg elapsed s t = end_as cfg elapsed s.owns_trace s t

  abbrev method_or_get : Bytes → Bytes
  method_or_get [] = codes "GET"
  method_or_get (c ∷ s) = c ∷ s

  abbrev host_or_unknown : Option Bytes → Bytes
  host_or_unknown none = codes "unknown"
  host_or_unknown (some host) = host

  pub name_for : Bytes → Bytes → Bytes
  name_for method url =
      map upper_byte (method_or_get method) ++ (b' ' ∷ host_or_unknown (url_host url))

  -- The header of a ScopedHttpSpan, on the thread behind its constructor.
  pub traceparent : Configuration → Bytes → ScopedSpan → Thread → Option Bytes
  traceparent cfg url s t = elim t.trace [
    | none ↦ none
    | some m ↦
        if not (is_blank_text s.span_id)
          && should_propagate_trace cfg.propagate_traces cfg.trace_propagation_targets
              (url_host url)
        then some (TraceParent.build m.trace_id s.span_id)
        else none
  ]
