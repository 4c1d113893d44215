-- ===== src/SpanBuffer.antt =====
-- src/span_buffer.cpp and its header: the spans of one trace. Only the thread that owns a buffer
-- touches it, so its operations are functions on its members.
pub mod Data
pub mod Nesting
pub mod Traces
mod Tests
use forge_ops_tracker_cpp.Prelude.{
  ℕ, ◌+◌, ◌-◌, Bool, true, false, not, ◌||◌, List, [], ◌∷◌, ◌++◌, any, Option, none, some, Bytes,
  codes, bytes_eq, length, leb, if◌then◌else◌,
}
use forge_ops_tracker_cpp.StrictPrivacy.Paths.{span_name}
use forge_ops_tracker_cpp.TraceParent.{Context}
use forge_ops_tracker_cpp.Json.{JsonOps}
use forge_ops_tracker_cpp.SpanBuffer.Data.{span_data, strict_span_data}

-- The standard library's part: clock readings as gmtime_r and strftime write them, and doubles.
pub record Outside : Type 1 where
  pub Time : Type 0
  pub format_timestamp : Time → Bytes
  pub Double : Type 0
  -- std::round(a * 100.0) / 100.0, and a < static_cast<double>(n)
  pub two_decimals : Double → Double
  pub less_than : Double → ℕ → Bool

-- The part of the configuration that a buffer reads.
pub record Settings : Type 0 where
  pub strict_privacy : Bool
  pub environment : Bytes
  pub release : Option Bytes
  pub track_tracing : Bool
  pub trace_capture_threshold : ℕ

abbrev pub max_spans : ℕ
max_spans = 500

abbrev pub kinds : List Bytes
kinds =
    codes "controller"
    ∷ codes "service"
    ∷ codes "database"
    ∷ codes "redis"
    ∷ codes "http"
    ∷ codes "job"
    ∷ codes "other"
    ∷ []

pub normalize_kind : Bytes → Bytes
normalize_kind kind = if any (bytes_eq kind) kinds then kind else codes "other"

module _ (out : Outside) (json : JsonOps) where
  -- What a caller says of a span.
  pub record Details : Type 0 where
    pub name : Bytes
    pub kind : Bytes
    pub started_at : out.Time
    pub duration_ms : out.Double
    pub fields : json.Json

  pub record Span : Type 0 where
    pub span_id : Bytes
    pub parent_span_id : Option Bytes
    pub name : Bytes
    pub kind : Bytes
    pub started_at : Bytes
    pub duration_ms : out.Double
    pub environment : Bytes
    pub release : Option Bytes
    pub fields : json.Json

  -- `open` is open_ from its back: the innermost span comes first.
  pub record Members : Type 0 where
    pub trace_id : Bytes
    pub root_span_id : Bytes
    pub remote_parent_span_id : Option Bytes
    pub send : Bool
    pub spans : List Span
    pub opened : List Bytes

  -- The constructor; the two ids are the generated ones.
  pub start : Settings → Bytes → Bytes → Option Context → Members
  start cfg new_trace_id new_span_id none = record {
    trace_id = new_trace_id;
    root_span_id = new_span_id;
    remote_parent_span_id = none;
    send = cfg.track_tracing;
    spans = [];
    opened = [];
  }
  start cfg new_trace_id new_span_id (some incoming) = record {
    trace_id = incoming.trace_id;
    root_span_id = new_span_id;
    remote_parent_span_id = some incoming.parent_span_id;
    send = cfg.track_tracing;
    spans = [];
    opened = [];
  }

  -- The top of the rest of open_, the root at its bottom.
  abbrev pub top_or : Bytes → List Bytes → Bytes
  top_or root [] = root
  top_or root (id ∷ rest) = id

  abbrev pub current_parent : Members → Bytes
  current_parent m = top_or m.root_span_id m.opened

  pub open_span : Bytes → Members → Members
  open_span id m = record m { opened = id ∷ m.opened }

  pub build : Settings → Bytes → Option Bytes → Details → Span
  build cfg id parent d = record {
    span_id = id;
    parent_span_id = parent;
    name = if cfg.strict_privacy then span_name d.name else d.name;
    kind = normalize_kind d.kind;
    started_at = out.format_timestamp d.started_at;
    duration_ms = out.two_decimals d.duration_ms;
    environment = cfg.environment;
    release = cfg.release;
    fields =
        if cfg.strict_privacy
        then strict_span_data json (span_data json d.kind d.fields)
        else span_data json d.kind d.fields;
  }

  -- Room is left for the root.
  pub record_span : Settings → Bytes → Bytes → Details → Members → Members
  record_span cfg id parent d m =
      if leb (max_spans - 1) (length m.spans)
      then m
      else record m { spans = m.spans ++ build cfg id (some parent) d ∷ [] }

  -- The innermost open span of that id: what lies below it, and what stays open.
  pub closing : Bytes → Bytes → List Bytes → Bytes × List Bytes
  closing root id [] = (root, [])
  closing root id (x ∷ rest) =
      let (below, others) = closing root id rest in
      if bytes_eq x id then (top_or root rest, rest) else (below, x ∷ others)

  pub close_span : Settings → Bytes → Details → Members → Members
  close_span cfg id d m =
      let (parent, rest) = closing m.root_span_id id m.opened in
      record_span cfg id parent d (record m { opened = rest })

  pub record_leaf : Settings → Bytes → Details → Members → Members
  record_leaf cfg new_id d m = record_span cfg new_id (current_parent m) d m

  pub record Payload : Type 0 where
    pub trace_id : Bytes
    pub spans : List Span

  pub finish : Settings → Details → Members → Option Payload
  finish cfg root m =
      if not m.send || out.less_than root.duration_ms cfg.trace_capture_threshold
      then none
      else some (record {
        trace_id = m.trace_id;
        spans =
            build cfg m.root_span_id m.remote_parent_span_id
              (record root { kind = codes "controller"; fields = json.empty_object })
            ∷ m.spans;
      })
