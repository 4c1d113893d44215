-- ===== src/SpanBuffer/Tests.antt =====
-- A small trace, and the theorems at it.
use forge_ops_tracker_cpp.Prelude.{
  ℕ, ◌≤◌, ◌≡◌, refl, true, false, [], ◌∷◌, map, none, some, codes, length, take, to_string, ltb,
  arith,
}
use forge_ops_tracker_cpp.Json.Example.{fields, end, values}
use forge_ops_tracker_cpp.SpanBuffer.{
  Outside, Settings, Details, Span, Members, Payload, start, build, finish,
}
use forge_ops_tracker_cpp.SpanBuffer.Nesting.{
  Calls, done, leaf, nested, perform, tree_spans, perform-tree, with_spans,
}
use forge_ops_tracker_cpp.SpanBuffer.Traces.{trace_payload, traced, root_span}

-- Times and durations in milliseconds.
abbrev clock : Outside
clock = record {
  Time = ℕ;
  format_timestamp = to_string;
  Double = ℕ;
  two_decimals = λ d. d;
  less_than = ltb;
}

abbrev cfg : Settings
cfg = record {
  strict_privacy = false;
  environment = codes "production";
  release = none;
  track_tracing = true;
  trace_capture_threshold = 1000;
}

abbrev detail : ℕ → Details clock values
detail n = record {
  name = codes "work";
  kind = codes "service";
  started_at = n;
  duration_ms = 1500;
  fields = fields end;
}

-- "b" ends inside "a", and "c" stands behind it.
abbrev calls : Calls clock values cfg
calls =
    nested (codes "a") (detail 1) (leaf (codes "b") (detail 2) done)
      (leaf (codes "c") (detail 3) done)

abbrev before : Members clock values
before = record {
  trace_id = codes "t";
  root_span_id = codes "r";
  remote_parent_span_id = none;
  send = true;
  spans = [];
  opened = [];
}

tree-order :
    map (λ (x : Span clock values). x.span_id) (tree_spans clock values cfg (codes "r") calls)
    ≡ codes "b" ∷ codes "a" ∷ codes "c" ∷ []
unfolding tree_spans build
tree-order = refl

perform-tree_example :
    perform clock values cfg calls before
    ≡ with_spans clock values cfg before (tree_spans clock values cfg (codes "r") calls)
perform-tree_example = perform-tree clock values cfg calls before (omega arith)

abbrev sent : Payload clock values
sent = record {
  trace_id = codes "t";
  spans =
      root_span clock values cfg (detail 0) (start clock values cfg (codes "t") (codes "r") none)
      ∷ [];
}

sent-finish :
    finish clock values cfg (detail 0) (traced clock values cfg (codes "t") (codes "r") none done)
    ≡ some sent
unfolding finish perform start
sent-finish = refl

trace_payload_example :
    ((start clock values cfg (codes "t") (codes "r") none).send ≡ true)
    × (clock.less_than 1500 1000 ≡ false)
    × (sent.trace_id ≡ (start clock values cfg (codes "t") (codes "r") none).trace_id)
    × (sent.spans
        ≡ root_span clock values cfg
            (detail 0)
            (start clock values cfg (codes "t") (codes "r") none)
          ∷ take 499 (tree_spans clock values cfg (codes "r") done))
    × (length sent.spans ≤ 500)
trace_payload_example =
    trace_payload clock values cfg (codes "t") (codes "r") none done (detail 0) sent-finish
