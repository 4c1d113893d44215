-- ===== src/Tracker/Tests.antt =====
-- A thread's trail and scopes.
use forge_ops_tracker_cpp.Prelude.{
  ℕ, ◌≡◌, refl, true, List, [], ◌∷◌, ◌++◌, none, codes, to_string, ltb,
}
use forge_ops_tracker_cpp.Json.Example.{fields, end, values}
use forge_ops_tracker_cpp.Configuration.Values.{Configuration, defaults}
use forge_ops_tracker_cpp.SpanBuffer.{Outside}
use forge_ops_tracker_cpp.Tracker.Breadcrumbs.{
  Action, add_breadcrumb, clear_breadcrumbs, drop_oldest, added, trail_after, all_since, last_of,
  trail_after-last_of,
}
use forge_ops_tracker_cpp.Tracker.Captures.{joined}
use forge_ops_tracker_cpp.Tracker.Scopes.Blocks.{
  SpanId, SpanScope, TraceScope, Block, nothing, span_scope, trace_scope, run_block, payloads,
  run_block-payloads,
}

abbrev config : Configuration
config = record (defaults (λ name. none)) { max_breadcrumbs = 2 }

abbrev actions : List (Action ℕ)
actions =
    add_breadcrumb 1
    ∷ clear_breadcrumbs
    ∷ add_breadcrumb 2
    ∷ add_breadcrumb 3
    ∷ add_breadcrumb 4
    ∷ []

oldest_dropped : trail_after config actions [] ≡ 3 ∷ 4 ∷ []
unfolding trail_after added drop_oldest defaults
oldest_dropped = refl

trail_after-last_of_example :
    trail_after config actions (last_of config.max_breadcrumbs [])
    ≡ last_of config.max_breadcrumbs (all_since actions [])
unfolding defaults
trail_after-last_of_example = trail_after-last_of config actions [] refl refl

names_joined : joined (codes "a" ∷ codes "b" ∷ []) ≡ codes "a, b"
unfolding joined
names_joined = refl

-- Times and durations in milliseconds.
abbrev clock : Outside
clock = record {
  Time = ℕ;
  format_timestamp = to_string;
  Double = ℕ;
  two_decimals = λ d. d;
  less_than = ltb;
}

abbrev id : ℕ → SpanId
id n = record { first = n; others = [] }

abbrev trace_of : ℕ → ℕ → TraceScope clock values
trace_of n elapsed = record {
  trace_id = codes "t";
  id = id n;
  root_name = codes "root";
  traceparent = none;
  started_at = 0;
  nested_at = 0;
  elapsed = elapsed;
}

abbrev query : SpanScope clock values
query = record {
  id = id 7;
  name = codes "q";
  kind = codes "database";
  fields = fields end;
  started_at = 1;
  statements = (codes "SELECT 1", none) ∷ [];
  elapsed = 5;
}

-- A trace inside a trace, a span outside both, and a trace that is too fast.
abbrev block : Block clock values
block =
    trace_scope (trace_of 1 1500)
      (trace_scope (trace_of 2 10) (span_scope query nothing nothing) nothing)
      (span_scope query nothing (trace_scope (trace_of 3 10) nothing nothing))

run_block-payloads_example :
    run_block clock values config true block (record { trace = none; sent = [] })
    ≡ record { trace = none; sent = [] ++ payloads clock values config block }
run_block-payloads_example = run_block-payloads clock values config block []
