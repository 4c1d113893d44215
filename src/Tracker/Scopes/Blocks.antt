-- ===== src/Tracker/Scopes/Blocks.antt =====
-- src/forge_ops_tracker.cpp: what scopes that nest, as C++ makes them, send.
use forge_ops_tracker_cpp.Prelude.{
  ℕ, ◌≡◌, refl, sym, ap, ◌∙◌, Bool, true, false, List, [], ◌∷◌, ◌++◌, append-nil, append_assoc,
  Option, none, some, Bytes,
}
use forge_ops_tracker_cpp.Json.{JsonOps}
use forge_ops_tracker_cpp.Configuration.Values.{Configuration}
use forge_ops_tracker_cpp.SpanBuffer.{
  Outside, Details, Members, Payload, finish, open_span, close_span, record_leaf,
}
use forge_ops_tracker_cpp.SpanBuffer.Nesting.{Calls, done, leaf, nested, perform}
use forge_ops_tracker_cpp.Tracker.Scopes.{
  settings, Thread, ScopedSpan, new_span, opening, set_statement, details, closed_in, closing_span,
  record_span, NewTrace, nested_span, started, new_trace, starting, listed, root_details, trace_in,
  ending_trace,
}

-- An id has a byte at least.
pub record SpanId : Type 0 where
  pub first : ℕ
  pub others : Bytes

abbrev pub bytes_of : SpanId → Bytes
bytes_of id = id.first ∷ id.others

module _ (out : Outside) (json : JsonOps) where
  -- The declaration of a ScopedSpan, with the calls of set_statement on it, and how long it lives.
  pub record SpanScope : Type 0 where
    pub id : SpanId
    pub name : Bytes
    pub kind : Bytes
    pub fields : json.Json
    pub started_at : out.Time
    pub statements : List (Bytes × Option Bytes)
    pub elapsed : out.Double

  -- The declaration of a ScopedTrace, and how long it lives.
  pub record TraceScope : Type 0 where
    pub trace_id : Bytes
    pub id : SpanId
    pub root_name : Bytes
    pub traceparent : Option Bytes
    pub started_at : out.Time
    pub nested_at : out.Time
    pub elapsed : out.Double

  -- What a thread runs: spans recorded outright, and scopes with what runs in them.
  pub data Block : Type 0 where
    nothing : Block
    recorded : SpanId → Details out json → Block → Block
    span_scope : SpanScope → Block → Block → Block
    trace_scope : TraceScope → Block → Block → Block

  abbrev stated : List (Bytes × Option Bytes) → ScopedSpan out json → ScopedSpan out json
  stated [] s = s
  stated ((statement, system) ∷ rest) s = stated rest (set_statement out json statement system s)

  abbrev new_of : TraceScope → NewTrace out json
  new_of scope = record {
    trace_id = scope.trace_id;
    span_id = bytes_of scope.id;
    root_name = scope.root_name;
    traceparent = scope.traceparent;
    started_at = scope.started_at;
    nested_at = scope.nested_at;
  }

  abbrev span_of : SpanScope → Thread out json → ScopedSpan out json
  span_of scope t =
      stated scope.statements (
        new_span out json scope.name scope.kind scope.fields (bytes_of scope.id) scope.started_at t)

  unfoldable pub run_block : Configuration → Bool → Block → Thread out json → Thread out json
  run_block cfg enabled nothing t = t
  run_block cfg enabled (recorded id d next) t =
      run_block cfg enabled next (record_span out json cfg (bytes_of id) d t)
  run_block cfg enabled (span_scope scope inside next) t = run_block cfg enabled next (
      closing_span out json cfg scope.elapsed (span_of scope t)
        (run_block cfg enabled inside (opening out json (bytes_of scope.id) t)))
  run_block cfg enabled (trace_scope scope inside next) t = run_block cfg enabled next (
      ending_trace out json cfg scope.elapsed (new_trace out json (new_of scope) t)
        (run_block cfg enabled inside (starting out json cfg enabled (new_of scope) t)))

  -- A thread inside a trace, with nothing in it: the scopes read no more of it.
  abbrev inside_trace : Members out json → Thread out json
  inside_trace m = record { trace = some m; sent = [] }

  -- The calls on the buffer of an open trace.
  unfoldable pub calls_of :
      (cfg : Configuration) → Members out json → Block → Calls out json (settings cfg)
  calls_of cfg m nothing = done
  calls_of cfg m (recorded id d next) = leaf (bytes_of id) d (calls_of cfg m next)
  calls_of cfg m (span_scope scope inside next) =
      nested (bytes_of scope.id) (details out json scope.elapsed (span_of scope (inside_trace m)))
        (calls_of cfg m inside) (calls_of cfg m next)
  calls_of cfg m (trace_scope scope inside next) =
      nested (bytes_of scope.id)
        (details out json scope.elapsed (nested_span out json (new_of scope) (inside_trace m)))
        (calls_of cfg m inside) (calls_of cfg m next)

  -- The payloads of the outermost traces, in their order.
  unfoldable pub payloads : Configuration → Block → List (Payload out json)
  payloads cfg nothing = []
  payloads cfg (recorded id d next) = payloads cfg next
  payloads cfg (span_scope scope inside next) = payloads cfg inside ++ payloads cfg next
  payloads cfg (trace_scope scope inside next) =
      let new = new_of scope in
      let m = started out json cfg new in
      listed out json (
        finish out json (settings cfg)
          (root_details out json scope.elapsed (trace_in out json new (inside_trace m) none))
          (perform out json (settings cfg) (calls_of cfg m inside) m))
      ++ payloads cfg next

  stated-span_id :
      (statements : List (Bytes × Option Bytes)) (s : ScopedSpan out json)
      → (stated statements s).span_id ≡ s.span_id
  unfolding set_statement
  stated-span_id [] s = refl
  stated-span_id ((statement, system) ∷ rest) s =
      stated-span_id rest (set_statement out json statement system s)

  -- The destructor of a span that was opened in the trace.
  closing_span-inside :
      (cfg : Configuration) (elapsed : out.Double) (s : ScopedSpan out json) (id : SpanId)
      (m : Members out json) (sent : List (Payload out json))
      → s.span_id ≡ bytes_of id
      → closing_span out json cfg elapsed s (record { trace = some m; sent = sent }) ≡ record {
        trace =
            some (close_span out json (settings cfg) (bytes_of id) (details out json elapsed s) m);
        sent = sent;
      }
  closing_span-inside cfg elapsed s id m sent e =
      ap
        (λ x. record {
          trace = closed_in out json cfg (details out json elapsed s) x (some m);
          sent = sent;
        })
        e

  -- Outside a trace there is nothing to close.
  closing_span-outside :
      (cfg : Configuration) (elapsed : out.Double) (s : ScopedSpan out json)
      (sent : List (Payload out json))
      → s.span_id ≡ []
      → closing_span out json cfg elapsed s (record { trace = none; sent = sent })
        ≡ record { trace = none; sent = sent }
  closing_span-outside cfg elapsed s sent e =
      ap
        (λ x. record {
          trace = closed_in out json cfg (details out json elapsed s) x none;
          sent = sent;
        })
        e

  -- Inside a trace, scopes are calls on its buffer, and send nothing.
  run_block-inside :
      (cfg : Configuration) (enabled : Bool) (block : Block) (m0 m : Members out json)
      (sent : List (Payload out json))
      → run_block cfg enabled block (record { trace = some m; sent = sent }) ≡ record {
        trace = some (perform out json (settings cfg) (calls_of cfg m0 block) m);
        sent = sent;
      }
  unfolding run_block calls_of perform
  run_block-inside cfg enabled nothing m0 m sent = refl
  run_block-inside cfg enabled (recorded id d next) m0 m sent =
      run_block-inside cfg enabled next m0 (record_leaf out json (settings cfg) (bytes_of id) d m)
        sent
  run_block-inside cfg enabled (span_scope scope inside next) m0 m sent =
      let s = span_of scope (inside_trace m0) in
      let within =
        perform out json (settings cfg) (calls_of cfg m0 inside)
          (open_span out json (bytes_of scope.id) m) in
      ap (λ t. run_block cfg enabled next (closing_span out json cfg scope.elapsed s t))
        (run_block-inside cfg enabled inside m0 (open_span out json (bytes_of scope.id) m) sent)
      ∙ ap (run_block cfg enabled next) (
          closing_span-inside cfg scope.elapsed s scope.id within sent
            (stated-span_id scope.statements _))
      ∙ run_block-inside cfg enabled next m0
          (close_span out json (settings cfg) (bytes_of scope.id) (details out json scope.elapsed s)
            within)
          sent
  run_block-inside cfg enabled (trace_scope scope inside next) m0 m sent =
      let s = nested_span out json (new_of scope) (inside_trace m0) in
      let within =
        perform out json (settings cfg) (calls_of cfg m0 inside)
          (open_span out json (bytes_of scope.id) m) in
      ap (λ t. run_block cfg enabled next (closing_span out json cfg scope.elapsed s t))
        (run_block-inside cfg enabled inside m0 (open_span out json (bytes_of scope.id) m) sent)
      ∙ run_block-inside cfg enabled next m0
          (close_span out json (settings cfg) (bytes_of scope.id) (details out json scope.elapsed s)
            within)
          sent

  -- Whatever scopes a thread without an open trace nests, sequences and records in, while sending is
  -- enabled: it ends without an open trace, and has sent just the payloads of its outermost traces, in
  -- their order. Each holds what a tree of calls on a buffer records: the trace's inner traces as spans,
  -- each scope closed when it ends. Spans outside a trace send nothing.
  pub run_block-payloads :
      (cfg : Configuration) (block : Block) (sent : List (Payload out json))
      → run_block cfg true block (record { trace = none; sent = sent })
        ≡ record { trace = none; sent = sent ++ payloads cfg block }
  unfolding run_block payloads
  run_block-payloads cfg nothing sent =
      ap (λ xs. record { trace = none; sent = xs }) (sym (append-nil sent))
  run_block-payloads cfg (recorded id d next) sent = run_block-payloads cfg next sent
  run_block-payloads cfg (span_scope scope inside next) sent =
      let s = span_of scope (record { trace = none; sent = sent }) in
      ap (λ t. run_block cfg true next (closing_span out json cfg scope.elapsed s t))
        (run_block-payloads cfg inside sent)
      ∙ ap (run_block cfg true next) (
          closing_span-outside cfg scope.elapsed s (sent ++ payloads cfg inside)
            (stated-span_id scope.statements _))
      ∙ run_block-payloads cfg next (sent ++ payloads cfg inside)
      ∙ ap (λ xs. record { trace = none; sent = xs })
          (append_assoc sent (payloads cfg inside) (payloads cfg next))
  run_block-payloads cfg (trace_scope scope inside next) sent =
      let new = new_of scope in
      let m = started out json cfg new in
      let root =
        root_details out json scope.elapsed (trace_in out json new (inside_trace m) none) in
      let own = listed out json (
        finish out json (settings cfg) root
          (perform out json (settings cfg) (calls_of cfg m inside) m)) in
      ap
        (λ t.
          run_block cfg true next (
            ending_trace out json cfg scope.elapsed (trace_in out json new (inside_trace m) none)
              t))
        (run_block-inside cfg true inside m m sent)
      ∙ run_block-payloads cfg next (sent ++ own)
      ∙ ap (λ xs. record { trace = none; sent = xs }) (append_assoc sent own (payloads cfg next))

  -- With sending disabled no trace is opened.
  pub run_block-disabled :
      (cfg : Configuration) (block : Block) (sent : List (Payload out json))
      → run_block cfg false block (record { trace = none; sent = sent })
        ≡ record { trace = none; sent = sent }
  unfolding run_block
  run_block-disabled cfg nothing sent = refl
  run_block-disabled cfg (recorded id d next) sent = run_block-disabled cfg next sent
  run_block-disabled cfg (span_scope scope inside next) sent =
      let s = span_of scope (record { trace = none; sent = sent }) in
      ap (λ t. run_block cfg false next (closing_span out json cfg scope.elapsed s t))
        (run_block-disabled cfg inside sent)
      ∙ ap (run_block cfg false next)
          (closing_span-outside cfg scope.elapsed s sent (stated-span_id scope.statements _))
      ∙ run_block-disabled cfg next sent
  run_block-disabled cfg (trace_scope scope inside next) sent =
      let s = trace_in out json (new_of scope) (record { trace = none; sent = sent }) none in
      ap (λ t. run_block cfg false next (ending_trace out json cfg scope.elapsed s t))
        (run_block-disabled cfg inside sent)
      ∙ ap (λ xs. run_block cfg false next (record { trace = none; sent = xs })) (append-nil sent)
      ∙ run_block-disabled cfg next sent
