-- ===== src/SpanBuffer/Traces.antt =====
-- src/span_buffer.cpp: the payload of a finished trace.
use forge_ops_tracker_cpp.Prelude.{
  ◌≤◌, ◌≡◌, refl, sym, ap, ◌∙◌, true, false, [], ◌∷◌, ◌++◌, Option, none, some, Bytes, codes,
  length, take, length-take, arith,
}
use forge_ops_tracker_cpp.Json.{JsonOps}
use forge_ops_tracker_cpp.TraceParent.{Context}
use forge_ops_tracker_cpp.SpanBuffer.{
  Outside, Settings, Details, Span, Members, Payload, start, build, finish, current_parent,
}
use forge_ops_tracker_cpp.SpanBuffer.Nesting.{Calls, perform, tree_spans, perform-tree, with_spans}

module _ (out : Outside) (json : JsonOps) (cfg : Settings) where
  -- The root of a trace as it goes out.
  abbrev pub root_span : Details out json → Members out json → Span out json
  root_span d m =
      build out json cfg m.root_span_id m.remote_parent_span_id
        (record d { kind = codes "controller"; fields = json.empty_object })

  start-spans :
      (t s : Bytes) (incoming : Option Context)
      → ((start out json cfg t s incoming).spans ≡ [])
        × (current_parent out json (start out json cfg t s incoming) ≡ s)
        × ((start out json cfg t s incoming).root_span_id ≡ s)
  unfolding start
  start-spans t s none = (refl, refl, refl)
  start-spans t s (some incoming) = (refl, refl, refl)

  finish-some :
      (d : Details out json) (m : Members out json) {p : Payload out json}
      → finish out json cfg d m ≡ some p
      → (m.send ≡ true)
        × (out.less_than d.duration_ms cfg.trace_capture_threshold ≡ false)
        × (p.trace_id ≡ m.trace_id)
        × (p.spans ≡ root_span d m ∷ m.spans)
  unfolding finish
  finish-some d m h = ground arith

  abbrev pub traced : Bytes → Bytes → Option Context → Calls out json cfg → Members out json
  traced t s incoming calls = perform out json cfg calls (start out json cfg t s incoming)

  traced-with_spans :
      (t s : Bytes) (incoming : Option Context) (calls : Calls out json cfg)
      → traced t s incoming calls
        ≡ with_spans out json cfg
            (start out json cfg t s incoming)
            (tree_spans out json cfg s calls)
  traced-with_spans t s incoming calls =
      let (empty, top, root) = start-spans t s incoming in
      perform-tree out json cfg calls (start out json cfg t s incoming)
        (omega (arith, ap length empty))
      ∙ ap
          (λ parent.
            with_spans out json cfg (start out json cfg t s incoming)
              (tree_spans out json cfg parent calls))
          top

  -- A trace that goes out after any tree of calls was to be sent and was not too fast; it has the id
  -- it was started with, its root first, then the first 499 spans of the tree in the order in which
  -- they end, each under its caller: at most 500 in all.
  pub trace_payload :
      (t s : Bytes) (incoming : Option Context) (calls : Calls out json cfg) (d : Details out json)
      {p : Payload out json}
      → finish out json cfg d (traced t s incoming calls) ≡ some p
      → ((start out json cfg t s incoming).send ≡ true)
        × (out.less_than d.duration_ms cfg.trace_capture_threshold ≡ false)
        × (p.trace_id ≡ (start out json cfg t s incoming).trace_id)
        × (p.spans
            ≡ root_span d (start out json cfg t s incoming)
              ∷ take 499 (tree_spans out json cfg s calls))
        × (length p.spans ≤ 500)
  trace_payload t s incoming calls d {p} h =
      let m : Members out json = start out json cfg t s incoming in
      let (send, slow, same, spans) =
        finish-some d (with_spans out json cfg m (tree_spans out json cfg s calls))
          (ap (finish out json cfg d) (sym (traced-with_spans t s incoming calls)) ∙ h) in
      let kept : p.spans ≡ root_span d m ∷ take 499 (tree_spans out json cfg s calls) =
        spans
        ∙ ap (λ xs. root_span d m ∷ take 499 (xs ++ tree_spans out json cfg s calls))
            (start-spans t s incoming).0 in
      (
        send,
        slow,
        same,
        kept,
        omega (arith, ap length kept, length-take 499 (tree_spans out json cfg s calls)),
      )
