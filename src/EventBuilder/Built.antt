-- ===== src/EventBuilder/Built.antt =====
-- src/event_builder.cpp: what build gives.
use forge_ops_tracker_cpp.Prelude.{
  ◌≡◌, refl, sym, ap, subst, ◌∙◌, Bool, true, false, List, [], ◌∷◌, Option, none, some, Bytes,
  codes, bytes_eq, arith, ◌>>=◌, ◌⊎◌, inl,
}
use forge_ops_tracker_cpp.Json.{JsonOps, JsonLaws}
use forge_ops_tracker_cpp.Configuration.Values.{Configuration}
use forge_ops_tracker_cpp.SqlStatement.{mask}
use forge_ops_tracker_cpp.PiiScrubber.{scrub_string}
use forge_ops_tracker_cpp.PiiScrubber.Walk.Clean.{Clean}
use forge_ops_tracker_cpp.StrictPrivacy.Events.{event, message_text}
use forge_ops_tracker_cpp.StrictPrivacy.Events.Edits.{
  Edits, Edit, AreEdits, run_edits, leaves, run_edits-object, run_edits-others, set-Edits,
}
use forge_ops_tracker_cpp.StrictPrivacy.Events.Private.{PrivateEvent, event-PrivateEvent}
use forge_ops_tracker_cpp.EventBuilder.{
  attach_user, attach_trace, unscrubbed, scrubbed_if, stripped_if, finished, build,
}
use forge_ops_tracker_cpp.EventBuilder.Inputs.{Runtime, Thrown, message_of, raw_statement}
use forge_ops_tracker_cpp.EventBuilder.Scrub.{scrub_payload}
use forge_ops_tracker_cpp.EventBuilder.Scrubbed.{
  ScrubbedFrame, ScrubbedCrumb, AreObjects, ArrayOf, Found, IfFound,
}
use forge_ops_tracker_cpp.EventBuilder.Collected.{
  sent_statement, Collected, found_crumbs, unscrubbed-Collected,
}
use forge_ops_tracker_cpp.EventBuilder.Payload.{
  Scrubbed, scrub_payload-Scrubbed, sends_ready, strict_sends,
}

module _ (json : JsonOps) (laws : JsonLaws json) (rt : Runtime) where
  -- What is attached behind scrubbing.
  attached : json.Json → Option Bytes → List (Edit json)
  attached user trace_id =
      (codes "user", attach_user json (json.is_empty user) user)
      ∷ (codes "trace_id", attach_trace json trace_id)
      ∷ []

  attach_user-Edits :
      (skip : Bool) (user : json.Json) → Edits json (codes "user") (attach_user json skip user)
  attach_user-Edits true user = record { object = λ j o. o; others = λ k j o ne. refl }
  attach_user-Edits false user = set-Edits json laws (codes "user") user

  attach_trace-Edits :
      (trace_id : Option Bytes) → Edits json (codes "trace_id") (attach_trace json trace_id)
  attach_trace-Edits none = record { object = λ j o. o; others = λ k j o ne. refl }
  attach_trace-Edits (some id) = set-Edits json laws (codes "trace_id") _

  attached-AreEdits :
      (user : json.Json) (trace_id : Option Bytes) → AreEdits json (attached user trace_id)
  unfolding attached
  attached-AreEdits user trace_id =
      (attach_user-Edits (json.is_empty user) user, (attach_trace-Edits trace_id, tt))

  linked : json.Json → Option Bytes → json.Json → json.Json
  unfolding attached
  linked user trace_id built = run_edits json (attached user trace_id) built

  linked-others :
      (user : json.Json) (trace_id : Option Bytes) (built : json.Json)
      → json.is_object built ≡ true
      → (k : Bytes) → leaves json k (attached user trace_id) ≡ true
      → json.find k (linked user trace_id built) ≡ json.find k built
  unfolding linked
  linked-others user trace_id built o k l =
      run_edits-others json k (attached user trace_id) built (attached-AreEdits user trace_id) o l

  linked-object :
      (user : json.Json) (trace_id : Option Bytes) (built : json.Json)
      → json.is_object built ≡ true
      → json.is_object (linked user trace_id built) ≡ true
  unfolding linked
  linked-object user trace_id built o =
      run_edits-object json (attached user trace_id) built (attached-AreEdits user trace_id) o

  linked-Scrubbed :
      (user : json.Json) (trace_id : Option Bytes) (message : Bytes) (statement : Option Bytes)
      (built : json.Json)
      → json.is_object built ≡ true
      → Scrubbed json rt message statement built
      → Scrubbed json rt message statement (linked user trace_id built)
  unfolding attached bytes_eq
  linked-Scrubbed user trace_id message statement built o s =
      let same = linked-others user trace_id built o in
      record {
        message_out = same (codes "message") refl ∙ s.message_out;
        statement_out = same (codes "sql_statement") refl ∙ s.statement_out;
        frames_out =
            subst (Found json rt (ArrayOf json rt (ScrubbedFrame json rt)))
              (sym (same (codes "backtrace") refl)) s.frames_out;
        crumbs_out =
            subst (IfFound json rt (ArrayOf json rt (ScrubbedCrumb json rt)))
              (sym (same (codes "breadcrumbs") refl)) s.crumbs_out;
        context_out =
            subst (Found json rt (Clean json rt.replace_patterns none))
              (sym (same (codes "context") refl)) s.context_out;
      }

  build-finished :
      (cfg : Configuration) (thrown : Thrown) (context user crumbs : json.Json) (sql : Bytes)
      (trace_id : Option Bytes) (built : json.Json)
      → scrubbed_if json cfg.scrub_pii rt (unscrubbed json rt cfg thrown context crumbs sql)
        ≡ some built
      → build json rt cfg thrown context user crumbs sql trace_id
        ≡ some (
            stripped_if json cfg.strict_privacy cfg.privacy_allowed_fields
              (linked user trace_id built))
  unfolding build finished linked attached
  build-finished cfg thrown context user crumbs sql trace_id built e =
      ap (λ o. o >>= λ b. some (finished json cfg user trace_id b)) e

  scrubbed_if-on :
      (on : Bool) (payload r : json.Json)
      → on ≡ true
      → scrub_payload json rt payload ≡ some r
      → scrubbed_if json on rt payload ≡ some r
  scrubbed_if-on true payload r h e = e
  scrubbed_if-on false payload r h e = absurd (ground arith)

  -- Without strict privacy, and with PII scrubbed, build gives a payload whatever was thrown, if the
  -- breadcrumbs are a list of objects or there are none. The message and the statement that go out,
  -- the files and methods of the frames and the messages of the breadcrumbs are what scrub_string made
  -- of a text, the context and the data of the breadcrumbs are clean at every depth, and a statement
  -- goes out only if the configuration says so, masked.
  pub build-Scrubbed :
      (cfg : Configuration) (thrown : Thrown) (context user crumbs : json.Json) (sql : Bytes)
      (trace_id : Option Bytes)
      → cfg.scrub_pii ≡ true
      → cfg.strict_privacy ≡ false
      → (json.is_empty crumbs ≡ true) ⊎ AreObjects json rt crumbs
      → (out : json.Json) × (build json rt cfg thrown context user crumbs sql trace_id ≡ some out)
        × Scrubbed json rt
            (message_of thrown)
            (sent_statement json cfg.capture_sql_statement (mask (raw_statement thrown sql) none))
            out
  build-Scrubbed cfg thrown context user crumbs sql trace_id scrubs open_text ready =
      let (r, same, object, scrubbed) =
        scrub_payload-Scrubbed json laws rt _ _ context _ _
          (unscrubbed-Collected json laws rt cfg thrown context crumbs sql)
          (sends_ready json laws rt cfg crumbs ready) in
      (
        linked user trace_id r,
        build-finished cfg thrown context user crumbs sql trace_id r
              (scrubbed_if-on cfg.scrub_pii _ r scrubs same)
            ∙ ap
                (λ on.
                  some (stripped_if json on cfg.privacy_allowed_fields (linked user trace_id r)))
                open_text,
        linked-Scrubbed user trace_id _ _ r object scrubbed,
      )

  -- The message that a payload has before it is stripped.
  abbrev pub sent_message : Bool → Bytes → Bytes
  sent_message true message = scrub_string rt.replace_patterns message
  sent_message false message = message

  message_of_text :
      (j : json.Json) (text : Bytes)
      → json.find (codes "message") j ≡ some (json.of_text text)
      → message_text json j ≡ text
  message_of_text j text e = rw (e, laws.text_of-of_text text) refl

  -- What strict privacy is given: an object with the message.
  scrubbed_if-message :
      (on : Bool) (message : Bytes) (statement : Option Bytes) (context payload : json.Json)
      → Collected json rt message statement context none payload
      → (r : json.Json) × (scrubbed_if json on rt payload ≡ some r)
        × (json.is_object r ≡ true)
        × (json.find (codes "message") r ≡ some (json.of_text (sent_message on message)))
  scrubbed_if-message false message statement context payload c =
      (payload, refl, c.object, c.message_found)
  scrubbed_if-message true message statement context payload c =
      let (r, same, object, scrubbed) =
        scrub_payload-Scrubbed json laws rt message statement context none payload c (inl refl) in
      (r, same, object, scrubbed.message_out)

  -- Under strict privacy build gives a payload whatever was thrown and whatever the breadcrumbs are,
  -- scrubbed or not, and it is what a private event is of a payload with the message that would have
  -- gone out.
  pub build_strict :
      (cfg : Configuration) (thrown : Thrown) (context user crumbs : json.Json) (sql : Bytes)
      (trace_id : Option Bytes)
      → cfg.strict_privacy ≡ true
      → (out payload : json.Json) × (build json rt cfg thrown context user crumbs sql trace_id
          ≡ some out)
        × (message_text json payload ≡ sent_message cfg.scrub_pii (message_of thrown))
        × PrivateEvent json cfg.privacy_allowed_fields payload out
  unfolding bytes_eq attached
  build_strict cfg thrown context user crumbs sql trace_id strict =
      let collected =
        subst
          (λ on.
            Collected json rt (message_of thrown)
              (sent_statement json cfg.capture_sql_statement (mask (raw_statement thrown sql) none))
              context (found_crumbs json on crumbs)
              (unscrubbed json rt cfg thrown context crumbs sql))
          (strict_sends json laws rt cfg crumbs strict)
          (unscrubbed-Collected json laws rt cfg thrown context crumbs sql) in
      let (r, same, object, message) =
        scrubbed_if-message cfg.scrub_pii (message_of thrown) _ context _ collected in
      let payload = linked user trace_id r in
      (
        event json payload cfg.privacy_allowed_fields,
        payload,
        build-finished cfg thrown context user crumbs sql trace_id r same
            ∙ ap (λ on. some (stripped_if json on cfg.privacy_allowed_fields payload)) strict,
        message_of_text payload _
            (linked-others user trace_id r object (codes "message") refl ∙ message),
        event-PrivateEvent json laws payload cfg.privacy_allowed_fields
            (linked-object user trace_id r object),
      )
