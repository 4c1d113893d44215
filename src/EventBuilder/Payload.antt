-- ===== src/EventBuilder/Payload.antt =====
-- src/event_builder.cpp: what scrubbing makes of the payload that build collects.
use forge_ops_tracker_cpp.Prelude.{
  ◌≡◌, refl, sym, subst, Bool, true, false, List, [], ◌∷◌, All, Option, none, some, Bytes, codes,
  bytes_eq, arith, ◌⊎◌, inl, inr,
}
use forge_ops_tracker_cpp.Json.{JsonOps, JsonLaws}
use forge_ops_tracker_cpp.Configuration.Values.{Configuration}
use forge_ops_tracker_cpp.PiiScrubber.{scrub_string}
use forge_ops_tracker_cpp.PiiScrubber.Walk.Clean.{Clean}
use forge_ops_tracker_cpp.EventBuilder.Inputs.{Runtime}
use forge_ops_tracker_cpp.EventBuilder.Scrub.{scrub_payload}
use forge_ops_tracker_cpp.EventBuilder.Steps.{Step, Works, run_steps-Done}
use forge_ops_tracker_cpp.EventBuilder.Scrubbed.{
  ScrubbedFrame, ScrubbedCrumb, AreObjects, ArrayOf, Found, IfFound, text_json, scrubbed_text,
  message_step, statement_step, frames_step, breadcrumbs_step, member_step, message_step-Works,
  statement_step-Works, member_step-Works,
}
use forge_ops_tracker_cpp.EventBuilder.Loops.{frames_step-Works, breadcrumbs_step-Works}
use forge_ops_tracker_cpp.EventBuilder.Collected.{sends_crumbs, Collected, found_crumbs}

module _ (json : JsonOps) (rt : Runtime) where
  -- What a scrubbed payload holds.
  pub record Scrubbed (message : Bytes) (statement : Option Bytes) (out : json.Json) : Type 0 where
    pub message_out :
        json.find (codes "message") out
        ≡ some (json.of_text (scrub_string rt.replace_patterns message))
    pub statement_out :
        json.find (codes "sql_statement") out ≡ text_json json rt (scrubbed_text json rt statement)
    pub frames_out :
        Found json rt (ArrayOf json rt (ScrubbedFrame json rt)) (json.find (codes "backtrace") out)
    pub crumbs_out :
        IfFound json rt
          (ArrayOf json rt (ScrubbedCrumb json rt))
          (json.find (codes "breadcrumbs") out)
    pub context_out :
        Found json rt (Clean json rt.replace_patterns none) (json.find (codes "context") out)

  abbrev steps : Bytes → Option Bytes → List (Step json)
  steps message statement =
      message_step json rt message
      ∷ statement_step json rt statement
      ∷ frames_step json rt
      ∷ breadcrumbs_step json rt
      ∷ member_step json rt (codes "context")
      ∷ member_step json rt (codes "tags")
      ∷ []

module _ (json : JsonOps) (laws : JsonLaws json) (rt : Runtime) where
  steps-Works :
      (message : Bytes) (statement : Option Bytes)
      → All (Works json) (steps json rt message statement)
  steps-Works message statement = (
    message_step-Works json laws rt message,
    (
      statement_step-Works json laws rt statement,
      (
        frames_step-Works json laws rt,
        (
          breadcrumbs_step-Works json laws rt,
          (
            member_step-Works json laws rt (codes "context"),
            (member_step-Works json laws rt (codes "tags"), tt),
          ),
        ),
      ),
    ),
  )

  -- A list of breadcrumbs, or none.
  ready_crumbs :
      (on : Bool) (crumbs : json.Json)
      → (on ≡ true → AreObjects json rt crumbs)
      → IfFound json rt (AreObjects json rt) (found_crumbs json on crumbs)
  ready_crumbs false crumbs h = inl refl
  ready_crumbs true crumbs h = inr (crumbs, refl, h refl)

  pub scrub_payload-Scrubbed :
      (message : Bytes) (statement : Option Bytes) (context : json.Json) (crumbs : Option json.Json)
      (payload : json.Json)
      → Collected json rt message statement context crumbs payload
      → IfFound json rt (AreObjects json rt) crumbs
      → (r : json.Json) × (scrub_payload json rt payload ≡ some r)
        × (json.is_object r ≡ true)
        × Scrubbed json rt message statement r
  unfolding scrub_payload bytes_eq
  scrub_payload-Scrubbed message statement context crumbs payload c ready =
      let (r, same, object, others, done) =
        run_steps-Done json (steps json rt message statement) payload
          (steps-Works message statement) refl c.object
          (
            c.message_found,
            (
              c.statement_found,
              (
                c.frames_found,
                (
                  subst (IfFound json rt (AreObjects json rt)) (sym c.crumbs_found) ready,
                  ((context, c.context_found, tt), ((json.empty_object, c.tags_found, tt), tt)),
                ),
              ),
            ),
          ) in
      (
        r,
        same,
        object,
        record {
          message_out = done.0;
          statement_out = done.1.0;
          frames_out = done.1.1.0;
          crumbs_out = done.1.1.1.0;
          context_out = done.1.1.1.1.0;
        },
      )

  -- No breadcrumbs, or a list of objects.
  pub sends_ready :
      (cfg : Configuration) (crumbs : json.Json)
      → (json.is_empty crumbs ≡ true) ⊎ AreObjects json rt crumbs
      → IfFound json rt
          (AreObjects json rt)
          (found_crumbs json (sends_crumbs json cfg crumbs) crumbs)
  sends_ready cfg crumbs (inl e) =
      ready_crumbs (sends_crumbs json cfg crumbs) crumbs (λ on. absurd (ground arith))
  sends_ready cfg crumbs (inr objects) =
      ready_crumbs (sends_crumbs json cfg crumbs) crumbs (λ on. objects)

  pub strict_sends :
      (cfg : Configuration) (crumbs : json.Json)
      → cfg.strict_privacy ≡ true
      → sends_crumbs json cfg crumbs ≡ false
  strict_sends cfg crumbs strict = ground arith
