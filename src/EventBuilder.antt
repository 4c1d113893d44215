-- ===== src/EventBuilder.antt =====
-- src/event_builder.cpp: the payload of an event. What the C++ runtime says (the demangler, the stack,
-- the clock, the path of the executable) and std::regex are parameters. `none` is an exception thrown.
pub mod Inputs
pub mod Frames
pub mod Scrub
pub mod Steps
pub mod Scrubbed
pub mod Loops
pub mod Collected
pub mod Payload
pub mod Built
mod Tests
use forge_ops_tracker_cpp.Prelude.{
  ℕ, suc, Bool, true, false, not, ◌&&◌, ◌||◌, List, [], ◌∷◌, take, Option, none, some, Bytes, codes,
  bytes_eq, length, ltb, ◌==◌, ◌>>=◌, if◌then◌else◌,
}
use forge_ops_tracker_cpp.Json.{JsonOps}
use forge_ops_tracker_cpp.Configuration.Values.{Configuration}
use forge_ops_tracker_cpp.SqlStatement.{mask}
use forge_ops_tracker_cpp.SqlStatement.Objects.{Objects, extract_objects}
use forge_ops_tracker_cpp.SqlStatement.Causes.{
  Exception, plain, around_other, around, or_else, find_in,
}
use forge_ops_tracker_cpp.PiiScrubber.{scrub_string}
use forge_ops_tracker_cpp.PiiScrubber.Walk.{each_member, each_element, scrub}
use forge_ops_tracker_cpp.SpanBuffer.Data.{text_at}
use forge_ops_tracker_cpp.StrictPrivacy.Events.{event}
use forge_ops_tracker_cpp.EventBuilder.Inputs.{
  Runtime, Thrown, what, k_max_frames, demangle, exception_class, message_of, raw_statement,
  current_executable_name, is_in_app, standard, other,
}
use forge_ops_tracker_cpp.EventBuilder.Scrub.{
  scrub_value, scrub_text, scrub_text_if_any, scrub_part, part, scrub_frame, or_null, scrub_member,
  scrub_crumb, each_in, replace_each, scrub_frames, crumbs_in, scrub_breadcrumbs, scrub_payload,
}

module _ (json : JsonOps) where
  abbrev pub text_or_null : Option Bytes → json.Json
  text_or_null none = json.null
  text_or_null (some text) = json.of_text text

  abbrev pub attach_source_context : json.Json → json.Json
  attach_source_context frame = frame

  pub frame_of : Runtime → Bytes × Bytes → json.Json
  frame_of rt (image, symbol) = attach_source_context (
      json.set (codes "in_app") (json.of_boolean (is_in_app rt image)) (
        json.set (codes "method") (json.of_text (demangle rt symbol)) (
          json.set (codes "line") json.null
            (json.set (codes "file") (json.of_text image) json.empty_object))))

  -- A line that does not match is skipped.
  abbrev pub frame_onto : Runtime → Option (Bytes × Bytes) → json.Json → json.Json
  frame_onto rt none frames = frames
  frame_onto rt (some m) frames = json.push (frame_of rt m) frames

  pub frames_onto : Runtime → List Bytes → json.Json → json.Json
  frames_onto rt [] frames = frames
  frames_onto rt (line ∷ lines) frames =
      frames_onto rt lines (frame_onto rt (rt.match_frame line) frames)

  pub backtrace : Runtime → json.Json
  backtrace rt = elim rt.symbols [
    | none ↦ json.empty_array
    | some lines ↦ frames_onto rt (take k_max_frames lines) json.empty_array
  ]

  abbrev texts_onto : List Bytes → json.Json → json.Json
  texts_onto [] out = out
  texts_onto (text ∷ texts) out = texts_onto texts (json.push (json.of_text text) out)

  abbrev operation_object : Bytes → json.Json
  operation_object [] = json.empty_object
  operation_object (c ∷ s) = json.set (codes "operation") (json.of_text (c ∷ s)) json.empty_object

  -- The object that extract_objects makes.
  pub objects_json : Objects → json.Json
  objects_json o = json.set (codes "relations") (texts_onto o.relations json.empty_array) (
      json.set (codes "procedures") (texts_onto o.procedures json.empty_array)
        (operation_object o.operation))

  abbrev pub attach_objects : Bool → Option Objects → json.Json → json.Json
  attach_objects true (some objects) payload =
      json.set (codes "sql_objects") (objects_json objects) payload
  attach_objects _ _ payload = payload

  abbrev pub attach_statement : Bool → Bytes → json.Json → json.Json
  attach_statement false masked payload = payload
  attach_statement true masked payload =
      json.set (codes "sql_statement") (json.of_text masked) payload

  abbrev pub attach_masked : Bool → Bool → Option Bytes → json.Json → json.Json
  attach_masked objects text none payload = payload
  attach_masked objects text (some masked) payload =
      attach_statement text masked (attach_objects objects (extract_objects masked) payload)

  pub attach_sql : Configuration → json.Json → Bytes → json.Json
  attach_sql cfg payload statement =
      if not cfg.capture_sql_objects && not cfg.capture_sql_statement
      then payload
      else attach_masked cfg.capture_sql_objects cfg.capture_sql_statement (mask statement none)
          payload

  -- The object that build starts from.
  pub collected : Runtime → Configuration → Thrown → json.Json → json.Json
  collected rt cfg thrown context = json.set (codes "sdk_name") (json.of_text (codes "cpp")) (
      json.set (codes "tags") json.empty_object (
        json.set (codes "context") context (
          json.set (codes "server_name") (text_or_null cfg.server_name) (
            json.set (codes "release") (text_or_null cfg.release) (
              json.set (codes "environment") (json.of_text cfg.environment) (
                json.set (codes "occurred_at") (json.of_text rt.occurred_at) (
                  json.set (codes "backtrace") (backtrace rt) (
                    json.set (codes "message") (json.of_text (message_of thrown)) (
                      json.set (codes "exception_class") (json.of_text (exception_class rt thrown))
                        json.empty_object)))))))))

  abbrev pub attach_breadcrumbs : Bool → json.Json → json.Json → json.Json
  attach_breadcrumbs false crumbs payload = payload
  attach_breadcrumbs true crumbs payload = json.set (codes "breadcrumbs") crumbs payload

  abbrev pub attach_user : Bool → json.Json → json.Json → json.Json
  attach_user true user built = built
  attach_user false user built = json.set (codes "user") user built

  abbrev pub attach_trace : Option Bytes → json.Json → json.Json
  attach_trace none built = built
  attach_trace (some id) built = json.set (codes "trace_id") (json.of_text id) built

  -- The payload before it is scrubbed.
  pub unscrubbed : Runtime → Configuration → Thrown → json.Json → json.Json → Bytes → json.Json
  unscrubbed rt cfg thrown context breadcrumbs sql =
      attach_sql cfg
        (attach_breadcrumbs (not (json.is_empty breadcrumbs) && not cfg.strict_privacy) breadcrumbs
          (collected rt cfg thrown context))
        (raw_statement thrown sql)

  abbrev pub scrubbed_if : Bool → Runtime → json.Json → Option json.Json
  scrubbed_if true rt payload = scrub_payload json rt payload
  scrubbed_if false rt payload = some payload

  abbrev pub stripped_if : Bool → List Bytes → json.Json → json.Json
  stripped_if true allowed_fields built = event json built allowed_fields
  stripped_if false allowed_fields built = built

  -- Behind scrubbing: the user, the trace's id, and the last look over everything.
  pub finished : Configuration → json.Json → Option Bytes → json.Json → json.Json
  finished cfg user trace_id built =
      stripped_if cfg.strict_privacy cfg.privacy_allowed_fields
        (attach_trace trace_id (attach_user (json.is_empty user) user built))

  pub build :
      Runtime
      → Configuration
      → Thrown
      → json.Json
      → json.Json
      → json.Json
      → Bytes
      → Option Bytes
      → Option json.Json
  build rt cfg thrown context user breadcrumbs sql trace_id =
      scrubbed_if cfg.scrub_pii rt (unscrubbed rt cfg thrown context breadcrumbs sql) >>= λ built.
      some (finished cfg user trace_id built)
