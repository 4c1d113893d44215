-- ===== src/EventBuilder/Tests.antt =====
-- Payloads built of a thrown exception.
use forge_ops_tracker_cpp.Prelude.{◌≡◌, refl, true, [], ◌∷◌, none, some, codes, bytes_eq, inr}
use forge_ops_tracker_cpp.Json.Example.{
  Value, text, items, item, no_items, fields, field, end, nothing, values, values_lawful,
}
use forge_ops_tracker_cpp.Configuration.Values.{Configuration, defaults}
use forge_ops_tracker_cpp.SqlStatement.{mask}
use forge_ops_tracker_cpp.SqlStatement.Causes.{plain}
use forge_ops_tracker_cpp.PiiScrubber.{scrub_string}
use forge_ops_tracker_cpp.StrictPrivacy.Events.{message_text}
use forge_ops_tracker_cpp.StrictPrivacy.Events.Private.{PrivateEvent}
use forge_ops_tracker_cpp.EventBuilder.{frame_of, build}
use forge_ops_tracker_cpp.EventBuilder.Inputs.{
  Runtime, Thrown, standard, message_of, raw_statement, is_in_app, current_executable_name,
}
use forge_ops_tracker_cpp.EventBuilder.Payload.{Scrubbed}
use forge_ops_tracker_cpp.EventBuilder.Collected.{sent_statement}
use forge_ops_tracker_cpp.EventBuilder.Built.{build-Scrubbed, build_strict}

abbrev pub runtime : Runtime
runtime = record {
  demangled = λ mangled. none;
  executable_path = some (codes "/bin/app");
  symbols = some (codes "0 app 0x1 main + 1" ∷ []);
  match_frame = λ line. some (codes "app", codes "main");
  occurred_at = codes "2026-01-01T00:00:00Z";
  replace_patterns = λ s. s;
}

abbrev pub plain_config : Configuration
plain_config = record (defaults (λ name. none)) {
  dsn = some (codes "https://k@h/api/v1/events");
  capture_sql_statement = true;
}

abbrev strict_config : Configuration
strict_config = record plain_config { strict_privacy = true }

abbrev pub failure : Thrown
failure = standard (codes "E") (plain (some (codes "SELECT 1")) (codes "no user 7"))

abbrev crumbs : Value
crumbs = items (item (fields (field (codes "message") (text (codes "hi")) end)) no_items)

frame_in_app :
    frame_of values runtime (codes "app", codes "main")
    ≡ fields (
        field (codes "in_app") (Value.flag true) (
          field
            (codes "method")
            (text (codes "main"))
            (field (codes "line") nothing (field (codes "file") (text (codes "app")) end))))
unfolding frame_of is_in_app current_executable_name bytes_eq
frame_in_app = refl

build-Scrubbed_example :
    (out : Value) × (build values runtime plain_config failure (fields end) nothing crumbs [] none
      ≡ some out)
    × Scrubbed values runtime
        (message_of failure)
        (sent_statement values true (mask (raw_statement failure []) none))
        out
unfolding defaults
build-Scrubbed_example =
    build-Scrubbed values values_lawful runtime plain_config failure (fields end) nothing crumbs []
      none refl refl (inr (refl, (refl, tt)))

build_strict_example :
    (out payload : Value) × (build values runtime strict_config failure
        (fields end)
        nothing
        crumbs
        []
        none
      ≡ some out)
    × (message_text values payload ≡ scrub_string (λ s. s) (codes "no user 7"))
    × PrivateEvent values [] payload out
unfolding defaults
build_strict_example =
    build_strict values values_lawful runtime strict_config failure (fields end) nothing crumbs []
      none refl
