-- ===== src/EventBuilder/Scrub.antt =====
-- src/event_builder.cpp: scrub_payload and what it calls. `none` is an exception thrown.
use forge_ops_tracker_cpp.Prelude.{suc, Option, none, some, Bytes, codes, ◌>>=◌, if◌then◌else◌}
use forge_ops_tracker_cpp.Json.{JsonOps}
use forge_ops_tracker_cpp.PiiScrubber.{scrub_string}
use forge_ops_tracker_cpp.PiiScrubber.Walk.{each_member, each_element, scrub}
use forge_ops_tracker_cpp.SpanBuffer.Data.{text_at}
use forge_ops_tracker_cpp.EventBuilder.Inputs.{Runtime}

module _ (json : JsonOps) where
  -- Scrubbing, the fuel is that of scrub-Clean.
  unfoldable pub scrub_value : Runtime → json.Json → Option json.Json
  scrub_value rt v = scrub json rt.replace_patterns (suc (json.depth v)) none v

  -- j[key] = scrub_string(j[key].get<std::string>())
  abbrev pub scrub_text : Runtime → Bytes → json.Json → Option json.Json
  scrub_text rt key j = text_at json key j >>= λ text.
      some (json.set key (json.of_text (scrub_string rt.replace_patterns text)) j)

  abbrev pub scrub_text_if_any : Runtime → Bytes → json.Json → Option json.Json
  scrub_text_if_any rt key j = elim (json.find key j) [
    | none ↦ some j
    | some v ↦ scrub_text rt key j
  ]

  -- On an object, a missing member becomes a null one.
  abbrev pub scrub_part : Runtime → Bytes → Option json.Json → json.Json → json.Json
  scrub_part rt key none o = json.set key json.null o
  scrub_part rt key (some v) o = elim (json.text_of v) [
    | none ↦ o
    | some text ↦ json.set key (json.of_text (scrub_string rt.replace_patterns text)) o
  ]

  abbrev pub part : Runtime → Bytes → json.Json → json.Json
  part rt key o = scrub_part rt key (json.find key o) o

  unfoldable pub scrub_frame : Runtime → json.Json → Option json.Json
  scrub_frame rt frame =
      json.as_object frame >>= λ o. some (part rt (codes "method") (part rt (codes "file") o))

  abbrev pub or_null : Option json.Json → json.Json
  or_null none = json.null
  or_null (some v) = v

  -- j[key] = scrub(j[key])
  abbrev pub scrub_member : Runtime → Bytes → json.Json → Option json.Json
  scrub_member rt key j =
      scrub_value rt (or_null (json.find key j)) >>= λ v. some (json.set key v j)

  unfoldable pub scrub_crumb : Runtime → json.Json → Option json.Json
  scrub_crumb rt crumb =
      json.as_object crumb >>= λ o. scrub_member rt (codes "data") (part rt (codes "message") o)

  -- A range-based for over a JSON value, each value replaced.
  unfoldable pub each_in : (json.Json → Option json.Json) → json.Json → Option json.Json
  each_in f j =
      if json.is_array j
      then each_element json f (json.elements j) json.empty_array
      else if json.is_object j
      then each_member json (λ k v. f v) (json.members j) json.empty_object
      else if json.is_null j
      then some j
      else f j

  abbrev pub replace_each :
      (json.Json → Option json.Json) → Bytes → json.Json → json.Json → Option json.Json
  replace_each f key v j = each_in f v >>= λ w. some (json.set key w j)

  unfoldable pub scrub_frames : Runtime → json.Json → Option json.Json
  scrub_frames rt j =
      replace_each (scrub_frame rt) (codes "backtrace") (or_null (json.find (codes "backtrace") j))
        j

  abbrev pub crumbs_in : Runtime → Option json.Json → json.Json → Option json.Json
  crumbs_in rt none j = some j
  crumbs_in rt (some crumbs) j = replace_each (scrub_crumb rt) (codes "breadcrumbs") crumbs j

  unfoldable pub scrub_breadcrumbs : Runtime → json.Json → Option json.Json
  scrub_breadcrumbs rt j = crumbs_in rt (json.find (codes "breadcrumbs") j) j

  unfoldable pub scrub_payload : Runtime → json.Json → Option json.Json
  scrub_payload rt payload = scrub_text rt (codes "message") payload >>= λ p1.
      scrub_text_if_any rt (codes "sql_statement") p1 >>= λ p2. scrub_frames rt p2 >>= λ p3.
      scrub_breadcrumbs rt p3 >>= λ p4. scrub_member rt (codes "context") p4 >>= λ p5.
      scrub_member rt (codes "tags") p5 >>= λ p6. some p6
