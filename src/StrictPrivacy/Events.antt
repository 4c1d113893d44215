-- ===== src/StrictPrivacy/Events.antt =====
-- src/strict_privacy.cpp: event, what is left of an event under strict privacy. The payload is a JSON
-- object, as the builder makes it; each step of the function edits one of its keys.
pub mod Edits
pub mod Kept
pub mod Frames
pub mod Private
mod Tests
use forge_ops_tracker_cpp.Prelude.{
  Bool, true, false, not, ◌||◌, List, [], ◌∷◌, all, Option, none, some, Bytes, codes, ◌>>=◌,
  if◌then◌else◌,
}
use forge_ops_tracker_cpp.Scan.{is_space}
use forge_ops_tracker_cpp.Json.{JsonOps}
use forge_ops_tracker_cpp.SpanBuffer.Data.{text_at}
use forge_ops_tracker_cpp.StrictPrivacy.Sha256.{message_fingerprint}

abbrev pub has {ℓ} : {A : Type ℓ} → Option A → Bool
has none = false
has (some a) = true

abbrev pub is_blank : Bytes → Bool
is_blank value = all is_space value

abbrev pub or_empty : Option Bytes → Bytes
or_empty none = []
or_empty (some text) = text

module _ (json : JsonOps) where
  -- A text, a number or a Boolean.
  pub is_plain : json.Json → Bool
  is_plain v = has (json.text_of v) || (has (json.number_text v) || json.is_boolean v)

  abbrev pub kept_with : Bytes → Option json.Json → json.Json → json.Json
  kept_with name none kept = kept
  kept_with name (some v) kept = if is_plain v then json.set name v kept else kept

  pub kept_names : List Bytes → json.Json → json.Json → json.Json
  kept_names [] fields kept = kept
  kept_names (name ∷ names) fields kept =
      kept_names names fields (kept_with name (json.find name fields) kept)

  pub allowed : json.Json → List Bytes → json.Json
  unfolding kept_names
  allowed fields allowed_fields =
      if not (json.is_object fields)
      then json.empty_object
      else kept_names allowed_fields fields json.empty_object

  abbrev pub message_text : json.Json → Bytes
  message_text payload = or_empty (text_at json (codes "message") payload)

  -- What is kept of the fields, if there are any.
  abbrev pub kept_of : List Bytes → Option json.Json → json.Json
  kept_of allowed_fields none = json.empty_object
  kept_of allowed_fields (some fields) = allowed fields allowed_fields

  -- The test is whether what is kept is empty.
  abbrev pub put_or_erase : Bool → Bytes → json.Json → json.Json → json.Json
  put_or_erase true key kept payload = json.erase key payload
  put_or_erase false key kept payload = json.set key kept payload

  -- The loop over "context" and "tags", for one key.
  pub keep_allowed : List Bytes → Bytes → json.Json → json.Json
  keep_allowed allowed_fields key payload =
      let kept = kept_of allowed_fields (json.find key payload) in
      put_or_erase (json.is_empty kept) key kept payload

  abbrev id_text : json.Json → Bytes
  id_text id = elim (json.text_of id) [
    | some text ↦ if is_blank text then or_empty (json.number_text id) else text
    | none ↦ or_empty (json.number_text id)
  ]

  -- Empty if there is no user with an id.
  pub user_id : json.Json → Bytes
  user_id payload = elim (json.find (codes "user") payload) [
    | none ↦ []
    | some user ↦
        if json.is_object user
        then elim (json.find (codes "id") user) [ none ↦ [] | some id ↦ id_text id ]
        else []
  ]

  abbrev pub with_id : Bytes → json.Json → json.Json
  with_id [] payload = json.erase (codes "user") payload
  with_id (c ∷ id) payload =
      json.set (codes "user") (json.set (codes "id") (json.of_text (c ∷ id)) json.empty_object)
        payload

  pub keep_user_id : json.Json → json.Json
  keep_user_id payload = with_id (user_id payload) payload

  abbrev pub strip_frame : json.Json → json.Json
  strip_frame frame =
      if json.is_object frame
      then json.erase (codes "post_context")
          (json.erase (codes "pre_context") (json.erase (codes "context_line") frame))
      else frame

  pub stripped_onto : List json.Json → json.Json → json.Json
  stripped_onto [] out = out
  stripped_onto (frame ∷ frames) out = stripped_onto frames (json.push (strip_frame frame) out)

  -- The test is whether the frames are an array.
  abbrev pub put_frames : Bool → json.Json → json.Json → json.Json
  put_frames false frames payload = payload
  put_frames true frames payload =
      json.set (codes "backtrace") (stripped_onto (json.elements frames) json.empty_array) payload

  abbrev pub with_frames : Option json.Json → json.Json → json.Json
  with_frames none payload = payload
  with_frames (some frames) payload = put_frames (json.is_array frames) frames payload

  pub strip_frames : json.Json → json.Json
  strip_frames payload = with_frames (json.find (codes "backtrace") payload) payload

  pub event : json.Json → List Bytes → json.Json
  event payload allowed_fields =
      let named =
        json.set (codes "message_fingerprint")
          (json.of_text (message_fingerprint (message_text payload)))
          (json.set (codes "message") (json.of_text []) payload) in
      let bare =
        json.erase (codes "sql_statement")
          (json.erase (codes "endpoint") (json.erase (codes "breadcrumbs") named)) in
      let fields =
        keep_allowed allowed_fields (codes "tags")
          (keep_allowed allowed_fields (codes "context") bare) in
      strip_frames (keep_user_id fields)
