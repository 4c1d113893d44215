-- ===== src/EventBuilder/Scrubbed.antt =====
-- src/event_builder.cpp: each part of the scrubbing of a payload, on what build gives it.
use forge_ops_tracker_cpp.Prelude.{
  suc, ◌≡◌, refl, ap, ◌∙◌, true, All, Option, none, some, Bytes, codes, arith, ◌>>=◌, ◌⊎◌,
}
use forge_ops_tracker_cpp.Json.{JsonOps, JsonLaws}
use forge_ops_tracker_cpp.PiiScrubber.{scrub_string}
use forge_ops_tracker_cpp.PiiScrubber.Walk.Clean.{Clean, scrub-Clean}
use forge_ops_tracker_cpp.SpanBuffer.Data.{text_at}
use forge_ops_tracker_cpp.EventBuilder.Inputs.{Runtime}
use forge_ops_tracker_cpp.EventBuilder.Scrub.{
  scrub_value, scrub_text, scrub_text_if_any, or_null, scrub_member, scrub_frames,
  scrub_breadcrumbs,
}
use forge_ops_tracker_cpp.EventBuilder.Steps.{Step, ChangedAt, Works}

module _ (json : JsonOps) (rt : Runtime) where
  -- A text under that key is one that scrub_string made.
  abbrev pub ScrubbedAt : Bytes → json.Json → Type 0
  ScrubbedAt key o =
      (text : Bytes)
      → text_at json key o ≡ some text
      → (was : Bytes) × (text ≡ scrub_string rt.replace_patterns was)

  abbrev pub ScrubbedFrame : json.Json → Type 0
  ScrubbedFrame frame = ScrubbedAt (codes "file") frame × ScrubbedAt (codes "method") frame

  abbrev pub CleanAt : Bytes → json.Json → Type 0
  CleanAt key o =
      (v : json.Json) × (json.find key o ≡ some v) × Clean json rt.replace_patterns none v

  abbrev pub ScrubbedCrumb : json.Json → Type 0
  ScrubbedCrumb crumb = ScrubbedAt (codes "message") crumb × CleanAt (codes "data") crumb

  abbrev pub AreObjects : json.Json → Type 0
  AreObjects v =
      (json.is_array v ≡ true) × All (λ (x : json.Json). json.is_object x ≡ true) (json.elements v)

  abbrev pub ArrayOf : (json.Json → Type 0) → json.Json → Type 0
  ArrayOf P v = (json.is_array v ≡ true) × All P (json.elements v)

  abbrev pub Found : (json.Json → Type 0) → Option json.Json → Type 0
  Found P r = (v : json.Json) × (r ≡ some v) × P v

  abbrev pub IfFound : (json.Json → Type 0) → Option json.Json → Type 0
  IfFound P r = (r ≡ none) ⊎ Found P r

  abbrev scrubbed_json : Option Bytes → Option json.Json
  scrubbed_json none = none
  scrubbed_json (some text) = some (json.of_text (scrub_string rt.replace_patterns text))

  abbrev pub text_json : Option Bytes → Option json.Json
  text_json none = none
  text_json (some text) = some (json.of_text text)

  abbrev pub scrubbed_text : Option Bytes → Option Bytes
  scrubbed_text none = none
  scrubbed_text (some text) = some (scrub_string rt.replace_patterns text)

  abbrev pub message_step : Bytes → Step json
  message_step text = record {
    key = codes "message";
    replace = scrub_text json rt (codes "message");
    Needs = λ r. r ≡ some (json.of_text text);
    Leaves = λ r. r ≡ some (json.of_text (scrub_string rt.replace_patterns text));
  }

  abbrev pub statement_step : Option Bytes → Step json
  statement_step statement = record {
    key = codes "sql_statement";
    replace = scrub_text_if_any json rt (codes "sql_statement");
    Needs = λ r. r ≡ text_json statement;
    Leaves = λ r. r ≡ text_json (scrubbed_text statement);
  }

  abbrev pub frames_step : Step json
  frames_step = record {
    key = codes "backtrace";
    replace = scrub_frames json rt;
    Needs = Found AreObjects;
    Leaves = Found (ArrayOf ScrubbedFrame);
  }

  abbrev pub breadcrumbs_step : Step json
  breadcrumbs_step = record {
    key = codes "breadcrumbs";
    replace = scrub_breadcrumbs json rt;
    Needs = IfFound AreObjects;
    Leaves = IfFound (ArrayOf ScrubbedCrumb);
  }

  abbrev pub member_step : Bytes → Step json
  member_step key = record {
    key = key;
    replace = scrub_member json rt key;
    Needs = Found (λ v. Unit);
    Leaves = Found (Clean json rt.replace_patterns none);
  }

module _ (json : JsonOps) (laws : JsonLaws json) (rt : Runtime) where
  pub set-ChangedAt :
      (key : Bytes) (v j : json.Json)
      → json.is_object j ≡ true
      → ChangedAt json key j (json.set key v j)
  set-ChangedAt key v j o = record {
    object = laws.set-object key v j o;
    others = λ k ne. laws.find-set_other k key v j o ne;
  }

  pub same-ChangedAt :
      (key : Bytes) (j : json.Json) → json.is_object j ≡ true → ChangedAt json key j j
  same-ChangedAt key j o = record { object = o; others = λ k ne. refl }

  pub text_at-set :
      (key text : Bytes) (j : json.Json)
      → json.is_object j ≡ true
      → text_at json key (json.set key (json.of_text text) j) ≡ some text
  text_at-set key text j o =
      ap (λ r. r >>= json.text_of) (laws.find-set key (json.of_text text) j o)
      ∙ laws.text_of-of_text text

  scrub_text-Works :
      (key text : Bytes) (j : json.Json)
      → json.is_object j ≡ true
      → json.find key j ≡ some (json.of_text text)
      → (r : json.Json) × (scrub_text json rt key j ≡ some r)
        × ChangedAt json key j r
        × (json.find key r ≡ some (json.of_text (scrub_string rt.replace_patterns text)))
  scrub_text-Works key text j o e =
      let put = json.of_text (scrub_string rt.replace_patterns text) in
      (
        json.set key put j,
        rw (e, laws.text_of-of_text text) refl,
        set-ChangedAt key put j o,
        laws.find-set key put j o,
      )

  pub message_step-Works : (text : Bytes) → Works json (message_step json rt text)
  message_step-Works text j o e = scrub_text-Works (codes "message") text j o e

  scrub_text_if_any-Works :
      (key : Bytes) (text : Option Bytes) (j : json.Json)
      → json.is_object j ≡ true
      → json.find key j ≡ text_json json rt text
      → (r : json.Json) × (scrub_text_if_any json rt key j ≡ some r)
        × ChangedAt json key j r
        × (json.find key r ≡ text_json json rt (scrubbed_text json rt text))
  scrub_text_if_any-Works key none j o e =
      (j, rw (e, scrub_text_if_any) refl, same-ChangedAt key j o, e)
  scrub_text_if_any-Works key (some text) j o e =
      let (r, same, changed, left) = scrub_text-Works key text j o e in
      (r, rw (e, scrub_text_if_any) same, changed, left)

  pub statement_step-Works :
      (statement : Option Bytes) → Works json (statement_step json rt statement)
  statement_step-Works statement j o e =
      scrub_text_if_any-Works (codes "sql_statement") statement j o e

  scrub_value-Clean :
      (v : json.Json)
      → (r : json.Json) × (scrub_value json rt v ≡ some r) × Clean json rt.replace_patterns none r
  unfolding scrub_value
  scrub_value-Clean v =
      scrub-Clean json laws rt.replace_patterns (suc (json.depth v)) none v (omega arith)

  pub scrub_member-Clean :
      (key : Bytes) (j : json.Json)
      → json.is_object j ≡ true
      → (r : json.Json) × (scrub_member json rt key j ≡ some r)
        × ChangedAt json key j r
        × CleanAt json rt key r
  scrub_member-Clean key j o =
      let (v, e, clean) = scrub_value-Clean (or_null json (json.find key j)) in
      (json.set key v j, rw e refl, set-ChangedAt key v j o, (v, laws.find-set key v j o, clean))

  pub member_step-Works : (key : Bytes) → Works json (member_step json rt key)
  member_step-Works key j o e = scrub_member-Clean key j o
