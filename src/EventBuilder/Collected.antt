-- ===== src/EventBuilder/Collected.antt =====
-- src/event_builder.cpp: the payload before it is scrubbed, and that it is ready for that.
use forge_ops_tracker_cpp.Prelude.{
  ◌≡◌, refl, sym, subst, ◌∙◌, Bool, true, false, not, ◌&&◌, List, [], ◌∷◌, take, drop, Option, none,
  some, Bytes, codes, bytes_eq, if◌then◌else◌,
}
use forge_ops_tracker_cpp.Json.{JsonOps, JsonLaws}
use forge_ops_tracker_cpp.Configuration.Values.{Configuration}
use forge_ops_tracker_cpp.SqlStatement.{mask}
use forge_ops_tracker_cpp.SqlStatement.Objects.{Objects, extract_objects}
use forge_ops_tracker_cpp.StrictPrivacy.Events.Edits.{
  Edits, Edit, AreEdits, run_edits, run_edits-object, run_edits-made, run_edits-made_first,
  set-Edits,
}
use forge_ops_tracker_cpp.EventBuilder.{
  text_or_null, backtrace, attach_objects, attach_statement, attach_masked, attach_sql, collected,
  attach_breadcrumbs, unscrubbed,
}
use forge_ops_tracker_cpp.EventBuilder.Inputs.{
  Runtime, Thrown, exception_class, message_of, raw_statement,
}
use forge_ops_tracker_cpp.EventBuilder.Scrubbed.{AreObjects, Found, text_json}
use forge_ops_tracker_cpp.EventBuilder.Frames.{backtrace-AreObjects}

module _ (json : JsonOps) where
  abbrev put : Bytes → json.Json → Edit json
  put key v = (key, json.set key v)

  abbrev attach_found : Bool → Option Bytes → json.Json → json.Json
  attach_found on none payload = payload
  attach_found on (some masked) payload = attach_objects json on (extract_objects masked) payload

  abbrev attach_text : Bool → Option Bytes → json.Json → json.Json
  attach_text on none payload = payload
  attach_text on (some masked) payload = attach_statement json on masked payload

  -- The edits that make the payload of an empty object.
  abbrev edits :
      Runtime
      → Configuration
      → Thrown
      → json.Json
      → json.Json
      → Bool
      → Option Bytes
      → List (Edit json)
  edits rt cfg thrown context crumbs keeps_crumbs masked =
      put (codes "exception_class") (json.of_text (exception_class rt thrown))
      ∷ put (codes "message") (json.of_text (message_of thrown))
      ∷ put (codes "backtrace") (backtrace json rt)
      ∷ put (codes "occurred_at") (json.of_text rt.occurred_at)
      ∷ put (codes "environment") (json.of_text cfg.environment)
      ∷ put (codes "release") (text_or_null json cfg.release)
      ∷ put (codes "server_name") (text_or_null json cfg.server_name)
      ∷ put (codes "context") context
      ∷ put (codes "tags") json.empty_object
      ∷ put (codes "sdk_name") (json.of_text (codes "cpp"))
      ∷ (codes "breadcrumbs", attach_breadcrumbs json keeps_crumbs crumbs)
      ∷ (codes "sql_objects", attach_found cfg.capture_sql_objects masked)
      ∷ (codes "sql_statement", attach_text cfg.capture_sql_statement masked)
      ∷ []

  -- The statement that goes out.
  abbrev pub sent_statement : Bool → Option Bytes → Option Bytes
  sent_statement false masked = none
  sent_statement true masked = masked

  abbrev pub sends_crumbs : Configuration → json.Json → Bool
  sends_crumbs cfg crumbs = not (json.is_empty crumbs) && not cfg.strict_privacy

  -- What the payload holds under the keys that scrubbing goes over.
  pub record Collected (rt : Runtime) (message : Bytes) (statement : Option Bytes)
      (context : json.Json) (crumbs : Option json.Json) (payload : json.Json) : Type 0 where
    pub object : json.is_object payload ≡ true
    pub message_found : json.find (codes "message") payload ≡ some (json.of_text message)
    pub statement_found : json.find (codes "sql_statement") payload ≡ text_json json rt statement
    pub frames_found : Found json rt (AreObjects json rt) (json.find (codes "backtrace") payload)
    pub crumbs_found : json.find (codes "breadcrumbs") payload ≡ crumbs
    pub context_found : json.find (codes "context") payload ≡ some context
    pub tags_found : json.find (codes "tags") payload ≡ some json.empty_object

  abbrev pub found_crumbs : Bool → json.Json → Option json.Json
  found_crumbs false crumbs = none
  found_crumbs true crumbs = some crumbs

module _ (json : JsonOps) (laws : JsonLaws json) where
  id-Edits : (key : Bytes) → Edits json key (λ j. j)
  id-Edits key = record { object = λ j o. o; others = λ k j o ne. refl }

  attach_breadcrumbs-Edits :
      (on : Bool) (crumbs : json.Json)
      → Edits json (codes "breadcrumbs") (attach_breadcrumbs json on crumbs)
  attach_breadcrumbs-Edits false crumbs = id-Edits (codes "breadcrumbs")
  attach_breadcrumbs-Edits true crumbs = set-Edits json laws (codes "breadcrumbs") crumbs

  attach_objects-Edits :
      (on : Bool) (objects : Option Objects)
      → Edits json (codes "sql_objects") (attach_objects json on objects)
  attach_objects-Edits false objects = id-Edits (codes "sql_objects")
  attach_objects-Edits true none = id-Edits (codes "sql_objects")
  attach_objects-Edits true (some objects) = set-Edits json laws (codes "sql_objects") _

  attach_found-Edits :
      (on : Bool) (masked : Option Bytes)
      → Edits json (codes "sql_objects") (attach_found json on masked)
  attach_found-Edits on none = id-Edits (codes "sql_objects")
  attach_found-Edits on (some masked) = attach_objects-Edits on (extract_objects masked)

  attach_text-Edits :
      (on : Bool) (masked : Option Bytes)
      → Edits json (codes "sql_statement") (attach_text json on masked)
  attach_text-Edits on none = id-Edits (codes "sql_statement")
  attach_text-Edits false (some masked) = id-Edits (codes "sql_statement")
  attach_text-Edits true (some masked) = set-Edits json laws (codes "sql_statement") _

  edits-AreEdits :
      (rt : Runtime) (cfg : Configuration) (thrown : Thrown) (context crumbs : json.Json)
      (on : Bool) (masked : Option Bytes)
      → AreEdits json (edits json rt cfg thrown context crumbs on masked)
  edits-AreEdits rt cfg thrown context crumbs on masked =
      let put-Edits = set-Edits json laws in
      (
        put-Edits (codes "exception_class") _,
        (
          put-Edits (codes "message") _,
          (
            put-Edits (codes "backtrace") _,
            (
              put-Edits (codes "occurred_at") _,
              (
                put-Edits (codes "environment") _,
                (
                  put-Edits (codes "release") _,
                  (
                    put-Edits (codes "server_name") _,
                    (
                      put-Edits (codes "context") _,
                      (
                        put-Edits (codes "tags") _,
                        (
                          put-Edits (codes "sdk_name") _,
                          (
                            attach_breadcrumbs-Edits on crumbs,
                            (
                              attach_found-Edits cfg.capture_sql_objects masked,
                              (attach_text-Edits cfg.capture_sql_statement masked, tt),
                            ),
                          ),
                        ),
                      ),
                    ),
                  ),
                ),
              ),
            ),
          ),
        ),
      )

  attach_sql-edits :
      (cfg : Configuration) (payload : json.Json) (statement : Bytes)
      → attach_sql json cfg payload statement
        ≡ attach_text json cfg.capture_sql_statement
            (mask statement none)
            (attach_found json cfg.capture_sql_objects (mask statement none) payload)
  unfolding attach_sql
  attach_sql-edits cfg payload statement =
      by_cases cfg.capture_sql_objects cfg.capture_sql_statement (mask statement none)
    where
      by_cases :
          (objects text : Bool) (masked : Option Bytes)
          → (if not objects && not text
              then payload
              else attach_masked json objects text masked payload)
            ≡ attach_text json text masked (attach_found json objects masked payload)
      by_cases false false none = refl
      by_cases false false (some m) = refl
      by_cases false true none = refl
      by_cases false true (some m) = refl
      by_cases true text none = refl
      by_cases true text (some m) = refl

  attach_breadcrumbs-found :
      (on : Bool) (crumbs mid : json.Json)
      → json.is_object mid ≡ true
      → json.find (codes "breadcrumbs") mid ≡ none
      → json.find (codes "breadcrumbs") (attach_breadcrumbs json on crumbs mid)
        ≡ found_crumbs json on crumbs
  attach_breadcrumbs-found false crumbs mid o absent = absent
  attach_breadcrumbs-found true crumbs mid o absent =
      laws.find-set (codes "breadcrumbs") crumbs mid o

  attach_text-found :
      (rt : Runtime) (on : Bool) (masked : Option Bytes) (mid : json.Json)
      → json.is_object mid ≡ true
      → json.find (codes "sql_statement") mid ≡ none
      → json.find (codes "sql_statement") (attach_text json on masked mid)
        ≡ text_json json rt (sent_statement json on masked)
  attach_text-found rt false none mid o absent = absent
  attach_text-found rt true none mid o absent = absent
  attach_text-found rt false (some masked) mid o absent = absent
  attach_text-found rt true (some masked) mid o absent =
      laws.find-set (codes "sql_statement") _ mid o

  run-Collected :
      (rt : Runtime) (cfg : Configuration) (thrown : Thrown) (context crumbs : json.Json)
      (on : Bool) (masked : Option Bytes)
      → Collected json rt
          (message_of thrown)
          (sent_statement json cfg.capture_sql_statement masked)
          context
          (found_crumbs json on crumbs)
          (run_edits json (edits json rt cfg thrown context crumbs on masked) json.empty_object)
  unfolding bytes_eq
  run-Collected rt cfg thrown context crumbs on masked =
      let es = edits json rt cfg thrown context crumbs on masked in
      let start = json.empty_object in
      let ok = edits-AreEdits rt cfg thrown context crumbs on masked in
      let o = laws.empty-object in
      record {
        object = run_edits-object json es start ok o;
        message_found =
            run_edits-made json (λ r. r ≡ some (json.of_text (message_of thrown))) (take 1 es)
              (codes "message") _ (drop 2 es) start ok o refl (laws.find-set (codes "message") _);
        frames_found =
            run_edits-made json (Found json rt (AreObjects json rt)) (take 2 es) (codes "backtrace")
              _ (drop 3 es) start ok o refl
              (λ mid object. (
                backtrace json rt,
                laws.find-set (codes "backtrace") _ mid object,
                backtrace-AreObjects json laws rt,
              ));
        context_found =
            run_edits-made json (λ r. r ≡ some context) (take 7 es) (codes "context") _ (drop 8 es)
              start ok o refl (laws.find-set (codes "context") _);
        tags_found =
            run_edits-made json (λ r. r ≡ some json.empty_object) (take 8 es) (codes "tags") _
              (drop 9 es) start ok o refl (laws.find-set (codes "tags") _);
        crumbs_found =
            run_edits-made_first json (λ r. r ≡ found_crumbs json on crumbs) (take 10 es)
              (codes "breadcrumbs") _ (drop 11 es) start ok o refl refl
              (λ mid object same.
                attach_breadcrumbs-found on crumbs mid object
                  (same ∙ laws.find-empty (codes "breadcrumbs")));
        statement_found =
            run_edits-made_first json
              (λ r. r ≡ text_json json rt (sent_statement json cfg.capture_sql_statement masked))
              (take 12 es) (codes "sql_statement") _ [] start ok o refl refl
              (λ mid object same.
                attach_text-found rt cfg.capture_sql_statement masked mid object
                  (same ∙ laws.find-empty (codes "sql_statement")));
      }

  pub unscrubbed-Collected :
      (rt : Runtime) (cfg : Configuration) (thrown : Thrown) (context crumbs : json.Json)
      (sql : Bytes)
      → Collected json rt
          (message_of thrown)
          (sent_statement json cfg.capture_sql_statement (mask (raw_statement thrown sql) none))
          context
          (found_crumbs json (sends_crumbs json cfg crumbs) crumbs)
          (unscrubbed json rt cfg thrown context crumbs sql)
  unfolding unscrubbed collected
  unscrubbed-Collected rt cfg thrown context crumbs sql =
      subst (Collected json rt _ _ context _)
        (sym (attach_sql-edits cfg _ (raw_statement thrown sql)))
        (run-Collected rt cfg thrown context crumbs (sends_crumbs json cfg crumbs)
          (mask (raw_statement thrown sql) none))
