-- ===== src/StrictPrivacy/Events/Private.antt =====
-- src/strict_privacy.cpp: what goes out of an event under strict privacy.
use forge_ops_tracker_cpp.Prelude.{
  ◌≡◌, refl, sym, subst, true, not, List, [], ◌∷◌, all, take, drop, All, none, some, Bytes, codes,
  bytes_eq,
}
use forge_ops_tracker_cpp.Json.{JsonOps, JsonLaws}
use forge_ops_tracker_cpp.StrictPrivacy.Sha256.{message_fingerprint}
use forge_ops_tracker_cpp.StrictPrivacy.Events.{
  message_text, keep_allowed, keep_user_id, strip_frames, event,
}
use forge_ops_tracker_cpp.StrictPrivacy.Events.Edits.{
  Edit, AreEdits, run_edits, run_edits-object, run_edits-others, run_edits-made, set-Edits,
  erase-Edits,
}
use forge_ops_tracker_cpp.StrictPrivacy.Events.Kept.{
  OnlyAllowed, OnlyId, keep_allowed-Edits, keep_allowed-OnlyAllowed, keep_user_id-Edits,
  keep_user_id-OnlyId,
}
use forge_ops_tracker_cpp.StrictPrivacy.Events.Frames.{
  NoSource, strip_frames-Edits, strip_frames-NoSource,
}

-- The keys that the function edits.
abbrev pub edited_keys : List Bytes
edited_keys =
    codes "message"
    ∷ codes "message_fingerprint"
    ∷ codes "breadcrumbs"
    ∷ codes "endpoint"
    ∷ codes "sql_statement"
    ∷ codes "context"
    ∷ codes "tags"
    ∷ codes "user"
    ∷ codes "backtrace"
    ∷ []

module _ (json : JsonOps) where
  -- What goes out for a payload.
  pub record PrivateEvent (names : List Bytes) (payload out : json.Json) : Type 0 where
    pub object : json.is_object out ≡ true
    pub no_message : json.find (codes "message") out ≡ some (json.of_text [])
    pub fingerprint :
        json.find (codes "message_fingerprint") out
        ≡ some (json.of_text (message_fingerprint (message_text json payload)))
    pub no_breadcrumbs : json.find (codes "breadcrumbs") out ≡ none
    pub no_endpoint : json.find (codes "endpoint") out ≡ none
    pub no_statement : json.find (codes "sql_statement") out ≡ none
    pub context :
        (v : json.Json) → json.find (codes "context") out ≡ some v → OnlyAllowed json names v
    pub tags : (v : json.Json) → json.find (codes "tags") out ≡ some v → OnlyAllowed json names v
    pub user : (v : json.Json) → json.find (codes "user") out ≡ some v → OnlyId json v
    pub frames :
        (v : json.Json)
        → json.find (codes "backtrace") out ≡ some v
        → json.is_array v ≡ true
        → All (NoSource json) (json.elements v)
    pub others :
        (k : Bytes)
        → all (λ key. not (bytes_eq k key)) edited_keys ≡ true
        → json.find k out ≡ json.find k payload

module _ (json : JsonOps) (laws : JsonLaws json) where
  -- The edits that the function makes, in their order.
  abbrev named_by : Bytes → Bytes → Edit json
  named_by key text = (key, json.set key (json.of_text text))

  abbrev erased : Bytes → Edit json
  erased key = (key, json.erase key)

  abbrev kept : List Bytes → Bytes → Edit json
  kept names key = (key, keep_allowed json names key)

  abbrev edits : List Bytes → Bytes → List (Edit json)
  edits names digest =
      named_by (codes "message") []
      ∷ named_by (codes "message_fingerprint") digest
      ∷ erased (codes "breadcrumbs")
      ∷ erased (codes "endpoint")
      ∷ erased (codes "sql_statement")
      ∷ kept names (codes "context")
      ∷ kept names (codes "tags")
      ∷ (codes "user", keep_user_id json)
      ∷ (codes "backtrace", strip_frames json)
      ∷ []

  edits-AreEdits : (names : List Bytes) (digest : Bytes) → AreEdits json (edits names digest)
  edits-AreEdits names digest = (
    set-Edits json laws (codes "message") _,
    (
      set-Edits json laws (codes "message_fingerprint") _,
      (
        erase-Edits json laws (codes "breadcrumbs"),
        (
          erase-Edits json laws (codes "endpoint"),
          (
            erase-Edits json laws (codes "sql_statement"),
            (
              keep_allowed-Edits json laws names (codes "context"),
              (
                keep_allowed-Edits json laws names (codes "tags"),
                (keep_user_id-Edits json laws, (strip_frames-Edits json laws, tt)),
              ),
            ),
          ),
        ),
      ),
    ),
  )

  event-edits :
      (names : List Bytes) (payload : json.Json)
      → event json payload names
        ≡ run_edits json (edits names (message_fingerprint (message_text json payload))) payload
  unfolding event
  event-edits names payload = refl

  -- Whatever the payload, under strict privacy no message, breadcrumbs, endpoint or statement of it
  -- goes out, the message's fingerprint does, only allowed plain values of the context and the tags do,
  -- only an id of the user does, no frame has source context, and every other key is as it was.
  pub event-PrivateEvent :
      (payload : json.Json) (names : List Bytes)
      → json.is_object payload ≡ true
      → PrivateEvent json names payload (event json payload names)
  unfolding bytes_eq
  event-PrivateEvent payload names o =
      let digest = message_fingerprint (message_text json payload) in
      let es = edits names digest in
      let all_edits = edits-AreEdits names digest in
      subst (PrivateEvent json names payload) (sym (event-edits names payload)) (record {
        object = run_edits-object json es payload all_edits o;
        no_message =
            run_edits-made json (λ r. r ≡ some (json.of_text [])) [] (codes "message") _ (drop 1 es)
              payload all_edits o refl (laws.find-set (codes "message") _);
        fingerprint =
            run_edits-made json (λ r. r ≡ some (json.of_text digest)) (take 1 es)
              (codes "message_fingerprint") _ (drop 2 es) payload all_edits o refl
              (laws.find-set (codes "message_fingerprint") _);
        no_breadcrumbs =
            run_edits-made json (λ r. r ≡ none) (take 2 es) (codes "breadcrumbs") _ (drop 3 es)
              payload all_edits o refl (laws.find-erase (codes "breadcrumbs"));
        no_endpoint =
            run_edits-made json (λ r. r ≡ none) (take 3 es) (codes "endpoint") _ (drop 4 es) payload
              all_edits o refl (laws.find-erase (codes "endpoint"));
        no_statement =
            run_edits-made json (λ r. r ≡ none) (take 4 es) (codes "sql_statement") _ (drop 5 es)
              payload all_edits o refl (laws.find-erase (codes "sql_statement"));
        context =
            run_edits-made json (λ r. (v : json.Json) → r ≡ some v → OnlyAllowed json names v)
              (take 5 es) (codes "context") _ (drop 6 es) payload all_edits o refl
              (λ mid object v.
                keep_allowed-OnlyAllowed json laws names (codes "context") mid v object);
        tags =
            run_edits-made json (λ r. (v : json.Json) → r ≡ some v → OnlyAllowed json names v)
              (take 6 es) (codes "tags") _ (drop 7 es) payload all_edits o refl
              (λ mid object v.
                keep_allowed-OnlyAllowed json laws names (codes "tags") mid v object);
        user =
            run_edits-made json (λ r. (v : json.Json) → r ≡ some v → OnlyId json v) (take 7 es)
              (codes "user") _ (drop 8 es) payload all_edits o refl
              (λ mid object v. keep_user_id-OnlyId json laws mid v object);
        frames =
            run_edits-made json
              (λ r.
                (v : json.Json)
                → r ≡ some v
                → json.is_array v ≡ true
                → All (NoSource json) (json.elements v))
              (take 8 es) (codes "backtrace") _ [] payload all_edits o refl
              (λ mid object v. strip_frames-NoSource json laws mid v object);
        others = λ k h. run_edits-others json k es payload all_edits o h;
      })
