-- ===== src/StrictPrivacy/Events/Kept.antt =====
-- src/strict_privacy.cpp: what stays of an event's context, tags and user.
use forge_ops_tracker_cpp.Prelude.{
  ◌≡◌, false, ◌≢◌, refl, sym, ◌∙◌, subst, Bool, true, List, [], ◌∷◌, all, any, Option, none, some,
  some-injective, Bytes, codes, bytes_eq, bytes_eq_iff, bytes_eq_refl, arith, Bool-cases, inl, inr,
}
use forge_ops_tracker_cpp.Json.{JsonOps, JsonLaws}
use forge_ops_tracker_cpp.StrictPrivacy.Events.{
  is_plain, kept_with, kept_names, allowed, kept_of, put_or_erase, keep_allowed, user_id, with_id,
  keep_user_id,
}
use forge_ops_tracker_cpp.StrictPrivacy.Events.Edits.{apart, Edits, set-Edits, erase-Edits}

module _ (json : JsonOps) where
  -- Under the names that are allowed, and only those, plain values.
  abbrev pub OnlyAllowed : List Bytes → json.Json → Type 0
  OnlyAllowed names v =
      (k : Bytes) (w : json.Json)
      → json.find k v ≡ some w
      → (any (bytes_eq k) names ≡ true) × (is_plain json w ≡ true)

  abbrev pub OnlyId : json.Json → Type 0
  OnlyId v =
      (id : Bytes) × (json.find (codes "id") v ≡ some (json.of_text id))
      × ((k : Bytes) → k ≢ codes "id" → json.find k v ≡ none)

module _ (json : JsonOps) (laws : JsonLaws json) where
  -- What is kept stays allowed, and an object, name by name.
  abbrev Among : (Bytes → Bool) → json.Json → Type 0
  Among among v =
      (json.is_object v ≡ true)
      × ((k : Bytes) (w : json.Json)
          → json.find k v ≡ some w
          → (among k ≡ true) × (is_plain json w ≡ true))

  kept_with-Among :
      (among : Bytes → Bool) (name : Bytes) (v : Option json.Json) (kept : json.Json)
      → among name ≡ true
      → Among among kept
      → Among among (kept_with json name v kept)
  kept_with-Among among name none kept a h = h
  kept_with-Among among name (some v) kept a h = elim (Bool-cases (is_plain json v)) [
    | inr off ↦ rw off h
    | inl plain ↦ rw plain (
      laws.set-object name v kept h.0,
      λ k w e. elim (Bool-cases (bytes_eq k name)) [
        | inl same ↦ ground (arith, bytes_eq_iff k name, laws.find-set name v kept h.0)
        | inr other ↦ h.1 k w (sym (laws.find-set_other k name v kept h.0 (apart k name other)) ∙ e)
      ],
    )
  ]

  kept_names-Among :
      (among : Bytes → Bool) (names : List Bytes) (fields kept : json.Json)
      → all among names ≡ true
      → Among among kept
      → Among among (kept_names json names fields kept)
  unfolding kept_names
  kept_names-Among among [] fields kept a h = h
  kept_names-Among among (name ∷ names) fields kept a h =
      kept_names-Among among names fields (kept_with json name (json.find name fields) kept)
        (ground arith) (kept_with-Among among name (json.find name fields) kept (ground arith) h)

  all_mono :
      (p q : Bytes → Bool) (names : List Bytes)
      → ((k : Bytes) → p k ≡ true → q k ≡ true)
      → all p names ≡ true
      → all q names ≡ true
  all_mono p q [] f h = refl
  all_mono p q (name ∷ names) f h = ground (arith, f name, all_mono p q names f)

  names_among : (names : List Bytes) → all (λ k. any (bytes_eq k) names) names ≡ true
  names_among [] = refl
  names_among (name ∷ names) =
      let rest : all (λ k. any (bytes_eq k) (name ∷ names)) names ≡ true =
        all_mono (λ k. any (bytes_eq k) names) _ names (λ k h. ground arith) (names_among names) in
      ground (arith, bytes_eq_refl name)

  nothing_in : (k : Bytes) (w : json.Json) → json.find k json.empty_object ≢ some w
  nothing_in k w e = ground (arith, laws.find-empty k)

  allowed-OnlyAllowed :
      (fields : json.Json) (names : List Bytes) → OnlyAllowed json names (allowed json fields names)
  unfolding allowed
  allowed-OnlyAllowed fields names k w = elim (Bool-cases (json.is_object fields)) [
    | inr off ↦ rw off (λ e. absurd (nothing_in k w e))
    | inl object ↦ rw object (
        (kept_names-Among (λ n. any (bytes_eq n) names) names fields json.empty_object
            (names_among names) (laws.empty-object, λ n v e. absurd (nothing_in n v e))).1
          k w)
  ]

  -- Each step edits its own key.
  put_or_erase-object :
      (empty : Bool) (key : Bytes) (kept j : json.Json)
      → json.is_object j ≡ true
      → json.is_object (put_or_erase json empty key kept j) ≡ true
  put_or_erase-object true key kept j o = laws.erase-object key j o
  put_or_erase-object false key kept j o = laws.set-object key kept j o

  put_or_erase-others :
      (empty : Bool) (key : Bytes) (kept : json.Json) (k : Bytes) (j : json.Json)
      → json.is_object j ≡ true
      → k ≢ key
      → json.find k (put_or_erase json empty key kept j) ≡ json.find k j
  put_or_erase-others true key kept k j o ne = laws.find-erase_other k key j o ne
  put_or_erase-others false key kept k j o ne = laws.find-set_other k key kept j o ne

  put_or_erase-put :
      (empty : Bool) (key : Bytes) (kept j v : json.Json)
      → json.is_object j ≡ true
      → json.find key (put_or_erase json empty key kept j) ≡ some v
      → kept ≡ v
  put_or_erase-put true key kept j v o e = absurd (ground (arith, laws.find-erase key j o))
  put_or_erase-put false key kept j v o e = ground (arith, laws.find-set key kept j o)

  pub keep_allowed-Edits :
      (names : List Bytes) (key : Bytes) → Edits json key (keep_allowed json names key)
  unfolding keep_allowed
  keep_allowed-Edits names key = record {
    object = λ j o. put_or_erase-object _ key (kept_of json names (json.find key j)) j o;
    others = λ k j o ne. put_or_erase-others _ key (kept_of json names (json.find key j)) k j o ne;
  }

  kept_of-OnlyAllowed :
      (names : List Bytes) (fields : Option json.Json)
      → OnlyAllowed json names (kept_of json names fields)
  kept_of-OnlyAllowed names none k w e = absurd (nothing_in k w e)
  kept_of-OnlyAllowed names (some fields) k w e = allowed-OnlyAllowed fields names k w e

  pub keep_allowed-OnlyAllowed :
      (names : List Bytes) (key : Bytes) (j v : json.Json)
      → json.is_object j ≡ true
      → json.find key (keep_allowed json names key j) ≡ some v
      → OnlyAllowed json names v
  unfolding keep_allowed
  keep_allowed-OnlyAllowed names key j v o e =
      subst (OnlyAllowed json names)
        (put_or_erase-put _ key (kept_of json names (json.find key j)) j v o e)
        (kept_of-OnlyAllowed names (json.find key j))

  with_id-Edits : (id : Bytes) → Edits json (codes "user") (with_id json id)
  with_id-Edits [] = erase-Edits json laws (codes "user")
  with_id-Edits (c ∷ id) = set-Edits json laws (codes "user") _

  pub keep_user_id-Edits : Edits json (codes "user") (keep_user_id json)
  unfolding keep_user_id
  keep_user_id-Edits = record {
    object = λ j o. (with_id-Edits (user_id json j)).object j o;
    others = λ k j o ne. (with_id-Edits (user_id json j)).others k j o ne;
  }

  id_object-OnlyId :
      (id : Bytes) → OnlyId json (json.set (codes "id") (json.of_text id) json.empty_object)
  id_object-OnlyId id = (
    id,
    laws.find-set (codes "id") _ json.empty_object laws.empty-object,
    λ k ne.
        laws.find-set_other k (codes "id") _ json.empty_object laws.empty-object ne
        ∙ laws.find-empty k,
  )

  with_id-OnlyId :
      (id : Bytes) (j v : json.Json)
      → json.is_object j ≡ true
      → json.find (codes "user") (with_id json id j) ≡ some v
      → OnlyId json v
  with_id-OnlyId [] j v o e = absurd (ground (arith, laws.find-erase (codes "user") j o))
  with_id-OnlyId (c ∷ id) j v o e =
      let user = json.set (codes "id") (json.of_text (c ∷ id)) json.empty_object in
      subst (OnlyId json) (some-injective _ _ (sym (laws.find-set (codes "user") user j o) ∙ e))
        (id_object-OnlyId (c ∷ id))

  pub keep_user_id-OnlyId :
      (j v : json.Json)
      → json.is_object j ≡ true
      → json.find (codes "user") (keep_user_id json j) ≡ some v
      → OnlyId json v
  unfolding keep_user_id
  keep_user_id-OnlyId j v o e = with_id-OnlyId (user_id json j) j v o e
