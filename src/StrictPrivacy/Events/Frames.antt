-- ===== src/StrictPrivacy/Events/Frames.antt =====
-- src/strict_privacy.cpp: the frames of an event lose their source context.
use forge_ops_tracker_cpp.Prelude.{
  ◌≡◌, refl, sym, ◌∙◌, subst, Bool, true, false, List, [], ◌∷◌, All, All-append, Option, none, some,
  some-injective, codes, bytes_eq, arith, Bool-cases, inl, inr,
}
use forge_ops_tracker_cpp.Json.{JsonOps, JsonLaws}
use forge_ops_tracker_cpp.StrictPrivacy.Events.{
  strip_frame, stripped_onto, put_frames, with_frames, strip_frames,
}
use forge_ops_tracker_cpp.StrictPrivacy.Events.Edits.{apart, Edits, set-Edits}

module _ (json : JsonOps) where
  abbrev pub NoSource : json.Json → Type 0
  NoSource frame =
      json.is_object frame ≡ true
      → (json.find (codes "context_line") frame ≡ none)
        × (json.find (codes "pre_context") frame ≡ none)
        × (json.find (codes "post_context") frame ≡ none)

module _ (json : JsonOps) (laws : JsonLaws json) where
  strip_frame-NoSource : (frame : json.Json) → NoSource json (strip_frame json frame)
  unfolding bytes_eq
  strip_frame-NoSource frame = elim (Bool-cases (json.is_object frame)) [
    | inr off ↦ rw off (λ o. absurd (ground arith))
    | inl o ↦ rw o (λ same. stripped frame o)
  ]
    where
      stripped :
          (j : json.Json)
          → json.is_object j ≡ true
          → let out =
              json.erase
                (codes "post_context")
                (json.erase (codes "pre_context") (json.erase (codes "context_line") j)) in
            (json.find (codes "context_line") out ≡ none)
            × (json.find (codes "pre_context") out ≡ none)
            × (json.find (codes "post_context") out ≡ none)
      stripped j o =
          let o1 = laws.erase-object (codes "context_line") j o in
          let o2 = laws.erase-object (codes "pre_context") _ o1 in
          (
            laws.find-erase_other _ (codes "post_context") _ o2 (apart _ _ refl)
                ∙ (laws.find-erase_other _ (codes "pre_context") _ o1 (apart _ _ refl)
                    ∙ laws.find-erase (codes "context_line") j o),
            laws.find-erase_other _ (codes "post_context") _ o2 (apart _ _ refl)
                ∙ laws.find-erase (codes "pre_context") _ o1,
            laws.find-erase (codes "post_context") _ o2,
          )

  stripped_onto-NoSource :
      (frames : List json.Json) (out : json.Json)
      → json.is_array out ≡ true
      → All (NoSource json) (json.elements out)
      → All (NoSource json) (json.elements (stripped_onto json frames out))
  unfolding stripped_onto
  stripped_onto-NoSource [] out a h = h
  stripped_onto-NoSource (frame ∷ frames) out a h =
      let (array, longer) = laws.push-elements (strip_frame json frame) out a in
      stripped_onto-NoSource frames (json.push (strip_frame json frame) out) array (
        subst (All (NoSource json)) (sym longer) (
          All-append (NoSource json) (json.elements out) (strip_frame json frame ∷ []) h
            (strip_frame-NoSource frame, tt)))

  array_of-NoSource :
      (frames : List json.Json)
      → All (NoSource json) (json.elements (stripped_onto json frames json.empty_array))
  array_of-NoSource frames =
      stripped_onto-NoSource frames json.empty_array laws.empty-array.0
        (subst (All (NoSource json)) (sym laws.empty-array.1) tt)

  put_frames-Edits :
      (array : Bool) (frames : json.Json)
      → Edits json (codes "backtrace") (put_frames json array frames)
  put_frames-Edits false frames = record { object = λ j o. o; others = λ k j o ne. refl }
  put_frames-Edits true frames = set-Edits json laws (codes "backtrace") _

  with_frames-Edits :
      (frames : Option json.Json) → Edits json (codes "backtrace") (with_frames json frames)
  with_frames-Edits none = record { object = λ j o. o; others = λ k j o ne. refl }
  with_frames-Edits (some frames) = put_frames-Edits (json.is_array frames) frames

  pub strip_frames-Edits : Edits json (codes "backtrace") (strip_frames json)
  unfolding strip_frames
  strip_frames-Edits = record {
    object = λ j o. (with_frames-Edits (json.find (codes "backtrace") j)).object j o;
    others = λ k j o ne. (with_frames-Edits (json.find (codes "backtrace") j)).others k j o ne;
  }

  put_frames-NoSource :
      (array : Bool) (frames j v : json.Json)
      → json.is_array frames ≡ array
      → json.find (codes "backtrace") j ≡ some frames
      → json.is_object j ≡ true
      → json.find (codes "backtrace") (put_frames json array frames j) ≡ some v
      → json.is_array v ≡ true
      → All (NoSource json) (json.elements v)
  put_frames-NoSource false frames j v is was o e a = absurd (ground arith)
  put_frames-NoSource true frames j v is was o e a =
      let put = stripped_onto json (json.elements frames) json.empty_array in
      subst (λ x. All (NoSource json) (json.elements x))
        (some-injective _ _ (sym (laws.find-set (codes "backtrace") put j o) ∙ e))
        (array_of-NoSource (json.elements frames))

  with_frames-NoSource :
      (frames : Option json.Json) (j v : json.Json)
      → json.find (codes "backtrace") j ≡ frames
      → json.is_object j ≡ true
      → json.find (codes "backtrace") (with_frames json frames j) ≡ some v
      → json.is_array v ≡ true
      → All (NoSource json) (json.elements v)
  with_frames-NoSource none j v was o e a = absurd (ground arith)
  with_frames-NoSource (some frames) j v was o e a =
      put_frames-NoSource (json.is_array frames) frames j v refl was o e a

  pub strip_frames-NoSource :
      (j v : json.Json)
      → json.is_object j ≡ true
      → json.find (codes "backtrace") (strip_frames json j) ≡ some v
      → json.is_array v ≡ true
      → All (NoSource json) (json.elements v)
  unfolding strip_frames
  strip_frames-NoSource j v o e a =
      with_frames-NoSource (json.find (codes "backtrace") j) j v refl o e a
