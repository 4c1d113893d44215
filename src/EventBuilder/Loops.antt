-- ===== src/EventBuilder/Loops.antt =====
-- src/event_builder.cpp: the loops over the frames and the breadcrumbs of a payload.
use forge_ops_tracker_cpp.Prelude.{
  ◌≡◌, refl, sym, ap, subst, ◌∙◌, true, false, List, [], ◌∷◌, All, All-mono, All-append, Option,
  none, some, some-injective, Bytes, codes, bytes_eq, arith, ◌>>=◌, inl, inr,
}
use forge_ops_tracker_cpp.Json.{JsonOps, JsonLaws}
use forge_ops_tracker_cpp.PiiScrubber.{scrub_string}
use forge_ops_tracker_cpp.PiiScrubber.Walk.{each_element}
use forge_ops_tracker_cpp.StrictPrivacy.Events.Edits.{apart}
use forge_ops_tracker_cpp.EventBuilder.Inputs.{Runtime}
use forge_ops_tracker_cpp.EventBuilder.Scrub.{
  scrub_part, part, scrub_frame, scrub_crumb, each_in, replace_each, scrub_frames,
  scrub_breadcrumbs,
}
use forge_ops_tracker_cpp.EventBuilder.Steps.{ChangedAt, Works}
use forge_ops_tracker_cpp.EventBuilder.Scrubbed.{
  ScrubbedAt, ScrubbedFrame, ScrubbedCrumb, AreObjects, ArrayOf, Found, frames_step,
  breadcrumbs_step, set-ChangedAt, same-ChangedAt, scrub_member-Clean, text_at-set,
}

module _ (json : JsonOps) (laws : JsonLaws json) (rt : Runtime) where
  scrub_part-made :
      (key : Bytes) (was : Option json.Json) (o : json.Json)
      → json.is_object o ≡ true
      → json.find key o ≡ was
      → ChangedAt json key o (scrub_part json rt key was o)
        × ScrubbedAt json rt key (scrub_part json rt key was o)
  scrub_part-made key none o object e = (
    set-ChangedAt json laws rt key json.null o object,
    λ text found. absurd (ground (arith, laws.find-set key json.null o object, null_text)),
  )
    where
      null_text : json.text_of json.null ≡ none
      null_text = laws.null-kind json.null laws.null-null
  scrub_part-made key (some v) o object e = text_made (json.text_of v) refl
    where
      text_made :
          (t : Option Bytes)
          → json.text_of v ≡ t
          → let r = elim t as (λ _. json.Json) [
            | none ↦ o
            | some text ↦ json.set key (json.of_text (scrub_string rt.replace_patterns text)) o
          ] in
            ChangedAt json key o r × ScrubbedAt json rt key r
      text_made none same =
          (same-ChangedAt json laws rt key o object, λ text found. absurd (ground arith))
      text_made (some was) same = (
        set-ChangedAt json laws rt key _ o object,
        λ text found. (
          was,
          some-injective _ _ (
              sym found
              ∙ text_at-set json laws rt key (scrub_string rt.replace_patterns was) o object),
        ),
      )

  part-made :
      (key : Bytes) (o : json.Json)
      → json.is_object o ≡ true
      → ChangedAt json key o (part json rt key o) × ScrubbedAt json rt key (part json rt key o)
  part-made key o object = scrub_part-made key (json.find key o) o object refl

  -- A change under another key leaves a text scrubbed.
  ScrubbedAt-kept :
      (key other : Bytes) (o r : json.Json)
      → ChangedAt json other o r
      → bytes_eq key other ≡ false
      → ScrubbedAt json rt key o
      → ScrubbedAt json rt key r
  ScrubbedAt-kept key other o r changed ne h text e =
      h text (ap (λ x. x >>= json.text_of) (sym (changed.others key (apart key other ne))) ∙ e)

  scrub_frame-Scrubbed :
      (frame : json.Json)
      → json.is_object frame ≡ true
      → (r : json.Json) × (scrub_frame json rt frame ≡ some r) × ScrubbedFrame json rt r
  unfolding scrub_frame bytes_eq
  scrub_frame-Scrubbed frame o =
      let (changed, file) = part-made (codes "file") frame o in
      let (changed', method) = part-made (codes "method") _ changed.object in
      (
        part json rt (codes "method") (part json rt (codes "file") frame),
        rw (laws.as_object-object frame o) refl,
        (ScrubbedAt-kept (codes "file") (codes "method") _ _ changed' refl file, method),
      )

  scrub_crumb-Scrubbed :
      (crumb : json.Json)
      → json.is_object crumb ≡ true
      → (r : json.Json) × (scrub_crumb json rt crumb ≡ some r) × ScrubbedCrumb json rt r
  unfolding scrub_crumb bytes_eq
  scrub_crumb-Scrubbed crumb o =
      let (changed, message) = part-made (codes "message") crumb o in
      let (r, same, changed', clean) =
        scrub_member-Clean json laws rt (codes "data") (part json rt (codes "message") crumb)
          changed.object in
      (
        r,
        rw (laws.as_object-object crumb o) same,
        (ScrubbedAt-kept (codes "message") (codes "data") _ _ changed' refl message, clean),
      )

  each_element-All :
      (P : json.Json → Type 0) (f : json.Json → Option json.Json) (xs : List json.Json)
      (out : json.Json)
      → All (λ (x : json.Json). (r : json.Json) × (f x ≡ some r) × P r) xs
      → ArrayOf json rt P out
      → (r : json.Json) × (each_element json f xs out ≡ some r) × ArrayOf json rt P r
  unfolding each_element
  each_element-All P f [] out h a = (out, refl, a)
  each_element-All P f (x ∷ xs) out h (a, items) =
      let (v, e, p) = h.0 in
      let (array, longer) = laws.push-elements v out a in
      let (r, same, done) = each_element-All P f xs (json.push v out) h.1 (
        array,
        subst (All P) (sym longer) (All-append P (json.elements out) (v ∷ []) items (p, tt)),
      ) in
      (r, rw e same, done)

  replace_each-Works :
      (P : json.Json → Type 0) (f : json.Json → Option json.Json) (key : Bytes) (v j : json.Json)
      → ((x : json.Json) → json.is_object x ≡ true → (r : json.Json) × (f x ≡ some r) × P r)
      → AreObjects json rt v
      → json.is_object j ≡ true
      → (r : json.Json) × (replace_each json f key v j ≡ some r)
        × ChangedAt json key j r
        × Found json rt (ArrayOf json rt P) (json.find key r)
  unfolding each_in
  replace_each-Works P f key v j works (array, objects) o =
      let (w, same, done) =
        each_element-All P f (json.elements v) json.empty_array
          (All-mono _ _ (λ (x : json.Json) object. works x object) (json.elements v) objects)
          (laws.empty-array.0, subst (All P) (sym laws.empty-array.1) tt) in
      (
        json.set key w j,
        rw (array, same) refl,
        set-ChangedAt json laws rt key w j o,
        (w, laws.find-set key w j o, done),
      )

  pub frames_step-Works : Works json (frames_step json rt)
  unfolding scrub_frames
  frames_step-Works j o (v, e, objects) =
      let found : json.find (codes "backtrace") j ≡ some v = e in
      let (r, same, changed, done) =
        replace_each-Works (ScrubbedFrame json rt) (scrub_frame json rt) (codes "backtrace") v j
          scrub_frame-Scrubbed objects o in
      (r, rw found same, changed, done)

  pub breadcrumbs_step-Works : Works json (breadcrumbs_step json rt)
  unfolding scrub_breadcrumbs
  breadcrumbs_step-Works j o (inl e) =
      let absent : json.find (codes "breadcrumbs") j ≡ none = e in
      (j, rw absent refl, same-ChangedAt json laws rt (codes "breadcrumbs") j o, inl e)
  breadcrumbs_step-Works j o (inr (v, e, objects)) =
      let found : json.find (codes "breadcrumbs") j ≡ some v = e in
      let (r, same, changed, done) =
        replace_each-Works (ScrubbedCrumb json rt) (scrub_crumb json rt) (codes "breadcrumbs") v j
          scrub_crumb-Scrubbed objects o in
      (r, rw found same, changed, inr done)
