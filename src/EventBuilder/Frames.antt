-- ===== src/EventBuilder/Frames.antt =====
-- src/event_builder.cpp: the backtrace is an array of objects.
use forge_ops_tracker_cpp.Prelude.{
  ◌≡◌, sym, subst, true, List, [], ◌∷◌, take, All, All-append, Option, none, some, Bytes, codes,
}
use forge_ops_tracker_cpp.Json.{JsonOps, JsonLaws}
use forge_ops_tracker_cpp.EventBuilder.{frame_of, frame_onto, frames_onto, backtrace}
use forge_ops_tracker_cpp.EventBuilder.Inputs.{Runtime, k_max_frames}
use forge_ops_tracker_cpp.EventBuilder.Scrubbed.{AreObjects}

module _ (json : JsonOps) (laws : JsonLaws json) where
  frame_of-object : (rt : Runtime) (m : Bytes × Bytes) → json.is_object (frame_of json rt m) ≡ true
  unfolding frame_of
  frame_of-object rt (image, symbol) = laws.set-object (codes "in_app") _ _ (
      laws.set-object (codes "method") _ _
        (laws.set-object (codes "line") _ _ (laws.set-object (codes "file") _ _ laws.empty-object)))

  frame_onto-AreObjects :
      (rt : Runtime) (m : Option (Bytes × Bytes)) (out : json.Json)
      → AreObjects json rt out
      → AreObjects json rt (frame_onto json rt m out)
  frame_onto-AreObjects rt none out h = h
  frame_onto-AreObjects rt (some m) out (array, objects) =
      let (array', longer) = laws.push-elements (frame_of json rt m) out array in
      (
        array',
        subst (All (λ x. json.is_object x ≡ true)) (sym longer) (
            All-append (λ x. json.is_object x ≡ true) (json.elements out) (frame_of json rt m ∷ [])
              objects (frame_of-object rt m, tt)),
      )

  frames_onto-AreObjects :
      (rt : Runtime) (lines : List Bytes) (out : json.Json)
      → AreObjects json rt out
      → AreObjects json rt (frames_onto json rt lines out)
  unfolding frames_onto
  frames_onto-AreObjects rt [] out h = h
  frames_onto-AreObjects rt (line ∷ lines) out h =
      frames_onto-AreObjects rt lines _ (frame_onto-AreObjects rt (rt.match_frame line) out h)

  no_elements : (rt : Runtime) → AreObjects json rt json.empty_array
  no_elements rt =
      (laws.empty-array.0, subst (All (λ x. json.is_object x ≡ true)) (sym laws.empty-array.1) tt)

  pub backtrace-AreObjects : (rt : Runtime) → AreObjects json rt (backtrace json rt)
  unfolding backtrace
  backtrace-AreObjects rt = lines_of rt.symbols
    where
      lines_of :
          (symbols : Option (List Bytes))
          → AreObjects json rt (elim symbols as (λ _. json.Json) [
            | none ↦ json.empty_array
            | some lines ↦ frames_onto json rt (take k_max_frames lines) json.empty_array
          ])
      lines_of none = no_elements rt
      lines_of (some lines) =
          frames_onto-AreObjects rt (take k_max_frames lines) json.empty_array (no_elements rt)
