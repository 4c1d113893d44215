-- ===== src/PiiScrubber/Walk.antt =====
-- src/pii_scrubber.cpp: scrub, the walk over a JSON value. Each step into a value costs a unit of
-- fuel; `none` is a walk that has run out of it.
pub mod Clean
mod Tests
use forge_ops_tracker_cpp.Prelude.{
  ℕ, zero, suc, Bool, true, false, not, ◌&&◌, List, [], ◌∷◌, Option, none, some, Bytes, codes,
  ◌>>=◌,
}
use forge_ops_tracker_cpp.Json.{JsonOps}
use forge_ops_tracker_cpp.PiiScrubber.{is_sensitive_key, scrub_string}

abbrev pub k_redacted : Bytes
k_redacted = codes "[FILTERED]"

module _ (json : JsonOps) where
  pub each_member :
      (Bytes → json.Json → Option json.Json)
      → List (Bytes × json.Json)
      → json.Json
      → Option json.Json
  each_member f [] out = some out
  each_member f ((key, value) ∷ rest) out =
      f key value >>= λ scrubbed. each_member f rest (json.set key scrubbed out)

  unfoldable pub each_element :
      (json.Json → Option json.Json) → List json.Json → json.Json → Option json.Json
  each_element f [] out = some out
  each_element f (element ∷ rest) out =
      f element >>= λ scrubbed. each_element f rest (json.push scrubbed out)

  -- `replace_patterns` is that of scrub_string.
  pub scrub : (Bytes → Bytes) → ℕ → Option Bytes → json.Json → Option json.Json
  scrub replace_patterns zero key value = none
  scrub replace_patterns (suc fuel) key value =
      elim (is_sensitive_key key && not (json.is_null value)) [
        | true ↦ some (json.of_text k_redacted)
        | false ↦ elim (json.is_object value) [
          | true ↦
              each_member (λ k v. scrub replace_patterns fuel (some k) v) (json.members value)
                json.empty_object
          | false ↦ elim (json.is_array value) [
            | true ↦
                each_element (λ v. scrub replace_patterns fuel key v) (json.elements value)
                  json.empty_array
            | false ↦ elim (json.text_of value) [
              | some text ↦ some (json.of_text (scrub_string replace_patterns text))
              | none ↦ some value
            ]
          ]
        ]
      ]
