-- ===== src/Json.antt =====
-- What the program uses of a JSON object of nlohmann::json: the operations, and what the library's
-- documentation says of them.
pub mod Example
use forge_ops_tracker_cpp.Prelude.{
  ℕ, ◌<◌, Bool, true, false, ◌≡◌, ◌≢◌, List, [], ◌∷◌, ◌++◌, All, Option, none, some, Bytes,
}

pub record JsonOps : Type 1 where
  pub Json : Type 0
  -- json(nullptr), json::object() and json::array()
  pub null : Json
  pub empty_object : Json
  pub empty_array : Json
  pub is_null : Json → Bool
  pub is_object : Json → Bool
  pub is_array : Json → Bool
  -- the text of a value that is_string, and a value made of a text
  pub text_of : Json → Option Bytes
  pub of_text : Bytes → Json
  -- what dump writes of a value that is_number
  pub number_text : Json → Option Bytes
  pub is_boolean : Json → Bool
  -- empty()
  pub is_empty : Json → Bool
  -- what operator[] with a key makes of a value before it looks for the key; `none` is a type_error
  pub as_object : Json → Option Json
  pub of_boolean : Bool → Json
  -- the members of an object in the order of iteration, and one of them
  pub members : Json → List (Bytes × Json)
  pub find : Bytes → Json → Option Json
  -- j[key] = value and j.erase(key), on an object
  pub set : Bytes → Json → Json → Json
  pub erase : Bytes → Json → Json
  -- the elements of an array, and push_back
  pub elements : Json → List Json
  pub push : Json → Json → Json
  -- how deep a value is
  pub depth : Json → ℕ

pub record JsonLaws (ops : JsonOps) : Type 0 where
  pub empty-object : ops.is_object ops.empty_object ≡ true
  pub find-empty : (key : Bytes) → ops.find key ops.empty_object ≡ none
  pub text_of-of_text : (text : Bytes) → ops.text_of (ops.of_text text) ≡ some text
  pub set-object :
      (key : Bytes) (v j : ops.Json)
      → ops.is_object j ≡ true
      → ops.is_object (ops.set key v j) ≡ true
  pub erase-object :
      (key : Bytes) (j : ops.Json) → ops.is_object j ≡ true → ops.is_object (ops.erase key j) ≡ true
  pub find-set :
      (key : Bytes) (v j : ops.Json)
      → ops.is_object j ≡ true
      → ops.find key (ops.set key v j) ≡ some v
  pub find-set_other :
      (key other : Bytes) (v j : ops.Json)
      → ops.is_object j ≡ true
      → key ≢ other
      → ops.find key (ops.set other v j) ≡ ops.find key j
  pub find-erase :
      (key : Bytes) (j : ops.Json) → ops.is_object j ≡ true → ops.find key (ops.erase key j) ≡ none
  pub find-erase_other :
      (key other : Bytes) (j : ops.Json)
      → ops.is_object j ≡ true
      → key ≢ other
      → ops.find key (ops.erase other j) ≡ ops.find key j
  pub object-kind :
      (j : ops.Json)
      → ops.is_object j ≡ true
      → (ops.is_null j ≡ false) × (ops.is_array j ≡ false) × (ops.text_of j ≡ none)
  pub array-kind :
      (j : ops.Json)
      → ops.is_array j ≡ true
      → (ops.is_null j ≡ false) × (ops.is_object j ≡ false) × (ops.text_of j ≡ none)
  pub text-kind :
      (text : Bytes)
      → (ops.is_null (ops.of_text text) ≡ false)
        × (ops.is_object (ops.of_text text) ≡ false)
        × (ops.is_array (ops.of_text text) ≡ false)
  pub as_object-object : (j : ops.Json) → ops.is_object j ≡ true → ops.as_object j ≡ some j
  pub null-null : ops.is_null ops.null ≡ true
  pub null-kind : (j : ops.Json) → ops.is_null j ≡ true → ops.text_of j ≡ none
  pub empty-array : (ops.is_array ops.empty_array ≡ true) × (ops.elements ops.empty_array ≡ [])
  pub push-elements :
      (x j : ops.Json)
      → ops.is_array j ≡ true
      → (ops.is_array (ops.push x j) ≡ true)
        × (ops.elements (ops.push x j) ≡ ops.elements j ++ x ∷ [])
  -- a value is deeper than what it holds
  pub depth-members :
      (j : ops.Json)
      → ops.is_object j ≡ true
      → All (λ (m : Bytes × ops.Json). ops.depth m.1 < ops.depth j) (ops.members j)
  pub depth-elements :
      (j : ops.Json)
      → ops.is_array j ≡ true
      → All (λ (x : ops.Json). ops.depth x < ops.depth j) (ops.elements j)
