-- ===== src/StdMap.antt =====
-- std::map<std::string, V>: its pairs in the order in which it is walked, which is that of the keys.
pub mod Laws
use forge_ops_tracker_cpp.Prelude.{
  ℕ, Bool, true, false, ◌&&◌, ◌||◌, ◌≡◌, List, [], ◌∷◌, Option, none, some, Bytes, bytes_eq, ltb,
  ◌==◌, if◌then◌else◌,
}

abbrev pub Map {ℓ} : Type ℓ → Type ℓ
Map V = List (Bytes × V)

-- operator< on std::string.
bytes_lt : Bytes → Bytes → Bool
bytes_lt s [] = false
bytes_lt [] (b ∷ t) = true
bytes_lt (a ∷ s) (b ∷ t) = ltb a b || (a == b && bytes_lt s t)

module _ {ℓ} {V : Type ℓ} where
  unfoldable pub lookup : Bytes → Map V → Option V
  lookup k [] = none
  lookup k ((j, v) ∷ m) = if bytes_eq j k then some v else lookup k m

  replace : Bytes → V → Map V → Map V
  replace k v [] = []
  replace k v ((j, w) ∷ m) = if bytes_eq j k then (j, v) ∷ m else (j, w) ∷ replace k v m

  place : Bytes → V → Map V → Map V
  place k v [] = (k, v) ∷ []
  place k v ((j, w) ∷ m) = if bytes_lt k j then (k, v) ∷ (j, w) ∷ m else (j, w) ∷ place k v m

  insert_on : Option V → Bytes → V → Map V → Map V
  insert_on none k v m = place k v m
  insert_on (some w) k v m = replace k v m

  -- m[k] = v
  unfoldable pub insert : Bytes → V → Map V → Map V
  unfolding insert_on lookup replace place bytes_lt bytes_eq
  insert k v m = insert_on (lookup k m) k v m

  unfoldable pub erase : Bytes → Map V → Map V
  unfolding bytes_eq
  erase k [] = []
  erase k ((j, v) ∷ m) = if bytes_eq j k then erase k m else (j, v) ∷ erase k m

  -- No key twice.
  abbrev pub IsMap : Map V → Type ℓ
  IsMap [] = Unit
  IsMap ((k, v) ∷ m) = (lookup k m ≡ none) × IsMap m
