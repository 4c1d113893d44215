-- ===== src/Change.antt =====
-- src/change.cpp and its header: a recorded change. The clock's text and the JSON of the details are
-- given.
pub mod Titles
mod Tests
use forge_ops_tracker_cpp.Prelude.{
  ℕ, zero, suc, Bool, true, false, List, [], ◌∷◌, any, Option, none, some, Bytes, codes, bytes_eq,
  if◌then◌else◌,
}
use forge_ops_tracker_cpp.Scan.{is_continuation, trim}

abbrev pub change_kinds : List Bytes
change_kinds =
    codes "feature_flag"
    ∷ codes "config"
    ∷ codes "migration"
    ∷ codes "dependency"
    ∷ codes "infrastructure"
    ∷ codes "other"
    ∷ []

abbrev pub max_change_title_chars : ℕ
max_change_title_chars = 200

pub normalize_kind : Bytes → Bytes
normalize_kind kind = if any (bytes_eq kind) change_kinds then kind else codes "other"

-- The first `n` characters: a byte that starts one more ends the text.
pub utf8_prefix : ℕ → Bytes → Bytes
utf8_prefix n [] = []
utf8_prefix zero (c ∷ text) = elim (is_continuation c) [
  | true ↦ c ∷ utf8_prefix zero text
  | false ↦ []
]
utf8_prefix (suc n) (c ∷ text) = elim (is_continuation c) [
  | true ↦ c ∷ utf8_prefix (suc n) text
  | false ↦ c ∷ utf8_prefix n text
]

pub record ChangeOptions : Type 0 where
  pub service : Option Bytes
  pub environment : Option Bytes
  pub actor : Option Bytes
  pub url : Option Bytes
  pub id : Option Bytes
  -- as it is formatted
  pub occurred_at : Option Bytes

abbrev value_or : Bytes → Option Bytes → Bytes
value_or other none = other
value_or other (some text) = text

-- The JSON object, field by field; a field that is not set is `none`.
pub record Change {ℓ} (J : Type ℓ) : Type ℓ where
  pub kind : Bytes
  pub title : Bytes
  pub environment : Bytes
  pub occurred_at : Bytes
  pub details : Option J
  pub service : Option Bytes
  pub actor : Option Bytes
  pub url : Option Bytes
  pub id : Option Bytes

module _ {ℓ} {J : Type ℓ} where
  pub made_of : Bytes → Bytes → Bytes → Bytes → Option J → ChangeOptions → Option (Change J)
  made_of environment now kind [] details options = none
  made_of environment now kind (c ∷ title) details options = some (record {
    kind = normalize_kind kind;
    title = utf8_prefix max_change_title_chars (c ∷ title);
    environment = value_or environment options.environment;
    occurred_at = value_or now options.occurred_at;
    details = details;
    service = options.service;
    actor = options.actor;
    url = options.url;
    id = options.id;
  })

  -- `has_fields` says that the details are an object that is not empty; `now` is the clock's text.
  pub build_change :
      (J → Bool) → Bytes → Bytes → Bytes → Bytes → J → ChangeOptions → Option (Change J)
  unfolding made_of
  build_change has_fields environment now kind title details options =
      made_of environment now kind (trim title) (if has_fields details then some details else none)
        options
