-- ===== src/SpanBuffer/Data.antt =====
-- src/span_buffer.cpp and src/strict_privacy.cpp: what goes out of a span's data.
pub mod Masked
mod Tests
use forge_ops_tracker_cpp.Prelude.{
  ℕ, Bool, true, false, not, List, [], ◌∷◌, map, Option, none, some, Bytes, codes, bytes_eq,
  to_lower, if◌then◌else◌, ◌>>=◌,
}
use forge_ops_tracker_cpp.Json.{JsonOps}
use forge_ops_tracker_cpp.SqlStatement.{mask}
use forge_ops_tracker_cpp.TraceParent.{trimmed}

module _ (json : JsonOps) where
  -- The text under a key.
  abbrev pub text_at : Bytes → json.Json → Option Bytes
  text_at key j = json.find key j >>= json.text_of

  -- The database system in lower case, left out if it is blank; and the data with it.
  pub with_system : Bytes → json.Json → json.Json × Option Bytes
  with_system [] result = (json.erase (codes "db.system") result, none)
  with_system (c ∷ value) result =
      (json.set (codes "db.system") (json.of_text (c ∷ value)) result, some (c ∷ value))

  pub normalize_system : Option Bytes → json.Json → json.Json × Option Bytes
  unfolding with_system
  normalize_system none result = (result, none)
  normalize_system (some value) result = with_system (map to_lower (trimmed value)) result

  pub with_statement : Option Bytes → json.Json → json.Json
  with_statement none result = json.erase (codes "db.statement") result
  with_statement (some masked) result = json.set (codes "db.statement") (json.of_text masked) result

  pub mask_statement : Option Bytes → Option Bytes → json.Json → json.Json
  mask_statement none system result = result
  mask_statement (some statement) system result = with_statement (mask statement system) result

  pub database_data : json.Json → json.Json
  database_data j =
      let (result, system) = normalize_system (text_at (codes "db.system") j) j in
      mask_statement (text_at (codes "db.statement") result) system result

  pub span_data : Bytes → json.Json → json.Json
  span_data kind j =
      if not (json.is_object j)
      then json.empty_object
      else if not (bytes_eq kind (codes "database"))
      then j
      else database_data j

  abbrev keep : Bytes → json.Json → json.Json → json.Json
  keep key j kept = elim (json.find key j) [ none ↦ kept | some v ↦ json.set key v kept ]

  pub strict_span_data : json.Json → json.Json
  strict_span_data j =
      if not (json.is_object j)
      then json.empty_object
      else keep (codes "db.system") j (keep (codes "db.statement") j json.empty_object)
