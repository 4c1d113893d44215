-- ===== src/SpanBuffer/Data/Masked.antt =====
-- src/span_buffer.cpp: no statement of a database span goes out as it was written.
use forge_ops_tracker_cpp.Prelude.{
  ◌≡◌, ◌≢◌, bytes_eq, bytes_eq_iff, Bool-cases, inl, inr, ◌>>=◌, refl, ap, ◌∙◌, true, false, [],
  ◌∷◌, map, Option, none, some, Bytes, codes, bytes_eq_refl, sym, to_lower, arith,
}
use forge_ops_tracker_cpp.Json.{JsonOps, JsonLaws}
use forge_ops_tracker_cpp.SqlStatement.{mask}
use forge_ops_tracker_cpp.TraceParent.{trimmed}
use forge_ops_tracker_cpp.SpanBuffer.Data.{
  text_at, with_system, normalize_system, with_statement, mask_statement, database_data, span_data,
}

-- The system that masking is told: in lower case, without blanks around it, none if nothing is left.
abbrev pub sent_system : Option Bytes → Option Bytes
sent_system none = none
sent_system (some value) = elim (map to_lower (trimmed value)) [ [] ↦ none | c ∷ s ↦ some (c ∷ s) ]

db_system_apart : codes "db.statement" ≢ codes "db.system"
unfolding bytes_eq
db_system_apart e = ground (arith, bytes_eq_iff (codes "db.statement") (codes "db.system"))

module _ (json : JsonOps) (laws : JsonLaws json) where
  with_system-object :
      (value : Bytes) (j : json.Json)
      → json.is_object j ≡ true
      → json.is_object (with_system json value j).0 ≡ true
  unfolding with_system
  with_system-object [] j h = laws.erase-object (codes "db.system") j h
  with_system-object (c ∷ value) j h = laws.set-object (codes "db.system") _ j h

  normalize_system-object :
      (system : Option Bytes) (j : json.Json)
      → json.is_object j ≡ true
      → json.is_object (normalize_system json system j).0 ≡ true
  unfolding normalize_system
  normalize_system-object none j h = h
  normalize_system-object (some value) j h = with_system-object (map to_lower (trimmed value)) j h

  -- What is edited is the system, and what masking is told is its trimmed form.
  with_system-statement :
      (value : Bytes) (j : json.Json)
      → json.is_object j ≡ true
      → json.find (codes "db.statement") (with_system json value j).0
        ≡ json.find (codes "db.statement") j
  unfolding with_system
  with_system-statement [] j o =
      laws.find-erase_other (codes "db.statement") (codes "db.system") j o db_system_apart
  with_system-statement (c ∷ value) j o =
      laws.find-set_other (codes "db.statement") (codes "db.system") _ j o db_system_apart

  normalize_system-statement :
      (system : Option Bytes) (j : json.Json)
      → json.is_object j ≡ true
      → text_at json (codes "db.statement") (normalize_system json system j).0
        ≡ text_at json (codes "db.statement") j
  unfolding normalize_system
  normalize_system-statement none j o = refl
  normalize_system-statement (some value) j o =
      ap (λ r. r >>= json.text_of) (with_system-statement (map to_lower (trimmed value)) j o)

  normalize_system-sent :
      (system : Option Bytes) (j : json.Json)
      → (normalize_system json system j).1 ≡ sent_system system
  unfolding normalize_system
  normalize_system-sent none j = refl
  normalize_system-sent (some value) j = by_value (map to_lower (trimmed value))
    where
      by_value :
          (v : Bytes)
          → (with_system json v j).1
            ≡ (elim v as (λ _. Option Bytes) [ [] ↦ none | c ∷ s ↦ some (c ∷ s) ])
      by_value [] = unfold with_system in refl
      by_value (c ∷ s) = unfold with_system in refl

  with_statement-masked :
      (statement : Bytes) (system : Option Bytes) (r : Option Bytes) (j : json.Json) (text : Bytes)
      → r ≡ mask statement system
      → json.is_object j ≡ true
      → text_at json (codes "db.statement") (with_statement json r j) ≡ some text
      → mask statement system ≡ some text
  unfolding with_statement
  with_statement-masked statement system none j text e o h =
      ground (arith, laws.find-erase (codes "db.statement") j o)
  with_statement-masked statement system (some masked) j text e o h = ground (
    arith,
    laws.find-set (codes "db.statement") (json.of_text masked) j o,
    laws.text_of-of_text masked,
  )

  mask_statement-masked :
      (was system : Option Bytes) (j : json.Json) (text : Bytes)
      → text_at json (codes "db.statement") j ≡ was
      → json.is_object j ≡ true
      → text_at json (codes "db.statement") (mask_statement json was system j) ≡ some text
      → (statement : Bytes) × (was ≡ some statement) × (mask statement system ≡ some text)
  unfolding mask_statement
  mask_statement-masked none system j text e o h = absurd (ground arith)
  mask_statement-masked (some statement) system j text e o h = (
    statement,
    refl,
    with_statement-masked statement system (mask statement system) j text refl o h,
  )

  database_first : (j : json.Json) → json.Json × Option Bytes
  database_first j = normalize_system json (text_at json (codes "db.system") j) j

  span_data-database :
      (j : json.Json)
      → json.is_object j ≡ true
      → span_data json (codes "database") j
        ≡ mask_statement json
            (text_at json (codes "db.statement") (database_first j).0)
            (database_first j).1
            (database_first j).0
  unfolding span_data database_data database_first
  span_data-database j o = rw (o, bytes_eq_refl (codes "database")) refl

  database_first-object :
      (j : json.Json) → json.is_object j ≡ true → json.is_object (database_first j).0 ≡ true
  unfolding database_first
  database_first-object j o = normalize_system-object (text_at json (codes "db.system") j) j o

  database-statement :
      (j : json.Json) (text : Bytes)
      → json.is_object j ≡ true
      → text_at json (codes "db.statement") (span_data json (codes "database") j) ≡ some text
      → (statement : Bytes) × (text_at json (codes "db.statement") j ≡ some statement)
        × (mask statement (sent_system (text_at json (codes "db.system") j)) ≡ some text)
  unfolding database_first
  database-statement j text o h =
      let was = text_at json (codes "db.system") j in
      let (result, system) = database_first j in
      let (statement, found, masked) =
        mask_statement-masked (text_at json (codes "db.statement") result) system result text refl
          (database_first-object j o)
          (ap (text_at json (codes "db.statement")) (sym (span_data-database j o)) ∙ h) in
      (
        statement,
        sym (normalize_system-statement was j o) ∙ found,
        ap (mask statement) (sym (normalize_system-sent was j)) ∙ masked,
      )

  span_data-no_object :
      (kind : Bytes) (j : json.Json)
      → json.is_object j ≡ false
      → text_at json (codes "db.statement") (span_data json kind j) ≡ none
  unfolding span_data
  span_data-no_object kind j off =
      rw off (ap (λ r. r >>= json.text_of) (laws.find-empty (codes "db.statement")))

  -- Whatever the data of a database span, a statement that goes out as a text is what mask makes of
  -- the statement that the data has, told the data's own system, in lower case and without blanks
  -- around it.
  pub database_statement-masked :
      (j : json.Json) (text : Bytes)
      → text_at json (codes "db.statement") (span_data json (codes "database") j) ≡ some text
      → (statement : Bytes) × (text_at json (codes "db.statement") j ≡ some statement)
        × (mask statement (sent_system (text_at json (codes "db.system") j)) ≡ some text)
  database_statement-masked j text h = elim (Bool-cases (json.is_object j)) [
    | inl o ↦ database-statement j text o h
    | inr off ↦ absurd (ground (arith, span_data-no_object (codes "database") j off))
  ]
