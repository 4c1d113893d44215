-- ===== src/SqlStatement/Names/Cleaned.antt =====
-- src/sql_statement.cpp: what a cleaned list of names may hold.
use forge_ops_tracker_cpp.Prelude.{
  ℕ, zero, suc, ◌≤◌, ◌≡◌, refl, ◌∙◌, true, false, not, ◌&&◌, List, [], ◌∷◌, ◌++◌, Bytes, bytes_eq,
  bytes_eq_iff, length, length-take, take, any, All, All-append, arith, Bool-cases, inl, inr,
}
use forge_ops_tracker_cpp.Scan.{trim}
use forge_ops_tracker_cpp.SqlStatement.Names.{
  is_full_name, name_of, clean_onto, clean, k_max_name_length,
}

-- A name as it may go out.
pub record IsClean (name : Bytes) : Type 0 where
  pub full : is_full_name name ≡ true
  pub short : length name ≤ 200

-- No name twice.
abbrev pub Distinct : List Bytes → Type 0
Distinct [] = Unit
Distinct (name ∷ names) = (any (bytes_eq name) names ≡ false) × Distinct names

pub record AreClean (names : List Bytes) : Type 0 where
  pub clean_each : All IsClean names
  pub distinct : Distinct names

eq_comm : (s t : Bytes) → bytes_eq s t ≡ bytes_eq t s
eq_comm s t = ground (arith, bytes_eq_iff s t, bytes_eq_iff t s)

any-append_one :
    (s t : Bytes) (xs : List Bytes)
    → any (bytes_eq s) xs ≡ false
    → bytes_eq s t ≡ false
    → any (bytes_eq s) (xs ++ t ∷ []) ≡ false
any-append_one s t [] h e = ground arith
any-append_one s t (x ∷ xs) h e = ground (arith, any-append_one s t xs)

Distinct-append_one :
    (t : Bytes) (xs : List Bytes)
    → Distinct xs
    → any (bytes_eq t) xs ≡ false
    → Distinct (xs ++ t ∷ [])
Distinct-append_one t [] d h = (refl, tt)
Distinct-append_one t (x ∷ xs) d h = (
  any-append_one x t xs d.0 (eq_comm x t ∙ ground arith),
  Distinct-append_one t xs d.1 (ground arith),
)

length-name_of : (raw : Bytes) → length (name_of raw) ≤ 200
length-name_of raw = omega (arith, length-take k_max_name_length (trim raw))

clean_onto-AreClean :
    (names cleaned : List Bytes) → AreClean cleaned → AreClean (clean_onto cleaned names)
unfolding clean_onto
clean_onto-AreClean [] cleaned v = v
clean_onto-AreClean (raw ∷ names) cleaned v =
    elim (Bool-cases (is_full_name (name_of raw) && not (any (bytes_eq (name_of raw)) cleaned))) [
      | inl new ↦ rw new (
          clean_onto-AreClean names (cleaned ++ name_of raw ∷ []) (record {
            clean_each =
                All-append IsClean cleaned (name_of raw ∷ []) v.clean_each
                  (record { full = ground arith; short = length-name_of raw }, tt);
            distinct = Distinct-append_one (name_of raw) cleaned v.distinct (ground arith);
          }))
      | inr old ↦ rw old (clean_onto-AreClean names cleaned v)
    ]

any-take :
    (s : Bytes) (n : ℕ) (xs : List Bytes)
    → any (bytes_eq s) xs ≡ false
    → any (bytes_eq s) (take n xs) ≡ false
any-take s zero xs h = refl
any-take s (suc n) [] h = refl
any-take s (suc n) (x ∷ xs) h = ground (arith, any-take s n xs)

take-AreClean : (n : ℕ) (xs : List Bytes) → AreClean xs → AreClean (take n xs)
take-AreClean zero xs v = record { clean_each = tt; distinct = tt }
take-AreClean (suc n) [] v = record { clean_each = tt; distinct = tt }
take-AreClean (suc n) (x ∷ xs) v =
    let rest =
      take-AreClean n xs (record { clean_each = v.clean_each.1; distinct = v.distinct.1 }) in
    record {
      clean_each = (v.clean_each.0, rest.clean_each);
      distinct = (any-take x n xs v.distinct.0, rest.distinct);
    }

pub clean-AreClean : (names : List Bytes) → AreClean (clean names) × (length (clean names) ≤ 10)
unfolding clean
clean-AreClean names = (
  take-AreClean 10 (clean_onto [] names)
      (clean_onto-AreClean names [] (record { clean_each = tt; distinct = tt })),
  omega (arith, length-take 10 (clean_onto [] names)),
)
