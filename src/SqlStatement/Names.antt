-- ===== src/SqlStatement/Names.antt =====
-- src/sql_statement.cpp: the names in a statement, its tokens, and the cleaning of a list of names.
-- An end is the number of bytes up to it.
pub mod Cleaned
use forge_ops_tracker_cpp.Prelude.{
  ℕ, zero, suc, ◌+◌, ◌-◌, Bool, true, false, not, ◌&&◌, ◌||◌, List, [], ◌∷◌, ◌++◌, Option, none,
  some, Bytes, bytes_eq, length, take, drop, any, ltb, ◌==◌, if◌then◌else◌,
}
use forge_ops_tracker_cpp.Scan.{first_is, run_length, is_word, is_space, trim}

abbrev pub k_max_names : ℕ
k_max_names = 10

abbrev pub k_max_name_length : ℕ
k_max_name_length = 200

abbrev is_bare_char : ℕ → Bool
is_bare_char c = is_word c || c == b'$' || c == b'#' || c == b'@'

-- A part that an opening mark starts, up to its closer; not an empty one.
wrapped_end : ℕ → Bytes → Option ℕ
unfolding run_length
wrapped_end closer s =
    let j = run_length (λ c. not (c == closer)) s in
    if ltb 0 j && first_is (λ c. c == closer) (drop j s) then some (j + 2) else none

pub name_part_end : Bytes → Option ℕ
unfolding run_length wrapped_end
name_part_end [] = none
name_part_end (c ∷ s) =
    if is_bare_char c
    then some (run_length is_bare_char (c ∷ s))
    else if c == b'"' || c == b'`'
    then wrapped_end c s
    else if c == b'['
    then wrapped_end b']' s
    else none

-- The further parts of a name, each behind a '.'. `skip` bytes belong to the part read last.
pub parts_end : ℕ → Bytes → ℕ
parts_end skip [] = 0
parts_end (suc skip) (c ∷ s) = suc (parts_end skip s)
parts_end zero (c ∷ s) = elim (c == b'.') [
  | false ↦ 0
  | true ↦ elim (name_part_end s) [ none ↦ 0 | some n ↦ suc (parts_end n s) ]
]

unfoldable pub name_end : Bytes → Option ℕ
unfolding name_part_end parts_end
name_end s = elim (name_part_end s) [ none ↦ none | some n ↦ some (parts_end n s) ]

pub record Token : Type 0 where
  pub text : Bytes
  pub is_name : Bool

-- `skip` bytes belong to the last token.
pub tokens_from : ℕ → Bytes → List Token
tokens_from skip [] = []
tokens_from (suc skip) (c ∷ s) = tokens_from skip s
tokens_from zero (c ∷ s) = elim (is_space c) [
  | true ↦ tokens_from zero s
  | false ↦ elim (name_end (c ∷ s)) [
    | some n ↦ record { text = take n (c ∷ s); is_name = true } ∷ tokens_from (n - 1) s
    | none ↦ record { text = c ∷ []; is_name = false } ∷ tokens_from zero s
  ]
]

unfoldable pub tokenize : Bytes → List Token
unfolding tokens_from
tokenize s = tokens_from 0 s

abbrev ends_at : Option ℕ → ℕ → Bool
ends_at none n = false
ends_at (some m) n = m == n

unfoldable pub is_full_name : Bytes → Bool
unfolding name_end
is_full_name name = ltb 0 (length name) && ends_at (name_end name) (length name)

-- A raw name without the spaces around it, cut to its greatest length.
abbrev pub name_of : Bytes → Bytes
name_of raw = take k_max_name_length (trim raw)

pub clean_onto : List Bytes → List Bytes → List Bytes
clean_onto cleaned [] = cleaned
clean_onto cleaned (raw ∷ names) =
    clean_onto
      (if is_full_name (name_of raw) && not (any (bytes_eq (name_of raw)) cleaned)
        then cleaned ++ name_of raw ∷ []
        else cleaned)
      names

unfoldable pub clean : List Bytes → List Bytes
unfolding clean_onto
clean names = take k_max_names (clean_onto [] names)
