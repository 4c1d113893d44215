-- ===== src/SqlStatement/Objects.antt =====
-- src/sql_statement.cpp: extract_objects, the procedures and relations that a masked statement names.
pub mod Bounded
mod Tests
use forge_ops_tracker_cpp.Prelude.{
  ℕ, zero, suc, ◌+◌, ◌-◌, Bool, true, false, not, ◌&&◌, ◌||◌, List, [], ◌∷◌, ◌++◌, map, Option,
  none, some, Bytes, codes, bytes_eq, to_lower, length, take, all, any, ltb, leb, ◌==◌,
  if◌then◌else◌,
}
use forge_ops_tracker_cpp.Scan.{first_is, run_length, is_word, is_space}
use forge_ops_tracker_cpp.TraceParent.{until}
use forge_ops_tracker_cpp.SqlStatement.Names.{Token, tokenize, clean}

abbrev pub k_operations : List Bytes
k_operations =
    codes "SELECT"
    ∷ codes "INSERT"
    ∷ codes "UPDATE"
    ∷ codes "DELETE"
    ∷ codes "MERGE"
    ∷ codes "WITH"
    ∷ codes "CALL"
    ∷ codes "EXEC"
    ∷ codes "EXECUTE"
    ∷ codes "CREATE"
    ∷ codes "ALTER"
    ∷ codes "DROP"
    ∷ codes "TRUNCATE"
    ∷ []

abbrev k_builtins : List Bytes
k_builtins =
    codes "count"
    ∷ codes "sum"
    ∷ codes "min"
    ∷ codes "max"
    ∷ codes "avg"
    ∷ codes "now"
    ∷ codes "coalesce"
    ∷ codes "nullif"
    ∷ codes "lower"
    ∷ codes "upper"
    ∷ codes "length"
    ∷ codes "concat"
    ∷ codes "cast"
    ∷ codes "date_trunc"
    ∷ codes "current_timestamp"
    ∷ codes "current_date"
    ∷ codes "row_number"
    ∷ codes "rank"
    ∷ codes "json_build_object"
    ∷ codes "json_agg"
    ∷ codes "array_agg"
    ∷ []

abbrev k_keywords_not_names : List Bytes
k_keywords_not_names =
    codes "select"
    ∷ codes "set"
    ∷ codes "values"
    ∷ codes "where"
    ∷ codes "lateral"
    ∷ codes "only"
    ∷ codes "unnest"
    ∷ codes "generate_series"
    ∷ []

abbrev pub is_among : List Bytes → Bytes → Bool
is_among words word = any (bytes_eq word) words

abbrev lower : Bytes → Bytes
lower = map to_lower

abbrev pub upper_byte : ℕ → ℕ
upper_byte c = if leb b'a' c && leb c b'z' then c - 32 else c

abbrev says : Bytes → Token → Bool
says text t = bytes_eq t.text text

-- A test of the next token, false at the end.
abbrev next_is : (Token → Bool) → List Token → Bool
next_is p [] = false
next_is p (t ∷ ts) = p t

-- The place of the ')' that comes before any '('.
close_in : List Token → Option ℕ
close_in [] = none
close_in (t ∷ ts) =
    let rest = close_in ts in
    if says (codes "(") t
    then none
    else if says (codes ")") t
    then some 0
    else elim rest [ none ↦ none | some n ↦ some (suc n) ]

abbrev tail : List Token → List Token
tail [] = []
tail (t ∷ ts) = ts

abbrev k_from_functions : List Bytes
k_from_functions = codes "extract" ∷ codes "substring" ∷ codes "trim" ∷ codes "overlay" ∷ []

-- How many tokens the call of a function with a FROM of its own has behind its name.
pub call_length : Token → List Token → Option ℕ
unfolding close_in
call_length t ts =
    if t.is_name && is_among k_from_functions (lower t.text) && next_is (says (codes "(")) ts
    then elim (close_in (tail ts)) [ none ↦ none | some n ↦ some (n + 2) ]
    else none

-- The tokens but those calls; `skip` of them still belong to the last call.
pub without_calls : ℕ → List Token → List Token
without_calls skip [] = []
without_calls (suc skip) (t ∷ ts) = without_calls skip ts
without_calls zero (t ∷ ts) = elim (call_length t ts) [
  | none ↦ t ∷ without_calls zero ts
  | some n ↦ without_calls n ts
]

abbrev is_call : Token → Bool
is_call t =
    t.is_name
    && is_among (codes "call" ∷ codes "exec" ∷ codes "execute" ∷ codes "perform" ∷ [])
        (lower t.text)

abbrev is_no_procedure : Bytes → Bool
is_no_procedure name =
    is_among (codes "immediate" ∷ codes "function" ∷ codes "procedure" ∷ [])
      (lower (until (λ c. c == b'.') name))

-- The first loop: what CALL and its like name.
pub called : List Token → List Bytes
called [] = []
called (t ∷ []) = []
called (t ∷ u ∷ ts) = elim (is_call t && u.is_name) [
  | false ↦ called (u ∷ ts)
  | true ↦ elim (is_no_procedure u.text) [ true ↦ called (u ∷ ts) | false ↦ u.text ∷ called ts ]
]

abbrev is_relation_keyword : Token → Bool
is_relation_keyword t =
    t.is_name
    && is_among (codes "from" ∷ codes "join" ∷ codes "into" ∷ codes "update" ∷ codes "table" ∷ [])
        (lower t.text)

-- FROM f(...) and JOIN f(...) call a function.
abbrev is_function_use : Token → List Token → Bool
is_function_use t behind =
    next_is (says (codes "(")) behind && is_among (codes "from" ∷ codes "join" ∷ []) (lower t.text)

-- The second loop: each name behind a keyword, with whether it is a procedure's.
pub mentioned : List Token → List (Bool × Bytes)
mentioned [] = []
mentioned (t ∷ []) = []
mentioned (t ∷ u ∷ ts) = elim (is_relation_keyword t && u.is_name) [
  | false ↦ mentioned (u ∷ ts)
  | true ↦ elim (is_among k_keywords_not_names (lower u.text)) [
    | true ↦ mentioned ts
    | false ↦ (is_function_use t ts, u.text) ∷ mentioned ts
  ]
]

-- The names with that mark.
pub marked : Bool → List (Bool × Bytes) → List Bytes
marked procedure [] = []
marked procedure ((mark, name) ∷ rest) =
    let others = marked procedure rest in
    if mark
    then (if procedure then name ∷ others else others)
    else (if procedure then others else name ∷ others)

-- SELECT f(...) without a FROM.
pub selected : List Token → List Bytes
selected (t ∷ u ∷ v ∷ ts) =
    if t.is_name
      && bytes_eq (lower t.text) (codes "select")
      && u.is_name
      && says (codes "(") v
      && not (is_among k_builtins (lower u.text))
      && not (
          any (λ (w : Token). w.is_name && bytes_eq (lower w.text) (codes "from")) (t ∷ u ∷ v ∷ ts))
    then u.text ∷ []
    else []
selected _ = []

-- Empty if the first token starts with no operation.
pub operation_of : List Token → Bytes
unfolding run_length
operation_of [] = []
operation_of (t ∷ ts) =
    let candidate = map upper_byte (take (run_length is_word t.text) t.text) in
    if is_among k_operations candidate then candidate else []

-- The JSON object that goes out.
pub record Objects : Type 0 where
  pub operation : Bytes
  pub procedures : List Bytes
  pub relations : List Bytes

-- none if nothing was recognised.
pub objects_of : Bytes → List Bytes → List Bytes → Option Objects
objects_of operation procedures relations =
    if leb (length procedures) 0 && leb (length relations) 0 && leb (length operation) 0
    then none
    else some (record { operation = operation; procedures = procedures; relations = relations })

pub objects_in : List Token → Option Objects
unfolding called mentioned marked selected operation_of objects_of
objects_in tokens =
    objects_of (operation_of tokens)
      (clean (called tokens ++ (marked true (mentioned tokens) ++ selected tokens)))
      (clean (marked false (mentioned tokens)))

pub extract_objects : Bytes → Option Objects
unfolding without_calls objects_in
extract_objects masked =
    if all is_space masked then none else objects_in (without_calls 0 (tokenize masked))
