-- ===== src/SqlStatement/Causes.antt =====
-- src/sql_statement.cpp: find_in, the statement behind an exception. The run-time type tests and the
-- rethrowing of a nested exception are the cases of the data type.
pub mod First
use forge_ops_tracker_cpp.Prelude.{
  ℕ, zero, suc, ◌+◌, Bool, true, false, List, [], ◌∷◌, Option, none, some, Bytes, codes, length,
  drop, ltb, leb, if◌then◌else◌,
}
use forge_ops_tracker_cpp.Scan.{find, trim}

-- A std::exception: the statement of a SqlException, `none` for another type, and its what(). It may
-- carry nothing (no nested_exception, or one with a null pointer), something that is no
-- std::exception, or a std::exception.
pub data Exception : Type 0 where
  plain : Option Bytes → Bytes → Exception
  around_other : Option Bytes → Bytes → Exception
  around : Option Bytes → Bytes → Exception → Exception

abbrev pub k_max_cause_depth : ℕ
k_max_cause_depth = 5

abbrev pub k_compiling_marker : Bytes
k_compiling_marker = codes "while compiling:"

-- What follows the first marker in the text, trimmed.
pub compiled : Bytes → Bytes
unfolding find trim
compiled what = elim (find k_compiling_marker what) [
  | none ↦ []
  | some n ↦ trim (drop (n + length k_compiling_marker) what)
]

-- The statement that the exception itself has, empty if there is none.
pub own_statement : Option Bytes → Bytes → Bytes
unfolding compiled
own_statement (some (c ∷ statement)) what = c ∷ statement
own_statement _ what = compiled what

abbrev pub or_else : Bytes → Bytes → Bytes
or_else [] other = other
or_else (c ∷ s) other = c ∷ s

pub find_in_at_depth : Exception → ℕ → Bytes
find_in_at_depth (plain statement what) depth = own_statement statement what
find_in_at_depth (around_other statement what) depth = own_statement statement what
find_in_at_depth (around statement what inner) depth =
    let nested = find_in_at_depth inner (depth + 1) in
    or_else (own_statement statement what) (if leb k_max_cause_depth depth then [] else nested)

pub find_in : Exception → Bytes
unfolding find_in_at_depth
find_in exception = find_in_at_depth exception 0
