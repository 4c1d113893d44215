-- ===== src/SqlStatement/Objects/Tests.antt =====
-- Statements and what is read from them.
use forge_ops_tracker_cpp.Prelude.{◌≡◌, refl, [], ◌∷◌, take, none, some, codes, bytes_eq}
use forge_ops_tracker_cpp.Scan.{run_length, trim}
use forge_ops_tracker_cpp.TraceParent.{until}
use forge_ops_tracker_cpp.SqlStatement.Causes.{around, plain, find_in}
use forge_ops_tracker_cpp.SqlStatement.Causes.First.{first_filled, statements, find_in_first}
use forge_ops_tracker_cpp.SqlStatement.Names.{tokenize, name_end, clean, is_full_name}
use forge_ops_tracker_cpp.SqlStatement.Objects.{Objects, extract_objects, call_length}
use forge_ops_tracker_cpp.SqlStatement.Objects.Bounded.{AreBounded, extract_objects-AreBounded}

abbrev join_objects : Objects
join_objects = record {
  operation = codes "SELECT";
  procedures = codes "dbo.f" ∷ [];
  relations = codes "[my orders]" ∷ codes "\"t\".u" ∷ [];
}

join :
    extract_objects (
      codes
        "select extract(year from d) from [my orders] o join dbo.f(?) join \"t\".u join [my orders]")
    ≡ some join_objects
unfolding extract_objects call_length tokenize name_end clean is_full_name trim run_length bytes_eq
join = refl

exec_call :
    extract_objects (codes "EXEC sp_v2 ?")
    ≡ some (record { operation = codes "EXEC"; procedures = codes "sp_v2" ∷ []; relations = [] })
unfolding extract_objects call_length tokenize name_end clean is_full_name trim run_length until
    bytes_eq
exec_call = refl

function_only :
    extract_objects (codes "select f(?)")
    ≡ some (record { operation = codes "SELECT"; procedures = codes "f" ∷ []; relations = [] })
unfolding extract_objects call_length tokenize name_end clean is_full_name trim run_length bytes_eq
function_only = refl

builtin_only : extract_objects (codes "(count(?))") ≡ none
unfolding extract_objects call_length tokenize name_end clean is_full_name trim run_length bytes_eq
builtin_only = refl

extract_objects-AreBounded_example : AreBounded join_objects
extract_objects-AreBounded_example =
    extract_objects-AreBounded
      (codes
        "select extract(year from d) from [my orders] o join dbo.f(?) join \"t\".u join [my orders]")
      join

find_in_first_example :
    find_in (around none (codes "e") (plain (some (codes "S")) (codes "f")))
    ≡ first_filled
        (take 6 (statements (around none (codes "e") (plain (some (codes "S")) (codes "f")))))
find_in_first_example =
    find_in_first (around none (codes "e") (plain (some (codes "S")) (codes "f")))
