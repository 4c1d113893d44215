-- ===== src/SqlStatement/Causes/First.antt =====
-- src/sql_statement.cpp: which statement find_in finds.
use forge_ops_tracker_cpp.Prelude.{
  ℕ, zero, suc, ◌+◌, ◌≡◌, refl, sym, bytes_eq, ap, true, false, List, [], ◌∷◌, none, some, Bytes,
  codes, take, arith, leb,
}
use forge_ops_tracker_cpp.Scan.{find, trim}
use forge_ops_tracker_cpp.SqlStatement.Causes.{
  Exception, plain, around_other, around, own_statement, or_else, find_in_at_depth, find_in,
  compiled,
}

-- The statements of the exceptions, from the outermost inwards.
pub statements : Exception → List Bytes
statements (plain statement what) = own_statement statement what ∷ []
statements (around_other statement what) = own_statement statement what ∷ []
statements (around statement what inner) = own_statement statement what ∷ statements inner

pub first_filled : List Bytes → Bytes
first_filled [] = []
first_filled (s ∷ rest) = or_else s (first_filled rest)

or_else-nil : (s : Bytes) → or_else s [] ≡ s
or_else-nil [] = refl
or_else-nil (c ∷ s) = refl

first_filled-one : (n : ℕ) (s : Bytes) → first_filled (take (suc n) (s ∷ [])) ≡ s
unfolding first_filled
first_filled-one zero s = or_else-nil s
first_filled-one (suc n) s = or_else-nil s

at_depth :
    (left depth : ℕ) (e : Exception)
    → depth + left ≡ 5
    → find_in_at_depth e depth ≡ first_filled (take (suc left) (statements e))
unfolding find_in_at_depth statements first_filled
at_depth left depth (plain statement what) h =
    sym (first_filled-one left (own_statement statement what))
at_depth left depth (around_other statement what) h =
    sym (first_filled-one left (own_statement statement what))
at_depth zero depth (around statement what inner) h =
    rw stop (ground (arith, or_else-nil (own_statement statement what)))
  where
    stop : leb 5 depth ≡ true
    stop = ground arith
at_depth (suc left) depth (around statement what inner) h =
    rw goes
      (ap (or_else (own_statement statement what)) (at_depth left (depth + 1) inner (omega arith)))
  where
    goes : leb 5 depth ≡ false
    goes = ground arith

-- The statement that is found is the first, from the outermost exception inwards, that one of the
-- first six exceptions of the chain has itself; none further in is looked at.
pub find_in_first : (e : Exception) → find_in e ≡ first_filled (take 6 (statements e))
unfolding find_in
find_in_first e = at_depth 5 0 e refl

nested_marker :
    find_in
      (around none (codes "failed") (plain (some []) (codes "near x, while compiling:  SELECT 1 ")))
    ≡ codes "SELECT 1"
unfolding find_in own_statement compiled find trim bytes_eq
nested_marker = refl
