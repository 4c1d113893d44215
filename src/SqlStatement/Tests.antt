-- ===== src/SqlStatement/Tests.antt =====
-- Statements masked, and the theorems at some of them.
use forge_ops_tracker_cpp.Prelude.{◌≡◌, refl, true, ◌≤◌, all, length, none, some, codes, bytes_eq}
use forge_ops_tracker_cpp.SqlStatement.{
  is_double_quoting, mask, mask_rule, literal_quote, string_quote, quoted_end, unquoted, dollar_end,
  number_end,
}
use forge_ops_tracker_cpp.Scan.{scan}
use forge_ops_tracker_cpp.SqlStatement.Masking.{no_quote, mask_hides}

where_clause :
    mask (codes "SELECT * FROM t2 WHERE a = 'it''s' AND b=E'\\'x' AND c>1.5e3") none
    ≡ some (codes "SELECT * FROM t2 WHERE a = ? AND b=? AND c>?")
unfolding mask scan mask_rule literal_quote string_quote quoted_end unquoted dollar_end number_end
    bytes_eq
where_clause = refl

dollar_body :
    mask (codes "DO $q$ select 1 $q$; v1 $1 0x1F 1.5x U&'b") none
    ≡ some (codes "DO ?; v1 $1 ? ?.5x ?")
unfolding mask scan mask_rule literal_quote string_quote quoted_end unquoted dollar_end number_end
    bytes_eq
dollar_body = refl

double_quoted : mask (codes "a = \"x\"") (some (codes "MySQL")) ≡ some (codes "a = ?")
unfolding mask scan mask_rule literal_quote string_quote quoted_end unquoted dollar_end number_end
    bytes_eq
double_quoted = refl

-- A masked statement is not masked to itself: what is left of an address is read as a number.
address : mask (codes "h = 10.0.0.1") none ≡ some (codes "h = ?.0.1")
unfolding mask scan mask_rule literal_quote string_quote quoted_end unquoted dollar_end number_end
    bytes_eq
address = refl

address_again : mask (codes "h = ?.0.1") none ≡ some (codes "h = ??.1")
unfolding mask scan mask_rule literal_quote string_quote quoted_end unquoted dollar_end number_end
    bytes_eq
address_again = refl

one_literal : mask (codes "a = 'x'") none ≡ some (codes "a = ?")
unfolding mask scan mask_rule literal_quote string_quote quoted_end unquoted dollar_end number_end
    bytes_eq
one_literal = refl

mask_hides_example :
    (all (no_quote (is_double_quoting none)) (codes "a = ?") ≡ true)
    × (length (codes "a = ?") ≤ 4003)
mask_hides_example = mask_hides (codes "a = 'x'") none one_literal
