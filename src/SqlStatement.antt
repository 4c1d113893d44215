-- ===== src/SqlStatement.antt =====
-- src/sql_statement.cpp: how a statement is masked before it leaves the process. Places in the
-- statement are told by the byte before and the text ahead; an end is the number of bytes up to it.
pub mod Masking
pub mod Names
pub mod Objects
pub mod Causes
mod Tests
use forge_ops_tracker_cpp.Prelude.{
  ℕ, zero, suc, ◌+◌, ◌-◌, Bool, true, false, not, ◌&&◌, ◌||◌, List, [], ◌∷◌, ◌++◌, map, Option,
  none, some, Bytes, codes, bytes_eq, to_lower, length, take, drop, all, any, ltb, leb, ◌==◌,
  if◌then◌else◌, ◌>>=◌,
}
use forge_ops_tracker_cpp.Scan.{
  Rule, scan, before_is, first_is, run_length, find, is_digit, is_alpha, is_hex, is_word, is_space,
  is_continuation,
}

abbrev pub k_max_length : ℕ
k_max_length = 4000

abbrev is_binary_digit : ℕ → Bool
is_binary_digit c = c == b'0' || c == b'1'

-- The prefixes that one letter makes.
abbrev is_string_prefix : ℕ → Bool
is_string_prefix c = any (λ d. c == d) (codes "EeXxNnBb")

-- How far ahead the opening quote of a string literal that starts here is.
unfoldable pub string_quote : Option ℕ → Bytes → Option ℕ
string_quote before [] = none
string_quote before (c ∷ s) =
    if c == b'\''
    then some 0
    else if before_is (λ b. is_word b || b == b'$') before
    then none
    else if is_string_prefix c
    then if first_is (λ d. d == b'\'') s then some 1 else none
    else if (c == b'U' || c == b'u') && first_is (λ d. d == b'&') s
    then if first_is (λ d. d == b'\'') (drop 1 s) then some 2 else none
    else none

-- The bytes behind an opening quote, its closing quote included; all of them without one. `skip`
-- is 1 behind a backslash and behind the first of two quotes.
unfoldable pub quoted_end : ℕ → ℕ → Bytes → ℕ
quoted_end quote skip [] = 0
quoted_end quote (suc skip) (c ∷ s) = suc (quoted_end quote skip s)
quoted_end quote zero (c ∷ s) =
    let doubled = c == quote && first_is (λ d. d == quote) s in
    let rest = quoted_end quote (if c == b'\\' || doubled then 1 else 0) s in
    if not (c == b'\\') && c == quote && not doubled then 1 else suc rest

digits_end : Bytes → ℕ
unfolding run_length
digits_end s = run_length is_digit s

fraction_end : Bytes → Option ℕ
unfolding digits_end
fraction_end s =
    if first_is (λ c. c == b'.') s && first_is is_digit (drop 1 s)
    then some (1 + digits_end (drop 1 s))
    else none

exponent_end : Bytes → Option ℕ
unfolding digits_end
exponent_end s =
    let sign = if first_is (λ c. c == b'+' || c == b'-') (drop 1 s) then 1 else 0 in
    let digits = digits_end (drop (1 + sign) s) in
    if first_is (λ c. c == b'e' || c == b'E') s && ltb 0 digits
    then some (1 + sign + digits)
    else none

abbrev ends_here : Bytes → Bool
ends_here s = not (first_is is_word s)

-- 0x1F and 0b101.
radix_run : (ℕ → Bool) → Bytes → Option ℕ
unfolding run_length
radix_run radix_digit s =
    let k = run_length radix_digit s in
    if ltb 0 k && ends_here (drop k s) then some (2 + k) else none

radix_end : Bytes → Option ℕ
unfolding radix_run
radix_end s =
    if first_is (λ c. c == b'0') s && first_is (λ c. c == b'x' || c == b'X') (drop 1 s)
    then radix_run is_hex (drop 2 s)
    else if first_is (λ c. c == b'0') s && first_is (λ c. c == b'b' || c == b'B') (drop 1 s)
    then radix_run is_binary_digit (drop 2 s)
    else none

-- The reading of a number whose mantissa ends at `end`, with its exponent or without.
reading : Bytes → ℕ → Option ℕ
unfolding exponent_end
reading s end = elim (exponent_end (drop end s)) [
  | none ↦ if ends_here (drop end s) then some end else none
  | some e ↦
      if ends_here (drop (end + e) s)
      then some (end + e)
      else if ends_here (drop end s)
      then some end
      else none
]

abbrev pub or_else : Option ℕ → Option ℕ → Option ℕ
or_else none b = b
or_else (some a) b = some a

-- How many bytes the number that starts here has, by the longest reading that ends at a word's end.
pub number_end : Bytes → Option ℕ
unfolding radix_end digits_end fraction_end reading
number_end s =
    let int_end = digits_end s in
    or_else (radix_end s) (
      or_else (fraction_end (drop int_end s) >>= λ f. reading s (int_end + f))
        (if ltb 0 int_end then reading s int_end else none))

-- How many bytes the dollar-quoted body that starts here has, all of them if it is not closed.
pub dollar_end : Bytes → Option ℕ
unfolding run_length find
dollar_end s =
    let j = 1 + run_length (λ c. c == b'_' || is_alpha c) (drop 1 s) in
    if first_is (λ c. c == b'$') (drop j s)
    then elim (find (take (j + 1) s) (drop (j + 1) s)) [
      | none ↦ some (length s)
      | some found ↦ some (j + 1 + found + (j + 1))
    ]
    else none

abbrev pub masked : ℕ → Bytes × ℕ
masked n = (codes "?", n)

-- The quote of a literal that starts here: a string's, or in MySQL and MariaDB a double quote.
unfoldable pub literal_quote : Bool → Option ℕ → Bytes → Option ℕ
literal_quote double_quoted before s =
    or_else (string_quote before s)
      (if double_quoted && first_is (λ c. c == b'"') s then some 0 else none)

-- A place where no literal starts.
pub unquoted : Option ℕ → Bytes → Option (Bytes × ℕ)
unquoted before [] = none
unquoted before (c ∷ s) =
    if c == b'$'
    then (dollar_end (c ∷ s) >>= λ n. some (masked n))
    else if is_digit c || c == b'.'
    then if before_is (λ b. is_word b || b == b'$' || b == b'.') before
      then none
      else (number_end (c ∷ s) >>= λ n. some (masked n))
    else none

-- The quote character itself is the byte that stands at its place.
abbrev quote_byte : Bytes → ℕ
quote_byte s = elim s [ [] ↦ b'\'' | c ∷ rest ↦ c ]

-- The body of mask's loop.
unfoldable pub mask_rule : Bool → Rule
mask_rule double_quoted before s = elim (literal_quote double_quoted before s) [
  | some k ↦ some (masked (k + 1 + quoted_end (quote_byte (drop k s)) 0 (drop (k + 1) s)))
  | none ↦ unquoted before s
]

-- The last place up to `cut` that is not inside a UTF-8 character.
pub cut_back : Bytes → ℕ → ℕ
cut_back out zero = 0
cut_back out (suc cut) = elim (first_is is_continuation (drop (suc cut) out)) [
  | true ↦ cut_back out cut
  | false ↦ suc cut
]

pub truncated : Bytes → Bytes
unfolding cut_back
truncated out =
    if ltb k_max_length (length out)
    then take (cut_back out k_max_length) out ++ codes "..."
    else out

pub is_double_quoting : Option Bytes → Bool
is_double_quoting none = false
is_double_quoting (some system) =
    bytes_eq (map to_lower system) (codes "mysql")
    || bytes_eq (map to_lower system) (codes "mariadb")

unfoldable pub mask : Bytes → Option Bytes → Option Bytes
unfolding truncated is_double_quoting
mask statement system =
    if all is_space statement
    then none
    else some (truncated (scan (mask_rule (is_double_quoting system)) 0 none statement))
