-- ===== src/Scan.antt =====
-- The loops over a text that src/sql_statement.cpp, src/strict_privacy.cpp and src/pii_scrubber.cpp
-- share: at each place a rule looks at the byte before and at the text ahead, and gives a
-- replacement for the next bytes, or lets the next byte be copied.
pub mod Laws
use forge_ops_tracker_cpp.Prelude.{
  ℕ, zero, suc, ◌+◌, ◌-◌, Bool, true, false, ◌&&◌, ◌||◌, List, [], ◌∷◌, ◌++◌, Option, none, some,
  Bytes, length, take, drop, bytes_eq, leb, ◌==◌, if◌then◌else◌,
}

-- What replaces how many bytes.
abbrev pub Rule : Type 0
Rule = Option ℕ → Bytes → Option (Bytes × ℕ)

-- `skip` bytes of the text are still covered by the last replacement.
unfoldable pub scan : Rule → ℕ → Option ℕ → Bytes → Bytes
scan rule skip before [] = []
scan rule (suc skip) before (c ∷ s) = scan rule skip (some c) s
scan rule zero before (c ∷ s) = elim (rule before (c ∷ s)) [
  | none ↦ c ∷ scan rule zero (some c) s
  | some (out, n) ↦ out ++ scan rule (n - 1) (some c) s
]

-- A test of the byte that stands before, false at the start.
abbrev pub before_is : (ℕ → Bool) → Option ℕ → Bool
before_is p none = false
before_is p (some c) = p c

-- A test of the next byte, false at the end.
abbrev pub first_is : (ℕ → Bool) → Bytes → Bool
first_is p [] = false
first_is p (c ∷ s) = p c

-- The number of bytes ahead that pass a test.
unfoldable pub run_length : (ℕ → Bool) → Bytes → ℕ
run_length p [] = 0
run_length p (c ∷ s) = if p c then suc (run_length p s) else 0

-- The place of the first occurrence of a text.
unfoldable pub find : Bytes → Bytes → Option ℕ
find text [] = none
find text (c ∷ s) = elim (bytes_eq (take (length text) (c ∷ s)) text) [
  | true ↦ some 0
  | false ↦ elim (find text s) [ none ↦ none | some n ↦ some (suc n) ]
]

abbrev pub is_digit : ℕ → Bool
is_digit c = leb b'0' c && leb c b'9'

abbrev pub is_alpha : ℕ → Bool
is_alpha c = leb b'a' c && leb c b'z' || leb b'A' c && leb c b'Z'

abbrev pub is_hex : ℕ → Bool
is_hex c = is_digit c || leb b'a' c && leb c b'f' || leb b'A' c && leb c b'F'

abbrev pub is_word : ℕ → Bool
is_word c = is_digit c || is_alpha c || c == b'_'

-- ' ', '\t', '\n', '\v', '\f' and '\r'.
abbrev pub is_space : ℕ → Bool
is_space c = c == b' ' || leb 9 c && leb c 13

-- (c & 0xC0) == 0x80: a byte inside a UTF-8 character.
abbrev pub is_continuation : ℕ → Bool
is_continuation c = leb 128 c && leb c 191

-- Without the spaces at its two ends.
skip_spaces : Bytes → Bytes
skip_spaces [] = []
skip_spaces (c ∷ s) = let rest = skip_spaces s in if is_space c then rest else c ∷ s

cut_spaces : Bytes → Bytes
cut_spaces [] = []
cut_spaces (c ∷ s) = elim (cut_spaces s) [
  | [] ↦ if is_space c then [] else c ∷ []
  | d ∷ rest ↦ c ∷ d ∷ rest
]

unfoldable pub trim : Bytes → Bytes
unfolding skip_spaces cut_spaces
trim text = cut_spaces (skip_spaces text)
