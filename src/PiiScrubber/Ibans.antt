-- ===== src/PiiScrubber/Ibans.antt =====
-- src/pii_scrubber.cpp: IBANs, found by hand and checked. A place in the text is told by the byte
-- before and the text ahead, an end by the number of bytes up to it.
pub mod Bounds
mod Tests
use forge_ops_tracker_cpp.Prelude.{
  ℕ, zero, suc, ◌+◌, ◌-◌, ◌*◌, ◌/◌, ◌%◌, min, Bool, true, false, not, ◌&&◌, ◌||◌, List, [], ◌∷◌,
  ◌++◌, Option, none, some, Bytes, codes, length, take, drop, all, ltb, leb, ◌==◌, if◌then◌else◌,
}
use forge_ops_tracker_cpp.Scan.{Rule, scan, before_is, first_is, run_length, is_digit, is_word}

abbrev pub is_ascii_upper : ℕ → Bool
is_ascii_upper c = leb b'A' c && leb c b'Z'

abbrev pub is_iban_char : ℕ → Bool
is_iban_char c = is_ascii_upper c || is_digit c

-- Whether a word starts or ends `n` bytes ahead, for n > 0.
is_word_boundary : Bytes → ℕ → Bool
is_word_boundary s n =
    if first_is is_word (drop (n - 1) s)
    then not (first_is is_word (drop n s))
    else first_is is_word (drop n s)

is_iban_group : Bytes → Bool
is_iban_group s =
    leb 5 (length s) && first_is (λ c. c == b' ') s && all is_iban_char (take 4 (drop 1 s))

abbrev or_else : Option ℕ → Option ℕ → Option ℕ
or_else none b = b
or_else (some a) b = some a

-- The loop `for (k = n; k >= low; k--)` that returns the first result it finds.
pub down_from : (ℕ → Option ℕ) → ℕ → ℕ → Option ℕ
down_from f low zero = if low == 0 then f 0 else none
down_from f low (suc n) = elim (leb low (suc n)) [
  | false ↦ none
  | true ↦ elim (f (suc n)) [ some end ↦ some end | none ↦ down_from f low n ]
]

-- At most `n` groups.
groups_ahead : ℕ → Bytes → ℕ
unfolding is_iban_group
groups_ahead zero s = 0
groups_ahead (suc n) s =
    let rest = groups_ahead n (drop 5 s) in if is_iban_group s then suc rest else 0

ends_at : Bytes → ℕ → Option ℕ
unfolding is_word_boundary
ends_at s n = if is_word_boundary s n then some n else none

-- The last group, of one to four characters, behind a blank.
tail_end : Bytes → ℕ → Option ℕ
unfolding run_length down_from ends_at
tail_end s after =
    if first_is (λ c. c == b' ') (drop after s)
    then down_from (λ t. ends_at s (after + 1 + t)) 1
        (min 4 (run_length is_iban_char (drop (after + 1) s)))
    else none

grouped_end : Bytes → ℕ → Option ℕ
unfolding tail_end ends_at
grouped_end s g = or_else (tail_end s (4 + 5 * g)) (ends_at s (4 + 5 * g))

starts_iban : Bytes → Bool
starts_iban s =
    leb 4 (length s) && all is_ascii_upper (take 2 s) && all is_digit (take 2 (drop 2 s))

-- `none` is the source's 0.
pub iban_candidate_end : Option ℕ → Bytes → Option ℕ
unfolding run_length down_from groups_ahead ends_at grouped_end starts_iban
iban_candidate_end before s =
    if before_is is_word before || not (starts_iban s)
    then none
    else or_else
        (down_from (λ k. ends_at s (4 + k)) 11 (min 30 (run_length is_iban_char (drop 4 s))))
        (down_from (grouped_end s) 2 (groups_ahead 7 (drop 4 s)))

without_blanks : Bytes → Bytes
without_blanks [] = []
without_blanks (c ∷ s) = let rest = without_blanks s in if c == b' ' then rest else c ∷ rest

-- One character of the check: a letter is read as two digits.
next_remainder : ℕ → ℕ → ℕ
next_remainder remainder c =
    if is_ascii_upper c
    then ((remainder * 10 + (c - b'A' + 10) / 10) % 97 * 10 + (c - b'A' + 10) % 10) % 97
    else (remainder * 10 + (c - b'0')) % 97

remainder_of : ℕ → Bytes → ℕ
unfolding next_remainder
remainder_of remainder [] = remainder
remainder_of remainder (c ∷ s) = remainder_of (next_remainder remainder c) s

-- For a text of capital letters, digits and blanks, as every candidate is.
pub is_iban : Bytes → Bool
unfolding without_blanks remainder_of
is_iban candidate =
    let compact = without_blanks candidate in
    leb 15 (length compact)
    && leb (length compact) 34
    && remainder_of 0 (drop 4 compact ++ take 4 compact) == 1

pub iban_rule : Rule
unfolding iban_candidate_end is_iban
iban_rule before s = elim (iban_candidate_end before s) [
  | none ↦ none
  | some n ↦ some (if is_iban (take n s) then codes "[IBAN FILTERED]" else take n s, n)
]

pub scrub_ibans : Bytes → Bytes
unfolding scan iban_rule
scrub_ibans text = scan iban_rule 0 none text
