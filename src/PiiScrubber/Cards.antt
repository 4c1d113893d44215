-- ===== src/PiiScrubber/Cards.antt =====
-- src/pii_scrubber.cpp: card numbers in runs of digits joined by single blanks or dashes.
pub mod Luhn
pub mod Apart
pub mod Hidden
mod Tests
use forge_ops_tracker_cpp.Prelude.{
  ℕ, zero, suc, ◌+◌, ◌-◌, ◌*◌, ◌%◌, Bool, true, false, not, ◌&&◌, ◌||◌, List, [], ◌∷◌, ◌++◌, Option,
  none, some, Bytes, codes, length, take, drop, ltb, leb, ◌==◌, if◌then◌else◌,
}
use forge_ops_tracker_cpp.Scan.{Rule, scan, before_is, first_is, is_digit, is_word}

-- The number that the first `n` digits make.
prefix_value : ℕ → ℕ → Bytes → ℕ
prefix_value value zero d = value
prefix_value value (suc n) [] = value
prefix_value value (suc n) (c ∷ d) = prefix_value (value * 10 + (c - b'0')) n d

abbrev between : ℕ → ℕ → ℕ → Bool
between low high n = leb low n && leb n high

pub has_card_prefix : Bytes → Bool
unfolding prefix_value
has_card_prefix d =
    let two = prefix_value 0 2 d in
    let three = prefix_value 0 3 d in
    let four = prefix_value 0 4 d in
    first_is (λ c. c == b'4') d
    || between 51 55 two
    || two == 34
    || two == 37
    || two == 65
    || two == 36
    || two == 62
    || between 2221 2720 four
    || four == 6011
    || between 3528 3589 four
    || between 644 649 three
    || between 300 305 three

-- A digit's share of the Luhn sum, `k` places from the end.
pub luhn_value : ℕ → ℕ → ℕ
luhn_value k value =
    if k % 2 == 1 then if ltb 9 (value * 2) then value * 2 - 9 else value * 2 else value

pub luhn_sum : Bytes → ℕ
luhn_sum [] = 0
luhn_sum (c ∷ digits) = luhn_value (length digits) (c - b'0') + luhn_sum digits

pub is_card_number : Bytes → Bool
is_card_number digits =
    leb 13 (length digits)
    && leb (length digits) 19
    && has_card_prefix digits
    && luhn_sum digits % 10 == 0

abbrev pub is_separator : ℕ → Bool
is_separator c = c == b' ' || c == b'-'

abbrev add_front : ℕ → List (Bytes × Bytes) → List (Bytes × Bytes)
add_front c [] = (c ∷ [], []) ∷ []
add_front c ((group, separator) ∷ rest) = (c ∷ group, separator) ∷ rest

-- The groups, each with the separator behind it; behind the last one there is none.
pub groups_of : Bytes → List (Bytes × Bytes)
groups_of [] = ([], []) ∷ []
groups_of (c ∷ run) =
    let rest = groups_of run in if is_separator c then ([], c ∷ []) ∷ rest else add_front c rest

abbrev later_or : Option (ℕ × Bytes) → Option (ℕ × Bytes) → Option (ℕ × Bytes)
later_or none b = b
later_or (some a) b = some a

-- The last of the next groups that completes a card number, and its separator. `n` groups have been
-- joined so far.
pub found : Bytes → ℕ → List (Bytes × Bytes) → Option (ℕ × Bytes)
found joined n [] = none
found joined n ((group, separator) ∷ rest) =
    let later = found (joined ++ group) (n + 1) rest in
    if leb (length joined + length group) 19
    then later_or later (if is_card_number (joined ++ group) then some (n, separator) else none)
    else none

-- `skip` groups are still covered by the last replacement.
pub scrub_groups : ℕ → List (Bytes × Bytes) → Bytes
scrub_groups skip [] = []
scrub_groups (suc skip) (group ∷ rest) = scrub_groups skip rest
scrub_groups zero ((group, separator) ∷ rest) = elim (found [] 0 ((group, separator) ∷ rest)) [
  | none ↦ group ++ (separator ++ scrub_groups zero rest)
  | some (n, last) ↦ codes "[CREDIT CARD FILTERED]" ++ (last ++ scrub_groups n rest)
]

pub scrub_card_numbers_in : Bytes → Bytes
scrub_card_numbers_in run = scrub_groups 0 (groups_of run)

-- Where a run ends of which `n` bytes have been read, and its last separator.
pub run_end : Option ℕ → ℕ → Bytes → ℕ × Option ℕ
run_end last n [] = (n, last)
run_end last n (c ∷ s) =
    let joins = not (is_digit c) && is_separator c && first_is is_digit s in
    let next = run_end (if joins then some n else last) (n + 1) s in
    if is_digit c || joins then next else (n, last)

-- What becomes of a run: in front of a word it is cut at its last separator, or left if it has none.
pub scrub_run : Bytes → ℕ × Option ℕ → Bytes × ℕ
scrub_run s (end, last) =
    if first_is is_word (drop end s)
    then elim last [ none ↦ (take end s, end) | some n ↦ (scrub_card_numbers_in (take n s), n) ]
    else (scrub_card_numbers_in (take end s), end)

pub card_rule : Rule
card_rule before [] = none
card_rule before (c ∷ s) =
    if is_digit c && not (before_is is_word before)
    then some (scrub_run (c ∷ s) (run_end none 1 s))
    else none

pub scrub_card_numbers : Bytes → Bytes
scrub_card_numbers text = scan card_rule 0 none text
