-- ===== src/PiiScrubber/Cards/Hidden.antt =====
-- src/pii_scrubber.cpp: a card number that stands apart from any word is replaced whole.
use forge_ops_tracker_cpp.Prelude.{
  ℕ, ◌+◌, ◌≡◌, refl, sym, ap, ◌∙◌, Bool, true, false, ◌&&◌, ◌||◌, [], ◌∷◌, ◌++◌, Option, none, some,
  Bytes, codes, length, all, arith, take-length-append, drop-length-append,
}
use forge_ops_tracker_cpp.Scan.{scan, before_is, first_is, is_digit, is_word}
use forge_ops_tracker_cpp.Scan.Laws.{last_of, scan-before, scan-append, scan-replaces_front}
use forge_ops_tracker_cpp.PiiScrubber.Cards.Apart.{
  Apart, Apart-tail, Apart-last_of, card_rule-Apart, card_rule-inside,
}
use forge_ops_tracker_cpp.PiiScrubber.Cards.{
  is_separator, is_card_number, groups_of, found, scrub_groups, scrub_card_numbers_in, run_end,
  scrub_run, card_rule, scrub_card_numbers,
}

-- Whether a run of digits goes on here.
abbrev pub goes_on : Bytes → Bool
goes_on [] = false
goes_on (c ∷ s) = is_digit c || is_separator c && first_is is_digit s

run_end-stops :
    (last : Option ℕ) (n : ℕ) (rest : Bytes)
    → goes_on rest ≡ false
    → run_end last n rest ≡ (n, last)
unfolding run_end
run_end-stops last n [] h = refl
run_end-stops last n (c ∷ s) h = ground arith

run_end-digits :
    (last : Option ℕ) (n : ℕ) (x rest : Bytes)
    → all is_digit x ≡ true
    → run_end last n (x ++ rest) ≡ run_end last (n + length x) rest
unfolding run_end
run_end-digits last n [] rest h = ap (λ k. run_end last k rest) (omega arith)
run_end-digits last n (c ∷ x) rest h = rw digit (
    run_end-digits last (n + 1) x rest (ground arith) ∙ ap (λ k. run_end last k rest) (omega arith))
  where
    digit : is_digit c ≡ true
    digit = ground arith

groups_of-digits : (x : Bytes) → all is_digit x ≡ true → groups_of x ≡ (x, []) ∷ []
unfolding groups_of
groups_of-digits [] h = refl
groups_of-digits (c ∷ x) h = rw (groups_of-digits x (ground arith), apart) refl
  where
    apart : is_separator c ≡ false
    apart = ground arith

found-one : (x : Bytes) → is_card_number x ≡ true → found [] 0 ((x, []) ∷ []) ≡ some (0, [])
unfolding found is_card_number
found-one x card = ground arith

scrub_groups-one :
    (x : Bytes)
    → is_card_number x ≡ true
    → scrub_groups 0 ((x, []) ∷ []) ≡ codes "[CREDIT CARD FILTERED]"
unfolding scrub_groups
scrub_groups-one x card = rw (found-one x card, scrub_groups) refl

card_replaced :
    (x : Bytes)
    → all is_digit x ≡ true
    → is_card_number x ≡ true
    → scrub_card_numbers_in x ≡ codes "[CREDIT CARD FILTERED]"
unfolding scrub_card_numbers_in
card_replaced x h card = ap (scrub_groups 0) (groups_of-digits x h) ∙ scrub_groups-one x card

card_rule-matches :
    (before : Option ℕ) (c : ℕ) (x rest : Bytes)
    → before_is is_word before ≡ false
    → all is_digit (c ∷ x) ≡ true
    → is_card_number (c ∷ x) ≡ true
    → goes_on rest ≡ false
    → first_is is_word rest ≡ false
    → card_rule before (c ∷ (x ++ rest)) ≡ some (codes "[CREDIT CARD FILTERED]", length (c ∷ x))
unfolding card_rule
card_rule-matches before c x rest hb hx card stops apart =
    rw (digit, hb) (ap some (ap (scrub_run (c ∷ (x ++ rest))) whole ∙ hidden))
  where
    digit : is_digit c ≡ true
    digit = ground arith

    whole : run_end none 1 (x ++ rest) ≡ (length (c ∷ x), none)
    whole =
        run_end-digits none 1 x rest (ground arith)
        ∙ run_end-stops none (1 + length x) rest stops
        ∙ ap (λ n. (n, none)) (omega arith)

    hidden :
        scrub_run (c ∷ (x ++ rest)) (length (c ∷ x), none)
        ≡ (codes "[CREDIT CARD FILTERED]", length (c ∷ x))
    hidden =
        unfold scrub_run in
        rw
          (
            drop-length-append (c ∷ x) rest,
            apart,
            take-length-append (c ∷ x) rest,
            card_replaced (c ∷ x) hx card,
          )
          refl

card_rule-quiet :
    (before : Option ℕ) (c : ℕ) (s : Bytes) → is_digit c ≡ false → card_rule before (c ∷ s) ≡ none
unfolding card_rule
card_rule-quiet before c s h = ground arith

last_of-Apart : (front : Bytes) → Apart front → before_is is_word (last_of none front) ≡ false
last_of-Apart [] h = refl
last_of-Apart (c ∷ s) h = Apart-last_of c s h

scan_behind :
    (before : Option ℕ) (rest : Bytes)
    → first_is is_word rest ≡ false
    → scan card_rule 0 before rest ≡ scan card_rule 0 none rest
scan_behind before [] h = unfold scan in refl
scan_behind before (c ∷ s) h =
    scan-before card_rule before none c s
      (card_rule-quiet before c s (ground arith) ∙ sym (card_rule-quiet none c s (ground arith)))

-- A card number written without blanks, where the text in front of it ends neither in a byte of a word
-- nor in a digit with a blank or a dash behind it, and the text behind it starts neither with a byte of a
-- word nor with a blank or a dash that a digit follows: it is replaced whole, and the text in front of it
-- and the text behind it become what the scan makes of each alone.
pub card_hidden :
    (front x rest : Bytes)
    → Apart front
    → all is_digit x ≡ true
    → is_card_number x ≡ true
    → goes_on rest ≡ false
    → first_is is_word rest ≡ false
    → scrub_card_numbers (front ++ (x ++ rest))
      ≡ scrub_card_numbers front ++ (codes "[CREDIT CARD FILTERED]" ++ scrub_card_numbers rest)
unfolding scrub_card_numbers
card_hidden front [] rest hf hx card stops apart = unfold is_card_number in absurd (ground arith)
card_hidden front (c ∷ x) rest hf hx card stops apart =
    scan-append card_rule Apart Apart-tail card_rule-Apart card_rule-inside 0 none front
      (c ∷ (x ++ rest)) hf (omega arith)
    ∙ ap (◌++◌ (scan card_rule 0 none front)) (
        scan-replaces_front card_rule (last_of none front) c x rest (codes "[CREDIT CARD FILTERED]")
          (card_rule-matches (last_of none front) c x rest (last_of-Apart front hf) hx card stops
            apart)
        ∙ ap (◌++◌ (codes "[CREDIT CARD FILTERED]")) (scan_behind (last_of (some c) x) rest apart))
