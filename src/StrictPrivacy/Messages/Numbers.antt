-- ===== src/StrictPrivacy/Messages/Numbers.antt =====
-- src/strict_privacy.cpp: what the pass of normalize_message over numbers makes of one, and that it
-- leaves what stands around it to itself.
use forge_ops_tracker_cpp.Prelude.{
  ℕ, ◌≡◌, ◌≢◌, refl, sym, ap, ◌∙◌, Bool, true, false, [], ◌∷◌, ◌++◌, Option, none, some, Bytes,
  codes, length, drop, all, arith, ◌≤◌, drop-length-append,
}
use forge_ops_tracker_cpp.Scan.{scan, before_is, first_is, run_length, is_digit, is_word}
use forge_ops_tracker_cpp.Scan.Laws.{
  last_of, run_length-append, scan-copies, scan-append, scan-replaces_front,
}
use forge_ops_tracker_cpp.StrictPrivacy.Messages.{replace_numbers, number_rule}

number_rule-matches :
    (before : Option ℕ) (c : ℕ) (x rest : Bytes)
    → before_is is_word before ≡ false
    → all is_digit (c ∷ x) ≡ true
    → first_is is_word rest ≡ false
    → number_rule before (c ∷ (x ++ rest)) ≡ some (codes "<n>", length (c ∷ x))
unfolding number_rule
number_rule-matches before c x rest hb hx hr =
    rw
      (
        run_length-append is_digit (c ∷ x) rest hx (not_digit rest hr),
        hb,
        drop-length-append x rest,
        hr,
      )
      (rw digit refl)
  where
    digit : is_digit c ≡ true
    digit = ground arith

    not_digit : (rest : Bytes) → first_is is_word rest ≡ false → first_is is_digit rest ≡ false
    not_digit [] h = refl
    not_digit (d ∷ s) h = ground arith

number_rule-quiet :
    (before : Option ℕ) (c : ℕ) (s : Bytes) → is_digit c ≡ false → number_rule before (c ∷ s) ≡ none
unfolding number_rule
number_rule-quiet before c s h = rw h refl

scan_behind :
    (before : Option ℕ) (rest : Bytes)
    → first_is is_word rest ≡ false
    → scan number_rule 0 before rest ≡ scan number_rule 0 none rest
scan_behind before [] h = unfold scan in refl
scan_behind before (c ∷ s) h =
    scan-copies number_rule before c s (number_rule-quiet before c s not_digit)
    ∙ sym (scan-copies number_rule none c s (number_rule-quiet none c s not_digit))
  where
    not_digit : is_digit c ≡ false
    not_digit = ground arith

-- A text that is empty or does not end in a byte of a word.
abbrev pub Open : Bytes → Type 0
Open front = before_is is_word (last_of none front) ≡ false

-- A run of digits ends inside an open text, whatever follows it.
run_length-Open :
    (c : ℕ) (s t : Bytes)
    → Open (c ∷ s)
    → run_length is_digit (c ∷ (s ++ t)) ≡ run_length is_digit (c ∷ s)
unfolding run_length
run_length-Open c [] t h = ground arith
run_length-Open c (d ∷ s) t h = ground (arith, run_length-Open d s t h)

-- So does what stands behind it.
behind_run :
    (c : ℕ) (s t : Bytes)
    → Open (c ∷ s)
    → first_is is_word (drop (run_length is_digit (c ∷ s)) (c ∷ (s ++ t)))
      ≡ first_is is_word (drop (run_length is_digit (c ∷ s)) (c ∷ s))
unfolding run_length
behind_run c [] t h = ground arith
behind_run c (d ∷ s) t h = ground (arith, behind_run d s t h)

number_rule-Open :
    (before : Option ℕ) (c : ℕ) (s t : Bytes)
    → Open (c ∷ s)
    → number_rule before (c ∷ (s ++ t)) ≡ number_rule before (c ∷ s)
unfolding number_rule
number_rule-Open before c s t h = rw (run_length-Open c s t h, behind_run c s t h) refl

run_length-le : (p : ℕ → Bool) (s : Bytes) → run_length p s ≤ length s
unfolding run_length
run_length-le p [] = omega arith
run_length-le p (c ∷ s) = ground (arith, run_length-le p s)

number_rule-inside :
    (before : Option ℕ) (c : ℕ) (s out : Bytes) (n : ℕ)
    → Open (c ∷ s)
    → number_rule before (c ∷ s) ≡ some (out, n)
    → n ≤ length (c ∷ s)
unfolding number_rule
number_rule-inside before c s out n _ h = ground (arith, run_length-le is_digit (c ∷ s))

Open-tail : (c : ℕ) (s : Bytes) → Open (c ∷ s) → Open s
Open-tail c [] h = refl
Open-tail c (d ∷ s) h = h

-- A number with no byte of a word right in front of it or right behind it becomes "<n>", whatever its
-- digits, and the text in front of it and the text behind it become what the pass over numbers makes of
-- each alone.
pub number_replaced :
    (front x rest : Bytes)
    → before_is is_word (last_of none front) ≡ false
    → all is_digit x ≡ true
    → x ≢ []
    → first_is is_word rest ≡ false
    → replace_numbers (front ++ (x ++ rest))
      ≡ replace_numbers front ++ (codes "<n>" ++ replace_numbers rest)
unfolding replace_numbers
number_replaced front [] rest hb hx some_digit hr = absurd (some_digit refl)
number_replaced front (c ∷ x) rest hb hx some_digit hr =
    scan-append number_rule Open Open-tail number_rule-Open number_rule-inside 0 none front
      (c ∷ (x ++ rest)) hb (omega arith)
    ∙ ap (◌++◌ (scan number_rule 0 none front)) (
        scan-replaces_front number_rule (last_of none front) c x rest (codes "<n>")
          (number_rule-matches (last_of none front) c x rest hb hx hr)
        ∙ ap (◌++◌ (codes "<n>")) (scan_behind (last_of (some c) x) rest hr))
