-- ===== src/PiiScrubber/Cards/Apart.antt =====
-- src/pii_scrubber.cpp: where the scan for card numbers cuts a text in two.
use forge_ops_tracker_cpp.Prelude.{
  ℕ, suc, ◌+◌, ◌≤◌, ◌<◌, ◌≡◌, refl, ap, ◌∙◌, zero, inl, inr, Bool, true, false, Bool-cases, not,
  ◌&&◌, ◌||◌, [], ◌∷◌, ◌++◌, Option, none, some, Bytes, length, take, drop, arith, leb,
}
use forge_ops_tracker_cpp.Scan.{before_is, first_is, is_digit, is_word}
use forge_ops_tracker_cpp.Scan.Laws.{last_of}
use forge_ops_tracker_cpp.PiiScrubber.Cards.{is_separator, run_end, scrub_run, card_rule}

-- A text after which no run of digits goes on: its last byte is not one of a word, nor a separator
-- behind a digit.
abbrev is_apart : Bytes → Bool
is_apart [] = true
is_apart (c ∷ []) = not (is_word c)
is_apart (c ∷ d ∷ []) = not (is_word d) && not (is_digit c && is_separator d)
is_apart (c ∷ d ∷ e ∷ s) = is_apart (d ∷ e ∷ s)

abbrev pub Apart : Bytes → Type 0
Apart front = is_apart front ≡ true

pub Apart-tail : (c : ℕ) (s : Bytes) → Apart (c ∷ s) → Apart s
Apart-tail c [] h = refl
Apart-tail c (d ∷ []) h = ground arith
Apart-tail c (d ∷ e ∷ s) h = h

pub Apart-last_of :
    (c : ℕ) (s : Bytes) → Apart (c ∷ s) → before_is is_word (last_of none (c ∷ s)) ≡ false
Apart-last_of c [] h = ground arith
Apart-last_of c (d ∷ []) h = ground arith
Apart-last_of c (d ∷ e ∷ s) h = Apart-last_of d (e ∷ s) h

run_end-digit :
    (last : Option ℕ) (n d : ℕ) (s : Bytes)
    → is_digit d ≡ true
    → run_end last n (d ∷ s) ≡ run_end last (n + 1) s
unfolding run_end
run_end-digit last n d s h = rw h refl

run_end-joins :
    (last : Option ℕ) (n d : ℕ) (s : Bytes)
    → is_digit d ≡ false
    → is_separator d && first_is is_digit s ≡ true
    → run_end last n (d ∷ s) ≡ run_end (some n) (n + 1) s
unfolding run_end
run_end-joins last n d s h j = rw (h, j) refl

run_end-ends :
    (last : Option ℕ) (n d : ℕ) (s : Bytes)
    → is_digit d ≡ false
    → is_separator d && first_is is_digit s ≡ false
    → run_end last n (d ∷ s) ≡ (n, last)
unfolding run_end
run_end-ends last n d s h j = rw (h, j) refl

abbrev at_most : Option ℕ → ℕ → Bool
at_most none b = true
at_most (some n) b = leb n b

-- A run that ends inside `s`, with `t` behind it or without.
record Within (last : Option ℕ) (n : ℕ) (s t : Bytes) : Type 0 where
  width : ℕ
  cut : Option ℕ
  followed : run_end last n (s ++ t) ≡ (n + width, cut)
  alone : run_end last n s ≡ (n + width, cut)
  inside : width < length s
  below : at_most cut (n + width) ≡ true

joins-append :
    (c d : ℕ) (s t : Bytes)
    → Apart (c ∷ d ∷ s)
    → is_digit c ≡ true
    → is_separator d && first_is is_digit (s ++ t) ≡ is_separator d && first_is is_digit s
joins-append c d [] t h digit = ground arith
joins-append c d (e ∷ s) t h digit = refl

one_more :
    (last now : Option ℕ) (n d : ℕ) (s t : Bytes)
    → run_end last n (d ∷ (s ++ t)) ≡ run_end now (n + 1) (s ++ t)
    → run_end last n (d ∷ s) ≡ run_end now (n + 1) s
    → Within now (n + 1) s t
    → Within last n (d ∷ s) t
one_more last now n d s t e e' w = record {
  width = suc w.width;
  cut = w.cut;
  followed = e ∙ w.followed ∙ ap (λ k. (k, w.cut)) (omega arith);
  alone = e' ∙ w.alone ∙ ap (λ k. (k, w.cut)) (omega arith);
  inside = omega (arith, w.inside);
  below = ap (at_most w.cut) (omega arith) ∙ w.below;
}

-- A run of digits that `c` belongs to, or that the text behind it starts with.
run_end-Within :
    (last : Option ℕ) (n c : ℕ) (s t : Bytes)
    → Apart (c ∷ s)
    → is_digit c || first_is is_digit s ≡ true
    → at_most last n ≡ true
    → Within last n s t
run_end-Within last n c [] t h in_run le = absurd (ground arith)
run_end-Within last n c (d ∷ s) t h in_run le = elim (Bool-cases (is_digit d)) [
  | inl digit ↦
      one_more last last n d s t (run_end-digit last n d (s ++ t) digit)
        (run_end-digit last n d s digit)
        (run_end-Within last (n + 1) d s t (Apart-tail c (d ∷ s) h) (rw digit refl)
          (ground (arith, le)))
  | inr other ↦
      let digit : is_digit c ≡ true = ground arith in
      let same = joins-append c d s t h digit in
      elim (Bool-cases (is_separator d && first_is is_digit s)) [
        | inl joins ↦
            one_more last (some n) n d s t (run_end-joins last n d (s ++ t) other (same ∙ joins))
              (run_end-joins last n d s other joins)
              (run_end-Within (some n) (n + 1) d s t (Apart-tail c (d ∷ s) h) (ground arith)
                (ground arith))
        | inr ends ↦ record {
          width = 0;
          cut = last;
          followed =
              run_end-ends last n d (s ++ t) other (same ∙ ends)
              ∙ ap (λ k. (k, last)) (omega arith);
          alone = run_end-ends last n d s other ends ∙ ap (λ k. (k, last)) (omega arith);
          inside = omega arith;
          below = ap (at_most last) (omega arith) ∙ le;
        }
      ]
]

take-append_inside : (n : ℕ) (s t : Bytes) → n ≤ length s → take n (s ++ t) ≡ take n s
take-append_inside zero s t h = refl
take-append_inside (suc n) [] t h = absurd (omega arith)
take-append_inside (suc n) (c ∷ s) t h = ap (◌∷◌ c) (take-append_inside n s t (omega arith))

first_is-drop_inside :
    (p : ℕ → Bool) (n : ℕ) (s t : Bytes)
    → n < length s
    → first_is p (drop n (s ++ t)) ≡ first_is p (drop n s)
first_is-drop_inside p n [] t h = absurd (omega arith)
first_is-drop_inside p zero (c ∷ s) t h = refl
first_is-drop_inside p (suc n) (c ∷ s) t h = first_is-drop_inside p n s t (omega arith)

scrub_run-inside :
    (s t : Bytes) (end : ℕ) (cut : Option ℕ)
    → end < length s
    → at_most cut end ≡ true
    → (scrub_run (s ++ t) (end, cut) ≡ scrub_run s (end, cut))
      × ((scrub_run s (end, cut)).1 ≤ length s)
unfolding scrub_run
scrub_run-inside s t end none few below =
    let kept = take-append_inside end s t (omega arith) in
    let same = first_is-drop_inside is_word end s t few in
    elim (Bool-cases (first_is is_word (drop end s))) [
      | inl word ↦ rw (same, word, kept) (refl, omega arith)
      | inr free ↦ rw (same, free, kept) (refl, omega arith)
    ]
scrub_run-inside s t end (some n) few below =
    let least : n ≤ end = ground arith in
    let kept = take-append_inside end s t (omega arith) in
    let kept_cut = take-append_inside n s t (omega arith) in
    let same = first_is-drop_inside is_word end s t few in
    elim (Bool-cases (first_is is_word (drop end s))) [
      | inl word ↦ rw (same, word, kept_cut) (refl, omega arith)
      | inr free ↦ rw (same, free, kept) (refl, omega arith)
    ]

-- The rule sees no further than an apart text, and what it replaces is inside it.
run-inside :
    (c : ℕ) (s t : Bytes)
    → Apart (c ∷ s)
    → is_digit c ≡ true
    → (scrub_run (c ∷ (s ++ t)) (run_end none 1 (s ++ t)) ≡ scrub_run (c ∷ s) (run_end none 1 s))
      × ((scrub_run (c ∷ s) (run_end none 1 s)).1 ≤ length (c ∷ s))
run-inside c s t h digit =
    let w = run_end-Within none 1 c s t h (rw digit refl) refl in
    rw (w.followed, w.alone)
      (scrub_run-inside (c ∷ s) t (1 + w.width) w.cut (omega (arith, w.inside)) w.below)

pub card_rule-Apart :
    (before : Option ℕ) (c : ℕ) (s t : Bytes)
    → Apart (c ∷ s)
    → card_rule before (c ∷ (s ++ t)) ≡ card_rule before (c ∷ s)
unfolding card_rule
card_rule-Apart before c s t h = elim (Bool-cases (is_digit c && not (before_is is_word before))) [
  | inl starts ↦ rw starts (ap some (run-inside c s t h (ground arith)).0)
  | inr elsewhere ↦ rw elsewhere refl
]

pub card_rule-inside :
    (before : Option ℕ) (c : ℕ) (s out : Bytes) (n : ℕ)
    → Apart (c ∷ s)
    → card_rule before (c ∷ s) ≡ some (out, n)
    → n ≤ length (c ∷ s)
unfolding card_rule
card_rule-inside before c s out n h e =
    elim (Bool-cases (is_digit c && not (before_is is_word before))) [
      | inl starts ↦ ground (arith, run-inside c s [] h (ground arith), e)
      | inr elsewhere ↦ absurd (ground (arith, e))
    ]
