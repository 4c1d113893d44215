-- ===== src/StrictPrivacy/Messages/Quoted.antt =====
-- src/strict_privacy.cpp: what the pass of normalize_message over quoted texts makes of the first
-- of them, and that it leaves what stands around it to itself.
use forge_ops_tracker_cpp.Prelude.{
  ℕ, ◌+◌, ◌≡◌, refl, sym, ap, ◌∙◌, Bool, true, false, not, ◌&&◌, [], ◌∷◌, ◌++◌, Option, none, some,
  Bytes, codes, length, drop, all, arith, ◌==◌, drop-length-append, append_assoc, length-append,
}
use forge_ops_tracker_cpp.Scan.{scan, before_is, first_is, is_word}
use forge_ops_tracker_cpp.Scan.Laws.{
  last_of, run_length-append, scan-before, scan-copies_front, scan-replaces_front,
}
use forge_ops_tracker_cpp.StrictPrivacy.Messages.{replace_quoted, quoted_rule, is_inside}

-- Where the pass wants no word around the quotes, there is none.
abbrev pub ClearOf : Bool → Bool → Type 0
ClearOf boundary word = (boundary && word) ≡ false

quoted_rule-matches :
    (quote : ℕ) (boundary : Bool) (before : Option ℕ) (x rest : Bytes)
    → ClearOf boundary (before_is is_word before)
    → ClearOf boundary (first_is is_word rest)
    → all (is_inside quote) x ≡ true
    → quoted_rule quote boundary before (quote ∷ (x ++ quote ∷ rest))
      ≡ some (codes "<str>", length x + 2)
unfolding quoted_rule
quoted_rule-matches quote boundary before x rest hb hr h =
    rw
      (
        run_length-append (is_inside quote) x (quote ∷ rest) h outside,
        drop-length-append x (quote ∷ rest),
        behind,
        same,
      )
      (ground arith)
  where
    same : (quote == quote) ≡ true
    same = ground arith

    outside : is_inside quote quote ≡ false
    outside = ground arith

    behind : drop (length x + 1) (x ++ quote ∷ rest) ≡ rest
    behind =
        ap (λ n. drop n (x ++ quote ∷ rest)) (sym long)
        ∙ ap (drop (length (x ++ quote ∷ []))) (sym (append_assoc x (quote ∷ []) rest))
        ∙ drop-length-append (x ++ quote ∷ []) rest
      where
        long : length (x ++ quote ∷ []) ≡ length x + 1
        long = length-append x (quote ∷ [])

last_of-append : (before : Option ℕ) (x : Bytes) (c : ℕ) → last_of before (x ++ c ∷ []) ≡ some c
last_of-append before [] c = refl
last_of-append before (d ∷ x) c = last_of-append (some d) x c

abbrev pub other_than : ℕ → ℕ → Bool
other_than quote c = not (c == quote)

quoted_rule-quiet :
    (quote : ℕ) (boundary : Bool) (before : Option ℕ) (c : ℕ) (s : Bytes)
    → other_than quote c ≡ true
    → quoted_rule quote boundary before (c ∷ s) ≡ none
unfolding quoted_rule
quoted_rule-quiet quote boundary before c s h = ground arith

-- A quote is no byte of a word, so behind one the pass goes on as at the start of a text.
behind_quote :
    (quote : ℕ) (boundary : Bool) (rest : Bytes)
    → is_word quote ≡ false
    → scan (quoted_rule quote boundary) 0 (some quote) rest ≡ replace_quoted quote boundary rest
unfolding replace_quoted
behind_quote quote boundary [] h = unfold scan in refl
behind_quote quote boundary (c ∷ rest) h =
    scan-before (quoted_rule quote boundary) (some quote) none c rest
      (unfold quoted_rule in rw h refl)

quoted_here :
    (quote : ℕ) (boundary : Bool) (before : Option ℕ) (x rest : Bytes)
    → is_word quote ≡ false
    → ClearOf boundary (before_is is_word before)
    → ClearOf boundary (first_is is_word rest)
    → all (is_inside quote) x ≡ true
    → scan (quoted_rule quote boundary) 0 before (quote ∷ ((x ++ quote ∷ []) ++ rest))
      ≡ codes "<str>" ++ replace_quoted quote boundary rest
quoted_here quote boundary before x rest hq hb hr h =
    scan-replaces_front (quoted_rule quote boundary) before quote (x ++ quote ∷ []) rest
      (codes "<str>")
      (ap (λ t. quoted_rule quote boundary before (quote ∷ t)) (append_assoc x (quote ∷ []) rest)
        ∙ quoted_rule-matches quote boundary before x rest hb hr h
        ∙ ap (λ n. some (codes "<str>", n)) long)
    ∙ ap (λ b. codes "<str>" ++ scan (quoted_rule quote boundary) 0 b rest)
        (last_of-append (some quote) x quote)
    ∙ ap (◌++◌ (codes "<str>")) (behind_quote quote boundary rest hq)
  where
    long : length x + 2 ≡ length (quote ∷ (x ++ quote ∷ []))
    long = omega (arith, length-append x (quote ∷ []))

-- The first quoted text, which stands on one line between two quotes with no such quote in front of
-- them, becomes "<str>", whatever it is; what stands in front is kept, and the text behind it becomes
-- what the pass makes of it alone. Where the pass wants a word boundary, no byte of a word stands right
-- before the first quote nor right behind the second.
pub quoted_replaced :
    (quote : ℕ) (boundary : Bool) (front x rest : Bytes)
    → is_word quote ≡ false
    → all (other_than quote) front ≡ true
    → all (is_inside quote) x ≡ true
    → ClearOf boundary (before_is is_word (last_of none front))
    → ClearOf boundary (first_is is_word rest)
    → replace_quoted quote boundary (front ++ quote ∷ ((x ++ quote ∷ []) ++ rest))
      ≡ front ++ (codes "<str>" ++ replace_quoted quote boundary rest)
unfolding replace_quoted
quoted_replaced quote boundary front x rest hq hf hx hb hr =
    scan-copies_front (quoted_rule quote boundary) (other_than quote)
      (quoted_rule-quiet quote boundary) none front (quote ∷ ((x ++ quote ∷ []) ++ rest)) hf
    ∙ ap (◌++◌ front) (quoted_here quote boundary (last_of none front) x rest hq hb hr hx)
