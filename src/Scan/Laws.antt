-- ===== src/Scan/Laws.antt =====
-- What a scan keeps and what it forgets, for any rule.
use forge_ops_tracker_cpp.Prelude.{
  ℕ, zero, suc, ◌-◌, ◌≤◌, ◌≡◌, refl, sym, append_assoc, ap, ◌∙◌, Bool, true, false, [], ◌∷◌, ◌++◌,
  Option, none, some, Bytes, length, take, all, arith, Option-cases, inl, inr,
}
use forge_ops_tracker_cpp.Scan.{Rule, scan, first_is, run_length}

pub all-append :
    (p : ℕ → Bool) (a b : Bytes) → all p a ≡ true → all p b ≡ true → all p (a ++ b) ≡ true
all-append p [] b ha hb = hb
all-append p (c ∷ a) b ha hb = ground (arith, all-append p a b)

pub all-take : (p : ℕ → Bool) (n : ℕ) (s : Bytes) → all p s ≡ true → all p (take n s) ≡ true
all-take p zero s h = refl
all-take p (suc n) [] h = refl
all-take p (suc n) (c ∷ s) h = ground (arith, all-take p n s)

module _ (rule : Rule) where
  pub scan-copies :
      (before : Option ℕ) (c : ℕ) (s : Bytes)
      → rule before (c ∷ s) ≡ none
      → scan rule 0 before (c ∷ s) ≡ c ∷ scan rule 0 (some c) s
  unfolding scan
  scan-copies before c s h = rw (h, scan) refl

  pub scan-replaces :
      (before : Option ℕ) (c : ℕ) (s out : Bytes) (n : ℕ)
      → rule before (c ∷ s) ≡ some (out, n)
      → scan rule 0 before (c ∷ s) ≡ out ++ scan rule (n - 1) (some c) s
  unfolding scan
  scan-replaces before c s out n h = rw (h, scan) refl

  -- What stands before matters to the rule only.
  pub scan-before :
      (before other : Option ℕ) (c : ℕ) (s : Bytes)
      → rule before (c ∷ s) ≡ rule other (c ∷ s)
      → scan rule 0 before (c ∷ s) ≡ scan rule 0 other (c ∷ s)
  unfolding scan
  scan-before before other c s h = rw (h, scan) refl

pub run_length-append :
    (p : ℕ → Bool) (x rest : Bytes)
    → all p x ≡ true
    → first_is p rest ≡ false
    → run_length p (x ++ rest) ≡ length x
unfolding run_length
run_length-append p [] [] hx hr = refl
run_length-append p [] (c ∷ rest) hx hr = rw hr refl
run_length-append p (c ∷ x) rest hx hr = ground (arith, run_length-append p x rest)

-- The byte that stands before what follows a text.
abbrev pub last_of : Option ℕ → Bytes → Option ℕ
last_of before [] = before
last_of before (c ∷ s) = last_of (some c) s

pub scan-skips :
    (rule : Rule) (before : Option ℕ) (x rest : Bytes)
    → scan rule (length x) before (x ++ rest) ≡ scan rule 0 (last_of before x) rest
unfolding scan
scan-skips rule before [] rest = refl
scan-skips rule before (c ∷ x) rest = scan-skips rule (some c) x rest

pub scan-replaces_front :
    (rule : Rule) (before : Option ℕ) (c : ℕ) (x rest out : Bytes)
    → rule before (c ∷ (x ++ rest)) ≡ some (out, length (c ∷ x))
    → scan rule 0 before (c ∷ (x ++ rest)) ≡ out ++ scan rule 0 (last_of (some c) x) rest
scan-replaces_front rule before c x rest out h =
    scan-replaces rule before c (x ++ rest) out (length (c ∷ x)) h
    ∙ ap (◌++◌ out)
        (ap (λ n. scan rule n (some c) (x ++ rest)) less ∙ scan-skips rule (some c) x rest)
  where
    less : length (c ∷ x) - 1 ≡ length x
    less = omega arith

-- A front that no rule touches is copied.
pub scan-copies_front :
    (rule : Rule) (plain : ℕ → Bool)
    → ((before : Option ℕ) (c : ℕ) (s : Bytes) → plain c ≡ true → rule before (c ∷ s) ≡ none)
    → (before : Option ℕ) (x rest : Bytes) → all plain x ≡ true
    → scan rule 0 before (x ++ rest) ≡ x ++ scan rule 0 (last_of before x) rest
scan-copies_front rule plain quiet before [] rest h = refl
scan-copies_front rule plain quiet before (c ∷ x) rest h =
    scan-copies rule before c (x ++ rest) (quiet before c (x ++ rest) (ground arith))
    ∙ ap (◌∷◌ c) (scan-copies_front rule plain quiet (some c) x rest (ground arith))

-- Where a rule sees no further than the front of a text, the front and the rest are scanned apart.
module _ (rule : Rule) (Apart : Bytes → Type 0)
    (apart_tail : (c : ℕ) (s : Bytes) → Apart (c ∷ s) → Apart s)
    (local : (before : Option ℕ) (c : ℕ) (s t : Bytes)
      → Apart (c ∷ s)
      → rule before (c ∷ (s ++ t)) ≡ rule before (c ∷ s))
    (inside : (before : Option ℕ) (c : ℕ) (s out : Bytes) (n : ℕ)
      → Apart (c ∷ s)
      → rule before (c ∷ s) ≡ some (out, n)
      → n ≤ length (c ∷ s)) where
  pub scan-append :
      (skip : ℕ) (before : Option ℕ) (front rest : Bytes)
      → Apart front
      → skip ≤ length front
      → scan rule skip before (front ++ rest)
        ≡ scan rule skip before front ++ scan rule 0 (last_of before front) rest
  unfolding scan
  scan-append zero before [] rest h le = refl
  scan-append (suc skip) before [] rest h le = absurd (omega arith)
  scan-append (suc skip) before (c ∷ s) rest h le =
      scan-append skip (some c) s rest (apart_tail c s h) (omega arith)
  scan-append zero before (c ∷ s) rest h le = elim (Option-cases (rule before (c ∷ s))) [
    | inl e ↦
        scan-copies rule before c (s ++ rest) (local before c s rest h ∙ e)
        ∙ ap (◌∷◌ c) (scan-append zero (some c) s rest (apart_tail c s h) (omega arith))
        ∙ ap (λ x. x ++ scan rule 0 (last_of (some c) s) rest) (sym (scan-copies rule before c s e))
    | inr ((out, n), e) ↦
        let le_tail : n ≤ suc (length s) = inside before c s out n h e in
        scan-replaces rule before c (s ++ rest) out n (local before c s rest h ∙ e)
        ∙ ap (◌++◌ out) (scan-append (n - 1) (some c) s rest (apart_tail c s h) (omega arith))
        ∙ sym (
            append_assoc out (scan rule (n - 1) (some c) s) (scan rule 0 (last_of (some c) s) rest))
        ∙ ap (λ x. x ++ scan rule 0 (last_of (some c) s) rest)
            (sym (scan-replaces rule before c s out n e))
  ]

-- A test that every copied and every written byte passes holds of the whole result.
module _ (rule : Rule) (p : ℕ → Bool)
    (copied : (before : Option ℕ) (c : ℕ) (s : Bytes) → rule before (c ∷ s) ≡ none → p c ≡ true)
    (written : (before : Option ℕ) (s out : Bytes) (n : ℕ)
      → rule before s ≡ some (out, n)
      → all p out ≡ true) where
  pub all-scan : (skip : ℕ) (before : Option ℕ) (s : Bytes) → all p (scan rule skip before s) ≡ true
  unfolding scan
  all-scan skip before [] = refl
  all-scan (suc skip) before (c ∷ s) = all-scan skip (some c) s
  all-scan zero before (c ∷ s) = elim (Option-cases (rule before (c ∷ s))) [
    | inl e ↦
        ap (all p) (scan-copies rule before c s e)
        ∙ rw (copied before c s e, all-scan zero (some c) s) refl
    | inr ((out, n), e) ↦
        ap (all p) (scan-replaces rule before c s out n e)
        ∙ all-append p out (scan rule (n - 1) (some c) s) (written before (c ∷ s) out n e)
            (all-scan (n - 1) (some c) s)
  ]
