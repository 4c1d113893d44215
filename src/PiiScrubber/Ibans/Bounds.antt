-- ===== src/PiiScrubber/Ibans/Bounds.antt =====
-- src/pii_scrubber.cpp: where an IBAN candidate may end.
use forge_ops_tracker_cpp.Prelude.{
  ℕ, zero, suc, ◌+◌, ◌-◌, ◌*◌, ◌≤◌, min, ◌≡◌, Bool, [], ◌∷◌, Option, some, Bytes, length, drop,
  length-drop, arith, ◌==◌, Bool-cases, Option-cases, inl, inr,
}
use forge_ops_tracker_cpp.Scan.{first_is, run_length}
use forge_ops_tracker_cpp.PiiScrubber.Ibans.{
  is_iban_char, down_from, groups_ahead, is_iban_group, ends_at, tail_end, grouped_end,
  iban_candidate_end,
}

run_length-le : (p : ℕ → Bool) (s : Bytes) → run_length p s ≤ length s
unfolding run_length
run_length-le p [] = omega arith
run_length-le p (c ∷ s) = ground (arith, run_length-le p s)

-- A loop that counts down gives what one of its turns gave.
down_from-some :
    (f : ℕ → Option ℕ) (low n : ℕ) (P : ℕ → Type 0)
    → ((k r : ℕ) → low ≤ k → k ≤ n → f k ≡ some r → P r)
    → (r : ℕ) → down_from f low n ≡ some r
    → P r
unfolding down_from
down_from-some f low zero P turn r h = ground (arith, turn 0 r)
down_from-some f low (suc n) P turn r h = ground (
  arith,
  turn (suc n) r,
  down_from-some f low n P (λ k r below above e. turn k r below (omega arith) e) r,
)

groups_ahead-le : (n : ℕ) (s : Bytes) → (groups_ahead n s ≤ n) × (5 * groups_ahead n s ≤ length s)
unfolding groups_ahead is_iban_group
groups_ahead-le zero s = (omega arith, omega arith)
groups_ahead-le (suc n) s = ground (arith, groups_ahead-le n (drop 5 s), length-drop 5 s)

ends_at-some : (s : Bytes) (n r : ℕ) → ends_at s n ≡ some r → r ≡ n
unfolding ends_at
ends_at-some s n r h = ground arith

-- What a candidate's end may be.
pub record EndsIn (s : Bytes) (n : ℕ) : Type 0 where
  pub long : 14 ≤ n
  pub short : n ≤ 44
  pub inside : n ≤ length s

length-ahead : (p : ℕ → Bool) (n : ℕ) (s : Bytes) → run_length p (drop n s) ≤ length s - n
length-ahead p n s = omega (arith, run_length-le p (drop n s), length-drop n s)

tail_end-EndsIn :
    (s : Bytes) (g r : ℕ) → 2 ≤ g → g ≤ 7 → tail_end s (4 + 5 * g) ≡ some r → EndsIn s r
unfolding tail_end
tail_end-EndsIn s g r below above h =
    elim (Bool-cases (first_is (λ c. c == b' ') (drop (4 + 5 * g) s))) [
      | inl blank ↦
          down_from-some (λ t. ends_at s (4 + 5 * g + 1 + t)) 1
            (min 4 (run_length is_iban_char (drop (4 + 5 * g + 1) s))) (EndsIn s) turn r
            (ground arith)
      | inr other ↦ absurd (ground arith)
    ]
  where
    turn :
        (k q : ℕ)
        → 1 ≤ k
        → k ≤ min 4 (run_length is_iban_char (drop (4 + 5 * g + 1) s))
        → ends_at s (4 + 5 * g + 1 + k) ≡ some q
        → EndsIn s q
    turn k q low high e = record {
      long = omega (arith, ends_at-some s (4 + 5 * g + 1 + k) q e);
      short = omega (arith, ends_at-some s (4 + 5 * g + 1 + k) q e);
      inside = omega (
        arith,
        ends_at-some s (4 + 5 * g + 1 + k) q e,
        length-ahead is_iban_char (4 + 5 * g + 1) s,
      );
    }

grouped_end-EndsIn :
    (s : Bytes) (g r : ℕ)
    → 2 ≤ g
    → g ≤ groups_ahead 7 (drop 4 s)
    → grouped_end s g ≡ some r
    → EndsIn s r
unfolding grouped_end
grouped_end-EndsIn s g r low high h = elim (Option-cases (tail_end s (4 + 5 * g))) [
  | inl nothing ↦ plain (ground arith)
  | inr (q, e) ↦ tail_end-EndsIn s g r low (omega (arith, counted.0)) (ground arith)
]
  where
    counted : (groups_ahead 7 (drop 4 s) ≤ 7) × (5 * groups_ahead 7 (drop 4 s) ≤ length (drop 4 s))
    counted = groups_ahead-le 7 (drop 4 s)

    plain : ends_at s (4 + 5 * g) ≡ some r → EndsIn s r
    plain e = record {
      long = omega (arith, ends_at-some s (4 + 5 * g) r e);
      short = omega (arith, ends_at-some s (4 + 5 * g) r e, counted.0);
      inside = omega (arith, ends_at-some s (4 + 5 * g) r e, counted.1, length-drop 4 s);
    }

compact_end-EndsIn :
    (s : Bytes) (r : ℕ)
    → down_from (λ k. ends_at s (4 + k)) 11 (min 30 (run_length is_iban_char (drop 4 s))) ≡ some r
    → EndsIn s r
compact_end-EndsIn s r h =
    down_from-some (λ k. ends_at s (4 + k)) 11 (min 30 (run_length is_iban_char (drop 4 s)))
      (EndsIn s) turn r h
  where
    turn :
        (k q : ℕ)
        → 11 ≤ k
        → k ≤ min 30 (run_length is_iban_char (drop 4 s))
        → ends_at s (4 + k) ≡ some q
        → EndsIn s q
    turn k q low high e = record {
      long = omega (arith, ends_at-some s (4 + k) q e);
      short = omega (arith, ends_at-some s (4 + k) q e);
      inside = omega (arith, ends_at-some s (4 + k) q e, length-ahead is_iban_char 4 s);
    }

-- A candidate that is found in any text, at any place, has 14 to 44 bytes, and ends within the text:
-- the scan moves on, and no byte behind the text is read into it.
pub candidate-EndsIn :
    (before : Option ℕ) (s : Bytes) {n : ℕ} → iban_candidate_end before s ≡ some n → EndsIn s n
unfolding iban_candidate_end
candidate-EndsIn before s {n} h = elim (Option-cases (down_from (λ k. ends_at s (4 + k)) 11 most)) [
  | inl nothing ↦
      down_from-some (grouped_end s) 2 (groups_ahead 7 (drop 4 s)) (EndsIn s) (grouped_end-EndsIn s)
        n (ground arith)
  | inr (q, e) ↦ compact_end-EndsIn s n (ground arith)
]
  where
    most : ℕ
    most = min 30 (run_length is_iban_char (drop 4 s))
