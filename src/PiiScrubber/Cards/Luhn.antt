-- ===== src/PiiScrubber/Cards/Luhn.antt =====
-- src/pii_scrubber.cpp: what the Luhn check of a card number tells.
use forge_ops_tracker_cpp.Prelude.{
  ℕ, ◌+◌, ◌-◌, ◌%◌, ◌≤◌, ◌≡◌, ◌≢◌, true, false, [], ◌∷◌, ◌++◌, Bytes, length, length-append, arith,
}
use forge_ops_tracker_cpp.Scan.{is_digit}
use forge_ops_tracker_cpp.PiiScrubber.Cards.{luhn_value, luhn_sum, is_card_number}

-- Two digits in one place add different amounts modulo ten.
luhn_value-differs :
    (k d e : ℕ)
    → d ≤ 9
    → e ≤ 9
    → d ≢ e
    → (rest : ℕ) → (luhn_value k d + rest) % 10 ≢ (luhn_value k e + rest) % 10
unfolding luhn_value
luhn_value-differs k d e hd he ne rest h = ground arith

-- Numbers that differ in one place have sums that differ by that place's shares.
luhn_sum-swap :
    (front back : Bytes) (d e : ℕ)
    → luhn_sum (front ++ d ∷ back) + luhn_value (length back) (e - b'0')
      ≡ luhn_sum (front ++ e ∷ back) + luhn_value (length back) (d - b'0')
unfolding luhn_sum
luhn_sum-swap [] back d e = omega arith
luhn_sum-swap (c ∷ front) back d e = rw same (omega (arith, luhn_sum-swap front back d e))
  where
    same : length (front ++ d ∷ back) ≡ length (front ++ e ∷ back)
    same = omega (arith, length-append front (d ∷ back), length-append front (e ∷ back))

sums_differ :
    (k a b d e : ℕ)
    → a + luhn_value k e ≡ b + luhn_value k d
    → d ≤ 9
    → e ≤ 9
    → d ≢ e
    → a % 10 ≡ 0
    → b % 10 ≢ 0
sums_differ k a b d e h hd he ne ha hb = luhn_value-differs k d e hd he ne 0 (omega arith)

-- A card number with any one digit changed is no card number.
pub one_digit_changed :
    (front back : Bytes) (d e : ℕ)
    → is_digit d ≡ true
    → is_digit e ≡ true
    → d ≢ e
    → is_card_number (front ++ d ∷ back) ≡ true
    → is_card_number (front ++ e ∷ back) ≡ false
unfolding is_card_number
one_digit_changed front back d e hd he ne h = ground (
  arith,
  sums_differ (length back) (luhn_sum (front ++ d ∷ back)) (luhn_sum (front ++ e ∷ back)) (d - b'0')
      (e - b'0') (luhn_sum-swap front back d e) (ground arith) (ground arith)
      (λ same. ne (ground arith)) (ground arith),
)
