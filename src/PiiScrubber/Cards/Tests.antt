-- ===== src/PiiScrubber/Cards/Tests.antt =====
-- Card numbers, and the theorems at some of them.
use forge_ops_tracker_cpp.Prelude.{◌≡◌, refl, arith, ◌∷◌, ◌++◌, true, false, codes}
use forge_ops_tracker_cpp.PiiScrubber.Cards.{
  scrub_card_numbers, is_card_number, has_card_prefix, luhn_sum, luhn_value,
}
use forge_ops_tracker_cpp.PiiScrubber.Cards.Luhn.{one_digit_changed}
use forge_ops_tracker_cpp.PiiScrubber.Cards.Hidden.{card_hidden}

test_card : is_card_number (codes "4242424242424242") ≡ true
unfolding is_card_number has_card_prefix luhn_sum luhn_value
test_card = refl

one_digit_changed_example : is_card_number (codes "424242424" ++ b'7' ∷ codes "424242") ≡ false
one_digit_changed_example =
    one_digit_changed (codes "424242424") (codes "424242") b'2' b'7' refl refl
      (λ h. omega (arith, h)) test_card

-- A date stands in front of the card.
card_hidden_example :
    scrub_card_numbers (codes "2026-11-26: " ++ (codes "4242424242424242" ++ codes ", 2 ok"))
    ≡ scrub_card_numbers (codes "2026-11-26: ")
      ++ (codes "[CREDIT CARD FILTERED]" ++ scrub_card_numbers (codes ", 2 ok"))
card_hidden_example =
    card_hidden (codes "2026-11-26: ") (codes "4242424242424242") (codes ", 2 ok") refl refl
      test_card refl refl
