-- ===== src/StrictPrivacy/Messages/Tests.antt =====
-- Messages stripped of their values.
use forge_ops_tracker_cpp.Prelude.{
  ◌≢◌, ℕ, List, [], ◌∷◌, ◌++◌, true, ap, arith, length, ◌≡◌, refl, codes,
}
use forge_ops_tracker_cpp.Scan.{scan, run_length}
use forge_ops_tracker_cpp.StrictPrivacy.Messages.{
  normalize_message, replace_quoted, replace_numbers, quoted_rule, number_rule,
}
use forge_ops_tracker_cpp.StrictPrivacy.Messages.Numbers.{number_replaced}
use forge_ops_tracker_cpp.StrictPrivacy.Messages.Quoted.{quoted_replaced}

some_digits : {c : ℕ} {s : List ℕ} → (c ∷ s) ≢ []
some_digits h = omega (arith, ap length h)

values :
    normalize_message (codes "User 42 (a.b@x.y.org) at 0xdeadbeef said \"hi\" to 'b' on v2")
    ≡ codes "User <n> (<email>) at 0x said <str> to <str> on v2"
unfolding normalize_message replace_quoted replace_numbers quoted_rule number_rule scan run_length
values = refl

uuid :
    normalize_message (codes "id 123e4567-e89b-12d3-a456-426614174000, it's 7")
    ≡ codes "id <uuid>, it's <n>"
unfolding normalize_message replace_quoted replace_numbers quoted_rule number_rule scan run_length
uuid = refl

number_replaced_example :
    replace_numbers (codes "order 3: " ++ (codes "42" ++ codes " failed"))
    ≡ replace_numbers (codes "order 3: ") ++ (codes "<n>" ++ replace_numbers (codes " failed"))
number_replaced_example =
    number_replaced (codes "order 3: ") (codes "42") (codes " failed") refl refl some_digits refl

quoted_replaced_example :
    replace_quoted b'\'' true
      (codes "no " ++ b'\'' ∷ ((codes "ann" ++ b'\'' ∷ []) ++ codes " in 3"))
    ≡ codes "no " ++ (codes "<str>" ++ replace_quoted b'\'' true (codes " in 3"))
quoted_replaced_example =
    quoted_replaced b'\'' true (codes "no ") (codes "ann") (codes " in 3") refl refl refl refl refl
