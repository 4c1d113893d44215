-- ===== src/PiiScrubber.antt =====
-- src/pii_scrubber.cpp: the keys whose values are hidden, and the scrubbing of a text. The eight
-- regular expressions run in the standard library: what they replace is a parameter.
pub mod Ibans
pub mod Cards
pub mod Walk
mod Tests
use forge_ops_tracker_cpp.Prelude.{
  ℕ, ◌+◌, Bool, true, false, ◌&&◌, ◌||◌, List, [], ◌∷◌, Option, none, some, Bytes, codes, to_lower,
  any, if◌then◌else◌,
}
use forge_ops_tracker_cpp.Scan.{find, is_digit, is_alpha}
use forge_ops_tracker_cpp.PiiScrubber.Ibans.{scrub_ibans}
use forge_ops_tracker_cpp.PiiScrubber.Cards.{scrub_card_numbers}

abbrev pub sensitive_keys : List Bytes
sensitive_keys =
    codes "password"
    ∷ codes "passwd"
    ∷ codes "pwd"
    ∷ codes "secret"
    ∷ codes "apisecret"
    ∷ codes "clientsecret"
    ∷ codes "secretkey"
    ∷ codes "token"
    ∷ codes "accesstoken"
    ∷ codes "refreshtoken"
    ∷ codes "apikey"
    ∷ codes "apitoken"
    ∷ codes "authorization"
    ∷ codes "authtoken"
    ∷ codes "bearer"
    ∷ codes "sessiontoken"
    ∷ codes "csrftoken"
    ∷ codes "creditcard"
    ∷ codes "cardnumber"
    ∷ codes "cardnum"
    ∷ codes "cvv"
    ∷ codes "cvv2"
    ∷ codes "cvc"
    ∷ codes "iban"
    ∷ codes "accountnumber"
    ∷ codes "routingnumber"
    ∷ codes "bankaccount"
    ∷ codes "ssn"
    ∷ codes "socialsecuritynumber"
    ∷ codes "socialsecurity"
    ∷ codes "privatekey"
    ∷ []

-- Letters in lower case and digits; nothing else is kept.
normalized : Bytes → Bytes
normalized [] = []
normalized (c ∷ key) =
    let rest = normalized key in
    if is_alpha (to_lower c) || is_digit (to_lower c) then to_lower c ∷ rest else rest

abbrev contains : Bytes → Bytes → Bool
contains s text = elim (find text s) [ none ↦ false | some n ↦ true ]

pub is_sensitive_key : Option Bytes → Bool
unfolding normalized find
is_sensitive_key none = false
is_sensitive_key (some key) = any (contains (normalized key)) sensitive_keys

-- `replace_patterns` is what the eight calls of std::regex_replace do, one after another.
pub scrub_string : (Bytes → Bytes) → Bytes → Bytes
scrub_string replace_patterns text = scrub_card_numbers (replace_patterns (scrub_ibans text))
