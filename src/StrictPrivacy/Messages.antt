-- ===== src/StrictPrivacy/Messages.antt =====
-- src/strict_privacy.cpp: normalize_message, one scan after another. A place in the text is told by
-- the byte before and the text ahead.
pub mod Numbers
pub mod Quoted
mod Tests
use forge_ops_tracker_cpp.Prelude.{
  ℕ, zero, suc, ◌+◌, Bool, true, false, not, ◌&&◌, ◌||◌, List, [], ◌∷◌, Option, none, some, Bytes,
  codes, length, take, drop, ltb, leb, ◌==◌, if◌then◌else◌,
}
use forge_ops_tracker_cpp.Scan.{
  Rule, scan, before_is, first_is, run_length, is_digit, is_alpha, is_hex, is_word,
}

abbrev is_email_local : ℕ → Bool
is_email_local c =
    is_alpha c || is_digit c || c == b'.' || c == b'_' || c == b'%' || c == b'+' || c == b'-'

abbrev is_email_domain : ℕ → Bool
is_email_domain c = is_alpha c || is_digit c || c == b'.' || c == b'-'

-- The length of the domain, read from the last '.' within its first `n + 2` bytes that two or more
-- letters follow; never its first byte.
domain_match : Bytes → ℕ → Option ℕ
unfolding run_length
domain_match domain zero = none
domain_match domain (suc n) =
    elim (first_is (λ c. c == b'.') (drop (suc n) domain)
      && leb 2 (run_length is_alpha (drop (suc n + 1) domain))) [
        | true ↦ some (suc n + 1 + run_length is_alpha (drop (suc n + 1) domain))
        | false ↦ domain_match domain n
      ]

-- What stands behind the '@': the dots of the run are tried from its end, but for its first byte.
domain_length : Bytes → Option ℕ
unfolding run_length domain_match
domain_length domain = elim (run_length is_email_domain domain) [
  | zero ↦ none
  | suc n ↦ domain_match domain n
]

-- The length of the email that starts here.
email_at : Bytes → Option ℕ
unfolding run_length domain_length
email_at s =
    let at_sign = run_length is_email_local s in
    if first_is (λ c. c == b'@') (drop at_sign s)
    then elim (domain_length (drop (at_sign + 1) s)) [
      | none ↦ none
      | some n ↦ some (at_sign + 1 + n)
    ]
    else none

-- Where no email starts, the whole run of local characters is copied.
pub email_rule : Rule
unfolding email_at run_length
email_rule before [] = none
email_rule before (c ∷ s) =
    if is_email_local c
    then elim (email_at (c ∷ s)) [
      | some n ↦ some (codes "<email>", n)
      | none ↦
          some (take (run_length is_email_local (c ∷ s)) (c ∷ s), run_length is_email_local (c ∷ s))
    ]
    else none

pub replace_emails : Bytes → Bytes
unfolding scan email_rule
replace_emails text = scan email_rule 0 none text

-- A byte of a quoted run.
abbrev pub is_inside : ℕ → ℕ → Bool
is_inside quote c = not (c == quote || c == b'\r' || c == b'\n')

pub quoted_rule : ℕ → Bool → Rule
quoted_rule quote at_word_boundary before [] = none
quoted_rule quote at_word_boundary before (c ∷ s) =
    let end = run_length (is_inside quote) s in
    if c == quote
      && (not at_word_boundary || not (before_is is_word before))
      && first_is (λ d. d == quote) (drop end s)
      && (not at_word_boundary || not (first_is is_word (drop (end + 1) s)))
    then some (codes "<str>", end + 2)
    else none

pub replace_quoted : ℕ → Bool → Bytes → Bytes
replace_quoted quote at_word_boundary text = scan (quoted_rule quote at_word_boundary) 0 none text

pub hex_rule : Rule
unfolding run_length
hex_rule before s =
    let digits = run_length is_hex (drop 2 s) in
    if first_is (λ c. c == b'0') s && first_is (λ c. c == b'x') (drop 1 s) && leb 4 digits
    then some (codes "0x", 2 + digits)
    else none

pub replace_hex_object_ids : Bytes → Bytes
unfolding scan hex_rule
replace_hex_object_ids text = scan hex_rule 0 none text

-- 8-4-4-4-12, from an offset on: `n` bytes are left.
is_uuid_from : ℕ → ℕ → Bytes → Bool
is_uuid_from offset zero s = true
is_uuid_from offset (suc n) [] = false
is_uuid_from offset (suc n) (c ∷ s) =
    let rest = is_uuid_from (offset + 1) n s in
    (if offset == 8 || offset == 13 || offset == 18 || offset == 23 then c == b'-' else is_hex c)
    && rest

abbrev pub k_uuid_length : ℕ
k_uuid_length = 36

pub is_uuid_at : Bytes → Bool
unfolding is_uuid_from
is_uuid_at s = is_uuid_from 0 k_uuid_length s

pub uuid_rule : Rule
unfolding is_uuid_at
uuid_rule before s =
    if not (before_is is_word before)
      && is_uuid_at s
      && not (first_is is_word (drop k_uuid_length s))
    then some (codes "<uuid>", k_uuid_length)
    else none

pub replace_uuids : Bytes → Bytes
unfolding scan uuid_rule
replace_uuids text = scan uuid_rule 0 none text

pub number_rule : Rule
number_rule before s =
    let digits = run_length is_digit s in
    if first_is is_digit s
      && not (before_is is_word before)
      && not (first_is is_word (drop digits s))
    then some (codes "<n>", digits)
    else none

pub replace_numbers : Bytes → Bytes
replace_numbers text = scan number_rule 0 none text

pub normalize_message : Bytes → Bytes
unfolding replace_emails replace_hex_object_ids replace_uuids
normalize_message message = replace_numbers (
    replace_uuids (
      replace_hex_object_ids
        (replace_quoted b'\'' true (replace_quoted b'"' false (replace_emails message)))))
