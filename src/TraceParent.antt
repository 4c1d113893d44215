-- ===== src/TraceParent.antt =====
-- src/trace_parent.cpp: the W3C traceparent header, the ids, and the host of a URL. A text is a list
-- of bytes. Random bytes come from outside: the ids are built from a list of bytes that is given.
pub mod Header
pub mod Ids
mod Tests
use forge_ops_tracker_cpp.Prelude.{
  ℕ, ◌+◌, ◌-◌, ◌/◌, ◌%◌, Bool, true, false, not, ◌&&◌, ◌||◌, List, [], ◌∷◌, ◌++◌, map, Option, none,
  some, Bytes, codes, bytes_eq, length, take, drop, all, any, ltb, leb, ◌==◌, if◌then◌else◌, ◌>>=◌,
  to_lower,
}

pub record Context : Type 0 where
  pub trace_id : Bytes
  pub parent_span_id : Bytes

abbrev pub fixed_length : ℕ
fixed_length = 55

abbrev pub is_hex_digit : ℕ → Bool
is_hex_digit c = leb b'0' c && leb c b'9' || leb b'a' c && leb c b'f'

-- value[i], for an i within the value; 0 behind its end, as std::string has it.
abbrev pub byte_at : Bytes → ℕ → ℕ
byte_at s i = elim (drop i s) [ [] ↦ 0 | c ∷ rest ↦ c ]

abbrev pub substr : Bytes → ℕ → ℕ → Bytes
substr s from count = take count (drop from s)

pub is_lower_hex : Bytes → ℕ → ℕ → Bool
is_lower_hex value from count = all is_hex_digit (substr value from count)

pub all_zeros : Bytes → Bool
all_zeros id = all (λ c. c == b'0') id

-- The bytes that find_first_not_of(" \t\r\n") passes over.
abbrev pub is_blank : ℕ → Bool
is_blank c = c == b' ' || c == b'\t' || c == b'\r' || c == b'\n'

pub skip_blanks : Bytes → Bytes
skip_blanks [] = []
skip_blanks (c ∷ s) = if is_blank c then skip_blanks s else c ∷ s

-- Cuts the blanks at the end.
pub cut_blanks : Bytes → Bytes
cut_blanks [] = []
cut_blanks (c ∷ s) = elim (cut_blanks s) [
  | [] ↦ if is_blank c then [] else c ∷ []
  | d ∷ rest ↦ c ∷ d ∷ rest
]

-- The substring between the first and the last byte that is no blank, empty if there is none.
unfoldable pub trimmed : Bytes → Bytes
unfolding skip_blanks cut_blanks
trimmed s = cut_blanks (skip_blanks s)

dash_at : Bytes → ℕ → Bool
dash_at value i = byte_at value i == b'-'

-- The layout of the four fields that every version shares.
well_formed : Bytes → Bool
well_formed value =
    is_lower_hex value 0 2
    && dash_at value 2
    && is_lower_hex value 3 32
    && dash_at value 35
    && is_lower_hex value 36 16
    && dash_at value 52
    && is_lower_hex value 53 2

-- Version 00 ends behind the flags; a later one may go on, behind a dash.
tail_allowed : Bytes → Bool
tail_allowed value = not (
    ltb fixed_length (length value)
    && (bytes_eq (take 2 value) (codes "00") || not (byte_at value fixed_length == b'-')))

context_of : Bytes → Option Context
context_of value =
    if all_zeros (substr value 3 32) || all_zeros (substr value 36 16)
    then none
    else some (record { trace_id = substr value 3 32; parent_span_id = substr value 36 16 })

parse_value : Bytes → Option Context
parse_value value =
    if ltb (length value) fixed_length
    then none
    else if not (well_formed value)
    then none
    else if bytes_eq (take 2 value) (codes "ff")
    then none
    else if not (tail_allowed value)
    then none
    else context_of value

pub parse : Bytes → Option Context
unfolding parse_value trimmed
parse raw = parse_value (trimmed raw)

pub build : Bytes → Bytes → Bytes
build trace_id span_id = codes "00-" ++ (trace_id ++ (codes "-" ++ (span_id ++ codes "-01")))

-- "%02x" of a byte.
unfoldable pub hex_digit : ℕ → ℕ
hex_digit n = if ltb n 10 then b'0' + n else b'a' + (n - 10)

pub random_hex : List ℕ → Bytes
unfolding hex_digit
random_hex [] = []
random_hex (value ∷ rest) = hex_digit (value % 256 / 16) ∷ hex_digit (value % 16) ∷ random_hex rest

-- The do-while over the draws that the random device gives, each a list of `bytes` bytes; `none`
-- is a device that has given only zeros so far.
pub random_non_zero_hex : List (List ℕ) → Option Bytes
random_non_zero_hex [] = none
random_non_zero_hex (draw ∷ rest) =
    if all_zeros (random_hex draw) then random_non_zero_hex rest else some (random_hex draw)

-- What follows the first "://", and how many bytes stand before it.
after_scheme : ℕ → Bytes → Option (ℕ × Bytes)
after_scheme n [] = none
after_scheme n (c ∷ s) =
    if bytes_eq (take 3 (c ∷ s)) (codes "://")
    then some (n, drop 3 (c ∷ s))
    else after_scheme (n + 1) s

-- The part before the first byte that passes a test.
unfoldable pub until : (ℕ → Bool) → Bytes → Bytes
until p [] = []
until p (c ∷ s) = if p c then [] else c ∷ until p s

-- The part behind the last '@', all of it if there is none.
unfoldable pub after_last_at : Bytes → Bytes
after_last_at [] = []
after_last_at (c ∷ s) =
    if any (λ d. d == b'@') s then after_last_at s else if c == b'@' then s else c ∷ s

-- "[…]" with its brackets; `none` if it is not closed.
bracketed : Bytes → Option Bytes
bracketed [] = none
bracketed (c ∷ s) = if c == b']' then some (c ∷ []) else bracketed s >>= λ rest. some (c ∷ rest)

host_part : Bytes → Option Bytes
unfolding bracketed until
host_part [] = some []
host_part (c ∷ s) = if c == b'[' then bracketed (c ∷ s) else some (until (λ d. d == b':') (c ∷ s))

named : Bytes → Option Bytes
named [] = none
named (c ∷ s) = some (map to_lower (c ∷ s))

abbrev pub ends_authority : ℕ → Bool
ends_authority c = c == b'/' || c == b'?' || c == b'#'

host_behind : ℕ × Bytes → Option Bytes
unfolding host_part after_last_at until named
host_behind (n, rest) =
    if n == 0 then none else host_part (after_last_at (until ends_authority rest)) >>= named

pub url_host : Bytes → Option Bytes
unfolding after_scheme host_behind
url_host url = after_scheme 0 url >>= host_behind
