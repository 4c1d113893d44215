-- ===== src/StrictPrivacy/Paths.antt =====
-- src/strict_privacy.cpp: host_of, strict_path, span_name and transaction_name.
pub mod Private
mod Tests
use forge_ops_tracker_cpp.Prelude.{
  ℕ, zero, suc, ◌+◌, ◌-◌, Bool, true, false, not, ◌&&◌, ◌||◌, List, [], ◌∷◌, ◌++◌, map, Option,
  none, some, Bytes, codes, bytes_eq, to_lower, length, take, drop, all, any, ltb, leb, ◌==◌,
  if◌then◌else◌,
}
use forge_ops_tracker_cpp.Scan.{first_is, run_length, is_digit, is_alpha, is_space, is_continuation}
use forge_ops_tracker_cpp.TraceParent.{until, after_last_at, ends_authority}

abbrev pub k_max_segment_length : ℕ
k_max_segment_length = 40

unfoldable pub character_count : Bytes → ℕ
character_count [] = 0
character_count (c ∷ value) =
    let rest = character_count value in if is_continuation c then rest else suc rest

abbrev starts : Bytes → Bytes → Bool
starts text s = bytes_eq (take (length text) s) text

pub scheme_length : Bytes → ℕ
unfolding run_length
scheme_length target =
    let i =
      1
      + run_length (λ c. is_alpha c || is_digit c || c == b'+' || c == b'.' || c == b'-')
          (drop 1 target) in
    if first_is is_alpha target && starts (codes "://") (drop i target) then i + 3 else 0

-- Without the digits at the end and the ':' before them, if there are both.
pub without_port : Bytes → Option Bytes
without_port [] = none
without_port (c ∷ s) = elim (without_port s) [
  | some rest ↦ some (c ∷ rest)
  | none ↦ if c == b':' && ltb 0 (length s) && all is_digit s then some [] else none
]

-- The authority of an address: credentials are cut at the last '@'.
pub authority_of : Bytes → Bytes
unfolding until after_last_at scheme_length
authority_of target = after_last_at (until ends_authority (drop (scheme_length target) target))

is_host : Bytes → Bool → Bool → Bool
is_host host scheme port =
    scheme || port || any (λ c. c == b'.') host || bytes_eq (map to_lower host) (codes "localhost")

chosen_host : Bytes → Bool → Option Bytes → Bytes
unfolding is_host
chosen_host authority scheme (some host) = if is_host host scheme true then host else []
chosen_host authority scheme none = if is_host authority scheme false then authority else []

pub host_of : Bytes → Bytes
unfolding authority_of without_port chosen_host
host_of target =
    chosen_host (authority_of target) (ltb 0 (scheme_length target))
      (without_port (authority_of target))

abbrev last_is : ℕ → Bytes → Bool
last_is d s = first_is (λ c. c == d) (drop (length s - 1) s)

pub is_route_parameter : Bytes → Bool
is_route_parameter segment =
    let n = length segment in
    not (any (λ c. c == b'\n') segment)
    && (leb 1 n && first_is (λ c. c == b'*') segment
        || leb 2 n && first_is (λ c. c == b':') segment
        || leb 3 n
          && (first_is (λ c. c == b'{') segment && last_is b'}' segment
              || first_is (λ c. c == b'<') segment && last_is b'>' segment
              || first_is (λ c. c == b'[') segment && last_is b']' segment))

abbrev add_front : ℕ → List Bytes → List Bytes
add_front c [] = (c ∷ []) ∷ []
add_front c (segment ∷ rest) = (c ∷ segment) ∷ rest

pub segments_of : Bytes → List Bytes
segments_of [] = [] ∷ []
segments_of (c ∷ s) = let rest = segments_of s in if c == b'/' then [] ∷ rest else add_front c rest

-- The segments that are not empty.
pub filled : List Bytes → List Bytes
filled [] = []
filled ([] ∷ rest) = filled rest
filled ((c ∷ s) ∷ rest) = (c ∷ s) ∷ filled rest

pub is_id : Bytes → Bool
is_id first = any is_digit first || ltb k_max_segment_length (character_count first)

pub raw_path : Bytes → List Bytes → Bytes
raw_path without_query [] = codes "/"
raw_path without_query (first ∷ rest) =
    (if first_is (λ c. c == b'/') without_query then codes "/" else [])
    ++ ((if is_id first then codes ":id" else first)
        ++ (if ltb 0 (length rest) then codes "/:path" else []))

abbrev pub without_query : Bytes → Bytes
without_query path = until (λ c. c == b'?' || c == b'#') path

pub strict_path : Bytes → Bytes
strict_path path =
    if any is_route_parameter (segments_of (without_query path))
    then without_query path
    else raw_path (without_query path) (filled (segments_of (without_query path)))

-- std::toupper in the "C" locale.
abbrev to_upper : ℕ → ℕ
to_upper c = if leb b'a' c && leb c b'z' then c - 32 else c

pub starts_with_ignoring_case : Bytes → Bytes → Bool
starts_with_ignoring_case value prefix =
    leb (length prefix) (length value)
    && bytes_eq (map to_upper (take (length prefix) value)) prefix

abbrev pub methods : List Bytes
methods =
    codes "GET"
    ∷ codes "POST"
    ∷ codes "PUT"
    ∷ codes "PATCH"
    ∷ codes "DELETE"
    ∷ codes "HEAD"
    ∷ codes "OPTIONS"
    ∷ []

-- What is sent of the target of a call: its host, or its path if it has none.
pub strict_target : Bytes → Bytes
strict_target target =
    if first_is (λ c. c == b'/') target
    then strict_path target
    else if ltb 0 (length (host_of target))
    then host_of target
    else strict_path target

-- The target behind a method: what stands between the blanks, if it is there.
pub target_behind : Bytes → Bytes → Option Bytes
unfolding until run_length
target_behind method name =
    let blanks = run_length is_space (drop (length method) name) in
    let target = until is_space (drop (length method + blanks) name) in
    if starts_with_ignoring_case name method && ltb 0 blanks && ltb 0 (length target)
    then some target
    else none

pub named_by : List Bytes → Bytes → Bytes
named_by [] name = name
named_by (method ∷ rest) name = elim (target_behind method name) [
  | none ↦ named_by rest name
  | some target ↦ method ++ (codes " " ++ strict_target target)
]

pub span_name : Bytes → Bytes
unfolding named_by
span_name name = if first_is (λ c. c == b'/') name then strict_path name else named_by methods name

pub transaction_name : Bytes → Bytes
unfolding span_name
transaction_name name = if all is_space name then name else span_name name
