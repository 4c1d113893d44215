-- ===== src/Configuration.antt =====
-- src/configuration.cpp: what a DSN says, the endpoints derived from it, and the hosts that get a
-- traceparent header. std::regex targets and the reading of two hexadecimal digits by a stream are
-- parameters.
pub mod Endpoints
pub mod Hosts
pub mod Values
mod Tests
use forge_ops_tracker_cpp.Prelude.{
  ℕ, zero, suc, ◌%◌, ◌+◌, ◌-◌, Bool, true, false, not, ◌&&◌, ◌||◌, List, [], ◌∷◌, ◌++◌, map, any,
  Option, none, some, Bytes, codes, bytes_eq, to_lower, length, take, drop, ltb, leb, ◌==◌,
  if◌then◌else◌, ◌>>=◌,
}
use forge_ops_tracker_cpp.Scan.{first_is}
use forge_ops_tracker_cpp.TraceParent.{until}

pub record ParsedDsn : Type 0 where
  pub scheme : Bytes
  pub api_key : Option Bytes
  pub ingestion_uri : Bytes

abbrev starts : Bytes → Bytes → Bool
starts text s = bytes_eq (take (length text) s) text

-- `skip` bytes belong to the last escape; `read_hex` is what a stream reads from two characters.
pub percent_decode : (Bytes → Option ℕ) → ℕ → Bytes → Bytes
percent_decode read_hex skip [] = []
percent_decode read_hex (suc skip) (c ∷ s) = percent_decode read_hex skip s
percent_decode read_hex zero (c ∷ s) =
    elim (if c == b'%' && leb 2 (length s) then read_hex (take 2 s) else none) [
      | none ↦ c ∷ percent_decode read_hex zero s
      | some value ↦ value % 256 ∷ percent_decode read_hex 2 s
    ]

abbrev pub is_slash : ℕ → Bool
is_slash c = c == b'/'

abbrev pub ends_userinfo : ℕ → Bool
ends_userinfo c = c == b':' || c == b'@' || c == b'/'

abbrev pub is_newline : ℕ → Bool
is_newline c = c == b'\n' || c == b'\r'

-- ([^/]+)(/.*)?$
pub host_and_path : Bytes → Option (Bytes × Bytes)
host_and_path s =
    let host = until is_slash s in
    let path = drop (length host) s in
    if ltb 0 (length host) && not (any is_newline path) then some (host, path) else none

abbrev without_user : Bytes → Option (Bytes × (Bytes × Bytes))
without_user s = host_and_path s >>= λ hp. some ([], hp)

-- What follows "://": the user's part, empty if there is none, the host and the path. The part in
-- front of an '@' is tried first as the user's.
pub dsn_parts : Bytes → Option (Bytes × (Bytes × Bytes))
dsn_parts s =
    let user = until ends_userinfo s in
    if first_is (λ c. c == b'@') (drop (length user) s)
    then elim (host_and_path (drop (length user + 1) s)) [
      | some hp ↦ some (user, hp)
      | none ↦ without_user s
    ]
    else without_user s

abbrev key_of : (Bytes → Option ℕ) → Bytes → Option Bytes
key_of read_hex [] = none
key_of read_hex (c ∷ user) = some (percent_decode read_hex 0 (c ∷ user))

pub parsed : (Bytes → Option ℕ) → Bytes → Bytes × (Bytes × Bytes) → ParsedDsn
parsed read_hex scheme (user, (host, path)) = record {
  scheme = scheme;
  api_key = key_of read_hex user;
  ingestion_uri = scheme ++ (codes "://" ++ (host ++ path));
}

pub parse_text : (Bytes → Option ℕ) → Bytes → Option ParsedDsn
parse_text read_hex dsn =
    if starts (codes "http://") dsn
    then (dsn_parts (drop 7 dsn) >>= λ parts. some (parsed read_hex (codes "http") parts))
    else if starts (codes "https://") dsn
    then (dsn_parts (drop 8 dsn) >>= λ parts. some (parsed read_hex (codes "https") parts))
    else none

-- The dsn of a configuration may be unset; an empty one is none.
pub parse_dsn : (Bytes → Option ℕ) → Option Bytes → Option ParsedDsn
parse_dsn read_hex none = none
parse_dsn read_hex (some dsn) = if leb (length dsn) 0 then none else parse_text read_hex dsn

pub api_key : (Bytes → Option ℕ) → Option Bytes → Option Bytes
unfolding parse_dsn
api_key read_hex dsn = parse_dsn read_hex dsn >>= λ p. p.api_key

pub ingestion_uri : (Bytes → Option ℕ) → Option Bytes → Option Bytes
unfolding parse_dsn
ingestion_uri read_hex dsn = parse_dsn read_hex dsn >>= λ p. some p.ingestion_uri

abbrev pub k_events_suffix : Bytes
k_events_suffix = codes "/events"

pub ends_with_events : Bytes → Bool
ends_with_events uri =
    leb (length k_events_suffix) (length uri)
    && bytes_eq (drop (length uri - length k_events_suffix) uri) k_events_suffix

pub without_events_suffix : Bytes → Bytes
without_events_suffix uri = take (length uri - length k_events_suffix) uri

pub swap_events_suffix : Option Bytes → Bytes → Option Bytes
swap_events_suffix none replacement = none
swap_events_suffix (some uri) replacement =
    some (if ends_with_events uri then without_events_suffix uri ++ replacement else uri)

-- What each endpoint puts in place of "/events".
pub data Endpoint : Type 0 where
  performance_samples custom_metrics infrastructure_metrics changes spans : Endpoint

abbrev pub suffix_of : Endpoint → Bytes
suffix_of performance_samples = codes "/performance_samples"
suffix_of custom_metrics = codes "/custom_metrics"
suffix_of infrastructure_metrics = codes "/infrastructure_metrics"
suffix_of changes = codes "/changes"
suffix_of spans = codes "/spans"

pub endpoint_uri : (Bytes → Option ℕ) → Option Bytes → Endpoint → Option Bytes
unfolding ingestion_uri swap_events_suffix
endpoint_uri read_hex dsn endpoint =
    swap_events_suffix (ingestion_uri read_hex dsn) (suffix_of endpoint)

pub is_enabled : (Bytes → Option ℕ) → Option Bytes → Bytes → List Bytes → Bool
unfolding api_key
is_enabled read_hex none environment enabled_environments = false
is_enabled read_hex (some dsn) environment enabled_environments =
    ltb 0 (length dsn) && elim (api_key read_hex (some dsn)) [
      | none ↦ false
      | some key ↦ any (λ name. bytes_eq name environment) enabled_environments
    ]

-- A target is a text, or a regular expression: its search in a host.
pub data Target : Type 0 where
  domain : Bytes → Target
  pattern_search : (Bytes → Bool) → Target

pub without_dot : Bytes → Bytes
without_dot [] = []
without_dot (c ∷ s) = if c == b'.' then s else c ∷ s

-- A host is the domain, or ends in '.' and the domain.
pub is_within : Bytes → Bytes → Bool
is_within host name =
    let prefix = length host - length name in
    ltb 0 (length name)
    && leb (length name) (length host)
    && (bytes_eq host name
        || ltb 0 prefix
          && first_is (λ c. c == b'.') (drop (prefix - 1) host)
          && bytes_eq (drop prefix host) name)

pub target_matches : Bytes → Target → Bool
unfolding is_within without_dot
target_matches host (domain name) = is_within host (without_dot (map to_lower name))
target_matches host (pattern_search search) = search host

pub should_propagate_trace : Bool → Option (List Target) → Option Bytes → Bool
unfolding target_matches
should_propagate_trace propagate_traces none host = propagate_traces
should_propagate_trace propagate_traces (some targets) none = false
should_propagate_trace propagate_traces (some targets) (some host) =
    propagate_traces && ltb 0 (length host) && any (target_matches (map to_lower host)) targets
