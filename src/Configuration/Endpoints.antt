-- ===== src/Configuration/Endpoints.antt =====
-- src/configuration.cpp: from a DSN to the addresses of the endpoints.
use forge_ops_tracker_cpp.Prelude.{
  ℕ, suc, ◌+◌, ◌-◌, ◌≡◌, ◌≢◌, refl, sym, ap, ◌∙◌, Bool, true, false, [], ◌∷◌, ◌++◌, append_assoc,
  any, Option, some, Bytes, codes, bytes_eq, bytes_eq_refl, length, length-append, drop,
  take-length-append, drop-length-append, arith, ltb, leb,
}
use forge_ops_tracker_cpp.Scan.{first_is}
use forge_ops_tracker_cpp.TraceParent.{until}
use forge_ops_tracker_cpp.Configuration.{
  parse_dsn, parse_text, dsn_parts, host_and_path, parsed, api_key, ingestion_uri, percent_decode,
  is_slash, ends_userinfo, is_newline, k_events_suffix, ends_with_events, without_events_suffix,
  swap_events_suffix, Endpoint, suffix_of, endpoint_uri,
}

until-append :
    (p : ℕ → Bool) (x rest : Bytes)
    → any p x ≡ false
    → first_is p rest ≡ true
    → until p (x ++ rest) ≡ x
unfolding until
until-append p [] [] hx hr = refl
until-append p [] (c ∷ rest) hx hr = rw hr refl
until-append p (c ∷ x) rest hx hr = ground (arith, until-append p x rest)

host_and_path-parts :
    (host path : Bytes)
    → host ≢ []
    → any is_slash host ≡ false
    → first_is is_slash path ≡ true
    → any is_newline path ≡ false
    → host_and_path (host ++ path) ≡ some (host, path)
unfolding host_and_path
host_and_path-parts [] path ne hh hp np = absurd (ne refl)
host_and_path-parts (c ∷ host) path ne hh hp np =
    rw (until-append is_slash (c ∷ host) path hh hp, drop-length-append (c ∷ host) path, np, long)
      refl
  where
    long : ltb 0 (length (c ∷ host)) ≡ true
    long = ground arith

drop_behind : (x rest : Bytes) (c : ℕ) → drop (length x + 1) (x ++ c ∷ rest) ≡ rest
drop_behind [] rest c = refl
drop_behind (d ∷ x) rest c = ap (λ k. drop k (d ∷ (x ++ c ∷ rest))) more ∙ drop_behind x rest c
  where
    more : suc (length x) + 1 ≡ suc (length x + 1)
    more = omega arith

dsn_parts-user :
    (key s : Bytes) (hp : Bytes × Bytes)
    → any ends_userinfo key ≡ false
    → host_and_path s ≡ some hp
    → dsn_parts (key ++ b'@' ∷ s) ≡ some (key, hp)
unfolding dsn_parts
dsn_parts-user key s hp hk hs =
    rw
      (
        until-append ends_userinfo key (b'@' ∷ s) hk refl,
        drop-length-append key (b'@' ∷ s),
        drop_behind key s b'@',
        hs,
      )
      (ap (λ k. some (k, hp)) (until-append ends_userinfo key (b'@' ∷ s) hk refl))

swap_events_suffix-append :
    (base replacement : Bytes)
    → swap_events_suffix (some (base ++ k_events_suffix)) replacement ≡ some (base ++ replacement)
unfolding swap_events_suffix ends_with_events without_events_suffix
swap_events_suffix-append base replacement =
    let whole : length (base ++ k_events_suffix) ≡ length base + 7 =
      omega (arith, length-append base k_events_suffix) in
    let front : length (base ++ k_events_suffix) - 7 ≡ length base = omega (arith, whole) in
    let long : leb 7 (length (base ++ k_events_suffix)) ≡ true = ground (arith, whole) in
    rw
      (
        long,
        front,
        drop-length-append base k_events_suffix,
        take-length-append base k_events_suffix,
        bytes_eq_refl k_events_suffix,
      )
      refl

-- The DSN "https://key@host/base/events", in its parts.
abbrev pub dsn_of : Bytes → Bytes → Bytes → Bytes
dsn_of key host base = codes "https://" ++ (key ++ b'@' ∷ (host ++ (base ++ k_events_suffix)))

parse_dsn-of :
    (read_hex : Bytes → Option ℕ) (key host path : Bytes)
    → any ends_userinfo key ≡ false
    → host ≢ []
    → any is_slash host ≡ false
    → first_is is_slash path ≡ true
    → any is_newline path ≡ false
    → parse_dsn read_hex (some (codes "https://" ++ (key ++ b'@' ∷ (host ++ path))))
      ≡ some (parsed read_hex (codes "https") (key, (host, path)))
unfolding parse_dsn parse_text bytes_eq
parse_dsn-of read_hex key host path hk hh hs hp np =
    rw
      (
        dsn_parts-user key (host ++ path) (host, path) hk
            (host_and_path-parts host path hh hs hp np),
        not_empty,
      )
      refl
  where
    not_empty : leb (length (codes "https://" ++ (key ++ b'@' ∷ (host ++ path)))) 0 ≡ false
    not_empty = ground arith

-- From "https://key@host/base/events" each endpoint gets the address "https://host/base/" and its own
-- last segment, without the key; and the key is the percent-decoded part in front of the '@'.
pub endpoints_of_dsn :
    (read_hex : Bytes → Option ℕ) (key host base : Bytes) (endpoint : Endpoint)
    → key ≢ []
    → any ends_userinfo key ≡ false
    → host ≢ []
    → any is_slash host ≡ false
    → first_is is_slash (base ++ k_events_suffix) ≡ true
    → any is_newline (base ++ k_events_suffix) ≡ false
    → (endpoint_uri read_hex (some (dsn_of key host base)) endpoint
        ≡ some (codes "https://" ++ (host ++ (base ++ suffix_of endpoint))))
      × (api_key read_hex (some (dsn_of key host base)) ≡ some (percent_decode read_hex 0 key))
unfolding endpoint_uri ingestion_uri api_key parsed
endpoints_of_dsn read_hex [] host base endpoint nk hk hh hs hp np = absurd (nk refl)
endpoints_of_dsn read_hex (c ∷ key) host base endpoint nk hk hh hs hp np =
    let p = parse_dsn-of read_hex (c ∷ key) host (base ++ k_events_suffix) hk hh hs hp np in
    (
      rw p (
          ap (λ uri. swap_events_suffix (some (codes "https://" ++ uri)) (suffix_of endpoint))
            (sym (append_assoc host base k_events_suffix))
          ∙ swap_events_suffix-append (codes "https://" ++ (host ++ base)) (suffix_of endpoint)
          ∙ ap (λ uri. some (codes "https://" ++ uri))
              (append_assoc host base (suffix_of endpoint))),
      rw p refl,
    )
