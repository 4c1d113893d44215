-- ===== src/Configuration/Tests.antt =====
-- DSNs and hosts, and the theorems at some of them.
use forge_ops_tracker_cpp.Prelude.{
  ℕ, ◌≡◌, ◌≢◌, ◌↔◌, ◌⊎◌, refl, ap, arith, true, false, List, [], ◌∷◌, ◌++◌, Option, none, some,
  Bytes, codes, bytes_eq, length,
}
use forge_ops_tracker_cpp.TraceParent.{until}
use forge_ops_tracker_cpp.Configuration.{
  percent_decode, ingestion_uri, api_key, dsn_parts, host_and_path, parsed, parse_text, spans,
  suffix_of, endpoint_uri, domain, should_propagate_trace, is_within,
}
use forge_ops_tracker_cpp.Configuration.Endpoints.{dsn_of, endpoints_of_dsn}
use forge_ops_tracker_cpp.Configuration.Hosts.{is_within_iff}

-- Reads "40" and nothing else.
abbrev reads_forty : Bytes → Option ℕ
reads_forty s = elim s [ _ ∷ _ ∷ [] ↦ some 64 | _ ↦ none ]

plain_dsn :
    ingestion_uri reads_forty (some (codes "http://k%40y@h.io:80/v1/events"))
    ≡ some (codes "http://h.io:80/v1/events")
unfolding ingestion_uri parse_text dsn_parts host_and_path until parsed bytes_eq
plain_dsn = refl

plain_key : api_key reads_forty (some (codes "http://k%40y@h.io:80/v1/events")) ≡ some (codes "k@y")
unfolding api_key parse_text dsn_parts host_and_path until parsed percent_decode bytes_eq
plain_key = refl

without_path :
    ingestion_uri reads_forty (some (codes "https://key@/events"))
    ≡ some (codes "https://key@/events")
unfolding ingestion_uri parse_text dsn_parts host_and_path until parsed bytes_eq
without_path = refl

subdomain :
    should_propagate_trace true
      (some (domain (codes ".Example.com") ∷ []))
      (some (codes "API.example.com"))
    ≡ true
unfolding should_propagate_trace bytes_eq
subdomain = refl

no_subdomain :
    should_propagate_trace true
      (some (domain (codes "example.com") ∷ []))
      (some (codes "badexample.com"))
    ≡ false
unfolding should_propagate_trace bytes_eq
no_subdomain = refl

some_bytes : {c : ℕ} {s : List ℕ} → (c ∷ s) ≢ []
some_bytes h = omega (arith, ap length h)

endpoints_of_dsn_example :
    (endpoint_uri reads_forty (some (dsn_of (codes "k%40y") (codes "h.io") (codes "/v1"))) spans
      ≡ some (codes "https://" ++ (codes "h.io" ++ (codes "/v1" ++ suffix_of spans))))
    × (api_key reads_forty (some (dsn_of (codes "k%40y") (codes "h.io") (codes "/v1")))
        ≡ some (percent_decode reads_forty 0 (codes "k%40y")))
endpoints_of_dsn_example =
    endpoints_of_dsn reads_forty (codes "k%40y") (codes "h.io") (codes "/v1") spans some_bytes refl
      some_bytes refl refl refl

is_within_iff_example :
    (is_within (codes "a.b") (codes "b") ≡ true)
    ↔ ((codes "a.b" ≡ codes "b") ⊎ ((x : Bytes) × (codes "a.b" ≡ x ++ b'.' ∷ codes "b")))
is_within_iff_example = is_within_iff (codes "a.b") (codes "b") some_bytes
