-- ===== src/TraceParent/Tests.antt =====
-- Headers and URLs.
use forge_ops_tracker_cpp.Prelude.{[], ◌∷◌, ◌≡◌, refl, none, some, Bytes, codes, bytes_eq}
use forge_ops_tracker_cpp.TraceParent.Header.{IsId, parse-build, parse_sound}
use forge_ops_tracker_cpp.TraceParent.Ids.{generated-IsId}
use forge_ops_tracker_cpp.TraceParent.{
  random_non_zero_hex, random_hex, all_zeros, parse, build, well_formed, tail_allowed, context_of,
  is_lower_hex, dash_at, url_host,
}

ip6_host : url_host (codes "HTTP://u:p@[::1]:80/x") ≡ some (codes "[::1]")
unfolding url_host bytes_eq
ip6_host = refl

plain_host : url_host (codes "https://me@Example.COM:443?q") ≡ some (codes "example.com")
unfolding url_host bytes_eq
plain_host = refl

padded_header :
    parse (codes " 00-0af7651916cd43dd8448eb211c80319c-b7ad6b7169203331-01\r\n")
    ≡ some (record {
      trace_id = codes "0af7651916cd43dd8448eb211c80319c";
      parent_span_id = codes "b7ad6b7169203331";
    })
unfolding parse well_formed tail_allowed context_of is_lower_hex dash_at bytes_eq all_zeros
padded_header = refl

version_ff : parse (codes "ff-0af7651916cd43dd8448eb211c80319c-b7ad6b7169203331-01") ≡ none
unfolding parse well_formed tail_allowed context_of is_lower_hex dash_at bytes_eq all_zeros
version_ff = refl

abbrev trace : Bytes
trace = codes "0af7651916cd43dd8448eb211c80319c"

abbrev span : Bytes
span = codes "b7ad6b7169203331"

trace-IsId : IsId 32 trace
unfolding all_zeros
trace-IsId = record { long = refl; hex = refl; used = refl }

span-IsId : IsId 16 span
unfolding all_zeros
span-IsId = record { long = refl; hex = refl; used = refl }

parse-build_example :
    parse (build trace span) ≡ some (record { trace_id = trace; parent_span_id = span })
parse-build_example = parse-build trace span trace-IsId span-IsId

-- A later version with a tail.
abbrev later : Bytes
later = codes "01-0af7651916cd43dd8448eb211c80319c-b7ad6b7169203331-00-x"

later_parsed : parse later ≡ some (record { trace_id = trace; parent_span_id = span })
unfolding parse well_formed tail_allowed context_of is_lower_hex dash_at bytes_eq all_zeros
later_parsed = refl

parse_sound_example :
    IsId 32 trace
    × IsId 16 span
    × (parse (build trace span) ≡ some (record { trace_id = trace; parent_span_id = span }))
parse_sound_example = parse_sound later later_parsed

two_draws : random_non_zero_hex ((0 ∷ 256 ∷ []) ∷ (7 ∷ 171 ∷ []) ∷ []) ≡ some (codes "07ab")
unfolding random_non_zero_hex random_hex all_zeros
two_draws = refl

generated-IsId_example : IsId 4 (codes "07ab")
generated-IsId_example =
    generated-IsId 2 ((0 ∷ 256 ∷ []) ∷ (7 ∷ 171 ∷ []) ∷ []) (refl, (refl, tt)) two_draws
