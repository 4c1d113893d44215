-- ===== src/StrictPrivacy/Paths/Tests.antt =====
-- Paths, addresses and names.
use forge_ops_tracker_cpp.Prelude.{false, any, ◌≡◌, refl, codes, bytes_eq}
use forge_ops_tracker_cpp.Scan.{run_length}
use forge_ops_tracker_cpp.TraceParent.{until}
use forge_ops_tracker_cpp.StrictPrivacy.Paths.{
  strict_path, span_name, host_of, is_route_parameter, segments_of, filled, raw_path, is_id,
  character_count, without_query, starts_with_ignoring_case, target_behind, strict_target,
}
use forge_ops_tracker_cpp.StrictPrivacy.Paths.Private.{Plain, strict_path-Plain}

no_template :
    any is_route_parameter (segments_of (without_query (codes "/patients/42/notes?q=1"))) ≡ false
unfolding is_route_parameter segments_of until
no_template = refl

raw : strict_path (codes "/patients/42/notes?q=1") ≡ codes "/patients/:path"
unfolding strict_path is_route_parameter segments_of filled raw_path is_id until character_count
raw = refl

template : strict_path (codes "/patients/:id/notes") ≡ codes "/patients/:id/notes"
unfolding strict_path is_route_parameter segments_of filled raw_path is_id until
template = refl

outbound :
    span_name (codes "get https://me:pw@API.example.com:8443/v1?k=2 x")
    ≡ codes "GET API.example.com"
unfolding span_name target_behind strict_target starts_with_ignoring_case host_of until run_length
    bytes_eq
outbound = refl

strict_path-Plain_example : Plain 47 (strict_path (codes "/patients/42/notes?q=1"))
strict_path-Plain_example = strict_path-Plain (codes "/patients/42/notes?q=1") no_template
