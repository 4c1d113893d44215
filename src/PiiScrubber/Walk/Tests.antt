-- ===== src/PiiScrubber/Walk/Tests.antt =====
-- A JSON value scrubbed.
use forge_ops_tracker_cpp.Prelude.{◌≡◌, refl, none, some, codes, bytes_eq, arith}
use forge_ops_tracker_cpp.Json.Example.{
  Value, text, number, items, item, no_items, fields, field, end, nothing, values, values_lawful,
  depth_in,
}
use forge_ops_tracker_cpp.PiiScrubber.{is_sensitive_key}
use forge_ops_tracker_cpp.PiiScrubber.Walk.{scrub, each_member}
use forge_ops_tracker_cpp.PiiScrubber.Walk.Clean.{Clean, scrub-Clean}

abbrev payload : Value
payload = fields (
    field (codes "tokens") (items (item (text (codes "a")) (item nothing no_items)))
      (field (codes "password") nothing (field (codes "n") (number (codes "4")) end)))

scrubbed_payload :
    scrub values (λ t. t) 3 none payload
    ≡ some (
        fields (
          field (codes "n") (number (codes "4")) (
            field
              (codes "password")
              nothing
              (field (codes "tokens") (text (codes "[FILTERED]")) end))))
unfolding scrub each_member is_sensitive_key bytes_eq
scrubbed_payload = refl

payload-depth : depth_in payload ≡ 2
unfolding depth_in
payload-depth = refl

scrub-Clean_example :
    (r : Value) × (scrub values (λ t. t) 3 none payload ≡ some r) × Clean values (λ t. t) none r
scrub-Clean_example =
    scrub-Clean values values_lawful (λ t. t) 3 none payload (omega (arith, payload-depth))
