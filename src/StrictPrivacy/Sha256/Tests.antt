-- ===== src/StrictPrivacy/Sha256/Tests.antt =====
-- The fingerprint of a short message.
use forge_ops_tracker_cpp.Prelude.{◌%◌, ◌≡◌, true, codes, length, all}
use forge_ops_tracker_cpp.TraceParent.{is_hex_digit}
use forge_ops_tracker_cpp.StrictPrivacy.Messages.{normalize_message}
use forge_ops_tracker_cpp.StrictPrivacy.Sha256.{padded, message_fingerprint}
use forge_ops_tracker_cpp.StrictPrivacy.Sha256.Digest.{fingerprint_form}

fingerprint_form_example :
    (length (message_fingerprint (codes "user 7")) ≡ 32)
    × (all is_hex_digit (message_fingerprint (codes "user 7")) ≡ true)
    × (length (padded (normalize_message (codes "user 7"))) % 64 ≡ 0)
fingerprint_form_example = fingerprint_form (codes "user 7")
