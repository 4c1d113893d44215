-- ===== src/PiiScrubber/Tests.antt =====
-- Texts and keys, and the theorems at some of them.
use forge_ops_tracker_cpp.Prelude.{◌≡◌, refl, true, some, codes, bytes_eq}
use forge_ops_tracker_cpp.PiiScrubber.{is_sensitive_key}

a_key : is_sensitive_key (some (codes "X-Api_Key")) ≡ true
unfolding is_sensitive_key bytes_eq
a_key = refl
