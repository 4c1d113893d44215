-- ===== src/PiiScrubber/Ibans/Tests.antt =====
-- IBANs, and the theorems at some of them.
use forge_ops_tracker_cpp.Prelude.{◌≡◌, refl, none, some, codes}
use forge_ops_tracker_cpp.PiiScrubber.Ibans.{iban_candidate_end, scrub_ibans}
use forge_ops_tracker_cpp.PiiScrubber.Ibans.Bounds.{EndsIn, candidate-EndsIn}

candidate : iban_candidate_end none (codes "DE89 3704 0044 0532 0130 00 paid") ≡ some 27
unfolding iban_candidate_end
candidate = refl

scrubbed :
    scrub_ibans (codes "to DE89 3704 0044 0532 0130 00, DE89370400440532013001")
    ≡ codes "to [IBAN FILTERED], DE89370400440532013001"
unfolding scrub_ibans
scrubbed = refl

candidate-EndsIn_example : EndsIn (codes "DE89 3704 0044 0532 0130 00 paid") 27
candidate-EndsIn_example =
    candidate-EndsIn none (codes "DE89 3704 0044 0532 0130 00 paid") candidate
