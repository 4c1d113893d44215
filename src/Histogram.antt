-- ===== src/Histogram.antt =====
-- src/histogram_bucketer.cpp and its header: the label of a duration's latency range. Doubles are a
-- parameter: a type with the operations that the program applies to it.
use forge_ops_tracker_cpp.Prelude.{ℕ, Bool, List, [], ◌∷◌, Bytes, codes, to_string, if◌then◌else◌}

pub record DoubleOps : Type 1 where
  pub Double : Type 0
  pub zero_ms : Double
  pub add : Double → Double → Double
  pub sub : Double → Double → Double
  -- a < b, and a <= static_cast<double>(n)
  pub less : Double → Double → Bool
  pub at_most : Double → ℕ → Bool

-- kHistogramBoundariesMs
abbrev pub histogram_boundaries_ms : List ℕ
histogram_boundaries_ms = 50 ∷ 100 ∷ 250 ∷ 500 ∷ 1000 ∷ 2500 ∷ 5000 ∷ 10000 ∷ []

module _ (fp : DoubleOps) where
  pub bucket_among : List ℕ → fp.Double → Bytes
  bucket_among [] duration_ms = codes "inf"
  bucket_among (boundary ∷ rest) duration_ms =
      if fp.at_most duration_ms boundary then to_string boundary else bucket_among rest duration_ms

  unfoldable pub histogram_bucket_for : fp.Double → Bytes
  unfolding bucket_among
  histogram_bucket_for = bucket_among histogram_boundaries_ms
