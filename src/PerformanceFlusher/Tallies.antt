-- ===== src/PerformanceFlusher/Tallies.antt =====
-- What a bucket's count and histogram say after any number of recorded durations.
use forge_ops_tracker_cpp.Prelude.{
  ℕ, ◌+◌, ◌≤◌, ◌<◌, ◌%◌, ◌&&◌, ◌≡◌, List, [], ◌∷◌, none, some, Bytes, bytes_eq, bytes_eq_iff, arith,
  length, if◌then◌else◌,
}
use forge_ops_tracker_cpp.StdMap.{Map, lookup}
use forge_ops_tracker_cpp.StdMap.Laws.{lookup-insert}
use forge_ops_tracker_cpp.Histogram.{DoubleOps, histogram_bucket_for}
use forge_ops_tracker_cpp.PerformanceFlusher.{
  Bucket, ulong_mod, or_default, new_bucket, bump, tally_one, record_in, tally,
}

module _ (fp : DoubleOps) where
  -- A call of record, by the name under which it lands.
  abbrev pub Call : Type 0
  Call = Bytes × fp.Double

  unfoldable pub record_all : List Call → Map (Bucket fp) → Map (Bucket fp)
  record_all [] m = m
  record_all ((name, d) ∷ rest) m = record_all rest (record_in fp name d m)

  -- The calls under a name, and those among them in one latency range.
  pub calls : Bytes → List Call → ℕ
  calls name [] = 0
  calls name ((n, d) ∷ rest) = (if bytes_eq n name then 1 else 0) + calls name rest

  pub calls_in : Bytes → Bytes → List Call → ℕ
  calls_in name label [] = 0
  calls_in name label ((n, d) ∷ rest) =
      (if bytes_eq n name && bytes_eq (histogram_bucket_for fp d) label then 1 else 0)
      + calls_in name label rest

  -- The number that the histogram of a name has at a label, 0 where there is none.
  unfoldable pub hits : Bytes → Bytes → Map (Bucket fp) → ℕ
  hits name label m = elim (lookup name m) [
    | none ↦ 0
    | some b ↦ or_default 0 (lookup label b.histogram)
  ]

  pub calls_in-le-calls :
      (name label : Bytes) (rs : List Call) → calls_in name label rs ≤ calls name rs
  unfolding calls calls_in
  calls_in-le-calls name label [] = omega arith
  calls_in-le-calls name label ((n, d) ∷ rest) = ground (arith, calls_in-le-calls name label rest)

  tally-record_in :
      (name n : Bytes) (d : fp.Double) (m : Map (Bucket fp))
      → tally fp name m + 1 < ulong_mod
      → tally fp name (record_in fp n d m) ≡ (if bytes_eq n name then 1 else 0) + tally fp name m
  unfolding tally record_in tally_one
  tally-record_in name n d m h = ground (
    arith,
    lookup-insert n name (tally_one fp d (or_default (new_bucket fp) (lookup n m))) m,
    bytes_eq_iff n name,
  )

  hits-bump :
      (label l : Bytes) (h : Map ℕ)
      → or_default 0 (lookup label h) + 1 < ulong_mod
      → or_default 0 (lookup label (bump fp l h))
        ≡ (if bytes_eq l label then 1 else 0) + or_default 0 (lookup label h)
  unfolding bump
  hits-bump label l h few = ground (
    arith,
    lookup-insert l label ((or_default 0 (lookup l h) + 1) % ulong_mod) h,
    bytes_eq_iff l label,
  )

  hits-record_in :
      (name label n : Bytes) (d : fp.Double) (m : Map (Bucket fp))
      → hits name label m + 1 < ulong_mod
      → hits name label (record_in fp n d m)
        ≡ (if bytes_eq n name && bytes_eq (histogram_bucket_for fp d) label then 1 else 0)
          + hits name label m
  unfolding hits record_in tally_one lookup
  hits-record_in name label n d m h = ground (
    arith,
    lookup-insert n name (tally_one fp d (or_default (new_bucket fp) (lookup n m))) m,
    bytes_eq_iff n name,
    hits-bump label (histogram_bucket_for fp d) (or_default (new_bucket fp) (lookup n m)).histogram,
  )

  pub tally-record_all :
      (name : Bytes) (rs : List Call) (m : Map (Bucket fp))
      → tally fp name m + length rs < ulong_mod
      → tally fp name (record_all rs m) ≡ calls name rs + tally fp name m
  unfolding record_all calls
  tally-record_all name [] m h = omega arith
  tally-record_all name ((n, d) ∷ rest) m h =
      ground (arith, tally-record_in name n d m, tally-record_all name rest (record_in fp n d m))

  pub hits-record_all :
      (name label : Bytes) (rs : List Call) (m : Map (Bucket fp))
      → hits name label m + length rs < ulong_mod
      → hits name label (record_all rs m) ≡ calls_in name label rs + hits name label m
  unfolding record_all calls_in
  hits-record_all name label [] m h = omega arith
  hits-record_all name label ((n, d) ∷ rest) m h =
      ground (
        arith,
        hits-record_in name label n d m,
        hits-record_all name label rest (record_in fp n d m),
      )
