-- ===== src/PerformanceFlusher/Window.antt =====
-- src/performance_flusher.cpp: a flush takes away what it sent, and nothing that was recorded while
-- it was under way.
use forge_ops_tracker_cpp.Prelude.{
  ℕ, ◌+◌, ◌-◌, ◌≤◌, ◌<◌, ◌≡◌, refl, ap, ◌∙◌, inl, inr, Bool-cases, List, [], ◌∷◌, Option, none,
  some, Bytes, bytes_eq, bytes_eq_iff, arith, length, ◌==◌, if◌then◌else◌,
}
use forge_ops_tracker_cpp.StdMap.{Map, lookup, insert, IsMap}
use forge_ops_tracker_cpp.StdMap.Laws.{lookup-insert, lookup-erase, insert-IsMap}
use forge_ops_tracker_cpp.Histogram.{DoubleOps}
use forge_ops_tracker_cpp.PerformanceFlusher.{
  Bucket, ulong_mod, or_default, new_bucket, bump, tally_one, record_in, tally, subtract_label,
  subtract_histogram, subtract, remove_one, remove_each,
}
use forge_ops_tracker_cpp.PerformanceFlusher.Tallies.{
  Call, record_all, calls, calls_in, hits, calls_in-le-calls, tally-record_all, hits-record_all,
}

module _ (fp : DoubleOps) where
  at : Bytes → Map ℕ → ℕ
  at label h = or_default 0 (lookup label h)

  at-subtract_label :
      (label l : Bytes) (sent : ℕ) (h : Map ℕ)
      → at label (subtract_label fp l sent h) ≡ at label h - (if bytes_eq l label then sent else 0)
  unfolding at subtract_label
  at-subtract_label label l sent h = ground (
    arith,
    lookup-insert l label (or_default 0 (lookup l h) - sent) h,
    lookup-erase l label h,
    bytes_eq_iff l label,
  )

  split_at :
      (label l : Bytes) (sent : ℕ) (rest h : Map ℕ)
      → lookup l rest ≡ none
      → at label h - (if bytes_eq l label then sent else 0) - at label rest
        ≡ at label h - at label ((l, sent) ∷ rest)
  unfolding at lookup
  split_at label l sent rest h e = ground (arith, bytes_eq_iff l label)

  at-subtract_histogram :
      (label : Bytes) (s h : Map ℕ)
      → IsMap s
      → at label (subtract_histogram fp s h) ≡ at label h - at label s
  unfolding subtract_histogram
  at-subtract_histogram label [] h d = unfold at lookup in omega arith
  at-subtract_histogram label ((l, sent) ∷ rest) h d =
      rw (at-subtract_histogram label rest (subtract_label fp l sent h) d.1)
        (rw (at-subtract_label label l sent h) (split_at label l sent rest h d.0))

  -- What one round of the loop leaves under a name.
  left : Option (Bucket fp) → Option (Bucket fp) → Option (Bucket fp)
  left none current = current
  left (some sent) none = none
  left (some sent) (some current) =
      if (subtract fp sent current).count == 0 then none else some (subtract fp sent current)

  lookup-remove_one :
      (name n : Bytes) (sent : Bucket fp) (o : Option (Bucket fp)) (m : Map (Bucket fp))
      → lookup n m ≡ o
      → lookup name (remove_one fp n sent o m)
        ≡ (if bytes_eq n name then left (some sent) (lookup name m) else lookup name m)
  unfolding remove_one left
  lookup-remove_one name n sent none m e = ground (arith, bytes_eq_iff n name)
  lookup-remove_one name n sent (some current) m e = ground (
    arith,
    bytes_eq_iff n name,
    lookup-insert n name (subtract fp sent current) m,
    lookup-erase n name m,
  )

  left_once :
      (name n : Bytes) (sent : Bucket fp) (rest m : Map (Bucket fp))
      → lookup n rest ≡ none
      → left
          (lookup name rest)
          (if bytes_eq n name then left (some sent) (lookup name m) else lookup name m)
        ≡ left (lookup name ((n, sent) ∷ rest)) (lookup name m)
  unfolding lookup left
  left_once name n sent rest m h = ground (arith, bytes_eq_iff n name)

  lookup-remove_each :
      (name : Bytes) (s m : Map (Bucket fp))
      → IsMap s
      → lookup name (remove_each fp s m) ≡ left (lookup name s) (lookup name m)
  unfolding remove_each lookup
  lookup-remove_each name [] m d = unfold left in refl
  lookup-remove_each name ((n, sent) ∷ rest) m d =
      rw (lookup-remove_each name rest (remove_one fp n sent (lookup n m) m) d.1)
        (rw (lookup-remove_one name n sent (lookup n m) m refl) (left_once name n sent rest m d.0))

  -- The buckets of a map as one may meet them: no key twice, in no histogram either.
  pub record IsTallied (m : Map (Bucket fp)) : Type 0 where
    pub names : IsMap m
    pub labels : (name : Bytes) → IsMap (or_default (new_bucket fp) (lookup name m)).histogram

  tally_left : Option (Bucket fp) → ℕ
  tally_left o = elim o [ none ↦ 0 | some b ↦ b.count ]

  hits_left : Bytes → Option (Bucket fp) → ℕ
  hits_left label o = elim o [ none ↦ 0 | some b ↦ or_default 0 (lookup label b.histogram) ]

  tally-left : (s c : Option (Bucket fp)) → tally_left (left s c) ≡ tally_left c - tally_left s
  unfolding left tally_left subtract
  tally-left none c = omega arith
  tally-left (some s) none = omega arith
  tally-left (some s) (some c) = ground arith

  hits-left :
      (label : Bytes) (s c : Option (Bucket fp))
      → IsMap (or_default (new_bucket fp) s).histogram
      → hits_left label c - hits_left label s ≤ tally_left c - tally_left s
      → hits_left label (left s c) ≡ hits_left label c - hits_left label s
  unfolding left hits_left tally_left subtract
  hits-left label none c d h = omega arith
  hits-left label (some s) none d h = omega arith
  hits-left label (some s) (some c) d h = elim (Bool-cases ((subtract fp s c).count == 0)) [
    | inl gone ↦ rw gone (ground arith)
    | inr rest ↦ rw rest (unfold at in at-subtract_histogram label s.histogram c.histogram d)
  ]

  tally-remove_each :
      (name : Bytes) (s m : Map (Bucket fp))
      → IsMap s
      → tally fp name (remove_each fp s m) ≡ tally fp name m - tally fp name s
  unfolding tally tally_left
  tally-remove_each name s m d =
      ap tally_left (lookup-remove_each name s m d) ∙ tally-left (lookup name s) (lookup name m)

  hits-remove_each :
      (name label : Bytes) (s m : Map (Bucket fp))
      → IsTallied s
      → hits fp name label m - hits fp name label s ≤ tally fp name m - tally fp name s
      → hits fp name label (remove_each fp s m) ≡ hits fp name label m - hits fp name label s
  unfolding hits tally tally_left hits_left
  hits-remove_each name label s m v h =
      ap (hits_left label) (lookup-remove_each name s m v.names)
      ∙ hits-left label (lookup name s) (lookup name m) (v.labels name) h

module _ (fp : DoubleOps) where
  histogram_of : Option (Bucket fp) → Map ℕ
  histogram_of o = (or_default (new_bucket fp) o).histogram

  labels-insert :
      (n name : Bytes) (b : Bucket fp) (m : Map (Bucket fp))
      → IsMap b.histogram
      → IsMap (histogram_of (lookup name m))
      → IsMap (histogram_of (lookup name (insert n b m)))
  unfolding histogram_of
  labels-insert n name b m d h =
      rw (lookup-insert n name b m)
        (elim (Bool-cases (bytes_eq n name)) [ inl same ↦ rw same d | inr other ↦ rw other h ])

  IsTallied-empty : IsTallied fp []
  unfolding lookup
  IsTallied-empty = record { names = tt; labels = λ _. tt }

  record_in-IsTallied :
      (n : Bytes) (d : fp.Double) (m : Map (Bucket fp))
      → IsTallied fp m
      → IsTallied fp (record_in fp n d m)
  unfolding record_in tally_one bump histogram_of
  record_in-IsTallied n d m v = record {
    names = insert-IsMap n _ m v.names;
    labels = λ name. labels-insert n name _ m (insert-IsMap _ _ _ (v.labels n)) (v.labels name);
  }

  pub record_all-IsTallied :
      (rs : List (Call fp)) (m : Map (Bucket fp))
      → IsTallied fp m
      → IsTallied fp (record_all fp rs m)
  unfolding record_all
  record_all-IsTallied [] m v = v
  record_all-IsTallied ((n, d) ∷ rest) m v =
      record_all-IsTallied rest (record_in fp n d m) (record_in-IsTallied n d m v)

  -- So are buckets filled from none.
  pub recorded-IsTallied : (rs : List (Call fp)) → IsTallied fp (record_all fp rs [])
  recorded-IsTallied rs = record_all-IsTallied rs [] IsTallied-empty

-- The buckets `m` taken from what they became while the calls `rs` were recorded: just those calls.
pub buckets_left :
    (fp : DoubleOps) (m : Map (Bucket fp)) (rs : List (Call fp)) (name label : Bytes)
    → IsTallied fp m
    → tally fp name m + length rs < ulong_mod
    → hits fp name label m + length rs < ulong_mod
    → (tally fp name (remove_each fp m (record_all fp rs m)) ≡ calls fp name rs)
      × (hits fp name label (remove_each fp m (record_all fp rs m)) ≡ calls_in fp name label rs)
buckets_left fp m rs name label v few few' =
    let t = tally-record_all fp name rs m few in
    let h = hits-record_all fp name label rs m few' in
    let below = calls_in-le-calls fp name label rs in
    let back = tally-remove_each fp name m (record_all fp rs m) v.names in
    (
      omega arith,
      omega (arith, hits-remove_each fp name label m (record_all fp rs m) v (omega arith)),
    )
