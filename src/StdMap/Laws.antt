-- ===== src/StdMap/Laws.antt =====
-- Looking up in a map after a write or an erasure.
use forge_ops_tracker_cpp.Prelude.{
  ◌≡◌, refl, [], ◌∷◌, Option, none, some, Bytes, bytes_eq, bytes_eq_iff, arith, if◌then◌else◌,
}
use forge_ops_tracker_cpp.StdMap.{Map, lookup, replace, place, insert_on, insert, erase, IsMap}

module _ {V : Type 0} where
  lookup-replace :
      (k j : Bytes) (v w : V) (m : Map V)
      → lookup k m ≡ some w
      → lookup j (replace k v m) ≡ (if bytes_eq k j then some v else lookup j m)
  unfolding lookup replace
  lookup-replace k j v w [] h = cc
  lookup-replace k j v w ((i, u) ∷ m) h =
      ground (arith, bytes_eq_iff i k, bytes_eq_iff k j, bytes_eq_iff i j, lookup-replace k j v w m)

  lookup-place :
      (k j : Bytes) (v : V) (m : Map V)
      → lookup k m ≡ none
      → lookup j (place k v m) ≡ (if bytes_eq k j then some v else lookup j m)
  unfolding lookup place
  lookup-place k j v [] h = refl
  lookup-place k j v ((i, u) ∷ m) h =
      ground (arith, bytes_eq_iff i k, bytes_eq_iff k j, bytes_eq_iff i j, lookup-place k j v m)

  lookup-insert_on :
      (o : Option V) (k j : Bytes) (v : V) (m : Map V)
      → lookup k m ≡ o
      → lookup j (insert_on o k v m) ≡ (if bytes_eq k j then some v else lookup j m)
  unfolding insert_on
  lookup-insert_on none k j v m h = lookup-place k j v m h
  lookup-insert_on (some w) k j v m h = lookup-replace k j v w m h

  pub lookup-insert :
      (k j : Bytes) (v : V) (m : Map V)
      → lookup j (insert k v m) ≡ (if bytes_eq k j then some v else lookup j m)
  unfolding insert
  lookup-insert k j v m = lookup-insert_on (lookup k m) k j v m refl

  pub lookup-erase :
      (k j : Bytes) (m : Map V) → lookup j (erase k m) ≡ (if bytes_eq k j then none else lookup j m)
  unfolding lookup erase
  lookup-erase k j [] = ground arith
  lookup-erase k j ((i, u) ∷ m) =
      ground (arith, bytes_eq_iff i k, bytes_eq_iff k j, bytes_eq_iff i j, lookup-erase k j m)

  replace-IsMap :
      (k : Bytes) (v w : V) (m : Map V) → lookup k m ≡ some w → IsMap m → IsMap (replace k v m)
  unfolding lookup replace
  replace-IsMap k v w [] h d = tt
  replace-IsMap k v w ((i, u) ∷ m) h d =
      ground
        (arith, bytes_eq_iff i k, bytes_eq_iff k i, lookup-replace k i v w m, replace-IsMap k v w m)

  place-IsMap : (k : Bytes) (v : V) (m : Map V) → lookup k m ≡ none → IsMap m → IsMap (place k v m)
  unfolding lookup place
  place-IsMap k v [] h d = (refl, tt)
  place-IsMap k v ((i, u) ∷ m) h d =
      ground (arith, bytes_eq_iff i k, bytes_eq_iff k i, lookup-place k i v m, place-IsMap k v m)

  insert_on-IsMap :
      (o : Option V) (k : Bytes) (v : V) (m : Map V)
      → lookup k m ≡ o
      → IsMap m
      → IsMap (insert_on o k v m)
  unfolding insert_on
  insert_on-IsMap none k v m h d = place-IsMap k v m h d
  insert_on-IsMap (some w) k v m h d = replace-IsMap k v w m h d

  pub insert-IsMap : (k : Bytes) (v : V) (m : Map V) → IsMap m → IsMap (insert k v m)
  unfolding insert
  insert-IsMap k v m d = insert_on-IsMap (lookup k m) k v m refl d

  pub erase-IsMap : (k : Bytes) (m : Map V) → IsMap m → IsMap (erase k m)
  unfolding lookup erase
  erase-IsMap k [] d = tt
  erase-IsMap k ((i, u) ∷ m) d =
      ground (arith, bytes_eq_iff k i, bytes_eq_iff i k, lookup-erase k i m, erase-IsMap k m)
