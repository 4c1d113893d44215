-- ===== src/SqlStatement/Objects/Bounded.antt =====
-- src/sql_statement.cpp: what extract_objects may send.
use forge_ops_tracker_cpp.Prelude.{
  ◌≤◌, ◌≡◌, ◌⊎◌, inl, inr, refl, true, List, [], ◌∷◌, some, Bytes, length, all, arith, Bool-cases,
  subst, sym, if◌then◌else◌, ◌+◌, ◌<◌,
}
use forge_ops_tracker_cpp.Scan.{is_space}
use forge_ops_tracker_cpp.SqlStatement.Names.{Token, clean, tokenize}
use forge_ops_tracker_cpp.SqlStatement.Names.Cleaned.{AreClean, clean-AreClean}
use forge_ops_tracker_cpp.SqlStatement.Objects.{
  Objects, objects_of, objects_in, extract_objects, operation_of, is_among, k_operations,
  without_calls,
}

-- What goes out for a statement.
pub record AreBounded (o : Objects) : Type 0 where
  pub procedures_clean : AreClean o.procedures
  pub procedures_few : length o.procedures ≤ 10
  pub relations_clean : AreClean o.relations
  pub relations_few : length o.relations ≤ 10
  pub operation_known : (o.operation ≡ []) ⊎ (is_among k_operations o.operation ≡ true)
  pub something : 0 < length o.operation + length o.procedures + length o.relations

operation_of-known :
    (tokens : List Token)
    → (operation_of tokens ≡ []) ⊎ (is_among k_operations (operation_of tokens) ≡ true)
unfolding operation_of
operation_of-known [] = inl refl
operation_of-known (t ∷ ts) = chosen _
  where
    chosen :
        (candidate : Bytes)
        → ((if is_among k_operations candidate then candidate else []) ≡ [])
          ⊎ (is_among k_operations (if is_among k_operations candidate then candidate else [])
              ≡ true)
    chosen candidate = elim (Bool-cases (is_among k_operations candidate)) [
      | inl known ↦ inr (rw known known)
      | inr other ↦ inl (rw other refl)
    ]

objects_of-some :
    (operation : Bytes) (procedures relations : List Bytes) {o : Objects}
    → objects_of operation procedures relations ≡ some o
    → (o ≡ record { operation = operation; procedures = procedures; relations = relations })
      × (0 < length operation + length procedures + length relations)
unfolding objects_of
objects_of-some operation procedures relations h = ground arith

objects_of-AreBounded :
    (operation : Bytes) (procedures relations : List Bytes) {o : Objects}
    → (operation ≡ []) ⊎ (is_among k_operations operation ≡ true)
    → objects_of operation (clean procedures) (clean relations) ≡ some o
    → AreBounded o
objects_of-AreBounded operation procedures relations known h =
    let (same, more) = objects_of-some operation (clean procedures) (clean relations) h in
    subst AreBounded (sym same) (record {
      procedures_clean = (clean-AreClean procedures).0;
      procedures_few = (clean-AreClean procedures).1;
      relations_clean = (clean-AreClean relations).0;
      relations_few = (clean-AreClean relations).1;
      operation_known = known;
      something = more;
    })

objects_in-AreBounded :
    (tokens : List Token) {o : Objects} → objects_in tokens ≡ some o → AreBounded o
unfolding objects_in
objects_in-AreBounded tokens h =
    objects_of-AreBounded (operation_of tokens) _ _ (operation_of-known tokens) h

-- Whatever the statement, what is sent of it is at most ten procedures and ten relations, each a
-- whole name of at most 200 bytes that is listed once, and an operation of the known ones or none;
-- and it is sent only if there is something of these.
pub extract_objects-AreBounded :
    (masked : Bytes) {o : Objects} → extract_objects masked ≡ some o → AreBounded o
unfolding extract_objects
extract_objects-AreBounded masked {o} h = elim (Bool-cases (all is_space masked)) [
  | inl blank ↦ absurd (ground arith)
  | inr other ↦ objects_in-AreBounded (without_calls 0 (tokenize masked)) (ground arith)
]
