-- ===== src/Configuration/Hosts.antt =====
-- src/configuration.cpp: which hosts a domain covers.
use forge_ops_tracker_cpp.Prelude.{
  ℕ, zero, suc, ◌+◌, ◌-◌, ◌≡◌, ◌≢◌, ◌↔◌, ◌⊎◌, inl, inr, refl, sym, ap, subst, ◌∙◌, true, [], ◌∷◌,
  ◌++◌, Bytes, bytes_eq, bytes_eq_iff, bytes_eq_refl, length, take, drop, length-append,
  take-append-drop, drop-length-append, arith, ltb, ◌==◌, Bool-cases,
}
use forge_ops_tracker_cpp.Scan.{first_is}
use forge_ops_tracker_cpp.Configuration.{is_within}

drop_step :
    (n : ℕ) (s : Bytes)
    → first_is (λ c. c == b'.') (drop n s) ≡ true
    → drop n s ≡ b'.' ∷ drop (n + 1) s
drop_step zero [] h = cc
drop_step zero (c ∷ s) h = ground arith
drop_step (suc n) [] h = cc
drop_step (suc n) (c ∷ s) h = drop_step n s h ∙ ap (λ k. b'.' ∷ drop k (c ∷ s)) more
  where
    more : suc (n + 1) ≡ suc n + 1
    more = omega arith

is_within-covers :
    (host name : Bytes)
    → is_within host name ≡ true
    → (host ≡ name) ⊎ ((x : Bytes) × (host ≡ x ++ b'.' ∷ name))
unfolding is_within
is_within-covers host name h = elim (Bool-cases (bytes_eq host name)) [
  | inl same ↦ inl ((bytes_eq_iff host name).0 same)
  | inr other ↦ inr (
    take before host,
    sym (take-append-drop before host)
        ∙ ap (◌++◌ (take before host)) (
            drop_step before host (ground arith)
            ∙ ap (◌∷◌ b'.') (ap (λ k. drop k host) (next (ground arith)) ∙ rest (ground arith))),
  )
]
  where
    before : ℕ
    before = length host - length name - 1

    next : ltb 0 (length host - length name) ≡ true → before + 1 ≡ length host - length name
    next h = ground arith

    rest :
        bytes_eq (drop (length host - length name) host) name ≡ true
        → drop (length host - length name) host ≡ name
    rest h = (bytes_eq_iff (drop (length host - length name) host) name).0 h

drop_behind : (x name : Bytes) (c : ℕ) → drop (length x + 1) (x ++ c ∷ name) ≡ name
drop_behind [] name c = refl
drop_behind (d ∷ x) name c = ap (λ k. drop k (d ∷ (x ++ c ∷ name))) more ∙ drop_behind x name c
  where
    more : suc (length x) + 1 ≡ suc (length x + 1)
    more = omega arith

length-some : (name : Bytes) → name ≢ [] → ltb 0 (length name) ≡ true
length-some [] h = absurd (h refl)
length-some (c ∷ name) h = ground arith

is_within-same : (name : Bytes) → name ≢ [] → is_within name name ≡ true
unfolding is_within
is_within-same name h = ground (arith, length-some name h, bytes_eq_refl name)

is_within-below : (x name : Bytes) → name ≢ [] → is_within (x ++ b'.' ∷ name) name ≡ true
unfolding is_within
is_within-below x name h =
    let whole : length (x ++ b'.' ∷ name) ≡ length x + 1 + length name =
      omega (arith, length-append x (b'.' ∷ name)) in
    let at : length (x ++ b'.' ∷ name) - length name ≡ length x + 1 = omega (arith, whole) in
    let before : length (x ++ b'.' ∷ name) - length name - 1 ≡ length x = omega (arith, whole) in
    let dot : first_is (λ c. c == b'.')
          (drop (length (x ++ b'.' ∷ name) - length name - 1) (x ++ b'.' ∷ name))
        ≡ true =
      ap (λ k. first_is (λ c. c == b'.') (drop k (x ++ b'.' ∷ name))) before
      ∙ ap (first_is (λ c. c == b'.')) (drop-length-append x (b'.' ∷ name)) in
    let rest : bytes_eq (drop (length (x ++ b'.' ∷ name) - length name) (x ++ b'.' ∷ name)) name
        ≡ true =
      ap (λ k. bytes_eq (drop k (x ++ b'.' ∷ name)) name) at
      ∙ ap (λ s. bytes_eq s name) (drop_behind x name b'.')
      ∙ bytes_eq_refl name in
    ground (arith, length-some name h, dot, rest, whole)

-- A host matches a domain that is not empty exactly if it is the domain or one of its subdomains: a
-- name that merely ends in the same letters does not.
pub is_within_iff :
    (host name : Bytes)
    → name ≢ []
    → (is_within host name ≡ true) ↔ ((host ≡ name) ⊎ ((x : Bytes) × (host ≡ x ++ b'.' ∷ name)))
is_within_iff host name ne = (
  is_within-covers host name,
  elim [
    | inl same ↦ subst (λ h. is_within h name ≡ true) (sym same) (is_within-same name ne)
    | inr (x, below) ↦ subst (λ h. is_within h name ≡ true) (sym below) (is_within-below x name ne)
  ],
)
