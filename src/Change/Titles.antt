-- ===== src/Change/Titles.antt =====
-- src/change.cpp: what a recorded change may hold.
use forge_ops_tracker_cpp.Prelude.{
  ℕ, zero, suc, ◌≤◌, ◌≡◌, ◌≢◌, refl, ap, ◌∙◌, Bool, true, false, [], ◌∷◌, ◌++◌, any, Option, none,
  some, Bytes, bytes_eq, arith, if◌then◌else◌, Bool-cases, inl, inr,
}
use forge_ops_tracker_cpp.Scan.{trim, first_is, is_continuation}
use forge_ops_tracker_cpp.StrictPrivacy.Paths.{character_count}
use forge_ops_tracker_cpp.Change.{
  Change, ChangeOptions, change_kinds, max_change_title_chars, normalize_kind, utf8_prefix, made_of,
  build_change,
}

-- A text is cut into a front of at most `n` characters and a rest.
pub record CutAt (n : ℕ) (text front rest : Bytes) : Type 0 where
  pub whole : front ++ rest ≡ text
  pub short : character_count front ≤ n
  pub between : first_is is_continuation rest ≡ false
  -- only a full front leaves a rest
  pub full : rest ≢ [] → character_count front ≡ n

CutAt-inside :
    (n : ℕ) (c : ℕ) (text front rest : Bytes)
    → is_continuation c ≡ true
    → CutAt n text front rest
    → CutAt n (c ∷ text) (c ∷ front) rest
unfolding character_count
CutAt-inside n c text front rest h v = record {
  whole = ap (◌∷◌ c) v.whole;
  short = ground (arith, v.short);
  between = v.between;
  full = λ ne. ground (arith, v.full ne);
}

CutAt-start :
    (n : ℕ) (c : ℕ) (text front rest : Bytes)
    → is_continuation c ≡ false
    → CutAt n text front rest
    → CutAt (suc n) (c ∷ text) (c ∷ front) rest
unfolding character_count
CutAt-start n c text front rest h v = record {
  whole = ap (◌∷◌ c) v.whole;
  short = ground (arith, v.short);
  between = v.between;
  full = λ ne. ground (arith, v.full ne);
}

utf8_prefix-cuts : (n : ℕ) (text : Bytes) → (rest : Bytes) × CutAt n text (utf8_prefix n text) rest
unfolding utf8_prefix character_count
utf8_prefix-cuts n [] = (
  [],
  record { whole = refl; short = omega arith; between = refl; full = λ ne. absurd (ne refl) },
)
utf8_prefix-cuts zero (c ∷ text) = elim (Bool-cases (is_continuation c)) [
  | inl inside ↦
      let (rest, v) = utf8_prefix-cuts zero text in
      (
        rest,
        rw (inside, utf8_prefix) (CutAt-inside zero c text (utf8_prefix zero text) rest inside v),
      )
  | inr start ↦ (
    c ∷ text,
    rw (start, utf8_prefix)
        (record { whole = refl; short = omega arith; between = start; full = λ ne. refl }),
  )
]
utf8_prefix-cuts (suc n) (c ∷ text) = elim (Bool-cases (is_continuation c)) [
  | inl inside ↦
      let (rest, v) = utf8_prefix-cuts (suc n) text in
      (
        rest,
        rw (inside, utf8_prefix)
            (CutAt-inside (suc n) c text (utf8_prefix (suc n) text) rest inside v),
      )
  | inr start ↦
      let (rest, v) = utf8_prefix-cuts n text in
      (rest, rw (start, utf8_prefix) (CutAt-start n c text (utf8_prefix n text) rest start v))
]

normalize_kind-known : (kind : Bytes) → any (bytes_eq (normalize_kind kind)) change_kinds ≡ true
unfolding normalize_kind
normalize_kind-known kind = elim (Bool-cases (any (bytes_eq kind) change_kinds)) [
  | inl known ↦ rw known known
  | inr other ↦ rw other (unfold bytes_eq in refl)
]

made_of-fields :
    {J : Type 0} (environment now kind title : Bytes) (details : Option J) (options : ChangeOptions)
    {change : Change J}
    → made_of environment now kind title details options ≡ some change
    → (change.kind ≡ normalize_kind kind)
      × (change.title ≡ utf8_prefix max_change_title_chars title)
unfolding made_of
made_of-fields environment now kind [] details options h = absurd (ground arith)
made_of-fields environment now kind (c ∷ title) details options h = ground arith

-- A change that is built has one of the kinds that the server takes, and its title is the trimmed
-- title, cut behind 200 characters if it has more, never inside a character.
pub build_change_sound :
    {J : Type 0} (has_fields : J → Bool) (environment now kind title : Bytes) (details : J)
    (options : ChangeOptions) {change : Change J}
    → build_change has_fields environment now kind title details options ≡ some change
    → (any (bytes_eq change.kind) change_kinds ≡ true)
      × ((rest : Bytes) × CutAt 200 (trim title) change.title rest)
unfolding build_change
build_change_sound has_fields environment now kind title details options {change} h =
    let (kinds, titles) =
      made_of-fields environment now kind (trim title)
        (if has_fields details then some details else none) options h in
    (
      ap (λ k. any (bytes_eq k) change_kinds) kinds ∙ normalize_kind-known kind,
      rw titles (utf8_prefix-cuts 200 (trim title)),
    )
