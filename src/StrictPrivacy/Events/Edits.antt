-- ===== src/StrictPrivacy/Events/Edits.antt =====
-- Steps that each edit one key of a JSON object, and runs of them.
use forge_ops_tracker_cpp.Prelude.{
  ◌≡◌, ◌≢◌, refl, sym, subst, ◌∙◌, Bool, true, false, not, List, [], ◌∷◌, ◌++◌, all, All, Option,
  Bytes, bytes_eq, bytes_eq_iff, arith,
}
use forge_ops_tracker_cpp.Json.{JsonOps, JsonLaws}

-- Keys told apart by comparison.
pub apart : (a b : Bytes) → bytes_eq a b ≡ false → a ≢ b
apart a b ne e = ground (arith, bytes_eq_iff a b)

module _ (json : JsonOps) where
  -- A step that keeps an object an object, and its other keys as they are.
  pub record Edits (key : Bytes) (f : json.Json → json.Json) : Type 0 where
    pub object : (j : json.Json) → json.is_object j ≡ true → json.is_object (f j) ≡ true
    pub others :
        (k : Bytes) (j : json.Json)
        → json.is_object j ≡ true
        → k ≢ key
        → json.find k (f j) ≡ json.find k j

  abbrev pub Edit : Type 0
  Edit = Bytes × (json.Json → json.Json)

  abbrev pub AreEdits : List Edit → Type 0
  AreEdits = All (λ (e : Edit). Edits e.0 e.1)

  abbrev pub run_edits : List Edit → json.Json → json.Json
  run_edits [] j = j
  run_edits ((key, f) ∷ edits) j = run_edits edits (f j)

  -- No step edits that key.
  abbrev pub leaves : Bytes → List Edit → Bool
  leaves k = all (λ (e : Edit). not (bytes_eq k e.0))

  pub run_edits-object :
      (edits : List Edit) (j : json.Json)
      → AreEdits edits
      → json.is_object j ≡ true
      → json.is_object (run_edits edits j) ≡ true
  run_edits-object [] j h o = o
  run_edits-object ((key, f) ∷ edits) j h o = run_edits-object edits (f j) h.1 (h.0.object j o)

  pub run_edits-others :
      (k : Bytes) (edits : List Edit) (j : json.Json)
      → AreEdits edits
      → json.is_object j ≡ true
      → leaves k edits ≡ true
      → json.find k (run_edits edits j) ≡ json.find k j
  run_edits-others k [] j h o l = refl
  run_edits-others k ((key, f) ∷ edits) j h o l =
      run_edits-others k edits (f j) h.1 (h.0.object j o) (ground arith)
      ∙ h.0.others k j o (apart k key (ground arith))

  -- What a run leaves under a key is what its one step on that key made, on an object.
  pub run_edits-made :
      (P : Option json.Json → Type 0) (before : List Edit) (key : Bytes) (f : json.Json → json.Json)
      (after : List Edit) (j : json.Json)
      → AreEdits (before ++ (key, f) ∷ after)
      → json.is_object j ≡ true
      → leaves key after ≡ true
      → ((mid : json.Json) → json.is_object mid ≡ true → P (json.find key (f mid)))
      → P (json.find key (run_edits (before ++ (key, f) ∷ after) j))
  run_edits-made P [] key f after j h o l made =
      subst P (sym (run_edits-others key after (f j) h.1 (h.0.object j o) l)) (made j o)
  run_edits-made P ((k, g) ∷ before) key f after j h o l made =
      run_edits-made P before key f after (g j) h.1 (h.0.object j o) l made

  -- The same, of a key that the steps before do not edit either.
  pub run_edits-made_first :
      (P : Option json.Json → Type 0) (before : List Edit) (key : Bytes) (f : json.Json → json.Json)
      (after : List Edit) (j : json.Json)
      → AreEdits (before ++ (key, f) ∷ after)
      → json.is_object j ≡ true
      → leaves key before ≡ true
      → leaves key after ≡ true
      → ((mid : json.Json)
          → json.is_object mid ≡ true
          → json.find key mid ≡ json.find key j
          → P (json.find key (f mid)))
      → P (json.find key (run_edits (before ++ (key, f) ∷ after) j))
  run_edits-made_first P [] key f after j h o lb la made =
      subst P (sym (run_edits-others key after (f j) h.1 (h.0.object j o) la)) (made j o refl)
  run_edits-made_first P ((k, g) ∷ before) key f after j h o lb la made =
      run_edits-made_first P before key f after (g j) h.1 (h.0.object j o) (ground arith) la
        (λ mid object same.
          made mid object (same ∙ h.0.others key j o (apart key k (ground arith))))

  pub set-Edits : (laws : JsonLaws json) (key : Bytes) (v : json.Json) → Edits key (json.set key v)
  set-Edits laws key v = record {
    object = λ j o. laws.set-object key v j o;
    others = λ k j o ne. laws.find-set_other k key v j o ne;
  }

  pub erase-Edits : (laws : JsonLaws json) (key : Bytes) → Edits key (json.erase key)
  erase-Edits laws key = record {
    object = λ j o. laws.erase-object key j o;
    others = λ k j o ne. laws.find-erase_other k key j o ne;
  }
