-- ===== src/PiiScrubber/Walk/Clean.antt =====
-- src/pii_scrubber.cpp: scrub ends, and what it gives is clean at every depth.
use forge_ops_tracker_cpp.Prelude.{
  ℕ, zero, suc, ◌<◌, ◌≡◌, ◌≢◌, ◌⊎◌, inl, inr, refl, sym, ap, subst, ◌∙◌, true, false, not, ◌&&◌,
  List, [], ◌∷◌, Option, none, some, Bytes, bytes_eq, bytes_eq_iff, All, All-append, All-mono,
  arith, Bool-cases, Option-cases,
}
use forge_ops_tracker_cpp.Json.{JsonOps, JsonLaws}
use forge_ops_tracker_cpp.PiiScrubber.{is_sensitive_key, scrub_string}
use forge_ops_tracker_cpp.PiiScrubber.Walk.{k_redacted, each_member, each_element, scrub}

module _ (json : JsonOps) (replace_patterns : Bytes → Bytes) where
  -- What holds of a value under a key, if `Below` holds of what is in it. The elements of an array
  -- stand under the array's own key.
  pub record CleanOver (Below : Option Bytes → json.Json → Type 0) (key : Option Bytes)
      (j : json.Json) : Type 0 where
    pub hidden :
        is_sensitive_key key ≡ true → (json.is_null j ≡ true) ⊎ (json.text_of j ≡ some k_redacted)
    pub scrubbed :
        (text : Bytes)
        → json.text_of j ≡ some text
        → (text ≡ k_redacted) ⊎ ((was : Bytes) × (text ≡ scrub_string replace_patterns was))
    pub each_field :
        (k : Bytes) (v : json.Json)
        → json.is_object j ≡ true
        → json.find k j ≡ some v
        → Below (some k) v
    pub each_item : json.is_array j ≡ true → All (Below key) (json.elements j)

  -- Clean down to a depth.
  abbrev pub CleanTo : ℕ → Option Bytes → json.Json → Type 0
  CleanTo zero key j = Unit
  CleanTo (suc n) key j = CleanOver (CleanTo n) key j

  abbrev pub Clean : Option Bytes → json.Json → Type 0
  Clean key j = (n : ℕ) → CleanTo n key j

  abbrev Gives : Option Bytes → Option json.Json → Type 0
  Gives key r = (j : json.Json) × (r ≡ some j) × Clean key j

module _ (json : JsonOps) (laws : JsonLaws json) (replace_patterns : Bytes → Bytes) where
  abbrev CleanFields : json.Json → Type 0
  CleanFields out =
      (k : Bytes) (v : json.Json)
      → json.find k out ≡ some v
      → Clean json replace_patterns (some k) v

  set-CleanFields :
      (key : Bytes) (v out : json.Json)
      → json.is_object out ≡ true
      → CleanFields out
      → Clean json replace_patterns (some key) v
      → CleanFields (json.set key v out)
  set-CleanFields key v out o fields clean k w h = elim (Bool-cases (bytes_eq k key)) [
    | inl same ↦
        let e : k ≡ key = (bytes_eq_iff k key).0 same in
        let found : json.find k (json.set key v out) ≡ some v =
          ap (λ x. json.find x (json.set key v out)) e ∙ laws.find-set key v out o in
        subst (λ x. Clean json replace_patterns x w) (ap some (sym e))
          (subst (Clean json replace_patterns (some key)) (cc) clean)
    | inr other ↦
        fields k w (sym (laws.find-set_other k key v out o (λ e. apart k key other e)) ∙ h)
  ]
    where
      apart : (a b : Bytes) → bytes_eq a b ≡ false → a ≢ b
      apart a b ne e = ground (arith, bytes_eq_iff a b)

  each_member-fields :
      (f : Bytes → json.Json → Option json.Json) (ms : List (Bytes × json.Json)) (out : json.Json)
      → All (λ (m : Bytes × json.Json). Gives json replace_patterns (some m.0) (f m.0 m.1)) ms
      → json.is_object out ≡ true
      → CleanFields out
      → (r : json.Json) × (each_member json f ms out ≡ some r)
        × (json.is_object r ≡ true)
        × CleanFields r
  unfolding each_member
  each_member-fields f [] out done o fields = (out, refl, o, fields)
  each_member-fields f ((key, value) ∷ ms) out done o fields =
      let (v, e, clean) = done.0 in
      let (r, same, object, all_clean) =
        each_member-fields f ms (json.set key v out) done.1 (laws.set-object key v out o)
          (set-CleanFields key v out o fields clean) in
      (r, rw e same, object, all_clean)

  each_element-items :
      (key : Option Bytes) (f : json.Json → Option json.Json) (xs : List json.Json)
      (out : json.Json)
      → All (λ (x : json.Json). Gives json replace_patterns key (f x)) xs
      → json.is_array out ≡ true
      → ((n : ℕ) → All (CleanTo json replace_patterns n key) (json.elements out))
      → (r : json.Json) × (each_element json f xs out ≡ some r)
        × (json.is_array r ≡ true)
        × ((n : ℕ) → All (CleanTo json replace_patterns n key) (json.elements r))
  unfolding each_element
  each_element-items key f [] out done a items = (out, refl, a, items)
  each_element-items key f (x ∷ xs) out done a items =
      let (v, e, clean) = done.0 in
      let (array, longer) = laws.push-elements v out a in
      let (r, same, array', all_clean) =
        each_element-items key f xs (json.push v out) done.1 array (λ n.
          subst (All (CleanTo json replace_patterns n key)) (sym longer) (
            All-append (CleanTo json replace_patterns n key) (json.elements out) (v ∷ []) (items n)
              (clean n, tt))) in
      (r, rw e same, array', all_clean)

  -- Each way out of scrub, and what it gives.
  redacted-Gives :
      (key : Option Bytes) → Gives json replace_patterns key (some (json.of_text k_redacted))
  redacted-Gives key = (json.of_text k_redacted, refl, clean)
    where
      clean : Clean json replace_patterns key (json.of_text k_redacted)
      clean zero = tt
      clean (suc n) = record {
        hidden = λ h. inr (laws.text_of-of_text k_redacted);
        scrubbed = λ text e. inl (ground (arith, laws.text_of-of_text k_redacted));
        each_field = λ k v o e. absurd (ground (arith, laws.text-kind k_redacted));
        each_item = λ a. absurd (ground (arith, laws.text-kind k_redacted));
      }

  text-Gives :
      (key : Option Bytes) (was : Bytes)
      → is_sensitive_key key ≡ false
      → Gives json replace_patterns key (some (json.of_text (scrub_string replace_patterns was)))
  text-Gives key was plain = (json.of_text (scrub_string replace_patterns was), refl, clean)
    where
      clean : Clean json replace_patterns key (json.of_text (scrub_string replace_patterns was))
      clean zero = tt
      clean (suc n) = record {
        hidden = λ h. absurd (ground arith);
        scrubbed = λ text e.
            inr (was, ground (arith, laws.text_of-of_text (scrub_string replace_patterns was)));
        each_field =
            λ k v o e. absurd (ground (arith, laws.text-kind (scrub_string replace_patterns was)));
        each_item =
            λ a. absurd (ground (arith, laws.text-kind (scrub_string replace_patterns was)));
      }

  scalar-Gives :
      (key : Option Bytes) (j : json.Json)
      → (is_sensitive_key key ≡ true → json.is_null j ≡ true)
      → json.is_object j ≡ false
      → json.is_array j ≡ false
      → json.text_of j ≡ none
      → Gives json replace_patterns key (some j)
  scalar-Gives key j null object array text = (j, refl, clean)
    where
      clean : Clean json replace_patterns key j
      clean zero = tt
      clean (suc n) = record {
        hidden = λ h. inl (null h);
        scrubbed = λ t e. absurd (ground arith);
        each_field = λ k v o e. absurd (ground arith);
        each_item = λ a. absurd (ground arith);
      }

  object-Gives :
      (key : Option Bytes) (f : Bytes → json.Json → Option json.Json)
      (ms : List (Bytes × json.Json))
      → is_sensitive_key key ≡ false
      → All (λ (m : Bytes × json.Json). Gives json replace_patterns (some m.0) (f m.0 m.1)) ms
      → Gives json replace_patterns key (each_member json f ms json.empty_object)
  object-Gives key f ms plain done =
      let (r, same, object, fields) =
        each_member-fields f ms json.empty_object done laws.empty-object
          (λ k v e. absurd (ground (arith, laws.find-empty k))) in
      (r, same, clean r object fields)
    where
      clean :
          (r : json.Json)
          → json.is_object r ≡ true
          → CleanFields r
          → Clean json replace_patterns key r
      clean r object fields zero = tt
      clean r object fields (suc n) = record {
        hidden = λ h. absurd (ground arith);
        scrubbed = λ t e. absurd (ground (arith, laws.object-kind r object));
        each_field = λ k v o e. fields k v e n;
        each_item = λ a. absurd (ground (arith, laws.object-kind r object));
      }

  array-Gives :
      (key : Option Bytes) (f : json.Json → Option json.Json) (xs : List json.Json)
      → is_sensitive_key key ≡ false
      → All (λ (x : json.Json). Gives json replace_patterns key (f x)) xs
      → Gives json replace_patterns key (each_element json f xs json.empty_array)
  array-Gives key f xs plain done =
      let (r, same, array, items) =
        each_element-items key f xs json.empty_array done laws.empty-array.0
          (λ n. subst (All (CleanTo json replace_patterns n key)) (sym laws.empty-array.1) tt) in
      (r, same, clean r array items)
    where
      clean :
          (r : json.Json)
          → json.is_array r ≡ true
          → ((n : ℕ) → All (CleanTo json replace_patterns n key) (json.elements r))
          → Clean json replace_patterns key r
      clean r array items zero = tt
      clean r array items (suc n) = record {
        hidden = λ h. absurd (ground arith);
        scrubbed = λ t e. absurd (ground (arith, laws.array-kind r array));
        each_field = λ k v o e. absurd (ground (arith, laws.array-kind r array));
        each_item = λ a. items n;
      }

  -- Where the value is not redacted, a sensitive key has a null under it.
  unredacted :
      (key : Option Bytes) (j : json.Json)
      → (is_sensitive_key key && not (json.is_null j)) ≡ false
      → is_sensitive_key key ≡ true
      → json.is_null j ≡ true
  unredacted key j h s = ground arith

  plain_key :
      (key : Option Bytes) (j : json.Json)
      → (is_sensitive_key key && not (json.is_null j)) ≡ false
      → json.is_null j ≡ false
      → is_sensitive_key key ≡ false
  plain_key key j h n = ground arith

  -- With fuel for the depth of the value, scrub gives a value, whatever it is given: it ends. In what
  -- it gives, at every depth, a value under a sensitive key is null or the redaction, and every text
  -- is the redaction or what scrub_string made of a text.
  pub scrub-Clean :
      (fuel : ℕ) (key : Option Bytes) (j : json.Json)
      → json.depth j < fuel
      → (r : json.Json) × (scrub json replace_patterns fuel key j ≡ some r)
        × Clean json replace_patterns key r
  unfolding scrub
  scrub-Clean zero key j h = absurd (omega arith)
  scrub-Clean (suc fuel) key j h =
      elim (Bool-cases (is_sensitive_key key && not (json.is_null j))) [
        | inl secret ↦ rw (secret, scrub) (redacted-Gives key)
        | inr open_value ↦ elim (Bool-cases (json.is_object j)) [
          | inl object ↦
              rw (open_value, object, scrub)
                (object-Gives key (λ k v. scrub json replace_patterns fuel (some k) v)
                  (json.members j) (plain_key key j open_value (laws.object-kind j object).0)
                  (All-mono _ _
                    (λ (m : Bytes × json.Json) (less : json.depth m.1 < json.depth j).
                      scrub-Clean fuel (some m.0) m.1 (omega arith))
                    (json.members j) (laws.depth-members j object)))
          | inr no_object ↦ elim (Bool-cases (json.is_array j)) [
            | inl array ↦
                rw (open_value, no_object, array, scrub)
                  (array-Gives key (λ v. scrub json replace_patterns fuel key v) (json.elements j)
                    (plain_key key j open_value (laws.array-kind j array).0)
                    (All-mono _ _
                      (λ (x : json.Json) (less : json.depth x < json.depth j).
                        scrub-Clean fuel key x (omega arith))
                      (json.elements j) (laws.depth-elements j array)))
            | inr no_array ↦ elim (Option-cases (json.text_of j)) [
              | inl no_text ↦
                  rw (open_value, no_object, no_array, no_text, scrub)
                    (scalar-Gives key j (unredacted key j open_value) no_object no_array no_text)
              | inr (text, e) ↦
                  rw (open_value, no_object, no_array, e, scrub)
                    (text-Gives key text
                      (plain_key key j open_value (ground (arith, laws.null-kind j))))
            ]
          ]
        ]
      ]
