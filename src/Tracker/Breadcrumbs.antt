-- ===== src/Tracker/Breadcrumbs.antt =====
-- src/forge_ops_tracker.cpp: add_breadcrumb and clear_breadcrumbs on a thread's trail.
use forge_ops_tracker_cpp.Prelude.{
  ℕ, zero, suc, ◌+◌, ◌-◌, ◌≤◌, ◌<◌, ◌≡◌, refl, sym, ap, ◌∙◌, true, false, not, ◌||◌, List, [], ◌∷◌,
  ◌++◌, Bytes, codes, length, drop, ltb, length-append, length-drop, drop-append_of_le, drop_all,
  arith, if◌then◌else◌, Bool-cases, inl, inr,
}
use forge_ops_tracker_cpp.Json.{JsonOps}
use forge_ops_tracker_cpp.Configuration.Values.{Configuration}

module _ {ℓ} {A : Type ℓ} where
  -- The loop that erases the oldest.
  unfoldable pub drop_oldest : ℕ → List A → List A
  drop_oldest max_breadcrumbs [] = []
  drop_oldest max_breadcrumbs (c ∷ trail) =
      let rest = drop_oldest max_breadcrumbs trail in
      if ltb max_breadcrumbs (length (c ∷ trail)) then rest else c ∷ trail

  -- A breadcrumb is any value here.
  unfoldable pub added : Configuration → A → List A → List A
  added cfg crumb trail =
      if not cfg.track_breadcrumbs || cfg.strict_privacy
      then trail
      else drop_oldest cfg.max_breadcrumbs (trail ++ crumb ∷ [])

-- What a thread does to its trail.
pub data Action {ℓ} (A : Type ℓ) : Type ℓ where
  add_breadcrumb : A → Action A
  clear_breadcrumbs : Action A

unfoldable pub trail_after {ℓ} : {A : Type ℓ} → Configuration → List (Action A) → List A → List A
unfolding added
trail_after cfg [] trail = trail
trail_after cfg (add_breadcrumb crumb ∷ actions) trail =
    trail_after cfg actions (added cfg crumb trail)
trail_after cfg (clear_breadcrumbs ∷ actions) trail = trail_after cfg actions []

-- The breadcrumb of a call.
pub breadcrumb : (json : JsonOps) → Bytes → Bytes → Bytes → json.Json → Bytes → json.Json
breadcrumb json message category level fields timestamp = json.set (codes "data") fields (
    json.set (codes "timestamp") (json.of_text timestamp) (
      json.set (codes "level") (json.of_text level) (
        json.set (codes "message") (json.of_text message)
          (json.set (codes "category") (json.of_text category) json.empty_object))))

-- A trail without a bound: all that was added since it was last cleared.
pub all_since {ℓ} : {A : Type ℓ} → List (Action A) → List A → List A
all_since [] trail = trail
all_since (add_breadcrumb crumb ∷ actions) trail = all_since actions (trail ++ crumb ∷ [])
all_since (clear_breadcrumbs ∷ actions) trail = all_since actions []

abbrev pub last_of {ℓ} : {A : Type ℓ} → ℕ → List A → List A
last_of n xs = drop (length xs - n) xs

module _ {ℓ} {A : Type ℓ} where
  drop_oldest-last_of : (n : ℕ) (xs : List A) → drop_oldest n xs ≡ last_of n xs
  unfolding drop_oldest
  drop_oldest-last_of n [] =
      let zero_over : 0 ≡ 0 - n = omega arith in ap (λ k. drop k []) zero_over
  drop_oldest-last_of n (x ∷ xs) = elim (Bool-cases (ltb n (length (x ∷ xs)))) [
    | inl longer ↦
        let less : n < suc (length xs) = ground arith in
        rw longer (drop_oldest-last_of n xs ∙ sym (ap (λ k. drop k (x ∷ xs)) (exact less)))
    | inr short ↦
        let fits : suc (length xs) ≤ n = ground arith in
        rw short (sym (ap (λ k. drop k (x ∷ xs)) (none_over fits)))
  ]
    where
      exact : n < suc (length xs) → suc (length xs) - n ≡ suc (length xs - n)
      exact less = omega arith

      none_over : suc (length xs) ≤ n → suc (length xs) - n ≡ 0
      none_over fits = omega arith

  drop-nil : (n : ℕ) → drop {A = A} n [] ≡ []
  drop-nil n = drop_all n [] (omega arith)

  drop-drop : (m n : ℕ) (xs : List A) → drop m (drop n xs) ≡ drop (n + m) xs
  drop-drop m zero xs = let same : m ≡ 0 + m = omega arith in ap (λ k. drop k xs) same
  drop-drop m (suc n) [] = drop-nil m ∙ sym (drop-nil (suc n + m))
  drop-drop m (suc n) (x ∷ xs) =
      let longer : suc (n + m) ≡ suc n + m = omega arith in
      drop-drop m n xs ∙ ap (λ k. drop k (x ∷ xs)) longer

  -- Only the last of a trail matter for the last of a longer one.
  last_of-last_of :
      (n : ℕ) (xs : List A) (x : A) → last_of n (last_of n xs ++ x ∷ []) ≡ last_of n (xs ++ x ∷ [])
  last_of-last_of n xs x =
      ap (last_of n) (sym (drop-append_of_le (length xs - n) xs (x ∷ []) (omega arith)))
      ∙ drop-drop _ (length xs - n) (xs ++ x ∷ [])
      ∙ ap (λ k. drop k (xs ++ x ∷ []))
          (omega (arith, length-append xs (x ∷ []), length-drop (length xs - n) (xs ++ x ∷ [])))

  added-last_of :
      (cfg : Configuration) (crumb : A) (all : List A)
      → cfg.track_breadcrumbs ≡ true
      → cfg.strict_privacy ≡ false
      → added cfg crumb (last_of cfg.max_breadcrumbs all)
        ≡ last_of cfg.max_breadcrumbs (all ++ crumb ∷ [])
  unfolding added
  added-last_of cfg crumb all on open_text =
      rw (on, open_text)
        (drop_oldest-last_of cfg.max_breadcrumbs (last_of cfg.max_breadcrumbs all ++ crumb ∷ [])
          ∙ last_of-last_of cfg.max_breadcrumbs all crumb)

  -- Whatever a thread adds and clears, its trail is the last breadcrumbs, up to the bound and in their
  -- order, of all that it added since it last cleared them, where
  -- breadcrumbs are recorded and privacy is not strict.
  pub trail_after-last_of :
      (cfg : Configuration) (actions : List (Action A)) (all : List A)
      → cfg.track_breadcrumbs ≡ true
      → cfg.strict_privacy ≡ false
      → trail_after cfg actions (last_of cfg.max_breadcrumbs all)
        ≡ last_of cfg.max_breadcrumbs (all_since actions all)
  unfolding trail_after all_since
  trail_after-last_of cfg [] all on open_text = refl
  trail_after-last_of cfg (add_breadcrumb crumb ∷ actions) all on open_text =
      ap (trail_after cfg actions) (added-last_of cfg crumb all on open_text)
      ∙ trail_after-last_of cfg actions (all ++ crumb ∷ []) on open_text
  trail_after-last_of cfg (clear_breadcrumbs ∷ actions) all on open_text =
      ap (trail_after cfg actions) (sym (drop-nil (0 - cfg.max_breadcrumbs)))
      ∙ trail_after-last_of cfg actions [] on open_text

  pub trail_after-nil :
      (cfg : Configuration) (actions : List (Action A))
      → (not cfg.track_breadcrumbs || cfg.strict_privacy) ≡ true
      → trail_after cfg actions [] ≡ []
  unfolding trail_after added
  trail_after-nil cfg [] off = refl
  trail_after-nil cfg (add_breadcrumb crumb ∷ actions) off =
      rw off (trail_after-nil cfg actions off)
  trail_after-nil cfg (clear_breadcrumbs ∷ actions) off = trail_after-nil cfg actions off
