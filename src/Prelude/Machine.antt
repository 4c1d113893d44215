-- ===== src/Prelude/Machine.antt =====
-- Runs of a machine: a step answers `none` to an event that cannot happen in the state it is in.
use mathlib.Core.Path.{◌≡◌, refl, subst}
use mathlib.Core.List.{List, [], ◌∷◌}
use mathlib.Core.Option.{Option, none, some, some-injective}

infixl 5 ◌>>=◌
abbrev pub ◌>>=◌ {ℓ κ} : {A : Type ℓ} {B : Type κ} → Option A → (A → Option B) → Option B
none >>= f = none
some a >>= f = f a

-- The predicate holds in the next state, if there is one.
abbrev pub After {ℓ κ} : {S : Type ℓ} → (S → Type κ) → Option S → Type κ
After P none = Unit
After P (some s) = P s

module _ {ℓ κ} {S : Type ℓ} {E : Type κ} (step : E → S → Option S) where
  unfoldable pub run : List E → S → Option S
  run [] s = some s
  run (e ∷ es) s = step e s >>= run es

  pub run-nil : (s : S) → run [] s ≡ some s
  unfolding run
  run-nil s = refl

  pub run-cons : (e : E) (es : List E) (s : S) → run (e ∷ es) s ≡ (step e s >>= run es)
  unfolding run
  run-cons e es s = refl

module _ {ℓ κ μ} {S : Type ℓ} {E : Type κ} (step : E → S → Option S) (P : S → Type μ) where
  after_bind :
      (o : Option S) (es : List E) {t : S}
      → After P o
      → ((s : S) → P s → run step es s ≡ some t → P t)
      → (o >>= run step es) ≡ some t
      → P t
  after_bind none es p f h = cc
  after_bind (some s) es p f h = f s p h

  -- What every step keeps, every run keeps.
  pub run_induction :
      ((e : E) (s : S) → P s → After P (step e s))
      → (es : List E) (s : S) {t : S} → P s
      → run step es s ≡ some t
      → P t
  unfolding run
  run_induction keep [] s p h = subst P (some-injective _ _ h) p
  run_induction keep (e ∷ es) s p h =
      after_bind (step e s) es (keep e s p) (λ u q r. run_induction keep es u q r) h
