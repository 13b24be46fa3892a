-- ===== src/Prelude/Options.antt =====
-- Chains of steps that may fail, on `Option`.
use mathlib.Core.Path.{◌≡◌, refl}
use mathlib.Core.Option.{Option, none, some}

module _ {ℓ κ} {A : Type ℓ} {B : Type κ} where
  abbrev pub bind : Option A → (A → Option B) → Option B
  bind none next = none
  bind (some a) next = next a

  pub bind-eq-some :
      (o : Option A) (next : A → Option B) {b : B}
      → bind o next ≡ some b
      → (a : A) × (o ≡ some a) × (next a ≡ some b)
  bind-eq-some none next h = cc
  bind-eq-some (some a) next h = (a, refl, h)

module _ {ℓ κ μ} {A : Type ℓ} {B : Type κ} {C : Type μ} where
  -- Both values, if both are there.
  abbrev pub combine : (A → B → C) → Option A → Option B → Option C
  combine f (some a) (some b) = some (f a b)
  combine f none b = none
  combine f (some a) none = none

  pub combine-eq-some :
      (f : A → B → C) (x : Option A) (y : Option B) {c : C}
      → combine f x y ≡ some c
      → (a : A) × (b : B) × (x ≡ some a) × (y ≡ some b) × (f a b ≡ c)
  combine-eq-some f none y h = cc
  combine-eq-some f (some a) none h = cc
  combine-eq-some f (some a) (some b) {c} h = (a, b, refl, refl, some_injective (f a b) c h)
    where
      some_injective : (u v : C) → some u ≡ some v → u ≡ v
      some_injective u v e = cc
