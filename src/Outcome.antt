-- ===== src/Outcome.antt =====
-- What a call to other code comes back with: a value, or an exception.
use glady_s.Prelude.{◌≡◌, refl, ◌⊎◌, inl, inr}

pub data Outcome {ℓ} (A : Type ℓ) : Type ℓ where
  returned : A → Outcome A
  raised : Outcome A

pub Outcome-cases {ℓ} : {A : Type ℓ} (o : Outcome A) → (o ≡ raised) ⊎ ((a : A) × (o ≡ returned a))
Outcome-cases raised = inl refl
Outcome-cases (returned a) = inr (a, refl)
