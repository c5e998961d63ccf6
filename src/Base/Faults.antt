-- ===== src/Base/Faults.antt =====
-- The outcome of a piece of C++ code: a value, or a fault (an access outside a live buffer, whose
-- behaviour the language leaves undefined). `stuck` is no outcome of the code: a loop of the model
-- ran out of fuel.
use mathlib.Core.Bool.{Bool}
use mathlib.Core.Path.{◌≡◌, refl}
use snframe.Base.Tests.{if◌then◌else◌}

pub data Outcome {ℓ} (A : Type ℓ) : Type ℓ where
  ret : A → Outcome A
  fault : Outcome A
  stuck : Outcome A

infixl 5 ◌>>=◌
abbrev pub ◌>>=◌ {ℓ κ} : {A : Type ℓ} {B : Type κ} → Outcome A → (A → Outcome B) → Outcome B
ret a >>= f = f a
fault >>= f = fault
stuck >>= f = stuck

-- An access is made only where `b` holds.
abbrev pub access {ℓ} : {A : Type ℓ} → Bool → A → Outcome A
access b a = if b then ret a else fault

module _ {ℓ κ} {A : Type ℓ} {B : Type κ} where
  pub bind-cong :
      (o : Outcome A) (f g : A → Outcome B) → ((a : A) → f a ≡ g a) → (o >>= f) ≡ (o >>= g)
  bind-cong (ret a) f g h = h a
  bind-cong fault f g h = refl
  bind-cong stuck f g h = refl

  pub bind_assoc {μ} :
      {C : Type μ} (o : Outcome A) (f : A → Outcome B) (g : B → Outcome C)
      → (o >>= λ a. f a >>= g) ≡ ((o >>= f) >>= g)
  bind_assoc (ret a) f g = refl
  bind_assoc fault f g = refl
  bind_assoc stuck f g = refl
