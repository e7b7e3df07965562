-- ===== src/Base/Outcome.antt =====
-- What a call that may raise gives back: a value, or an exception of the type `E`. Each component has
-- its own name for the outcomes with its exceptions.
use evidenceclass_agent.Base.Tests.{if◌then◌else◌}
use mathlib.Core.Path.{◌≡◌, refl}
use mathlib.Core.Logic.{◌⊎◌, inl, inr}
use mathlib.Core.Bool.{Bool, true, false}

pub data Outcome {ℓ} (E : Type 0) (A : Type ℓ) : Type ℓ where
  err : E → Outcome E A
  ok : A → Outcome E A

-- `if test: raise e`
abbrev pub raise_if : {E : Type 0} → Bool → E → Outcome E (Unit {0})
raise_if test e = if test then err e else ok tt

abbrev pub is_ok {ℓ} : {E : Type 0} {A : Type ℓ} → Outcome E A → Bool
is_ok (err e) = false
is_ok (ok a) = true

infixl 5 ◌>>=◌
-- the statements behind one that may raise
abbrev pub ◌>>=◌ {ℓ κ} :
    {E : Type 0} {A : Type ℓ} {B : Type κ} → Outcome E A → (A → Outcome E B) → Outcome E B
(err e) >>= rest = err e
(ok a) >>= rest = rest a

-- To split on a computed outcome and keep the equation.
pub Outcome-cases {ℓ} :
    {E : Type 0} {A : Type ℓ} (r : Outcome E A) → ((a : A) × (r ≡ ok a)) ⊎ ((e : E) × (r ≡ err e))
Outcome-cases (err e) = inr (e, refl)
Outcome-cases (ok a) = inl (a, refl)

infixl 5 ◌>>◌
abbrev pub ◌>>◌ {ℓ} : {E : Type 0} {B : Type ℓ} → Outcome E (Unit {0}) → Outcome E B → Outcome E B
first >> second = first >>= λ _. second
