-- ===== src/Base/Keys.antt =====
-- Equality tests of the keys that the program compares: one operator for every type with an
-- instance.
use Prim.Native.Nat.{ℕ}
use Prim.Native.String.{String}
use mathlib.Core.Path.{◌≡◌, refl, subst}
use mathlib.Core.Logic.{◌↔◌}
use mathlib.Core.Bool.{Bool, true, ◌&&◌}
use native.Mathlib.Omega.{arith}
use text.Mathlib.Text.{◌==◌ as text_eq}
use text.Mathlib.TextEquality.{eq_iff}
use evidenceclass_agent.Base.Tests.{nat_eq}

-- A test that finds out equal keys.
pub record Keyed {ℓ} (K : Type ℓ) : Type ℓ where
  pub same : K → K → Bool
  pub sound : {j k : K} → same j k ≡ true → j ≡ k
  pub reflexive : (k : K) → same k k ≡ true

pub nat_sound : {j k : ℕ} → nat_eq j k ≡ true → j ≡ k
nat_sound h = ground arith

pub nat_reflexive : (k : ℕ) → nat_eq k k ≡ true
nat_reflexive k = ground arith

instance abbrev pub ℕ_eq : Keyed ℕ
ℕ_eq = record { same = nat_eq; sound = nat_sound; reflexive = nat_reflexive }

pub text_sound : {j k : String} → text_eq j k ≡ true → j ≡ k
text_sound {j} {k} h = (eq_iff j k).0 h

pub text_reflexive : (k : String) → text_eq k k ≡ true
text_reflexive k = (eq_iff k k).1 refl

instance abbrev pub String_eq : Keyed String
String_eq = record { same = text_eq; sound = text_sound; reflexive = text_reflexive }

infix 50 ◌==◌
abbrev pub ◌==◌ {ℓ} : {K : Type ℓ} ⦃e : Keyed K⦄ → K → K → Bool
◌==◌ ⦃e⦄ j k = e.same j k

pub same_iff {ℓ} : {K : Type ℓ} ⦃e : Keyed K⦄ (j k : K) → ((j == k) ≡ true) ↔ (j ≡ k)
same_iff ⦃e⦄ j k = (e.sound, λ p. subst (λ x. (j == x) ≡ true) p (e.reflexive j))

-- pairs of texts
abbrev pub pair_same : String × String → String × String → Bool
pair_same j k = text_eq j.0 k.0 && text_eq j.1 k.1

pub pair_sound : {j k : String × String} → pair_same j k ≡ true → j ≡ k
pair_sound {j} {k} h = ground (arith, eq_iff j.0 k.0, eq_iff j.1 k.1)

pub pair_reflexive : (k : String × String) → pair_same k k ≡ true
pair_reflexive k = ground (arith, eq_iff k.0 k.0, eq_iff k.1 k.1)

instance abbrev pub pair_eq : Keyed (String × String)
pair_eq = record { same = pair_same; sound = pair_sound; reflexive = pair_reflexive }
