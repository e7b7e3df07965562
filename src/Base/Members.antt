-- ===== src/Base/Members.antt =====
-- What holds of every element of a list, and what stands in one.
use Prim.Native.Nat.{ℕ, zero, suc}
use mathlib.Core.Path.{◌≡◌, refl, subst}
use mathlib.Core.Logic.{◌⊎◌, inl, inr}
use mathlib.Core.Bool.{Bool, false, ◌||◌}
use mathlib.Core.Option.{none, some}
use mathlib.Core.List.{List, [], ◌∷◌, ◌++◌}
use native.Mathlib.Omega.{arith}
use evidenceclass_agent.Base.Tests.{if◌then◌else◌, Bool-cases}
use evidenceclass_agent.Base.Keys.{Keyed, ◌==◌, same_iff}
use evidenceclass_agent.Base.Lists.{take, drop}
use evidenceclass_agent.Base.Dict.{Items, lookup, insert, remove, lookup-insert, lookup-remove}

abbrev pub All {ℓ κ} : {A : Type ℓ} → (A → Type κ) → List A → Type κ
All P [] = Unit
All P (x ∷ xs) = P x × All P xs

abbrev pub In : {A : Type 0} → A → List A → Type 0
In x [] = ⊥
In x (y ∷ ys) = (y ≡ x) ⊎ In x ys

pub All-In {κ} : {A : Type 0} (P : A → Type κ) (x : A) (xs : List A) → All P xs → In x xs → P x
All-In P x [] h m = absurd m
All-In P x (y ∷ ys) h (inl e) = subst P e h.0
All-In P x (y ∷ ys) h (inr m) = All-In P x ys h.1 m

pub All-of_each {κ} :
    {A : Type 0} (P : A → Type κ) (xs : List A) → ((x : A) → In x xs → P x) → All P xs
All-of_each P [] h = tt
All-of_each P (x ∷ xs) h = (h x (inl refl), All-of_each P xs (λ y m. h y (inr m)))

pub All-weaken {κ} :
    {A : Type 0} (P Q : A → Type κ) → ((x : A) → P x → Q x) → (xs : List A) → All P xs → All Q xs
All-weaken P Q w [] h = tt
All-weaken P Q w (x ∷ xs) h = (w x h.0, All-weaken P Q w xs h.1)

pub All-take {κ} :
    {A : Type 0} (P : A → Type κ) (n : ℕ) (xs : List A) → All P xs → All P (take n xs)
All-take P zero xs h = tt
All-take P (suc n) [] h = tt
All-take P (suc n) (x ∷ xs) h = (h.0, All-take P n xs h.1)

-- x in xs
unfoldable pub contains : {K : Type 0} ⦃e : Keyed K⦄ → List K → K → Bool
contains [] k = false
contains (j ∷ js) k = j == k || contains js k

module _ {K V : Type 0} ⦃e : Keyed K⦄ where
  -- each key has one item
  abbrev pub IsDict : Items K V → Type 0
  IsDict [] = Unit
  IsDict (item ∷ m) = (lookup item.0 m ≡ none) × IsDict m

  not-In-none : (k : K) (v : V) (m : Items K V) → lookup k m ≡ none → In (k, v) m → ⊥
  unfolding lookup
  not-In-none k v [] h i = i
  not-In-none k v ((j, w) ∷ m) h (inl p) = absurd (ground (arith, same_iff j k))
  not-In-none k v ((j, w) ∷ m) h (inr i) = not-In-none k v m (ground (arith, same_iff j k)) i

  pub lookup-In : (k : K) (v : V) (m : Items K V) → IsDict m → In (k, v) m → lookup k m ≡ some v
  unfolding lookup
  lookup-In k v [] d i = absurd i
  lookup-In k v ((j, w) ∷ m) d (inl p) = ground (arith, same_iff j k)
  lookup-In k v ((j, w) ∷ m) d (inr i) = elim (Bool-cases (j == k)) [
    | inl same ↦ absurd (not-In-none k v m (ground (arith, same_iff j k, d.0)) i)
    | inr other ↦ rw other (lookup-In k v m d.1 i)
  ]

  pub insert-IsDict : (k : K) (v : V) (m : Items K V) → IsDict m → IsDict (insert k v m)
  unfolding insert lookup
  insert-IsDict k v [] d = (refl, tt)
  insert-IsDict k v ((j, w) ∷ m) d = elim (Bool-cases (j == k)) [
    | inl same ↦ rw (same, if◌then◌else◌) d
    | inr other ↦
        rw (other, if◌then◌else◌)
          (
            ground (arith, lookup-insert m k v j, same_iff j k, same_iff k j, d.0),
            insert-IsDict k v m d.1,
          )
  ]

  pub remove-IsDict : (k : K) (m : Items K V) → IsDict m → IsDict (remove k m)
  unfolding remove lookup
  remove-IsDict k [] d = tt
  remove-IsDict k ((j, w) ∷ m) d = elim (Bool-cases (j == k)) [
    | inl same ↦ rw (same, if◌then◌else◌) (remove-IsDict k m d.1)
    | inr other ↦
        rw (other, if◌then◌else◌) (ground (arith, lookup-remove k j m, d.0), remove-IsDict k m d.1)
  ]

module _ {κ} {A : Type 0} (P : A → Type κ) where
  pub All-append : (xs ys : List A) → All P xs → All P ys → All P (xs ++ ys)
  All-append [] ys h k = k
  All-append (x ∷ xs) ys h k = (h.0, All-append xs ys h.1 k)

  pub All-drop : (n : ℕ) (xs : List A) → All P xs → All P (drop n xs)
  All-drop zero xs h = h
  All-drop (suc n) [] h = tt
  All-drop (suc n) (x ∷ xs) h = All-drop n xs h.1
