-- ===== src/Base/Dict.antt =====
-- Python's `dict`, as the list of its items in insertion order.
use evidenceclass_agent.Base.Tests.{if◌then◌else◌}
use evidenceclass_agent.Base.Keys.{Keyed, ◌==◌, same_iff}
use mathlib.Core.Path.{◌≡◌, refl}
use mathlib.Core.Option.{Option, none, some}
use mathlib.Core.List.{List, [], ◌∷◌}
use native.Mathlib.Omega.{arith}

abbrev pub Items {ℓ} : Type ℓ → Type ℓ → Type ℓ
Items K V = List (K × V)

module _ {ℓ} {K V : Type ℓ} ⦃e : Keyed K⦄ where
  -- d.pop(k, None)
  unfoldable pub remove : K → Items K V → Items K V
  remove k [] = []
  remove k (item ∷ m) = let rest = remove k m in if item.0 == k then rest else item ∷ rest

  -- d.get(k)
  unfoldable pub lookup : K → Items K V → Option V
  lookup k [] = none
  lookup k (item ∷ m) = if item.0 == k then some item.1 else lookup k m

  pub lookup-remove :
      (k j : K) (m : Items K V) → lookup j (remove k m) ≡ (if k == j then none else lookup j m)
  unfolding lookup remove
  lookup-remove k j [] = ground arith
  lookup-remove k j ((i, w) ∷ m) =
      ground (arith, same_iff k j, same_iff i k, same_iff i j, lookup-remove k j m)

  -- d[k] = v: a known key keeps its place
  unfoldable pub insert : K → V → Items K V → Items K V
  insert k v [] = (k, v) ∷ []
  insert k v (item ∷ m) = if item.0 == k then (item.0, v) ∷ m else item ∷ insert k v m

  -- A dictionary after an assignment: the new value at its key, and elsewhere what there was.
  pub lookup-insert :
      (m : Items K V) (k : K) (v : V) (j : K)
      → lookup j (insert k v m) ≡ (if k == j then some v else lookup j m)
  unfolding lookup insert
  lookup-insert ((i, w) ∷ m) k v j =
      ground (arith, lookup-insert m k v j, same_iff i j, same_iff k j, same_iff i k)
  lookup-insert [] k v j = refl

  pub lookup-insert_self : (k : K) (v : V) (m : Items K V) → lookup k (insert k v m) ≡ some v
  lookup-insert_self k v m = ground (arith, lookup-insert m k v k, same_iff k k)
