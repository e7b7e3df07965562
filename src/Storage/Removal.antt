-- ===== src/Storage/Removal.antt =====
-- The loops of packages/object_storage/service.py that remove objects.
use evidenceclass_agent.Base.{
  ℕ, ◌≡◌, refl, String, Bool, false, ◌||◌, none, List, [], ◌∷◌, ◌++◌, arith, if◌then◌else◌, ◌==◌,
  ℕ_eq, String_eq,
}
use evidenceclass_agent.Base.Dict.{lookup, remove, lookup-remove}
use evidenceclass_agent.Base.Outcome.{ok}
use evidenceclass_agent.Storage.Effects.{
  World, Faults, ◌>>=◌, ◌>>◌, perform, remove_all, remove_object, tick,
}
use evidenceclass_agent.Storage.Publish.{}

abbrev pub has : String → List String → Bool
has k [] = false
has k (key ∷ keys) = key == k || has k keys

pub has-append : (k : String) (xs ys : List String) → has k (xs ++ ys) ≡ has k xs || has k ys
has-append k [] ys = refl
has-append k (x ∷ xs) ys = ground (arith, has-append k xs ys)

-- the loop of removals, where none raises
pub lookup-remove_all :
    (faults : Faults) (keys : List String) (w : World) (k : String)
    → ((n : ℕ) → faults.removes n ≡ false)
    → ((remove_all faults keys w).1 ≡ ok tt)
      × (lookup k (remove_all faults keys w).0.objects
          ≡ (if has k keys then none else lookup k w.objects))
      × ((remove_all faults keys w).0.artifacts ≡ w.artifacts)
lookup-remove_all faults [] w k n = (refl, refl, refl)
lookup-remove_all faults (key ∷ keys) w k n =
    let next = record (tick w) { objects = remove key w.objects } in
    let (d, l, a) = lookup-remove_all faults keys next k n in
    rw (n w.calls, if◌then◌else◌, remove_object, perform, ◌>>◌, ◌>>=◌)
      (d, ground (arith, l, lookup-remove key k w.objects), a)
