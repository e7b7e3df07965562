-- ===== src/Persistence/Tables/Safe.antt =====
-- Transactions of packages/persistence that commit only databases with a property.
use evidenceclass_agent.Base.{ℕ, ◌≡◌, refl, Bool, true, false, Option, none, some, if◌then◌else◌}
use evidenceclass_agent.Persistence.Tables.{
  Database, PersistenceError, Result, ok, err, ◌>>=◌, ◌>>◌, raise_if, commit,
}

pub data Safe {A : Type 0} (P : Database → Type 0) : Result (Database × A) → Type 0 where
  raises : (e : PersistenceError) → Safe P (err e)
  commits : (next : Database) (a : A) → P next → Safe P (ok (next, a))

module _ {A : Type 0} {P : Database → Type 0} where
  -- a transaction may go on behind each of its parts
  pub Safe-raise_if :
      (b : Bool) (e : PersistenceError) (rest : Result (Database × A))
      → (b ≡ false → Safe P rest)
      → Safe P (raise_if b e >> rest)
  Safe-raise_if true e rest k = raises e
  Safe-raise_if false e rest k = k refl

  pub Safe->>= :
      {B : Type 0} (m : Result B) (rest : B → Result (Database × A))
      → ((b : B) → m ≡ ok b → Safe P (rest b))
      → Safe P (m >>= rest)
  Safe->>= (ok b) rest k = k b refl
  Safe->>= (err e) rest k = raises e

  pub Safe-if :
      (b : Bool) (x y : Result (Database × A))
      → (b ≡ true → Safe P x)
      → (b ≡ false → Safe P y)
      → Safe P (if b then x else y)
  Safe-if true x y h k = h refl
  Safe-if false x y h k = k refl

  pub Safe-elim :
      {B : Type 0} (o : Option B) (x : Result (Database × A)) (y : B → Result (Database × A))
      → (o ≡ none → Safe P x)
      → ((b : B) → o ≡ some b → Safe P (y b))
      → Safe P (elim o [ none ↦ x | some b ↦ y b ])
  Safe-elim none x y h k = h refl
  Safe-elim (some b) x y h k = k b refl

  pub Safe-commit : (j : ℕ) (next : Database) (a : A) → P next → Safe P (commit j next a)
  Safe-commit j next a h = Safe-if _ _ _ (λ u. commits next a h) (λ u. raises _)
