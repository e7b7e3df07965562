-- ===== src/Storage/Upload/Gives.antt =====
-- Runs of packages/object_storage/service.py of which something holds when they do not raise.
use mathlib.Core.Path.{subst}
use evidenceclass_agent.Base.{
  ℕ, ◌≡◌, refl, String, Bool, true, false, some, arith, if◌then◌else◌, ◌==◌, ℕ_eq, String_eq, inl,
  inr, Bool-cases, Option-cases,
}
use evidenceclass_agent.Base.Dict.{lookup}
use evidenceclass_agent.Base.Outcome.{Outcome, ok, err}
use evidenceclass_agent.Storage.Effects.{
  StorageError, StoredObject, StorageJob, World, Faults, Run, raise_if, ◌>>=◌, ◌>>◌, try_except,
  perform, copy, copied, written, is_missing, tick, read, find_job,
}

-- what holds of the answer of a run, and of the world behind it, when it does not raise
pub data Gives {A : Type 0} (Q : A → World → Type 0) : World × Outcome StorageError A → Type 0 where
  raises : (world : World) (e : StorageError) → Gives Q (world, err e)
  gives : (world : World) (a : A) → Q a world → Gives Q (world, ok a)

pub Gives-result :
    {A : Type 0} {Q : A → World → Type 0} (r : World × Outcome StorageError A) (a : A)
    → Gives Q r
    → r.1 ≡ ok a
    → Q a r.0
Gives-result r a (raises world e) h = absurd (ground arith)
Gives-result {Q = Q} r a (gives world b q) h = subst (λ x. Q x world) (injective b a h) q
  where
    injective : {A : Type 0} (b a : A) → ◌≡◌ {A = Outcome StorageError A} (ok b) (ok a) → b ≡ a
    injective b a h = cc

pub Gives-map :
    {A : Type 0} {Q R : A → World → Type 0} (r : World × Outcome StorageError A)
    → ((a : A) (w : World) → Q a w → R a w)
    → Gives Q r
    → Gives R r
Gives-map r f (raises world e) = raises world e
Gives-map r f (gives world a q) = gives world a (f a world q)

pub Gives->>= :
    {A B : Type 0} {Q : A → World → Type 0} {R : B → World → Type 0} (m : Run A) (rest : A → Run B)
    (w : World)
    → Gives Q (m w)
    → ((a : A) (u : World) → Q a u → Gives R (rest a u))
    → Gives R ((m >>= rest) w)
Gives->>= m rest w h k = behind_gives (m w) rest h k
  where
    behind_gives :
        {A B : Type 0} {Q : A → World → Type 0} {R : B → World → Type 0}
        (r : World × Outcome StorageError A) (rest : A → Run B)
        → Gives Q r
        → ((a : A) (u : World) → Q a u → Gives R (rest a u))
        → Gives R (((λ w. r) >>= rest) r.0)
    behind_gives r rest (raises world e) k = raises world e
    behind_gives r rest (gives world a q) k = k a world q

pub Gives-try_except :
    {A : Type 0} {Q : A → World → Type 0} (body : Run A) (handler : Run (Unit {0})) (w : World)
    → Gives Q (body w)
    → Gives Q (try_except body handler w)
Gives-try_except body handler w h = handled_gives (body w) handler h
  where
    raise_gives :
        {A : Type 0} {Q : A → World → Type 0} (r : World × Outcome StorageError (Unit {0}))
        (e : StorageError)
        → Gives Q (((λ w. r) >>= λ t. (λ (u : World). (u, err e))) r.0)
    raise_gives (world, err f) e = raises world f
    raise_gives (world, ok t) e = raises world e

    handled_gives :
        {A : Type 0} {Q : A → World → Type 0} (r : World × Outcome StorageError A)
        (handler : Run (Unit {0}))
        → Gives Q r
        → Gives Q (try_except (λ w. r) handler r.0)
    handled_gives r handler (raises world e) = raise_gives (handler world) e
    handled_gives r handler (gives world a q) = gives world a q

module _ {A : Type 0} {Q : A → World → Type 0} where
  pub Gives-raise_if :
      (b : Bool) (e : StorageError) (rest : Run A) (w : World)
      → (b ≡ false → Gives Q (rest w))
      → Gives Q ((raise_if b e >> rest) w)
  Gives-raise_if true e rest w k = raises w e
  Gives-raise_if false e rest w k = k refl

  pub Gives-find_job :
      (workspace_id job_id : String) (rest : StorageJob → Run A) (w : World)
      → ((job : StorageJob)
          → lookup job_id w.jobs ≡ some job
          → (job.workspace_id == workspace_id) ≡ true
          → Gives Q (rest job w))
      → Gives Q ((find_job workspace_id job_id >>= rest) w)
  Gives-find_job workspace_id job_id rest w k = elim (Option-cases (lookup job_id w.jobs)) [
    | inl f ↦ rw (f, find_job, ◌>>=◌) (raises _ _)
    | inr (job, f) ↦ elim (Bool-cases (job.workspace_id == workspace_id)) [
      | inl b ↦ rw (f, find_job, b, if◌then◌else◌, ◌>>=◌) (k job f b)
      | inr b ↦ rw (f, find_job, b, if◌then◌else◌, ◌>>=◌) (raises _ _)
    ]
  ]

  pub Gives-read :
      (key : String) (rest : StoredObject → Run A) (w : World)
      → ((object : StoredObject) → lookup key w.objects ≡ some object → Gives Q (rest object w))
      → Gives Q ((read key >>= rest) w)
  Gives-read key rest w k = elim (Option-cases (lookup key w.objects)) [
    | inl f ↦ rw (f, read, ◌>>=◌) (raises _ _)
    | inr (object, f) ↦ rw (f, read, ◌>>=◌) (k object f)
  ]

  pub Gives-perform :
      (fails : ℕ → Bool) (change : World → World) (rest : Run A) (w : World)
      → Gives Q (rest (change (tick w)))
      → Gives Q ((perform fails change >> rest) w)
  Gives-perform fails change rest w k = elim (Bool-cases (fails w.calls)) [
    | inl f ↦ rw (f, if◌then◌else◌, perform, ◌>>◌, ◌>>=◌) (raises _ _)
    | inr f ↦ rw (f, if◌then◌else◌, perform, ◌>>◌, ◌>>=◌) k
  ]

  pub Gives-copy :
      (faults : Faults) (source destination : String) (object : StoredObject) (rest : Run A)
      (w : World)
      → lookup source w.objects ≡ some object
      → Gives Q (rest (written destination object (tick w)))
      → Gives Q ((copy faults source destination >> rest) w)
  Gives-copy faults source destination object rest w e k =
      elim (Bool-cases (faults.copies w.calls)) [
        | inl f ↦ rw (copy, is_missing, e, if◌then◌else◌, perform, f, ◌>>◌, ◌>>=◌) (raises _ _)
        | inr f ↦ rw (copy, is_missing, e, if◌then◌else◌, perform, f, copied, ◌>>◌, ◌>>=◌) k
      ]
