-- ===== src/Storage/Retention/Purged.antt =====
-- What a purge of packages/object_storage/service.py leaves in the store.
use text.Mathlib.Text.{starts_with}
use evidenceclass_agent.Base.{
  ℕ, ◌≡◌, refl, String, Bool, true, false, ◌&&◌, ◌||◌, none, some, List, [], ◌∷◌, arith,
  if◌then◌else◌, String_eq, same_iff, inl, inr, Bool-cases,
}
use evidenceclass_agent.Base.Dict.{Items, lookup}
use evidenceclass_agent.Base.Outcome.{Outcome, ok, err}
use evidenceclass_agent.Storage.Effects.{StorageError, StoredObject, World, Faults, perform, tick}
use evidenceclass_agent.Storage.Removal.{has, lookup-remove_all}
use evidenceclass_agent.Storage.Upload.Gives.{
  Gives, gives, raises, Gives-result, Gives->>=, Gives-find_job,
}
use evidenceclass_agent.Storage.Retention.{
  due_jobs, temporary_prefix, job_prefix, list_keys, remove_prefix, with_purged, purge_job,
  purge_jobs, purge_due_jobs,
}

has-list_keys :
    (prefix key : String) (objects : Items String StoredObject)
    → has key (list_keys prefix objects)
      ≡ (starts_with key prefix && elim (lookup key objects) [ none ↦ false | some object ↦ true ])
unfolding list_keys lookup
has-list_keys prefix key [] = ground arith
has-list_keys prefix key ((k, object) ∷ objects) =
    ground (arith, has-list_keys prefix key objects, same_iff k key)

-- a key of one of the jobs
abbrev pub is_of : String → List (String × String) → Bool
is_of key [] = false
is_of key (target ∷ targets) =
    (starts_with key (temporary_prefix target) || starts_with key (job_prefix target))
    || is_of key targets

Gives-intro :
    {A : Type 0} {Q : World → Type 0} (r : World × Outcome StorageError A) (a : A)
    → r.1 ≡ ok a
    → Q r.0
    → Gives (λ a u. Q u) r
Gives-intro (w, ok b) a e q = gives w b q
Gives-intro (w, err f) a e q = absurd (ground arith)

Gives-last :
    {Q : World → Type 0} (fails : ℕ → Bool) (change : World → World) (w : World)
    → Q (change (tick w))
    → Gives (λ a u. Q u) (perform fails change w)
Gives-last fails change w q = elim (Bool-cases (fails w.calls)) [
  | inl f ↦ rw (f, if◌then◌else◌, perform) (raises _ _)
  | inr f ↦ rw (f, if◌then◌else◌, perform) (gives _ _ q)
]

module _ (faults : Faults) (n : (k : ℕ) → faults.removes k ≡ false) (key : String) where
  abbrev Left : Bool → World → World → Type 0
  Left gone before behind =
      lookup key behind.objects ≡ (if gone then none else lookup key before.objects)

  remove_prefix-Gives :
      (prefix : String) (w : World)
      → Gives (λ t u. Left (starts_with key prefix) w u) (remove_prefix faults prefix w)
  remove_prefix-Gives prefix w =
      let (d, l, a) = lookup-remove_all faults (list_keys prefix w.objects) w key n in
      Gives-intro {Q = Left (starts_with key prefix) w} (remove_prefix faults prefix w) tt d
        (ground (arith, l, has-list_keys prefix key w.objects))

  purge_job-Gives :
      (now : ℕ) (target : String × String) (w : World)
      → Gives
          (λ t u.
            Left
              (starts_with key (temporary_prefix target) || starts_with key (job_prefix target))
              w
              u)
          (purge_job faults now target w)
  purge_job-Gives now target w =
      Gives->>= (remove_prefix faults (temporary_prefix target)) _ w
        (remove_prefix-Gives (temporary_prefix target) w)
        (λ t u p.
          Gives->>= (remove_prefix faults (job_prefix target)) _ u
            (remove_prefix-Gives (job_prefix target) u)
            (λ s v q. Gives-find_job target.1 target.0 _ v (λ job f b.
              Gives-last
                {Q = Left
                  (starts_with key (temporary_prefix target) || starts_with key (job_prefix target))
                  w}
                faults.commits (with_purged now target.0 job) v (ground (arith, p, q)))))

  purge_jobs-Gives :
      (now : ℕ) (targets : List (String × String)) (w : World)
      → Gives (λ ids u. Left (is_of key targets) w u) (purge_jobs faults now targets w)
  unfolding purge_jobs
  purge_jobs-Gives now [] w = gives w [] refl
  purge_jobs-Gives now (target ∷ targets) w =
      Gives->>= (purge_job faults now target) _ w (purge_job-Gives now target w) (λ t u p.
        Gives->>= (purge_jobs faults now targets) _ u (purge_jobs-Gives now targets u)
          (λ ids v q. gives v _ (ground (arith, p, q))))

-- A purge that does not raise, where removals do not: an object whose key begins with one of the two
-- prefixes of a job that is due is gone, and every other object of the store is as it was.
pub purge_exact :
    (faults : Faults) (now : ℕ) (world : World) (purged : List String) (key : String)
    → ((k : ℕ) → faults.removes k ≡ false)
    → (purge_due_jobs faults now world).1 ≡ ok purged
    → lookup key (purge_due_jobs faults now world).0.objects
      ≡ (if is_of key (due_jobs now world.jobs) then none else lookup key world.objects)
unfolding purge_due_jobs
purge_exact faults now world purged key n h =
    Gives-result (purge_jobs faults now (due_jobs now world.jobs) world) purged
      (purge_jobs-Gives faults n key now (due_jobs now world.jobs) world) h
