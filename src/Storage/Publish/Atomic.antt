-- ===== src/Storage/Publish/Atomic.antt =====
-- A call of `publish_artifacts` of packages/object_storage/service.py that raises undoes what it wrote.
use evidenceclass_agent.Base.{
  ℕ, ◌≡◌, refl, ◌∙◌, String, Bool, true, false, none, List, [], ◌++◌, arith, if◌then◌else◌, ◌==◌,
  ℕ_eq, String_eq, inl, inr, Bool-cases, Option-cases,
}
use evidenceclass_agent.Base.Dict.{Items, lookup}
use evidenceclass_agent.Base.Outcome.{Outcome, ok, err}
use evidenceclass_agent.Storage.Effects.{
  StorageError, value_error, StoredObject, StorageJob, Artifact, World, Faults, Run, raise_if,
  ◌>>=◌, ◌>>◌, try_except, find_job,
}
use evidenceclass_agent.Storage.Formats.{Decoders}
use evidenceclass_agent.Storage.Publish.{
  Publication, Encoders, manifest_key, undo_on_error, write_artifacts, remove_temporary,
  remove_written, publish_artifacts, is_refused,
}
use evidenceclass_agent.Storage.Removal.{has-append, lookup-remove_all}
use evidenceclass_agent.Storage.Publish.Writes.{
  Before, Fresh, Ends, raised, done, write_artifacts-Ends,
}

module _ (decoders : Decoders) (encoders : Encoders) (faults : Faults) (p : Publication) where
  -- the handler's loop behind a body that raised
  removed :
      (objects : Items String StoredObject) (artifacts : Items String Artifact) (v : World)
      (k : String)
      → ((n : ℕ) → faults.removes n ≡ false)
      → Before objects artifacts v
      → (lookup k (remove_written decoders encoders faults p v).0.objects ≡ lookup k objects)
        × ((remove_written decoders encoders faults p v).0.artifacts ≡ artifacts)
  removed objects artifacts v k n g =
      let (d, l, a) = lookup-remove_all faults (v.temporary_keys ++ v.final_keys) v k n in
      (
        ground (arith, l, has-append k v.temporary_keys v.final_keys, g.kept k, g.fresh k),
        a ∙ g.rows,
      )

  completes :
      (v : World) (a : List (String × Artifact))
      → ((n : ℕ) → faults.removes n ≡ false)
      → (undo_on_error decoders encoders faults p (λ w. (v, ok a)) v).1 ≡ ok (a, manifest_key p)
  completes v a n =
      rw
        (
          (lookup-remove_all faults v.temporary_keys v "" n).0,
          undo_on_error,
          try_except,
          remove_temporary,
        )
        refl

  -- `try` around a body that ends so
  tried :
      (objects : Items String StoredObject) (artifacts : Items String Artifact)
      (r : World × Outcome StorageError (List (String × Artifact))) (k : String) (e : StorageError)
      → ((n : ℕ) → faults.removes n ≡ false)
      → Ends (Before objects artifacts) (λ u. Unit) r
      → (undo_on_error decoders encoders faults p (λ w. r) r.0).1 ≡ err e
      → (lookup k (undo_on_error decoders encoders faults p (λ w. r) r.0).0.objects
          ≡ lookup k objects)
        × ((undo_on_error decoders encoders faults p (λ w. r) r.0).0.artifacts ≡ artifacts)
  tried objects artifacts r k e n (raised v f g) h =
      rw ((lookup-remove_all faults (v.temporary_keys ++ v.final_keys) v k n).0)
        (removed objects artifacts v k n g)
  tried objects artifacts r k e n (done v a g) h = absurd (ground (arith, completes v a n))

-- a run that is undone when it raises
abbrev Undone : {A : Type 0} → World → String → World × Outcome StorageError A → Type 0
Undone world key r =
    (e : StorageError)
    → r.1 ≡ err e
    → (lookup key r.0.objects ≡ lookup key world.objects) × (r.0.artifacts ≡ world.artifacts)

Undone-find_job :
    {A : Type 0} (w j key : String) (rest : StorageJob → Run A) (world : World)
    → ((job : StorageJob) → Undone world key (rest job world))
    → Undone world key ((find_job w j >>= rest) world)
Undone-find_job w j key rest world k = elim (Option-cases (lookup j world.jobs)) [
  | inl f ↦ rw (f, find_job, ◌>>=◌) (λ e r. (refl, refl))
  | inr (job, f) ↦ elim (Bool-cases (job.workspace_id == w)) [
    | inl b ↦ rw (f, find_job, b, if◌then◌else◌, ◌>>=◌) (k job)
    | inr b ↦ rw (f, find_job, b, if◌then◌else◌, ◌>>=◌) (λ e r. (refl, refl))
  ]
]

Undone-raise_if :
    {A : Type 0} (b : Bool) (f : StorageError) (key : String) (rest : Run A) (world : World)
    → Undone world key (rest world)
    → Undone world key ((raise_if b f >> rest) world)
Undone-raise_if true f key rest world k = λ e r. (refl, refl)
Undone-raise_if false f key rest world k = k

-- A call of `publish_artifacts` that raises, be it that the job is not one of the workspace, that the
-- contents are refused, that a content is not of its type, or that any write, copy or transaction
-- raises, leaves under every key of the store the object that was there, or none, and leaves the table
-- of the artifacts as it was. The keys that the call writes are new to the store, and removals do not
-- raise.
pub publish_undone :
    (decoders : Decoders) (encoders : Encoders) (faults : Faults) (p : Publication) (world : World)
    (e : StorageError) (key : String)
    → ((n : ℕ) → faults.removes n ≡ false)
    → Fresh world.objects p p.contents
    → lookup (manifest_key p) world.objects ≡ none
    → (publish_artifacts decoders encoders faults p world).1 ≡ err e
    → (lookup key (publish_artifacts decoders encoders faults p world).0.objects
        ≡ lookup key world.objects)
      × ((publish_artifacts decoders encoders faults p world).0.artifacts ≡ world.artifacts)
unfolding publish_artifacts
publish_undone decoders encoders faults p world e key n h m r =
    Undone-find_job p.workspace_id p.job_id key _ world
      (λ job.
        Undone-raise_if (is_refused decoders encoders faults p p.contents) value_error key _ world
          (λ f.
            let start = record world { temporary_keys = []; final_keys = [] } in
            tried decoders encoders faults p world.objects world.artifacts
              (write_artifacts decoders encoders faults p start) key f n
              (write_artifacts-Ends world.objects world.artifacts faults decoders encoders p start h
                m
                (record {
                  kept = λ k t f. refl;
                  fresh = λ k t. absurd (ground arith);
                  rows = refl;
                }))))
      e r
