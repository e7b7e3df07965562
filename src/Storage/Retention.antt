-- ===== src/Storage/Retention.antt =====
-- The retention of packages/object_storage/service.py: the deletion of a job, and the purge of what is due.
pub mod Purged
use Prim.Native.String.{◌++◌ as ◌<>◌}
use text.Mathlib.Text.{starts_with}
use evidenceclass_agent.Base.{
  ℕ, ◌+◌, String, Bool, true, false, not, ◌&&◌, ◌||◌, Option, none, some, List, [], ◌∷◌, leb,
  if◌then◌else◌, ◌==◌, String_eq,
}
use evidenceclass_agent.Base.Int.{ℤ, is_negative, to_nat}
use evidenceclass_agent.Base.Dict.{Items, insert}
use evidenceclass_agent.Storage.Effects.{
  value_error, StoredObject, StorageJob, MediaAsset, Artifact, World, Faults, Run, return, raise_if,
  ◌>>=◌, ◌>>◌, perform, remove_all, find_job,
}

abbrev pub with_job : String → StorageJob → World → World
with_job job_id job world = record world { jobs = insert job_id job world.jobs }

-- `schedule_job_deletion`, at the time `now`
unfoldable pub schedule_job_deletion :
    Faults → (workspace_id job_id : String) → (retention : ℤ) → (now : ℕ) → Run ℕ
schedule_job_deletion faults workspace_id job_id retention now =
    raise_if (is_negative retention) value_error
    >> (find_job workspace_id job_id >>= λ job.
        perform faults.commits (
          with_job job_id
            (record job { is_deleted = true; purge_after = some (now + to_nat retention) }))
        >> return (now + to_nat retention))

abbrev pub is_due : ℕ → StorageJob → Bool
is_due now job = elim job.purge_after [
  | none ↦ false
  | some t ↦ leb t now && elim job.objects_purged_at [ none ↦ true | some u ↦ false ]
]

-- the first query of `purge_due_jobs`: the jobs with their workspaces
unfoldable pub due_jobs : ℕ → Items String StorageJob → List (String × String)
due_jobs now [] = []
due_jobs now ((job_id, job) ∷ jobs) =
    let rest = due_jobs now jobs in
    if is_due now job then (job_id, job.workspace_id) ∷ rest else rest

abbrev pub temporary_prefix : String × String → String
temporary_prefix (job_id, workspace_id) = "temporary/" <> workspace_id <> "/" <> job_id <> "/"

abbrev pub job_prefix : String × String → String
job_prefix (job_id, workspace_id) = "workspaces/" <> workspace_id <> "/jobs/" <> job_id <> "/"

-- `InMemoryObjectStore.list`, without its order
unfoldable pub list_keys : String → Items String StoredObject → List String
list_keys prefix [] = []
list_keys prefix ((key, object) ∷ objects) =
    let rest = list_keys prefix objects in if starts_with key prefix then key ∷ rest else rest

abbrev pub remove_prefix : Faults → String → Run (Unit {0})
remove_prefix faults prefix world = remove_all faults (list_keys prefix world.objects) world

-- `session.delete` of the rows of a job
unfoldable pub delete_assets : String → Items String MediaAsset → Items String MediaAsset
delete_assets job_id [] = []
delete_assets job_id (row ∷ rows) =
    let rest = delete_assets job_id rows in if row.1.job_id == job_id then rest else row ∷ rest

unfoldable pub delete_artifacts : String → Items String Artifact → Items String Artifact
delete_artifacts job_id [] = []
delete_artifacts job_id (row ∷ rows) =
    let rest = delete_artifacts job_id rows in if row.1.job_id == job_id then rest else row ∷ rest

-- the transaction behind the removals
abbrev pub with_purged : ℕ → String → StorageJob → World → World
with_purged now job_id job world = record world {
  jobs = insert job_id (record job { objects_purged_at = some now }) world.jobs;
  assets = delete_assets job_id world.assets;
  artifacts = delete_artifacts job_id world.artifacts;
}

-- one turn of the loop
abbrev pub purge_job : Faults → ℕ → String × String → Run (Unit {0})
purge_job faults now target =
    remove_prefix faults (temporary_prefix target)
    >> (remove_prefix faults (job_prefix target)
        >> (find_job target.1 target.0 >>= λ job.
            perform faults.commits (with_purged now target.0 job)))

unfoldable pub purge_jobs : Faults → ℕ → List (String × String) → Run (List String)
purge_jobs faults now [] = return []
purge_jobs faults now (target ∷ targets) =
    purge_job faults now target
    >> (purge_jobs faults now targets >>= λ purged. return (target.0 ∷ purged))

unfoldable pub purge_due_jobs : Faults → ℕ → Run (List String)
purge_due_jobs faults now world = purge_jobs faults now (due_jobs now world.jobs) world
