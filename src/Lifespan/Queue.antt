-- ===== src/Lifespan/Queue.antt =====
-- The queue of packages/persistence/jobs.py and the worker of apps/worker/runtime.py: which runs hold a
-- slot, and that the worker can claim what the service has queued.

use evidenceclass_agent.Base.{
  ℕ, ◌≡◌, refl, String, true, none, some, List, arith, ℕ_eq, same_iff, inl, inr, Option-cases,
}
use evidenceclass_agent.Base.Dict.{Items, lookup, insert, lookup-insert}
use evidenceclass_agent.Lifecycle.Job.{queued, running}
use evidenceclass_agent.Lifecycle.Run.{initializing}
use evidenceclass_agent.Persistence.Tables.{
  AnalysisJob, AgentRun, Database, Drawn, ok, count_active, active_run, is_unique,
}
use evidenceclass_agent.Persistence.Tables.Queries.{
  count_active-insert_new, active_run-none, active_run-some, active_run-lookup,
}
use evidenceclass_agent.Persistence.Jobs.{
  run_started, find_job, can_rerun, rerun_job, request_again, new_run,
}
use evidenceclass_agent.Worker.{claim}
use evidenceclass_agent.Lifespan.{Step, empty, after}
use evidenceclass_agent.Lifespan.Invariant.{DbInv, slots_of}
use evidenceclass_agent.Lifespan.Keeps.{find_job-lookup, no_slots}
use evidenceclass_agent.Lifespan.Histories.{after-Inv, empty-Inv}

-- Behind every history, on a database that was empty, of creations, starts, retries, reruns, cancellations
-- and resumptions by the job service, of claims and ends by the worker, and of status events of one row,
-- in any order, where new runs get new identifiers, a worker ends only a run that still holds its slot,
-- `apply_job_event` neither queues a job nor ends or begins its holding of a slot, and `apply_run_event`
-- neither closes a run that holds a slot nor moves one of a queued job, but for two of them in a row
-- that end a run and its job: the runs of a job that hold
-- a slot are exactly one when the job is queued or running, and none otherwise.
pub slot_of_job :
    (steps : List Step) (job_id : ℕ)
    → count_active job_id (after empty steps).runs
      ≡ slots_of (lookup job_id (after empty steps).jobs)
slot_of_job steps job_id = (after-Inv empty steps empty-Inv).count job_id

-- the run that holds the slot
holder :
    (j : ℕ) (db : Database)
    → DbInv db
    → count_active j db.runs ≡ 1
    → (i : ℕ) × (r : AgentRun) × (lookup i db.runs ≡ some r) × (r.active ≡ true) × (r.job_id ≡ j)
holder j db v c = elim (Option-cases (active_run j db.runs)) [
  | inl e ↦ absurd (ground (arith, active_run-none j db.runs e))
  | inr ((i, r), e) ↦ (
    i,
    r,
    active_run-lookup j db.runs i r v.table e,
    ground (arith, active_run-some j db.runs (i, r) e, same_iff r.job_id j),
    ground (arith, active_run-some j db.runs (i, r) e, same_iff r.job_id j),
  )
]

-- the claim of a waiting run
claim_waiting :
    (i now j : ℕ) (db : Database) (r : AgentRun) (job : AnalysisJob)
    → lookup i db.runs ≡ some r
    → r.active ≡ true
    → r.status ≡ initializing
    → r.job_id ≡ j
    → lookup j db.jobs ≡ some job
    → job.status ≡ queued
    → ((claim i now db).1 ≡ true)
      × (lookup j (claim i now db).0.jobs ≡ some (record job { status = running; progress = 5 }))
unfolding claim
claim_waiting i now j db r job e a s o f q =
    ground (
      arith,
      lookup-insert db.jobs j (record job { status = running; progress = 5 }) j,
      same_iff j j,
    )

-- the run that holds the slot of a queued job has not been claimed
held_ready :
    (i j : ℕ) (db : Database) (r : AgentRun) (job : AnalysisJob)
    → DbInv db
    → lookup i db.runs ≡ some r
    → r.active ≡ true
    → r.job_id ≡ j
    → lookup j db.jobs ≡ some job
    → job.status ≡ queued
    → r.status ≡ initializing
held_ready i j db r job v e a o f q = ground (arith, v.ready i r e a)

-- Behind every history, on a database that was empty, of creations, starts, retries, reruns, cancellations
-- and resumptions by the job service, of claims and ends by the worker, and of status events of one row,
-- where new runs get new identifiers, a worker ends only a run that still holds its slot,
-- `apply_job_event` neither queues a job nor ends or begins its holding of a slot, and `apply_run_event`
-- neither closes a run that holds a slot nor moves one of a queued job, but for two of them in a row
-- that end a run and its job: a job that is queued has a
-- run that the worker's claim gets, and the claim sets the job running with a progress of 5.
pub queued_claimable :
    (steps : List Step) (job_id now : ℕ) (job : AnalysisJob)
    → lookup job_id (after empty steps).jobs ≡ some job
    → job.status ≡ queued
    → (run_id : ℕ) × ((claim run_id now (after empty steps)).1 ≡ true)
      × (lookup job_id (claim run_id now (after empty steps)).0.jobs
          ≡ some (record job { status = running; progress = 5 }))
queued_claimable steps j now job f q =
    let db = after empty steps in
    let v = after-Inv empty steps empty-Inv in
    let (i, r, e, a, o) = holder j db v (ground (arith, v.count j)) in
    let (c, l) = claim_waiting i now j db r job e a (held_ready i j db r job v e a o f q) o f q in
    (i, c, l)

lookup_inserted :
    {A : Type 0} (i : ℕ) (row : A) (rows : Items ℕ A) → lookup i (insert i row rows) ≡ some row
lookup_inserted i row rows = ground (arith, lookup-insert rows i row i, same_iff i i)

first_unique :
    (j i : ℕ) (r : AgentRun) (runs : Items ℕ AgentRun)
    → count_active j runs ≡ 0
    → lookup i runs ≡ none
    → is_unique j (insert i r runs) ≡ true
first_unique j i r runs c n = ground (arith, count_active-insert_new j i runs r n)

-- the transaction of a rerun of a job without an active run
rerun_idle :
    (w j : ℕ) (version : String) (d : Drawn) (db : Database) (job : AnalysisJob)
    → count_active j db.runs ≡ 0
    → find_job db w j ≡ ok job
    → can_rerun job.status ≡ true
    → lookup d.run_id db.runs ≡ none
    → rerun_job w j version d db
      ≡ ok (
        request_again db j job d.run_id (new_run j version d.now) d,
        run_started j d.run_id queued initializing,
      )
unfolding rerun_job
rerun_idle w j version d db job c f h n = elim (Option-cases (active_run j db.runs)) [
  | inl e ↦
      rw (f, h, e, first_unique j d.run_id (new_run j version d.now) db.runs c n, rerun_job) refl
  | inr (row, e) ↦ absurd (ground (arith, active_run-some j db.runs row e))
]

-- Behind every history, on a database that was empty, of creations, starts, retries, reruns, cancellations
-- and resumptions by the job service, of claims and ends by the worker, and of status events of one row,
-- where new runs get new identifiers, a worker ends only a run that still holds its slot,
-- `apply_job_event` neither queues a job nor ends or begins its holding of a slot, and `apply_run_event`
-- neither closes a run that holds a slot nor moves one of a queued job, but for two of them in a row
-- that end a run and its job: a job that the caller
-- may see and that is in a state that can be rerun, so a final one or one that waits for a review, is
-- rerun with every new identifier of a run: the transaction commits, the answer is that run, queued and
-- initializing, and the worker's claim of it succeeds on the database that was committed.
pub rerun_available :
    (steps : List Step) (workspace_id job_id now : ℕ) (version : String) (drawn : Drawn)
    (job : AnalysisJob)
    → find_job (after empty steps) workspace_id job_id ≡ ok job
    → can_rerun job.status ≡ true
    → lookup drawn.run_id (after empty steps).runs ≡ none
    → (next : Database) × (rerun_job workspace_id job_id version drawn (after empty steps)
        ≡ ok (next, run_started job_id drawn.run_id queued initializing))
      × ((claim drawn.run_id now next).1 ≡ true)
rerun_available steps w j now version d job f h n =
    let db = after empty steps in
    let v = after-Inv empty steps empty-Inv in
    let r = new_run j version d.now in
    let job2 = record job { status = queued; progress = 0 } in
    let next = request_again db j job d.run_id r d in
    let c = no_slots db v j job (find_job-lookup db w j job f) (ground arith) in
    (
      next,
      rerun_idle w j version d db job c f h n,
      (claim_waiting d.run_id now j next r job2 (lookup_inserted d.run_id r db.runs) refl refl refl
          (lookup_inserted j job2 db.jobs) refl).0,
    )
