-- ===== src/Persistence/Jobs/Race.antt =====
-- Two concurrent calls of `start` of packages/persistence/jobs.py.
use evidenceclass_agent.Base.{
  ℕ, ◌≡◌, refl, ◌∙◌, String, true, none, some, [], ◌∷◌, arith, if◌then◌else◌, ℕ_eq, same_iff,
}
use evidenceclass_agent.Base.Dict.{Items, lookup, insert, lookup-insert}
use evidenceclass_agent.Lifecycle.Job.{JobState, created, queued, start, job_transition}
use evidenceclass_agent.Lifecycle.Run.{initializing}
use evidenceclass_agent.Persistence.Tables.{
  AnalysisJob, AgentRun, Database, run_requested, Drawn, ok, holds_slot, count_active, active_run,
  is_unique,
}
use evidenceclass_agent.Persistence.Tables.Queries.{count_active-insert_new, active_run-none}
use evidenceclass_agent.Persistence.Jobs.{
  run_started, find_job, start_job, claim_start, lost_claim, new_run, set_job, set_run, add_event,
  request_event, move_job, is_created,
}

active_run-insert :
    (j i : ℕ) (r : AgentRun) (runs : Items ℕ AgentRun)
    → active_run j runs ≡ none
    → lookup i runs ≡ none
    → holds_slot j r ≡ true
    → active_run j (insert i r runs) ≡ some (i, r)
unfolding active_run lookup insert
active_run-insert j i r [] h n a = ground arith
active_run-insert j i r ((k, s) ∷ runs) h n a = ground (arith, active_run-insert j i r runs)

new_unique :
    (j i : ℕ) (r : AgentRun) (runs : Items ℕ AgentRun)
    → active_run j runs ≡ none
    → lookup i runs ≡ none
    → is_unique j (insert i r runs) ≡ true
new_unique j i r runs h n =
    ground (arith, count_active-insert_new j i runs r n, active_run-none j runs h)

-- what a start commits for a job that it finds created, without an active run
abbrev pub started : Database → ℕ → AnalysisJob → String → Drawn → Database
started db job_id job graph_version drawn =
    add_event
      (set_run (set_job db job_id (record job { status = queued })) drawn.run_id
        (new_run job_id graph_version drawn.now))
      drawn.event_id (request_event run_requested drawn.run_id job_id drawn.now)

lookup_inserted :
    {A : Type 0} (i : ℕ) (row : A) (rows : Items ℕ A) → lookup i (insert i row rows) ≡ some row
lookup_inserted i row rows = ground (arith, lookup-insert rows i row i, same_iff i i)

created_starts :
    (status : JobState)
    → status ≡ created
    → (is_created status ≡ true) × (move_job status start none ≡ ok queued)
unfolding job_transition
created_starts status e = ground arith

module _ (db : Database) (w j : ℕ) (job : AnalysisJob) (found : find_job db w j ≡ ok job)
    (new : job.status ≡ created) (idle : active_run j db.runs ≡ none) where
  stored : lookup j db.jobs ≡ some job
  stored = ground arith

  -- behind the queries, a start is its conditional update
  start_claims :
      (version : String) (d : Drawn) (next : Database)
      → start_job w j version d db next ≡ claim_start next j queued version d
  unfolding start_job
  start_claims version d next =
      let (c, m) = created_starts job.status new in rw (found, idle, c, m) refl

  first_start :
      (version : String) (d : Drawn)
      → lookup d.run_id db.runs ≡ none
      → claim_start db j queued version d
        ≡ ok (started db j job version d, run_started j d.run_id queued initializing)
  first_start version d n =
      rw
        (
          stored,
          (created_starts job.status new).0,
          new_unique j d.run_id (new_run j version d.now) db.runs idle n,
          claim_start,
        )
        refl

  second_start :
      (first second : String) (d e : Drawn)
      → lookup d.run_id db.runs ≡ none
      → claim_start (started db j job first d) j queued second e
        ≡ ok (started db j job first d, run_started j d.run_id queued initializing)
  second_start first second d e n =
      rw
        (
          lookup_inserted j (record job { status = queued }) db.jobs,
          active_run-insert j d.run_id (new_run j first d.now) db.runs idle n
              (ground (arith, same_iff j j)),
          claim_start,
          lost_claim,
          if◌then◌else◌,
        )
        refl

-- Two calls of `start` for one job, which may come from different requests, both make their queries
-- while the job is created and has no active run. The first one to update the row creates its run and
-- queues the job; the other one, whose update then finds the job queued, commits no change and answers
-- with the run of the first, not with its own. The first call's identifier of a run is new.
pub start_race :
    (db : Database) (workspace_id job_id : ℕ) (job : AnalysisJob) (first second : String)
    (drawn other : Drawn)
    → find_job db workspace_id job_id ≡ ok job
    → job.status ≡ created
    → active_run job_id db.runs ≡ none
    → lookup drawn.run_id db.runs ≡ none
    → (next : Database) × (start_job workspace_id job_id first drawn db db
        ≡ ok (next, run_started job_id drawn.run_id queued initializing))
      × (start_job workspace_id job_id second other db next
          ≡ ok (next, run_started job_id drawn.run_id queued initializing))
      × (lookup drawn.run_id next.runs ≡ some (new_run job_id first drawn.now))
      × (count_active job_id next.runs ≡ 1)
start_race db w j job first second d e found new idle n =
    let next = started db j job first d in
    (
      next,
      start_claims db w j job found new idle first d db
          ∙ first_start db w j job found new idle first d n,
      start_claims db w j job found new idle second e next
          ∙ second_start db w j job found new idle first second d e n,
      lookup_inserted d.run_id (new_run j first d.now) db.runs,
      ground (
        arith,
        count_active-insert_new j d.run_id db.runs (new_run j first d.now) n,
        active_run-none j db.runs idle,
        same_iff j j,
      ),
    )
