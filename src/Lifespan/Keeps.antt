-- ===== src/Lifespan/Keeps.antt =====
-- Each transaction of the job service and of the worker keeps what ties jobs to runs.
use evidenceclass_agent.Base.{
  ℕ, ◌≡◌, refl, String, true, false, not, none, some, arith, ℕ_eq, same_iff,
}
use evidenceclass_agent.Base.Dict.{lookup}
use evidenceclass_agent.Lifecycle.Job.{JobState, start, queued, job_transition}
use evidenceclass_agent.Lifecycle.Run.{initializing}
use evidenceclass_agent.Persistence.Tables.{
  AnalysisJob, AgentRun, Database, Drawn, ok, value_error, count_active, active_run, latest,
}
use evidenceclass_agent.Persistence.Tables.Queries.{
  count_active-lookup, active_run-none, latest-lookup,
}
use evidenceclass_agent.Persistence.Jobs.{
  move_job, is_mode, find_job, create_job, start_job, claim_start, lost_claim, add_run, is_created,
  retry_job, rerun_job, is_failed, can_rerun, new_run,
}
use evidenceclass_agent.Persistence.Tables.Safe.{
  Safe, raises, commits, Safe-raise_if, Safe->>=, Safe-if, Safe-elim, Safe-commit,
}
use evidenceclass_agent.Lifespan.Invariant.{DbInv, slots_of, write-Inv, create-Inv}

pub find_job-lookup :
    (db : Database) (w j : ℕ) (job : AnalysisJob)
    → find_job db w j ≡ ok job
    → lookup j db.jobs ≡ some job
find_job-lookup db w j job h = ground arith

next_queued :
    (status next : JobState)
    → not (is_created status) ≡ false
    → move_job status start none ≡ ok next
    → next ≡ queued
unfolding job_transition
next_queued status next b m = ground arith

pub create_job-Inv :
    (db : Database) (w : ℕ) (mode : String) (j : ℕ)
    → lookup j db.jobs ≡ none
    → DbInv db
    → Safe DbInv (create_job w mode j db)
unfolding create_job
create_job-Inv db w mode j e v =
    Safe-raise_if (not (is_mode mode)) value_error _ (λ n. commits _ _ (create-Inv v j _ e refl))

module _ (db : Database) (v : DbInv db) where
  -- a new run of a job without an active one
  add_run-Inv :
      (j : ℕ) (job : AnalysisJob) (version : String) (d : Drawn)
      → lookup d.run_id db.runs ≡ none
      → count_active j db.runs ≡ 0
      → Safe DbInv (add_run db j job queued version d)
  add_run-Inv j job version d n c = Safe-commit j _ _ (
      write-Inv v j d.run_id (record job { status = queued }) (new_run j version d.now) refl
        (rw n tt) (rw n (omega (arith, c))) (λ q. (c, λ a. refl)))

  -- an answer that changes nothing
  lost_claim-Inv : (j : ℕ) → Safe DbInv (lost_claim db j)
  lost_claim-Inv j = Safe-elim (active_run j db.runs) _ _ (λ e. raises _) (λ row e. commits _ _ v)

  claim_start-Inv :
      (j : ℕ) (version : String) (d : Drawn)
      → lookup d.run_id db.runs ≡ none
      → count_active j db.runs ≡ 0
      → Safe DbInv (claim_start db j queued version d)
  claim_start-Inv j version d n c =
      Safe-elim (lookup j db.jobs) _ _ (λ e. lost_claim-Inv j)
        (λ job e.
          Safe-if (is_created job.status) _ _ (λ b. add_run-Inv j job version d n c)
            (λ b. lost_claim-Inv j))

  pub start_job-Inv :
      (w j : ℕ) (version : String) (d : Drawn)
      → lookup d.run_id db.runs ≡ none
      → Safe DbInv (start_job w j version d db db)
  unfolding start_job
  start_job-Inv w j version d n = Safe->>= (find_job db w j) _ (λ job f.
      Safe-elim (active_run j db.runs) _ _
        (λ e. Safe-raise_if (not (is_created job.status)) value_error _ (λ b.
          Safe->>= (move_job job.status start none) _ (λ next m.
            rw (next_queued job.status next b m)
              (claim_start-Inv j version d n (active_run-none j db.runs e)))))
        (λ row e. commits _ _ v))

  -- a job in a state without a run
  pub no_slots :
      (j : ℕ) (job : AnalysisJob)
      → lookup j db.jobs ≡ some job
      → slots_of (some job) ≡ 0
      → count_active j db.runs ≡ 0
  no_slots j job e n = ground (arith, v.count j)

  pub idle_run :
      (j i : ℕ) (r : AgentRun)
      → lookup i db.runs ≡ some r
      → r.job_id ≡ j
      → count_active j db.runs ≡ 0
      → r.active ≡ false
  idle_run j i r e o c = ground (arith, count_active-lookup j i db.runs r e, same_iff r.job_id j)

  pub retry_job-Inv : (w j : ℕ) (d : Drawn) → Safe DbInv (retry_job w j d db)
  unfolding retry_job
  retry_job-Inv w j d = Safe->>= (find_job db w j) _ (λ job f.
      Safe-raise_if (not (is_failed job.status)) value_error _ (λ b.
        Safe-elim (latest (λ run. run.created_at) j db.runs) _ _ (λ e. raises _)
          (λ row e.
            let (known, o) =
              latest-lookup (λ run. run.created_at) j db.runs row.0 row.1 v.table e in
            let c = no_slots j job (find_job-lookup db w j job f) (ground arith) in
            Safe-commit j _ _ (
              write-Inv v j row.0 (record job { status = queued; progress = 0 })
                (record row.1 { status = initializing; active = true; updated_at = d.now }) o
                (rw known o) (rw (known, c, idle_run j row.0 row.1 known o c) refl)
                (λ q. (c, λ a. refl))))))

  pub rerun_job-Inv :
      (w j : ℕ) (version : String) (d : Drawn)
      → lookup d.run_id db.runs ≡ none
      → Safe DbInv (rerun_job w j version d db)
  unfolding rerun_job
  rerun_job-Inv w j version d n = Safe->>= (find_job db w j) _ (λ job f.
      Safe-raise_if (not (can_rerun job.status)) value_error _ (λ b.
        Safe-elim (active_run j db.runs) _ _
          (λ e.
            let c = active_run-none j db.runs e in
            Safe-commit j _ _ (
              write-Inv v j d.run_id (record job { status = queued; progress = 0 })
                (new_run j version d.now) refl (rw n tt) (rw n (omega (arith, c)))
                (λ q. (c, λ a. refl))))
          (λ row e. raises _)))
