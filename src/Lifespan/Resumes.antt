-- ===== src/Lifespan/Resumes.antt =====
-- The transaction that follows a review decision keeps what ties jobs to runs.
use evidenceclass_agent.Base.{
  ℕ, ◌≡◌, refl, Bool, true, false, ◌&&◌, Option, none, some, arith, ℕ_eq,
}
use evidenceclass_agent.Base.Dict.{lookup}
use evidenceclass_agent.Lifecycle.Decision.{
  ReviewDecision, approved, modified, rejected, materials_requested,
}
use evidenceclass_agent.Lifecycle.Job.{
  JobState, running, review_approved, review_rejected, job_transition,
}
use evidenceclass_agent.Lifecycle.Run.{resume}
use evidenceclass_agent.Persistence.Tables.{AnalysisJob, AgentRun, Database, Drawn, ok, latest}
use evidenceclass_agent.Persistence.Tables.Queries.{latest-lookup}
use evidenceclass_agent.Persistence.Tables.Safe.{
  Safe, raises, commits, Safe->>=, Safe-if, Safe-elim, Safe-commit,
}
use evidenceclass_agent.Persistence.Jobs.{move_job, move_run}
use evidenceclass_agent.Persistence.Jobs.Decisions.{
  resume_run, reject_run, decide_run, find_item, is_same, is_needs_review, is_waiting,
  resume_after_review,
}
use evidenceclass_agent.Lifespan.Invariant.{DbInv, slots_of, write-Inv}
use evidenceclass_agent.Lifespan.Keeps.{no_slots, idle_run}

find_item-lookup :
    (db : Database) (w i : ℕ) (same : ReviewDecision → Bool) (row : ℕ × AnalysisJob)
    → find_item db w i same ≡ some row
    → lookup row.0 db.jobs ≡ some row.1
find_item-lookup db w i same row h = ground arith

pub approved_running :
    (status next : JobState) (decision : Option ReviewDecision)
    → move_job status review_approved decision ≡ ok next
    → next ≡ running
unfolding job_transition
approved_running status next decision m = ground arith

rejected_failed :
    (status next : JobState)
    → move_job status review_rejected none ≡ ok next
    → next ≡ JobState.failed
unfolding job_transition
rejected_failed status next m = ground arith

module _ (db : Database) (v : DbInv db) (j i : ℕ) (job : AnalysisJob) (run : AgentRun) where
  module _ (known : lookup i db.runs ≡ some run) (of_job : run.job_id ≡ j)
      (e : lookup j db.jobs ≡ some job) (n : slots_of (some job) ≡ 0) where
    resume_run-Inv :
        (decision : ReviewDecision) (d : Drawn) → Safe DbInv (resume_run db j job i run decision d)
    resume_run-Inv decision d =
        let c = no_slots db v j job e n in
        Safe->>= (move_job job.status review_approved (some decision)) _ (λ next m.
          Safe->>= (move_run run.status resume (some decision)) _ (λ goes_on s. Safe-commit j _ _ (
            write-Inv v j i (record job { status = next })
              (record run { status = goes_on; active = true; updated_at = d.now }) of_job
              (rw known of_job)
              (rw
                (
                  known,
                  c,
                  idle_run db v j i run known of_job c,
                  approved_running job.status next (some decision) m,
                )
                refl)
              (λ q. absurd (ground (arith, approved_running job.status next (some decision) m))))))

    reject_run-Inv : (d : Drawn) → Safe DbInv (reject_run db j job i run d)
    reject_run-Inv d =
        let c = no_slots db v j job e n in
        Safe->>= (move_job job.status review_rejected none) _ (λ next m.
          Safe->>= (move_run run.status resume (some rejected)) _ (λ goes_on s. Safe-commit j _ _ (
            write-Inv v j i
              (record job { status = next; error_code = some "HUMAN_REVIEW_REJECTED" })
              (record run { status = goes_on; active = false; updated_at = d.now }) of_job
              (rw known of_job)
              (rw
                (known, c, idle_run db v j i run known of_job c, rejected_failed job.status next m)
                refl)
              (λ q. absurd (ground (arith, rejected_failed job.status next m))))))

    decide_run-Inv :
        (decision : ReviewDecision) (d : Drawn) → Safe DbInv (decide_run db j job i run decision d)
    decide_run-Inv approved d = resume_run-Inv approved d
    decide_run-Inv modified d = resume_run-Inv modified d
    decide_run-Inv rejected d = reject_run-Inv d
    decide_run-Inv materials_requested d = commits _ _ v

pub resume_after_review-Inv :
    (db : Database)
    → DbInv db
    → (w i : ℕ) (decision : ReviewDecision) (d : Drawn)
    → Safe DbInv (resume_after_review w i decision d db)
unfolding resume_after_review
resume_after_review-Inv db v w i decision d =
    Safe-elim (find_item db w i (is_same decision)) _ _ (λ e. raises _)
      (λ item e.
        Safe-elim (latest (λ run. run.updated_at) item.0 db.runs) _ _ (λ f. commits _ _ v)
          (λ row f.
            let (known, o) =
              latest-lookup (λ run. run.updated_at) item.0 db.runs row.0 row.1 v.table f in
            Safe-if (is_needs_review item.1.status && is_waiting row.1.status) _ _
              (λ b.
                decide_run-Inv db v item.0 row.0 item.1 row.1 known o
                  (find_item-lookup db w i (is_same decision) item e) (ground arith) decision d)
              (λ b. commits _ _ v)))
