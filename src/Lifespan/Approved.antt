-- ===== src/Lifespan/Approved.antt =====
-- From an approved review to the end of the run: packages/persistence/jobs.py and apps/worker/runtime.py.
use mathlib.Core.Path.{subst}
use evidenceclass_agent.Base.{
  ℕ, ◌≡◌, refl, sym, true, false, ◌&&◌, Option, none, some, arith, ℕ_eq, inl, inr, Bool-cases,
  Option-cases,
}
use evidenceclass_agent.Base.Dict.{lookup, lookup-insert_self}
use evidenceclass_agent.Base.Outcome.{Outcome-cases}
use evidenceclass_agent.Lifecycle.Decision.{
  ReviewDecision, approved, modified, rejected, materials_requested, is_approving,
}
use evidenceclass_agent.Lifecycle.Job.{running, review_approved, review_rejected}
use evidenceclass_agent.Lifecycle.Run.{
  AgentRunState, executing, errored, resume, agent_run_transition,
}
use evidenceclass_agent.Persistence.Tables.{
  AnalysisJob, AgentRun, Database, Drawn, ok, latest, resume_requested,
}
use evidenceclass_agent.Persistence.Tables.Queries.{IsTable, latest-lookup}
use evidenceclass_agent.Persistence.Jobs.{
  move_job, move_run, add_event, set_run, set_job, request_event,
}
use evidenceclass_agent.Persistence.Jobs.Decisions.{
  Resumption, resume_run, decide_run, find_item, is_same, is_needs_review, is_waiting,
  resume_after_review,
}
use evidenceclass_agent.Agent.State.{FinalStatus}
use evidenceclass_agent.Lifespan.Resumes.{approved_running}
use evidenceclass_agent.Worker
use evidenceclass_agent.Worker.{
  is_cancelled_job, Kind, publishes, needs_human, fails, Ending, returned, raised, finish, fail,
  kind_of, job_after, run_status, closed, failed_job, end_run, is_running, is_executing,
}

resumed_executing :
    (status next : AgentRunState) (decision : ReviewDecision)
    → is_waiting status ≡ true
    → is_approving (some decision) ≡ true
    → move_run status resume (some decision) ≡ ok next
    → next ≡ executing
unfolding agent_run_transition
resumed_executing status next decision w a m = ground arith

-- The run and its job as a worker finds them behind an approval.
record IsReady (db : Database) (r : Resumption) : Type 0 where
  run : AgentRun
  job : AnalysisJob
  run_found : lookup r.run_id db.runs ≡ some run
  job_found : lookup r.job_id db.jobs ≡ some job
  of_job : run.job_id ≡ r.job_id
  is_started : run.status ≡ executing
  is_begun : job.status ≡ running

IsReady-found :
    (db : Database) (r : Resumption) (ready : IsReady db r)
    → lookup ready.run.job_id db.jobs ≡ some ready.job
IsReady-found db r ready =
    subst (λ j. lookup j db.jobs ≡ some ready.job) (sym ready.of_job) ready.job_found

module _ (db : Database) (j i : ℕ) (job : AnalysisJob) (run : AgentRun) (of_job : run.job_id ≡ j)
    (waits : is_waiting run.status ≡ true) (behind : Database) (r : Resumption) where
  resume_run-IsReady :
      (decision : ReviewDecision) (d : Drawn)
      → is_approving (some decision) ≡ true
      → resume_run db j job i run decision d ≡ ok (behind, some r)
      → IsReady behind r
  resume_run-IsReady decision d a e =
      elim (Outcome-cases (move_job job.status review_approved (some decision))) [
        | inr (error, thrown) ↦ absurd (ground arith)
        | inl (next_job, moved) ↦
            elim (Outcome-cases (move_run run.status resume (some decision))) [
              | inr (error, thrown) ↦ absurd (ground arith)
              | inl (next_run, went) ↦
                  let begun = record job { status = next_job } in
                  let started = record run {
                    status = next_run;
                    active = true;
                    updated_at = d.now;
                  } in
                  let target =
                    add_event (set_run (set_job db j begun) i started) d.event_id
                      (request_event resume_requested i j d.now) in
                  let same : behind ≡ target = ground arith in
                  let of_run : r.run_id ≡ i = ground arith in
                  let of_this : r.job_id ≡ j = ground arith in
                  record {
                    run = started;
                    job = begun;
                    run_found = rw (same, of_run) (lookup-insert_self i started db.runs);
                    job_found = rw (same, of_this) (lookup-insert_self j begun db.jobs);
                    of_job = rw of_this of_job;
                    is_started = resumed_executing run.status next_run decision waits a went;
                    is_begun = approved_running job.status next_job (some decision) moved;
                  }
            ]
      ]

  decide_run-IsReady :
      (decision : ReviewDecision) (d : Drawn)
      → decide_run db j job i run decision d ≡ ok (behind, some r)
      → r.resumed ≡ true
      → IsReady behind r
  decide_run-IsReady approved d e goes_on = resume_run-IsReady approved d refl e
  decide_run-IsReady modified d e goes_on = resume_run-IsReady modified d refl e
  decide_run-IsReady rejected d e goes_on =
      elim (Outcome-cases (move_job job.status review_rejected none)) [
        | inr (error, thrown) ↦ absurd (ground arith)
        | inl (next_job, moved) ↦
            elim (Outcome-cases (move_run run.status resume (some rejected))) [
              | inr (error, thrown) ↦ absurd (ground arith)
              | inl (next_run, went) ↦ absurd (ground arith)
            ]
      ]
  decide_run-IsReady materials_requested d e goes_on = absurd (ground arith)

resume_after_review-IsReady :
    (db behind : Database) (w review : ℕ) (decision : ReviewDecision) (d : Drawn) (r : Resumption)
    → IsTable db.runs
    → resume_after_review w review decision d db ≡ ok (behind, some r)
    → r.resumed ≡ true
    → IsReady behind r
unfolding resume_after_review
resume_after_review-IsReady db behind w review decision d r table e goes_on =
    elim (Option-cases (find_item db w review (is_same decision))) [
      | inl unknown ↦ absurd (ground arith)
      | inr ((j, job), known) ↦ elim (Option-cases (latest (λ run. run.updated_at) j db.runs)) [
        | inl no_run ↦ absurd (ground arith)
        | inr ((i, run), found) ↦
            let (held, of_job) = latest-lookup (λ x. x.updated_at) j db.runs i run table found in
            elim (Bool-cases (is_needs_review job.status && is_waiting run.status)) [
              | inr stays ↦ absurd (ground arith)
              | inl waits ↦
                  decide_run-IsReady db j i job run of_job (ground arith) behind r decision d
                    (ground arith) goes_on
            ]
      ]
    ]

-- the worker's end of a run leaves its job behind
abbrev pub IsEnded : Database → Resumption → Type 0
IsEnded db r =
    (job : AnalysisJob) × (run : AgentRun) × (lookup r.job_id db.jobs ≡ some job)
    × (lookup r.run_id db.runs ≡ some run)
    × (is_running job.status ≡ false)
    × (run.active ≡ false)

job_after-is_running :
    (job : AnalysisJob) (kind : Kind) (final : Option FinalStatus)
    → is_running (job_after job kind final).status ≡ false
job_after-is_running job publishes final = refl
job_after-is_running job needs_human final = refl
job_after-is_running job fails final = refl

-- the rows that an end writes
written-IsEnded :
    (db : Database) (r : Resumption) (ready : IsReady db r) (next : AnalysisJob) (last : AgentRun)
    → is_running next.status ≡ false
    → last.active ≡ false
    → IsEnded (set_run (set_job db ready.run.job_id next) r.run_id last) r
written-IsEnded db r ready next last stopped closes = (
  next,
  last,
  rw ready.of_job (lookup-insert_self r.job_id next db.jobs),
  lookup-insert_self r.run_id last db.runs,
  stopped,
  closes,
)

end_run-IsEnded :
    (db : Database) (r : Resumption) (now : ℕ) (ending : Ending)
    → IsReady db r
    → IsEnded (end_run r.run_id now ending db).0 r
unfolding end_run finish fail
end_run-IsEnded db r now ending ready = by_ending ending
  where
    alive : is_cancelled_job ready.job.status ≡ false
    alive = rw ready.is_begun refl

    by_ending : (ending : Ending) → IsEnded (end_run r.run_id now ending db).0 r
    by_ending (returned final requires_review) =
        let kind = kind_of final requires_review in
        let next = job_after ready.job kind final in
        let last = closed ready.run (run_status kind) now in
        let e : (finish r.run_id now final requires_review db).0
            ≡ set_run (set_job db ready.run.job_id next) r.run_id last =
          rw (ready.run_found, IsReady-found db r ready, alive, finish) refl in
        rw e (written-IsEnded db r ready next last (job_after-is_running ready.job kind final) refl)
    by_ending (raised code) =
        let next = failed_job ready.job code in
        let last = closed ready.run errored now in
        let e : (fail r.run_id now code db).0
            ≡ set_run (set_job db ready.run.job_id next) r.run_id last =
          rw (ready.run_found, IsReady-found db r ready, fail) refl in
        rw e (written-IsEnded db r ready next last (rw (alive, failed_job) refl) refl)

-- Where the identifiers of the runs are unique and `resume_after_review` answers that a run is resumed:
-- the worker's `resume` of this run is not skipped, and however the graph ends, by a state or by an
-- exception, the job is then no longer RUNNING and the run has given its slot back.
pub resume-IsEnded :
    (db behind : Database) (workspace_id review_id : ℕ) (decision : ReviewDecision) (drawn : Drawn)
    (r : Resumption) (now : ℕ) (ending : Ending)
    → IsTable db.runs
    → resume_after_review workspace_id review_id decision drawn db ≡ ok (behind, some r)
    → r.resumed ≡ true
    → (Worker.resume r.run_id now ending behind ≡ end_run r.run_id now ending behind)
      × IsEnded (Worker.resume r.run_id now ending behind).0 r
unfolding Worker.resume
resume-IsEnded db behind w review decision d r now ending table e goes_on =
    let ready = resume_after_review-IsReady db behind w review decision d r table e goes_on in
    let same : Worker.resume r.run_id now ending behind ≡ end_run r.run_id now ending behind =
      rw
        (
          ready.run_found,
          IsReady-found behind r ready,
          ready.is_started,
          ready.is_begun,
          Worker.resume,
        )
        refl in
    (same, rw same (end_run-IsEnded behind r now ending ready))
