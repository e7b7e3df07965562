-- ===== src/Lifespan/Examples.antt =====
-- Histories of packages/persistence/jobs.py and apps/worker/runtime.py at concrete transactions.
use evidenceclass_agent.Base.{ℕ, ◌≡◌, refl, true, false, Option, none, some, List, [], ◌∷◌, ℕ_eq}
use evidenceclass_agent.Base.Dict.{lookup, insert}
use evidenceclass_agent.Base.Outcome.{ok}
use evidenceclass_agent.Agent.State.{FinalStatus}
use evidenceclass_agent.Lifecycle.Job.{
  JobState, JobEvent, queued, running, needs_review, job_transition,
}
use evidenceclass_agent.Lifecycle.Run.{
  AgentRunEvent, initializing, waiting_human, agent_run_transition,
}
use evidenceclass_agent.Persistence.Tables.{
  AnalysisJob, Database, Drawn, Result, err, count_active, active_run, latest,
}
use evidenceclass_agent.Persistence.Jobs.{
  create_job, start_job, retry_job, rerun_job, cancel_job, stop_runs, run_started,
}
use evidenceclass_agent.Worker
use evidenceclass_agent.Worker.{claim, finish, fail}
use evidenceclass_agent.Lifespan.{
  Step, create, start, retry, rerun, cancel, claims, finishes, fails, empty, step, settle, after,
  job_event, run_event, both_events,
}
use evidenceclass_agent.Lifespan.Invariant.{slots_of}
use evidenceclass_agent.Persistence.Jobs.Decisions.{
  Resumption, apply_job_event, apply_run_event, resume_after_review,
}
use evidenceclass_agent.Lifecycle.Decision.{approved}
use evidenceclass_agent.Lifespan.Approved.{IsEnded, resume-IsEnded}
use evidenceclass_agent.Lifespan.Queue.{slot_of_job, queued_claimable, rerun_available}

abbrev drawn_at : ℕ → ℕ → Drawn
drawn_at run_id now = record { run_id = run_id; event_id = now; now = now }

-- a job whose first attempt fails, and that is asked for again
abbrev retried : List Step
retried =
    create 1 "image" 4
    ∷ start 1 4 (drawn_at 10 1)
    ∷ claims 10 2
    ∷ fails 10 3 "TIMEOUT"
    ∷ retry 1 4 (drawn_at 0 5)
    ∷ []

-- its second attempt succeeds, and a cancellation comes too late
abbrev succeeded : List Step
succeeded =
    create 1 "image" 4
    ∷ start 1 4 (drawn_at 10 1)
    ∷ claims 10 2
    ∷ finishes 10 3 (some FinalStatus.succeeded) false
    ∷ cancel 1 4 6
    ∷ []

abbrev queued_job : AnalysisJob
queued_job = record {
  workspace_id = 1;
  mode = "image";
  status = queued;
  progress = 0;
  error_code = some "TIMEOUT";
  is_deleted = false;
}

abbrev succeeded_job : AnalysisJob
succeeded_job = record queued_job { status = JobState.succeeded; progress = 100; error_code = none }

slot_of_job_example :
    count_active 4 (after empty retried).runs ≡ slots_of (lookup 4 (after empty retried).jobs)
slot_of_job_example = slot_of_job retried 4

queued_claimable_example :
    (run_id : ℕ) × ((claim run_id 9 (after empty retried)).1 ≡ true)
    × (lookup 4 (claim run_id 9 (after empty retried)).0.jobs
        ≡ some (record queued_job { status = running; progress = 5 }))
unfolding lookup insert after step create_job start_job active_run job_transition count_active claim
    retry_job fail latest
queued_claimable_example = queued_claimable retried 4 9 queued_job refl refl

rerun_available_example :
    (next : Database) × (rerun_job 1 4 "v2" (drawn_at 11 7) (after empty succeeded)
      ≡ ok (next, run_started 4 11 queued initializing))
    × ((claim 11 8 next).1 ≡ true)
unfolding lookup insert after step create_job start_job active_run job_transition count_active claim
    finish cancel_job stop_runs
rerun_available_example =
    rerun_available succeeded 1 4 8 "v2" (drawn_at 11 7) succeeded_job refl refl refl

-- a run whose job is cancelled and rerun while its worker is still busy
abbrev overtaken : List Step
overtaken =
    create 1 "image" 4
    ∷ start 1 4 (drawn_at 10 1)
    ∷ claims 10 2
    ∷ cancel 1 4 3
    ∷ rerun 1 4 (drawn_at 11 5)
    ∷ []

abbrev late : Database
late = (finish 10 6 (some FinalStatus.succeeded) false (after empty overtaken)).0

-- the late result ends the job, whose new run stays active and cannot be claimed
late_finish :
    (lookup 4 late.jobs ≡ some succeeded_job)
    × (count_active 4 late.runs ≡ 1)
    × ((claim 11 7 late).1 ≡ false)
unfolding lookup insert after step create_job start_job active_run job_transition count_active claim
    finish cancel_job stop_runs rerun_job
late_finish = (refl, refl, refl)

-- a job that waits for its reviewer, who has approved it
abbrev waiting : Database
waiting = record {
  jobs = (4, record queued_job { status = needs_review; progress = 80 }) ∷ [];
  runs =
      (
        10,
        record {
          job_id = 4;
          graph_version = "v1";
          status = waiting_human;
          active = false;
          created_at = 1;
          updated_at = 3;
        },
      )
      ∷ [];
  outbox = [];
  reviews =
      (20, record { job_id = 4; is_decided = true; decision = some approved; updated_at = 5 }) ∷ [];
}

-- the database behind the approval, of which nothing is asked but what the theorem says
abbrev behind_approval : Result (Database × Option Resumption) → Database
behind_approval (ok (db, answer)) = db
behind_approval (err error) = waiting

abbrev resumption : Resumption
resumption = record { job_id = 4; run_id = 10; resumed = true }

resume-IsEnded_example :
    (Worker.resume 10 9
        (Worker.returned (some FinalStatus.succeeded) false)
        (behind_approval (resume_after_review 1 20 approved (drawn_at 10 6) waiting))
      ≡ Worker.end_run 10 9
          (Worker.returned (some FinalStatus.succeeded) false)
          (behind_approval (resume_after_review 1 20 approved (drawn_at 10 6) waiting)))
    × IsEnded
        (Worker.resume 10 9
          (Worker.returned (some FinalStatus.succeeded) false)
          (behind_approval (resume_after_review 1 20 approved (drawn_at 10 6) waiting))).0
        resumption
unfolding resume_after_review latest lookup insert job_transition agent_run_transition count_active
resume-IsEnded_example =
    resume-IsEnded waiting
      (behind_approval (resume_after_review 1 20 approved (drawn_at 10 6) waiting)) 1 20 approved
      (drawn_at 10 6) resumption 9 (Worker.returned (some FinalStatus.succeeded) false) (refl, tt)
      refl refl

-- The bare event START queues a job that no run holds a slot for.
bare_start :
    (count_active 4
        (settle
          (after empty (create 1 "image" 4 ∷ []))
          (apply_job_event 1 4 JobEvent.start none (after empty (create 1 "image" 4 ∷ [])))).runs
      ≡ 0)
    × (slots_of (
          lookup 4
            (settle (after empty (create 1 "image" 4 ∷ [])) (
              apply_job_event 1 4 JobEvent.start none
                (after empty (create 1 "image" 4 ∷ [])))).jobs)
        ≡ 1)
unfolding after step create_job apply_job_event lookup insert count_active job_transition
bare_start = (refl, refl)

abbrev started : List Step
started = create 1 "image" 4 ∷ start 1 4 (drawn_at 10 1) ∷ []

-- The bare event CANCEL leaves the run of a job its slot.
bare_cancel :
    (count_active 4
        (settle
          (after empty started)
          (apply_job_event 1 4 JobEvent.cancel none (after empty started))).runs
      ≡ 1)
    × (slots_of (
          lookup 4
            (settle
              (after empty started)
              (apply_job_event 1 4 JobEvent.cancel none (after empty started))).jobs)
        ≡ 0)
unfolding after step create_job start_job apply_job_event lookup insert count_active active_run
    job_transition
bare_cancel = (refl, refl)

-- the calls of the acceptance harness
abbrev harness : List Step
harness =
    create 1 "image" 4
    ∷ start 1 4 (drawn_at 10 1)
    ∷ job_event 1 4 JobEvent.worker_started none
    ∷ run_event 10 2 AgentRunEvent.inspect none
    ∷ run_event 10 3 AgentRunEvent.plan none
    ∷ run_event 10 4 AgentRunEvent.execute none
    ∷ run_event 10 5 AgentRunEvent.verify none
    ∷ both_events 10 6 AgentRunEvent.complete 1 JobEvent.succeed
    ∷ []

-- Each of its calls happens: the job has succeeded, and its run has given its slot back.
harness_ends :
    (lookup 4 (after empty harness).jobs
      ≡ some (record succeeded_job { progress = 0; error_code = none }))
    × (count_active 4 (after empty harness).runs ≡ 0)
unfolding after step create_job start_job apply_job_event apply_run_event lookup insert count_active
    active_run job_transition agent_run_transition
harness_ends = (refl, refl)
