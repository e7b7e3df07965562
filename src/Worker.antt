-- ===== src/Worker.antt =====
-- `RuntimeWorker` of apps/worker/runtime.py, as far as it changes jobs and runs: the claim of a run,
-- its end, by a result or by an exception, and its resumption. A `KeyError` of a missing row does not occur.
use evidenceclass_agent.Base.{
  ℕ, String, Bool, true, false, ◌&&◌, Option, none, some, ℕ_eq, if◌then◌else◌,
}
use evidenceclass_agent.Base.Dict.{lookup}
use evidenceclass_agent.Lifecycle.Job.{
  JobState, queued, running, needs_review, succeeded, cancelled,
}
use evidenceclass_agent.Lifecycle.Run.{
  AgentRunState, initializing, inspecting, waiting_human, executing, completed, errored,
}
use evidenceclass_agent.Agent.State.{FinalStatus, budget_exceeded}
use evidenceclass_agent.Persistence.Tables.{AnalysisJob, AgentRun, Database}
use evidenceclass_agent.Persistence.Jobs.{set_job, set_run}

-- the answers of the worker
pub data Status : Type 0 where
  skipped missing missing_job is_cancelled : Status
  finished : AgentRunState → JobState → Status
  run_errored : Status

abbrev pub is_cancelled_job : JobState → Bool
is_cancelled_job cancelled = true
is_cancelled_job _ = false

abbrev pub is_queued : JobState → Bool
is_queued queued = true
is_queued _ = false

abbrev pub is_initializing : AgentRunState → Bool
is_initializing initializing = true
is_initializing _ = false

-- a run that ends without its slot
abbrev pub closed : AgentRun → AgentRunState → ℕ → AgentRun
closed run status now = record run { status = status; active = false; updated_at = now }

abbrev pub claim_job : Database → ℕ → AgentRun → Option AnalysisJob → ℕ → Database × Bool
claim_job db run_id run none now = (set_run db run_id (closed run errored now), false)
claim_job db run_id run (some job) now =
    if is_cancelled_job job.status
    then (set_run db run_id (closed run errored now), false)
    else if is_initializing run.status && is_queued job.status
    then (
      set_run (set_job db run.job_id (record job { status = running; progress = 5 })) run_id
          (record run { status = inspecting; updated_at = now }),
      true,
    )
    else (db, false)

-- `_claim`: whether the run is the worker's
unfoldable pub claim : (run_id now : ℕ) → Database → Database × Bool
claim run_id now db = elim (lookup run_id db.runs) [
  | none ↦ (db, false)
  | some run ↦
      if run.active then claim_job db run_id run (lookup run.job_id db.jobs) now else (db, false)
]

-- the three ways in which a result ends a run
pub data Kind : Type 0 where
  publishes needs_human fails : Kind

-- the tests on `state.final_status` and `state.requires_review`
abbrev pub kind_of : Option FinalStatus → Bool → Kind
kind_of (some FinalStatus.succeeded) requires_review = publishes
kind_of (some FinalStatus.needs_review) requires_review = needs_human
kind_of (some FinalStatus.failed) requires_review = if requires_review then needs_human else fails
kind_of (some budget_exceeded) requires_review = if requires_review then needs_human else fails
kind_of none requires_review = if requires_review then needs_human else fails

abbrev pub run_status : Kind → AgentRunState
run_status publishes = completed
run_status needs_human = waiting_human
run_status fails = errored

abbrev error_of : Option FinalStatus → Option String
error_of (some budget_exceeded) = some "BUDGET_EXCEEDED"
error_of (some FinalStatus.failed) = some "FAILED"
error_of _ = some "AGENT_RUN_FAILED"

abbrev pub job_after : AnalysisJob → Kind → Option FinalStatus → AnalysisJob
job_after job publishes final = record job { status = succeeded; progress = 100 }
job_after job needs_human final = record job { status = needs_review; progress = 80 }
job_after job fails final = record job {
  status = JobState.failed;
  progress = 100;
  error_code = error_of final;
}

-- `_finish`
unfoldable pub finish : (run_id now : ℕ) → Option FinalStatus → Bool → Database → Database × Status
finish run_id now final requires_review db = elim (lookup run_id db.runs) [
  | none ↦ (db, missing)
  | some run ↦ elim (lookup run.job_id db.jobs) [
    | none ↦ (db, missing_job)
    | some job ↦
        if is_cancelled_job job.status
        then (set_run db run_id (closed run errored now), is_cancelled)
        else (let kind = kind_of final requires_review in
            let next = job_after job kind final in
            (
              set_run (set_job db run.job_id next) run_id (closed run (run_status kind) now),
              finished (run_status kind) next.status,
            ))
  ]
]

-- the row of the job after `_fail`
abbrev pub failed_job : AnalysisJob → String → AnalysisJob
failed_job job code =
    if is_cancelled_job job.status
    then job
    else record job { status = JobState.failed; progress = 100; error_code = some code }

-- `_fail`
unfoldable pub fail : (run_id now : ℕ) → String → Database → Database × Status
fail run_id now code db = elim (lookup run_id db.runs) [
  | none ↦ (db, missing)
  | some run ↦ elim (lookup run.job_id db.jobs) [
    | none ↦ (set_run db run_id (closed run errored now), run_errored)
    | some job ↦ (
      set_run (set_job db run.job_id (failed_job job code)) run_id (closed run errored now),
      run_errored,
    )
  ]
]

-- what the run of the graph ends with: its final state, or the name of an exception
pub data Ending : Type 0 where
  returned : Option FinalStatus → (requires_review : Bool) → Ending
  raised : String → Ending

-- the end of `run` and of `resume`
unfoldable pub end_run : (run_id now : ℕ) → Ending → Database → Database × Status
unfolding finish fail
end_run run_id now (returned final requires_review) db = finish run_id now final requires_review db
end_run run_id now (raised code) db = fail run_id now code db

-- `run`: `now` is when the run is claimed, and `later` when it ends
unfoldable pub run : (run_id now later : ℕ) → Ending → Database → Database × Status
unfolding claim end_run
run run_id now later ending db =
    let (claimed, mine) = claim run_id now db in
    if mine then end_run run_id later ending claimed else (claimed, skipped)

abbrev pub is_executing : AgentRunState → Bool
is_executing executing = true
is_executing _ = false

abbrev pub is_running : JobState → Bool
is_running running = true
is_running _ = false

-- `resume`
unfoldable pub resume : (run_id now : ℕ) → Ending → Database → Database × Status
unfolding end_run
resume run_id now ending db = elim (lookup run_id db.runs) [
  | none ↦ (db, missing)
  | some found ↦ elim (lookup found.job_id db.jobs) [
    | none ↦ (db, missing_job)
    | some job ↦
        if is_executing found.status && is_running job.status
        then end_run run_id now ending db
        else (db, skipped)
  ]
]
