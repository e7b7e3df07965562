-- ===== src/Persistence/Jobs.antt =====
-- `JobLifecycleService` of packages/persistence/jobs.py: the transactions of the job service. Inside
-- `start_job` the query may have read an earlier database than the one that the conditional update
-- finds, so it takes both. The transactions of create, start, retry and rerun are the operations that
-- the idempotency service runs.
pub mod Decisions
pub mod Race
use evidenceclass_agent.Base.{
  ℕ, ◌+◌, String, Bool, true, false, not, ◌&&◌, ◌||◌, Option, none, some, List, [], ◌∷◌,
  if◌then◌else◌, ◌==◌, ℕ_eq, String_eq, ltb,
}
use evidenceclass_agent.Base.Dict.{Items, lookup, insert}
use evidenceclass_agent.Base.Outcome.{Outcome}
use evidenceclass_agent.Lifecycle.Decision.{
  ReviewDecision, approved, modified, rejected, is_approving,
}
use evidenceclass_agent.Lifecycle.Job.{
  JobState, created, queued, needs_review, cancelled, JobEvent, start, review_approved,
  review_rejected, job_transition, is_final,
}
use evidenceclass_agent.Lifecycle.Run.{
  AgentRunState, initializing, completed, errored, waiting_human, AgentRunEvent, resume,
  agent_run_transition, is_closed,
}
use evidenceclass_agent.Persistence.Tables.{
  AnalysisJob, AgentRun, Topic, run_requested, resume_requested, pending, OutboxEvent, ReviewItem,
  Database, PersistenceError, resource_not_found, value_error, invalid_transition, Result, ok, err,
  ◌>>=◌, ◌>>◌, raise_if, Drawn, active_run, latest, commit,
}

-- the answer of create, and that of start, retry and rerun
pub data Response : Type 0 where
  job_created : (job_id : ℕ) → JobState → String → Response
  run_started : (job_id run_id : ℕ) → JobState → AgentRunState → Response

-- a job of the workspace that is not deleted
abbrev pub find_job : Database → (workspace_id job_id : ℕ) → Result AnalysisJob
find_job db workspace_id job_id = elim (lookup job_id db.jobs) [
  | none ↦ err resource_not_found
  | some job ↦
      if job.workspace_id == workspace_id && not job.is_deleted
      then ok job
      else err resource_not_found
]

abbrev pub request_event : Topic → ℕ → ℕ → ℕ → OutboxEvent
request_event topic run_id job_id now = record {
  topic = topic;
  aggregate_id = run_id;
  job_id = job_id;
  status = pending;
  attempts = 0;
  created_at = now;
  last_error = none;
  published_at = none;
}

-- `session.add(OutboxEvent(...))`
abbrev pub add_event : Database → ℕ → OutboxEvent → Database
add_event db event_id event = record db { outbox = insert event_id event db.outbox }

abbrev pub set_job : Database → ℕ → AnalysisJob → Database
set_job db job_id job = record db { jobs = insert job_id job db.jobs }

abbrev pub set_run : Database → ℕ → AgentRun → Database
set_run db run_id run = record db { runs = insert run_id run db.runs }

abbrev pub new_run : ℕ → String → ℕ → AgentRun
new_run job_id graph_version now = record {
  job_id = job_id;
  graph_version = graph_version;
  status = initializing;
  active = true;
  created_at = now;
  updated_at = now;
}

abbrev pub is_mode : String → Bool
is_mode mode = mode == "image" || mode == "video" || mode == "structured"

-- `create_job`: the check of the mode, and `create`
unfoldable pub create_job : ℕ → String → ℕ → Database → Result (Database × Response)
create_job workspace_id mode job_id db = do
  raise_if (not (is_mode mode)) value_error
  ok (
    set_job db job_id (record {
      workspace_id = workspace_id;
      mode = mode;
      status = created;
      progress = 0;
      error_code = none;
      is_deleted = false;
    }),
    job_created job_id created mode,
  )

-- a run that is active already is the answer
abbrev pub started_before : Database → ℕ → JobState → ℕ × AgentRun → Result (Database × Response)
started_before db job_id status row = ok (db, run_started job_id row.0 status row.1.status)

abbrev pub is_created : JobState → Bool
is_created created = true
is_created _ = false

-- `transition(JobState(job.status), event, review_decision=decision)`
abbrev pub move_job : JobState → JobEvent → Option ReviewDecision → Result JobState
move_job status event decision = elim (job_transition status event decision) [
  | ok next ↦ ok next
  | err e ↦ err invalid_transition
]

abbrev pub move_run : AgentRunState → AgentRunEvent → Option ReviewDecision → Result AgentRunState
move_run status event decision = elim (agent_run_transition status event decision) [
  | ok next ↦ ok next
  | err e ↦ err invalid_transition
]

-- the statements behind the conditional update, when it has changed the row
abbrev pub add_run :
    Database → ℕ → AnalysisJob → JobState → String → Drawn → Result (Database × Response)
add_run db job_id job next graph_version drawn =
    commit job_id
      (add_event
        (set_run (set_job db job_id (record job { status = next })) drawn.run_id
          (new_run job_id graph_version drawn.now))
        drawn.event_id (request_event run_requested drawn.run_id job_id drawn.now))
      (run_started job_id drawn.run_id next initializing)

-- those behind an update that found the job in another state
abbrev pub lost_claim : Database → ℕ → Result (Database × Response)
lost_claim db job_id = elim (active_run job_id db.runs) [
  | none ↦ err value_error
  | some row ↦ started_before db job_id queued row
]

-- `update(AnalysisJob).where(id, status == CREATED)`
abbrev pub claim_start : Database → ℕ → JobState → String → Drawn → Result (Database × Response)
claim_start db job_id next graph_version drawn = elim (lookup job_id db.jobs) [
  | none ↦ lost_claim db job_id
  | some job ↦
      if is_created job.status
      then add_run db job_id job next graph_version drawn
      else lost_claim db job_id
]

-- `start`: the queries read `seen`, the update and what is behind it find `db`
unfoldable pub start_job :
    (workspace_id job_id : ℕ) → String → Drawn → (seen db : Database) → Result (Database × Response)
start_job workspace_id job_id graph_version drawn seen db = do
  job ← find_job seen workspace_id job_id
  elim (active_run job_id seen.runs) [
    | some row ↦ started_before db job_id job.status row
    | none ↦
        raise_if (not (is_created job.status)) value_error
        >> (move_job job.status start none >>= λ next.
            claim_start db job_id next graph_version drawn)
  ]

abbrev pub is_failed : JobState → Bool
is_failed JobState.failed = true
is_failed _ = false

abbrev pub request_again : Database → ℕ → AnalysisJob → ℕ → AgentRun → Drawn → Database
request_again db job_id job run_id run drawn =
    add_event
      (set_run (set_job db job_id (record job { status = queued; progress = 0 })) run_id run)
      drawn.event_id (request_event run_requested run_id job_id drawn.now)

-- `retry`
unfoldable pub retry_job :
    (workspace_id job_id : ℕ) → Drawn → Database → Result (Database × Response)
retry_job workspace_id job_id drawn db = do
  job ← find_job db workspace_id job_id
  raise_if (not (is_failed job.status)) value_error
  elim (latest (λ run. run.created_at) job_id db.runs) [
    | none ↦ err value_error
    | some (run_id, run) ↦
        commit job_id
          (request_again db job_id job run_id
            (record run { status = initializing; active = true; updated_at = drawn.now }) drawn)
          (run_started job_id run_id queued initializing)
  ]

-- `job.status not in {SUCCEEDED, FAILED, CANCELLED, NEEDS_REVIEW}`
abbrev pub can_rerun : JobState → Bool
can_rerun needs_review = true
can_rerun status = is_final status

-- `rerun`
unfoldable pub rerun_job :
    (workspace_id job_id : ℕ) → String → Drawn → Database → Result (Database × Response)
rerun_job workspace_id job_id graph_version drawn db = do
  job ← find_job db workspace_id job_id
  raise_if (not (can_rerun job.status)) value_error
  elim (active_run job_id db.runs) [
    | some row ↦ err value_error
    | none ↦
        commit job_id
          (request_again db job_id job drawn.run_id (new_run job_id graph_version drawn.now) drawn)
          (run_started job_id drawn.run_id queued initializing)
  ]

-- the loop of `cancel_job` over the active runs of the job
unfoldable pub stop_runs : ℕ → ℕ → Items ℕ AgentRun → Items ℕ AgentRun
stop_runs job_id now [] = []
stop_runs job_id now ((i, run) ∷ rows) =
    (
      i,
      (if run.job_id == job_id && run.active
          then record run { status = errored; active = false; updated_at = now }
          else run),
    )
    ∷ stop_runs job_id now rows

-- `cancel_job`
unfoldable pub cancel_job : (workspace_id job_id now : ℕ) → Database → Result (Database × JobState)
cancel_job workspace_id job_id now db = do
  job ← find_job db workspace_id job_id
  let next = if is_final job.status then job.status else cancelled
  ok (
    record (set_job db job_id (record job { status = next })) {
      runs = stop_runs job_id now db.runs;
    },
    next,
  )
