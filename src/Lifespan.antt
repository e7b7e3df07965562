-- ===== src/Lifespan.antt =====
-- The job service of packages/persistence/jobs.py and the worker of apps/worker/runtime.py over one
-- database: histories of transactions of both, in any order.
pub mod Invariant
pub mod Keeps
pub mod Closes
pub mod Resumes
pub mod Events
pub mod Histories
pub mod Queue
pub mod Approved
mod Examples
use evidenceclass_agent.Base.{
  ℕ, String, Bool, true, false, Option, none, some, List, [], ◌∷◌, ℕ_eq, if◌then◌else◌, not, ◌&&◌,
}
use evidenceclass_agent.Base.Dict.{Items, lookup}
use evidenceclass_agent.Lifecycle.Decision.{ReviewDecision}
use evidenceclass_agent.Lifecycle.Job.{JobState, JobEvent, queued, running}
use evidenceclass_agent.Lifecycle.Run.{AgentRunEvent}
use evidenceclass_agent.Agent.State.{FinalStatus}
use evidenceclass_agent.Persistence.Tables.{
  AnalysisJob, AgentRun, ReviewItem, Database, Drawn, Result, ok, err,
}
use evidenceclass_agent.Persistence.Jobs.{create_job, start_job, retry_job, rerun_job, cancel_job}
use evidenceclass_agent.Persistence.Jobs.Decisions.{
  apply_job_event, apply_run_event, resume_after_review,
}
use evidenceclass_agent.Worker.{claim, finish, fail}

-- A transaction, with what it draws. A worker finishes or fails a run that it holds: its slot has not
-- been taken by a cancellation. The reviewers change the table of the review items. `apply_job_event` and
-- `apply_run_event` write the status of one row and leave the other table as it is; packages/
-- model_gateway/acceptance_harness.py is what calls them.
pub data Step : Type 0 where
  create : (workspace_id : ℕ) → String → (job_id : ℕ) → Step
  start retry rerun : (workspace_id job_id : ℕ) → Drawn → Step
  cancel : (workspace_id job_id now : ℕ) → Step
  resume : (workspace_id review_id : ℕ) → ReviewDecision → Drawn → Step
  review : Items ℕ ReviewItem → Step
  claims : (run_id now : ℕ) → Step
  finishes : (run_id now : ℕ) → Option FinalStatus → Bool → Step
  fails : (run_id now : ℕ) → String → Step
  job_event : (workspace_id job_id : ℕ) → JobEvent → Option ReviewDecision → Step
  run_event : (run_id now : ℕ) → AgentRunEvent → Option ReviewDecision → Step
  -- an event of a run, and then one of its job
  both_events : (run_id now : ℕ) → AgentRunEvent → (workspace_id : ℕ) → JobEvent → Step

-- the database behind a transaction
abbrev pub settle : {A : Type 0} → Database → Result (Database × A) → Database
settle db (ok (next, a)) = next
settle db (err e) = db

abbrev pub is_new : {A : Type 0} → ℕ → Items ℕ A → Bool
is_new i rows = elim (lookup i rows) [ none ↦ true | some row ↦ false ]

-- the run is held by its worker
abbrev pub is_held : ℕ → Database → Bool
is_held run_id db = elim (lookup run_id db.runs) [ none ↦ false | some run ↦ run.active ]

abbrev holds_slot : JobState → Bool
holds_slot queued = true
holds_slot running = true
holds_slot _ = false

abbrev is_queued : JobState → Bool
is_queued queued = true
is_queued _ = false

abbrev is_same : Bool → Bool → Bool
is_same a b = if a then b else not b

-- the row of a job goes from one state to another, neither into nor out of the queue and the work; from
-- the queue it may go to the work
abbrev pub is_balanced : Option AnalysisJob → Option AnalysisJob → Bool
is_balanced (some before) (some next) =
    is_same (holds_slot before.status) (holds_slot next.status) && not (is_queued next.status)
is_balanced _ _ = false

-- the row of a run keeps its slot or has none, and no queued job waits for it
abbrev pub is_kept : Option AgentRun → Option AgentRun → Database → Bool
is_kept (some before) (some next) db =
    is_same before.active next.active
    && not (
        before.active
        && elim (lookup before.job_id db.jobs) [ none ↦ false | some job ↦ is_queued job.status ])
is_kept _ _ db = false

-- the run gives its slot back, and the job its holding of one
abbrev pub is_given_back :
    Option AgentRun → Option AgentRun → Option AnalysisJob → Option AnalysisJob → Bool
is_given_back (some run) (some closed) (some job) (some ended) =
    (run.active && not closed.active) && (holds_slot job.status && not (holds_slot ended.status))
is_given_back _ _ _ _ = false

abbrev pub job_of : Option AgentRun → ℕ
job_of none = 0
job_of (some run) = run.job_id

-- an identifier that is drawn is new: a step with a known one does not happen; nor does an event of one
-- row alone that queues a job, begins or ends its holding of a slot, closes the run that holds a slot, or
-- moves the run of a queued job; two events that end both the run and the job happen in one step
unfoldable pub step : Database → Step → Database
step db (create w mode j) = if is_new j db.jobs then settle db (create_job w mode j db) else db
step db (start w j d) =
    if is_new d.run_id db.runs then settle db (start_job w j "agent-graph.v0.1" d db db) else db
step db (retry w j d) = settle db (retry_job w j d db)
step db (rerun w j d) =
    if is_new d.run_id db.runs then settle db (rerun_job w j "agent-graph.v0.1" d db) else db
step db (cancel w j now) = settle db (cancel_job w j now db)
step db (resume w i decision d) = settle db (resume_after_review w i decision d db)
step db (review items) = record db { reviews = items }
step db (claims i now) = (claim i now db).0
step db (finishes i now final requires) =
    if is_held i db then (finish i now final requires db).0 else db
step db (fails i now code) = if is_held i db then (fail i now code db).0 else db
step db (job_event w j event decision) =
    let next = settle db (apply_job_event w j event decision db) in
    if is_balanced (lookup j db.jobs) (lookup j next.jobs) then next else db
step db (run_event i now event decision) =
    let next = settle db (apply_run_event i now event decision db) in
    if is_kept (lookup i db.runs) (lookup i next.runs) db then next else db
step db (both_events i now event w ending) =
    let j = job_of (lookup i db.runs) in
    let moved = settle db (apply_run_event i now event none db) in
    let next = settle moved (apply_job_event w j ending none moved) in
    if is_given_back (lookup i db.runs) (lookup i next.runs) (lookup j db.jobs) (lookup j next.jobs)
    then next
    else db

abbrev pub empty : Database
empty = record { jobs = []; runs = []; outbox = []; reviews = [] }

unfoldable pub after : Database → List Step → Database
after db [] = db
after db (s ∷ steps) = after (step db s) steps
