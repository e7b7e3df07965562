-- ===== src/Persistence/Tables.antt =====
-- The tables of packages/persistence/models.py that the job service and the worker change, and the
-- queries that they make. Rows are kept by the number that stands for their identifier, in the order
-- of their insertion; times are clock readings. A service function takes a database and gives the one
-- that its transaction commits, or raises, and then the database stays as it was.
pub mod Queries
pub mod Safe
use evidenceclass_agent.Base.{
  ℕ, ◌+◌, String, Bool, true, false, not, ◌&&◌, ◌||◌, Option, none, some, List, [], ◌∷◌, ltb,
  if◌then◌else◌, ◌==◌, ℕ_eq, String_eq,
}
use evidenceclass_agent.Base.Dict.{Items}
use evidenceclass_agent.Base.Outcome.{Outcome}
pub use evidenceclass_agent.Base.Outcome.{ok, err, ◌>>=◌, ◌>>◌, raise_if}
use evidenceclass_agent.Lifecycle.Decision.{ReviewDecision}
use evidenceclass_agent.Lifecycle.Job.{JobState}
use evidenceclass_agent.Lifecycle.Run.{AgentRunState}

pub record AnalysisJob : Type 0 where
  pub workspace_id : ℕ
  pub mode : String
  pub status : JobState
  pub progress : ℕ
  pub error_code : Option String
  pub is_deleted : Bool

pub record AgentRun : Type 0 where
  pub job_id : ℕ
  pub graph_version : String
  pub status : AgentRunState
  -- `active_slot == "active"`, where the slot is null otherwise
  pub active : Bool
  pub created_at : ℕ
  pub updated_at : ℕ

pub data Topic : Type 0 where
  run_requested resume_requested : Topic

pub data OutboxStatus : Type 0 where
  pending publishing published : OutboxStatus

pub record OutboxEvent : Type 0 where
  pub topic : Topic
  pub aggregate_id : ℕ
  pub job_id : ℕ
  pub status : OutboxStatus
  pub attempts : ℕ
  pub created_at : ℕ
  pub last_error : Option String
  pub published_at : Option ℕ

pub record ReviewItem : Type 0 where
  pub job_id : ℕ
  pub is_decided : Bool
  pub decision : Option ReviewDecision
  pub updated_at : ℕ

pub record Database : Type 0 where
  pub jobs : Items ℕ AnalysisJob
  pub runs : Items ℕ AgentRun
  pub outbox : Items ℕ OutboxEvent
  pub reviews : Items ℕ ReviewItem

pub data PersistenceError : Type 0 where
  resource_not_found value_error invalid_transition integrity_error : PersistenceError

abbrev pub Result {ℓ} : Type ℓ → Type ℓ
Result A = Outcome PersistenceError A

-- what a service draws: the identifiers of new rows, and the time
pub record Drawn : Type 0 where
  pub run_id : ℕ
  pub event_id : ℕ
  pub now : ℕ

abbrev pub is_of : ℕ → AgentRun → Bool
is_of job_id run = run.job_id == job_id

abbrev pub holds_slot : ℕ → AgentRun → Bool
holds_slot job_id run = run.job_id == job_id && run.active

-- `select(AgentRun).where(job_id, active_slot == "active")`
unfoldable pub active_run : ℕ → Items ℕ AgentRun → Option (ℕ × AgentRun)
active_run job_id [] = none
active_run job_id (row ∷ rows) =
    if holds_slot job_id row.1 then some row else active_run job_id rows

-- the number of its rows
unfoldable pub count_active : ℕ → Items ℕ AgentRun → ℕ
count_active job_id [] = 0
count_active job_id (row ∷ rows) =
    (if holds_slot job_id row.1 then 1 else 0) + count_active job_id rows

-- the unique constraint on the job and the slot of a run, for one job; a null slot is never a conflict
abbrev pub is_unique : ℕ → Items ℕ AgentRun → Bool
is_unique job_id runs = ltb (count_active job_id runs) 2

-- the first of a row and those behind it, by the time, descending; of two with one time, the later row
abbrev pub newer : (AgentRun → ℕ) → ℕ × AgentRun → Option (ℕ × AgentRun) → ℕ × AgentRun
newer time row none = row
newer time row (some best) = if ltb (time best.1) (time row.1) then row else best

-- `select(AgentRun).where(job_id).order_by(time.desc()).limit(1)`
unfoldable pub latest : (AgentRun → ℕ) → ℕ → Items ℕ AgentRun → Option (ℕ × AgentRun)
latest time job_id [] = none
latest time job_id (row ∷ rows) =
    let best = latest time job_id rows in
    if is_of job_id row.1 then some (newer time row best) else best

-- `session.begin()` at its end, for a transaction that writes runs of one job
abbrev pub commit {ℓ} : {A : Type ℓ} → ℕ → Database → A → Result (Database × A)
commit job_id db a = if is_unique job_id db.runs then ok (db, a) else err integrity_error
