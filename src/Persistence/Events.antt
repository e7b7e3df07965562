-- ===== src/Persistence/Events.antt =====
-- `JobEventService` of packages/persistence/events.py. The rows of the table stand in the order of their
-- identifiers, which the database counts up; a limit is a number, and a negative one is as 0.
pub mod Replay
use evidenceclass_agent.Base.{
  ℕ, zero, suc, ◌+◌, min, max, String, Bool, true, false, ◌&&◌, Option, none, some, List, [], ◌∷◌,
  ◌++◌, ltb, take, if◌then◌else◌, ◌==◌, ℕ_eq,
}
use evidenceclass_agent.Base.Int.{ℤ, pos, negsuc}

pub record JobEventRecord : Type 0 where
  pub event_id : ℕ
  pub job_id : ℕ
  pub run_id : Option ℕ
  pub event_type : String
  pub stage : Option String
  pub progress : ℕ
  pub message : String

pub record EventTable : Type 0 where
  pub rows : List JobEventRecord
  pub next_id : ℕ

-- the arguments of `append`
pub record NewEvent : Type 0 where
  pub job_id : ℕ
  pub run_id : Option ℕ
  pub event_type : String
  pub stage : Option String
  pub progress : ℤ
  pub message : String

-- `max(0, min(100, int(progress)))`
abbrev pub bounded_progress : ℤ → ℕ
bounded_progress (pos n) = min 100 n
bounded_progress (negsuc n) = 0

abbrev pub row_of : ℕ → NewEvent → JobEventRecord
row_of event_id e = record {
  event_id = event_id;
  job_id = e.job_id;
  run_id = e.run_id;
  event_type = e.event_type;
  stage = e.stage;
  progress = bounded_progress e.progress;
  message = e.message;
}

unfoldable pub append : EventTable → NewEvent → EventTable
append t e = record { rows = t.rows ++ row_of t.next_id e ∷ []; next_id = suc t.next_id }

-- `.where(JobEventRecord.job_id == job_id, JobEventRecord.id > last_event_id)`
unfoldable pub matching : (job_id last_event_id : ℕ) → List JobEventRecord → List JobEventRecord
matching job_id last_event_id [] = []
matching job_id last_event_id (row ∷ rows) =
    let rest = matching job_id last_event_id rows in
    if row.job_id == job_id && ltb last_event_id row.event_id then row ∷ rest else rest

unfoldable pub list_after : (job_id last_event_id limit : ℕ) → EventTable → List JobEventRecord
list_after job_id last_event_id limit t =
    take (max 1 (min limit 500)) (matching job_id last_event_id t.rows)

unfoldable pub list_all : ℕ → EventTable → List JobEventRecord
list_all job_id t = list_after job_id 0 500 t
