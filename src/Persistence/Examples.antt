-- ===== src/Persistence/Examples.antt =====
-- The services of packages/persistence at concrete requests.
use evidenceclass_agent.Base.{
  arith, ℕ, ◌≡◌, ◌≤◌, refl, Bool, true, false, Option, none, some, List, [], ◌∷◌, ℕ_eq, suc, ◌==◌,
  if◌then◌else◌,
}
use evidenceclass_agent.Base.Dict.{lookup}
use evidenceclass_agent.Base.Outcome.{ok}
use evidenceclass_agent.Lifecycle.Job.{created, queued}
use evidenceclass_agent.Lifecycle.Run.{initializing}
use evidenceclass_agent.Persistence.Tables.{
  AnalysisJob, Database, Drawn, OutboxEvent, run_requested, active_run, count_active,
}
use evidenceclass_agent.Persistence.Idempotency.{IdempotencyRecord, Shared, Request, execute}
use evidenceclass_agent.Persistence.Idempotency.Replay.{
  execute_again, replayed, performed, after_requests,
}
use evidenceclass_agent.Persistence.Idempotency.Once.{
  Step, arrive, go_on, new_service, after, times, runs_once,
}
use evidenceclass_agent.Persistence.Jobs.{start_job, run_started, new_run, request_event}
use evidenceclass_agent.Persistence.Jobs.Race.{start_race}
use evidenceclass_agent.Persistence.Outbox.{Send, selected, publish_pending}
use evidenceclass_agent.Persistence.Outbox.Delivery.{mem, settled}
use evidenceclass_agent.Persistence.Outbox.Selection.{publish_each}
use evidenceclass_agent.Persistence.Events.{NewEvent, matching}
use evidenceclass_agent.Persistence.Events.Replay.{
  replay, after as after_events, no_events, replay_complete,
}
use evidenceclass_agent.Base.Int.{pos}

-- an operation that counts its runs, and answers with the number
abbrev counting : ℕ → Request ℕ ℕ ℕ ℕ
counting fingerprint = record {
  key = 7;
  key_length = 3;
  fingerprint = fingerprint;
  operation = λ n. ok (suc n, suc n);
}

abbrev fresh : Shared ℕ ℕ ℕ ℕ
fresh = record { records = []; rest = 0 }

abbrev same_number : ℕ → ℕ → Bool
same_number m n = m == n

-- a request with another key comes between the two
abbrev between : List (Request ℕ ℕ ℕ ℕ × List (Option (IdempotencyRecord ℕ ℕ)))
between = (record (counting 1) { key = 8 }, []) ∷ []

execute_again_example :
    (((execute fresh (counting 1) []).0.rest, (execute fresh (counting 1) []).1)
      ≡ performed 0 (ok (1, 1)))
    × (execute
          (after_requests (execute fresh (counting 1) []).0 between)
          (counting 2)
          (lookup 7 (after_requests (execute fresh (counting 1) []).0 between).records ∷ [])
        ≡ (
          after_requests (execute fresh (counting 1) []).0 between,
          replayed (same_number 1 2) (execute fresh (counting 1) []).1,
        ))
unfolding lookup
execute_again_example = execute_again fresh (counting 1) (counting 2) between refl refl refl refl

abbrev arrivals : List (Step ℕ ℕ ℕ ℕ)
arrivals = arrive (counting 1) ∷ arrive (counting 1) ∷ go_on 0 ∷ arrive (counting 2) ∷ go_on 0 ∷ []

runs_once_example :
    (times 7 (after (new_service 0) arrivals).ran ≤ 1)
    × (lookup 7 (after (new_service 0) arrivals).shared.records ≡ none
        → times 7 (after (new_service 0) arrivals).ran ≡ 0)
runs_once_example = runs_once 0 arrivals 7

abbrev job : AnalysisJob
job = record {
  workspace_id = 1;
  mode = "image";
  status = created;
  progress = 0;
  error_code = none;
  is_deleted = false;
}

abbrev database : Database
database = record { jobs = (4, job) ∷ []; runs = []; outbox = []; reviews = [] }

abbrev drawn : Drawn
drawn = record { run_id = 10; event_id = 20; now = 100 }

abbrev other : Drawn
other = record { run_id = 11; event_id = 21; now = 101 }

start_race_example :
    (next : Database) × (start_job 1 4 "v1" drawn database database
      ≡ ok (next, run_started 4 10 queued initializing))
    × (start_job 1 4 "v2" other database next ≡ ok (next, run_started 4 10 queued initializing))
    × (lookup 10 next.runs ≡ some (new_run 4 "v1" 100))
    × (count_active 4 next.runs ≡ 1)
unfolding lookup active_run
start_race_example = start_race database 1 4 job "v1" "v2" drawn other refl refl refl refl

-- two events wait, and the broker refuses the older one
abbrev outbox : List (ℕ × OutboxEvent)
outbox = (20, request_event run_requested 10 4 6) ∷ (21, request_event run_requested 11 5 3) ∷ []

abbrev broker : Send
broker event_id topic aggregate_id = if event_id == 21 then some "unreachable" else none

publish_each_example :
    (lookup 21 (publish_pending broker 9 1 outbox).0 ≡ elim (lookup 21 (selected 1 outbox)) [
      | none ↦ lookup 21 outbox
      | some event ↦ some (settled broker 9 21 event)
    ])
    × (mem 21 (publish_pending broker 9 1 outbox).1 ≡ elim (lookup 21 (selected 1 outbox)) [
      | none ↦ false
      | some event ↦ elim (broker 21 event.topic event.aggregate_id) [
        | none ↦ true
        | some text ↦ false
      ]
    ])
unfolding lookup
publish_each_example = publish_each broker 9 1 outbox 21 (refl, (refl, tt))

-- two jobs report in turns
abbrev report : ℕ → NewEvent
report job_id = record {
  job_id = job_id;
  run_id = none;
  event_type = "agent.step.completed";
  stage = none;
  progress = pos 120;
  message = "";
}

abbrev reports : List NewEvent
reports = report 4 ∷ report 5 ∷ report 4 ∷ report 4 ∷ []

replay_complete_example :
    replay 4 1 (after_events no_events reports) 5 1
    ≡ matching 4 1 (after_events no_events reports).rows
replay_complete_example = replay_complete reports 4 1 5 1 (omega arith)
