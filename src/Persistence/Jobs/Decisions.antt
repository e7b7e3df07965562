-- ===== src/Persistence/Jobs/Decisions.antt =====
-- The rest of `JobLifecycleService` of packages/persistence/jobs.py: the events of the lifecycles, and
-- what follows a review decision.
use evidenceclass_agent.Base.{
  ℕ, Bool, true, false, not, ◌&&◌, Option, none, some, [], ◌∷◌, ltb, if◌then◌else◌, ◌==◌, ℕ_eq,
}
use evidenceclass_agent.Base.Dict.{Items, lookup}
use evidenceclass_agent.Lifecycle.Decision.{
  ReviewDecision, approved, modified, rejected, materials_requested, is_approving,
}
use evidenceclass_agent.Lifecycle.Job.{
  JobState, needs_review, JobEvent, review_approved, review_rejected,
}
use evidenceclass_agent.Lifecycle.Run.{
  AgentRunState, waiting_human, AgentRunEvent, resume, is_closed,
}
use evidenceclass_agent.Persistence.Tables.{
  AnalysisJob, AgentRun, resume_requested, ReviewItem, Database, resource_not_found, Result, ok,
  err, ◌>>=◌, Drawn, latest, commit,
}
use evidenceclass_agent.Persistence.Jobs.{
  set_job, set_run, add_event, request_event, move_job, move_run,
}

-- some decided item of the job approves it
unfoldable pub has_approval : ℕ → Items ℕ ReviewItem → Bool
has_approval job_id [] = false
has_approval job_id ((i, item) ∷ items) =
    let rest = has_approval job_id items in
    if item.job_id == job_id && (item.is_decided && is_approving item.decision) then true else rest

abbrev is_review_event : JobEvent → Bool
is_review_event review_approved = true
is_review_event _ = false

-- the decision that an event is judged by
abbrev pub recorded_approval :
    Database → ℕ → JobEvent → Option ReviewDecision → Option ReviewDecision
recorded_approval db job_id event decision =
    if is_review_event event
    then (if has_approval job_id db.reviews then some approved else none)
    else decision

unfoldable pub apply_job_event :
    (workspace_id job_id : ℕ)
    → JobEvent
    → Option ReviewDecision
    → Database
    → Result (Database × JobState)
apply_job_event workspace_id job_id event decision db = elim (lookup job_id db.jobs) [
  | none ↦ err resource_not_found
  | some job ↦
      if job.workspace_id == workspace_id
      then (move_job job.status event (recorded_approval db job_id event decision) >>= λ next.
          ok (set_job db job_id (record job { status = next }), next))
      else err resource_not_found
]

-- of two decided items, the one that was updated later; of two with one time, the later row
abbrev newer_item : ReviewItem → Option ReviewItem → ReviewItem
newer_item item none = item
newer_item item (some best) = if ltb best.updated_at item.updated_at then item else best

abbrev has_decision : Option ReviewDecision → Bool
has_decision none = false
has_decision (some d) = true

unfoldable pub latest_item : ℕ → Items ℕ ReviewItem → Option ReviewItem
latest_item job_id [] = none
latest_item job_id ((i, item) ∷ items) =
    let best = latest_item job_id items in
    if item.job_id == job_id && (item.is_decided && has_decision item.decision)
    then some (newer_item item best)
    else best

abbrev is_resume : AgentRunEvent → Bool
is_resume resume = true
is_resume _ = false

abbrev pub recorded_decision :
    Database → ℕ → AgentRunEvent → Option ReviewDecision → Option ReviewDecision
recorded_decision db job_id event decision =
    if is_resume event
    then elim (latest_item job_id db.reviews) [ none ↦ none | some item ↦ item.decision ]
    else decision

-- the row that `apply_run_event` writes: a closed run gives its slot back
abbrev pub moved_run : AgentRun → AgentRunState → ℕ → AgentRun
moved_run run next now = record run {
  status = next;
  active = run.active && not (is_closed next);
  updated_at = now;
}

unfoldable pub apply_run_event :
    (run_id now : ℕ)
    → AgentRunEvent
    → Option ReviewDecision
    → Database
    → Result (Database × AgentRunState)
apply_run_event run_id now event decision db = elim (lookup run_id db.runs) [
  | none ↦ err resource_not_found
  | some run ↦
      move_run run.status event (recorded_decision db run.job_id event decision) >>= λ next.
      ok (set_run db run_id (moved_run run next now), next)
]

abbrev pub is_needs_review : JobState → Bool
is_needs_review needs_review = true
is_needs_review _ = false

abbrev pub is_waiting : AgentRunState → Bool
is_waiting waiting_human = true
is_waiting _ = false

-- what `resume_after_review` answers: the job, the run, and whether it goes on
pub record Resumption : Type 0 where
  pub job_id : ℕ
  pub run_id : ℕ
  pub resumed : Bool

-- an approval: the job and the run go on, and the run is requested
abbrev pub resume_run :
    Database
    → ℕ
    → AnalysisJob
    → ℕ
    → AgentRun
    → ReviewDecision
    → Drawn
    → Result (Database × Option Resumption)
resume_run db job_id job run_id run decision drawn = do
  next_job ← move_job job.status review_approved (some decision)
  next_run ← move_run run.status resume (some decision)
  commit job_id
      (add_event
        (set_run (set_job db job_id (record job { status = next_job })) run_id
          (record run { status = next_run; active = true; updated_at = drawn.now }))
        drawn.event_id (request_event resume_requested run_id job_id drawn.now))
      (some (record { job_id = job_id; run_id = run_id; resumed = true }))

-- a rejection ends both
abbrev pub reject_run :
    Database → ℕ → AnalysisJob → ℕ → AgentRun → Drawn → Result (Database × Option Resumption)
reject_run db job_id job run_id run drawn = do
  next_job ← move_job job.status review_rejected none
  next_run ← move_run run.status resume (some rejected)
  commit job_id
      (set_run
        (set_job db job_id
          (record job { status = next_job; error_code = some "HUMAN_REVIEW_REJECTED" }))
        run_id (record run { status = next_run; active = false; updated_at = drawn.now }))
      (some (record { job_id = job_id; run_id = run_id; resumed = false }))

abbrev pub decide_run :
    Database
    → ℕ
    → AnalysisJob
    → ℕ
    → AgentRun
    → ReviewDecision
    → Drawn
    → Result (Database × Option Resumption)
decide_run db job_id job run_id run approved drawn =
    resume_run db job_id job run_id run approved drawn
decide_run db job_id job run_id run modified drawn =
    resume_run db job_id job run_id run modified drawn
decide_run db job_id job run_id run rejected drawn = reject_run db job_id job run_id run drawn
decide_run db job_id job run_id run materials_requested drawn =
    ok (db, some (record { job_id = job_id; run_id = run_id; resumed = false }))

-- the item, decided as the caller says, of a job of the workspace
abbrev pub find_item :
    Database → (workspace_id review_id : ℕ) → (ReviewDecision → Bool) → Option (ℕ × AnalysisJob)
find_item db workspace_id review_id is_same = elim (lookup review_id db.reviews) [
  | none ↦ none
  | some item ↦ elim (lookup item.job_id db.jobs) [
    | none ↦ none
    | some job ↦
        if job.workspace_id == workspace_id
          && (item.is_decided && elim item.decision [ none ↦ false | some d ↦ is_same d ])
        then some (item.job_id, job)
        else none
  ]
]

abbrev pub is_same : ReviewDecision → ReviewDecision → Bool
is_same approved approved = true
is_same modified modified = true
is_same rejected rejected = true
is_same materials_requested materials_requested = true
is_same _ _ = false

unfoldable pub resume_after_review :
    (workspace_id review_id : ℕ)
    → ReviewDecision
    → Drawn
    → Database
    → Result (Database × Option Resumption)
resume_after_review workspace_id review_id decision drawn db =
    elim (find_item db workspace_id review_id (is_same decision)) [
      | none ↦ err resource_not_found
      | some (job_id, job) ↦ elim (latest (λ run. run.updated_at) job_id db.runs) [
        | none ↦ ok (db, none)
        | some (run_id, run) ↦
            if is_needs_review job.status && is_waiting run.status
            then decide_run db job_id job run_id run decision drawn
            else ok (db, none)
      ]
    ]
