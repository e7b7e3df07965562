-- ===== src/Lifecycle/Job.antt =====
-- The lifecycle of a job: `JobState`, `JobEvent`, `JOB_TRANSITIONS` and the first branch of
-- `transition` in packages/agent_runtime/state_machines.py.
use evidenceclass_agent.Base.{Bool, true, false, not, ◌&&◌, Option, none, some, if◌then◌else◌}
use evidenceclass_agent.Lifecycle.Decision.{
  ReviewDecision, Result, ok, err, invalid_transition, found, is_approving,
}

pub data JobState : Type 0 where
  created uploading queued running needs_review succeeded failed cancelled : JobState

pub data JobEvent : Type 0 where
  begin_upload finish_upload start worker_started require_review : JobEvent
  review_approved review_rejected succeed fail cancel : JobEvent

-- JOB_TRANSITIONS
abbrev pub job_transitions : JobState → JobEvent → Option JobState
job_transitions created begin_upload = some uploading
job_transitions created start = some queued
job_transitions uploading finish_upload = some queued
job_transitions queued worker_started = some running
job_transitions running require_review = some needs_review
job_transitions needs_review review_approved = some running
job_transitions needs_review review_rejected = some failed
job_transitions running succeed = some succeeded
job_transitions running fail = some failed
job_transitions _ _ = none

-- the set of final states that the code tests in several places
abbrev pub is_final : JobState → Bool
is_final succeeded = true
is_final failed = true
is_final cancelled = true
is_final _ = false

abbrev is_cancel : JobEvent → Bool
is_cancel cancel = true
is_cancel _ = false

abbrev is_cancelled : JobState → Bool
is_cancelled cancelled = true
is_cancelled _ = false

-- what a worker may still report after a cancellation
abbrev is_late_event : JobEvent → Bool
is_late_event worker_started = true
is_late_event require_review = true
is_late_event succeed = true
is_late_event fail = true
is_late_event _ = false

abbrev is_needs_review : JobState → Bool
is_needs_review needs_review = true
is_needs_review _ = false

abbrev is_review_approved : JobEvent → Bool
is_review_approved review_approved = true
is_review_approved _ = false

unfoldable pub job_transition : JobState → JobEvent → Option ReviewDecision → Result JobState
job_transition current event decision =
    if is_cancel event && not (is_final current)
    then ok cancelled
    else if is_cancelled current && is_late_event event
    then ok cancelled
    else if is_needs_review current && is_review_approved event && not (is_approving decision)
    then err invalid_transition
    else found (job_transitions current event)
