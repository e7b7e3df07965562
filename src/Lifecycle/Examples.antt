-- ===== src/Lifecycle/Examples.antt =====
-- Runs of the lifecycles of packages/agent_runtime/state_machines.py at concrete events.
use evidenceclass_agent.Base.{◌≡◌, refl, true, List, [], ◌∷◌, none, some}
use evidenceclass_agent.Lifecycle.Decision.{modified, err, type_error}
use evidenceclass_agent.Lifecycle.Transition.{job, job_event, run_event, transition}
use evidenceclass_agent.Lifecycle.Job.{cancelled, needs_review, succeed, review_approved}
use evidenceclass_agent.Lifecycle.Run.{error}
use evidenceclass_agent.Lifecycle.Traces.{Occurrence, after, has_approval, success_needs_approval}

mixed_lifecycles : transition (job cancelled) (run_event error) none ≡ err type_error
unfolding transition
mixed_lifecycles = refl

abbrev reviewed : List Occurrence
reviewed =
    (job_event review_approved, none)
    ∷ (job_event review_approved, some modified)
    ∷ (job_event succeed, none)
    ∷ []

success_needs_approval_example : has_approval reviewed ≡ true
unfolding after transition
success_needs_approval_example = success_needs_approval (job needs_review) reviewed refl refl
