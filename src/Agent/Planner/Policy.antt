-- ===== src/Agent/Planner/Policy.antt =====
-- What a plan of `ConstrainedPlanner.plan` of packages/agent_runtime/planner.py keeps to.
use evidenceclass_agent.Base.{
  ◌≤◌, ◌≡◌, sym, ◌∙◌, if◌then◌else◌, Bool, true, false, not, ◌&&◌, ◌||◌, Option, none, some, List,
  [], ◌∷◌, ◌++◌, arith, ltb, length,
}
use mathlib.Core.List.{append_assoc}
use evidenceclass_agent.Base.Outcome.{ok, is_ok}
use evidenceclass_agent.Agent.State.{AnalysisPlan, Step, retrieve_knowledge}
use evidenceclass_agent.Agent.Planner.{
  MediaCapabilities, PlannerPolicy, plan, all_of, steps_of, media_steps, has_tools, needs_tool,
  report_steps, default_policy,
}

-- the requests that a policy refuses for every mode
abbrev pub is_permitted : PlannerPolicy → MediaCapabilities → Bool
is_permitted p c =
    not (c.requested_identity && not p.allow_identity)
    && not (c.requested_full_frame && ltb p.max_full_frame_seconds c.duration_seconds)

-- The planner accepts exactly the requests that the policy permits, whose steps are all allowed and
-- at most `max_steps`, and whose tools are all registered if names of tools are given.
plan-is_ok :
    (p : PlannerPolicy) (c : MediaCapabilities) (names : Option (Step → Bool))
    → is_ok (plan p c names) ≡ (
        is_permitted p c
        && (all_of p.allowed_steps (steps_of c)
            && (not (ltb p.max_steps (length (steps_of c))) && has_tools names (steps_of c))))
unfolding plan
plan-is_ok p c names = ground arith

-- With its default limits the planner accepts every permitted request for which tools are not
-- checked: no plan is too long.
plan-default_policy :
    (c : MediaCapabilities)
    → is_ok (plan default_policy c none)
      ≡ (not c.requested_identity && not (c.requested_full_frame && ltb 900 c.duration_seconds))
unfolding plan
plan-default_policy c = ground arith

plan-steps_of :
    (p : PlannerPolicy) (c : MediaCapabilities) (names : Option (Step → Bool)) (a : AnalysisPlan)
    → plan p c names ≡ ok a
    → (a.steps ≡ steps_of c) × (is_ok (plan p c names) ≡ true)
unfolding plan
plan-steps_of p c names a e = ground arith

-- An accepted plan has only allowed steps, at most `max_steps` of them; whatever it starts with, it
-- validates, computes, narrates, verifies and then publishes. With names of tools given, each step
-- that needs a tool has one. The request asks for no identity that the policy forbids.
pub plan-IsSound :
    (p : PlannerPolicy) (c : MediaCapabilities) (names : Step → Bool) (a : AnalysisPlan)
    → plan p c (some names) ≡ ok a
    → (all_of p.allowed_steps a.steps ≡ true)
      × (length a.steps ≤ p.max_steps)
      × ((first : List Step) × (a.steps ≡ first ++ report_steps))
      × (all_of (λ step. not (needs_tool step) || names step) a.steps ≡ true)
      × ((c.requested_identity && not p.allow_identity) ≡ false)
plan-IsSound p c names a e =
    let (f, h) = plan-steps_of p c (some names) a e in
    let accepted = sym h ∙ plan-is_ok p c (some names) in
    rw f (
      ground arith,
      ground arith,
      (
        media_steps c ++ (if c.rubric_available then retrieve_knowledge ∷ [] else []),
        sym (
            append_assoc (media_steps c)
              (if c.rubric_available then retrieve_knowledge ∷ [] else []) report_steps),
      ),
      ground arith,
      ground arith,
    )
