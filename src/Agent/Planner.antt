-- ===== src/Agent/Planner.antt =====
-- packages/agent_runtime/planner.py: the plan that the policy allows for a set of capabilities.
pub mod Policy
use evidenceclass_agent.Base.{
  ℕ, Bool, true, false, not, ◌&&◌, ◌||◌, Option, none, some, List, [], ◌∷◌, ◌++◌, ltb,
  if◌then◌else◌, length,
}
use evidenceclass_agent.Base.Outcome.{Outcome, ok, err, ◌>>=◌, ◌>>◌, raise_if}
use evidenceclass_agent.Agent.State.{
  Mode, image, video, structured, Step, inspect_media, extract_frames, transcribe_audio_step,
  ingest_transcript_step, observe_image_step, observe_media_step, retrieve_knowledge,
  validate_observations_step, repair_observations_step, compute_metrics_step, narrate_report_step,
  verify_claims_step, publish_report_step, PlannerError, identity_recognition, full_frame_budget,
  steps_not_permitted, plan_too_long, tools_missing, AnalysisPlan,
}

pub record MediaCapabilities : Type 0 where
  pub mode : Mode
  pub has_audio : Bool
  pub has_video : Bool
  pub transcript_only : Bool
  pub rubric_available : Bool
  pub requested_identity : Bool
  pub requested_full_frame : Bool
  pub duration_seconds : ℕ

-- A set of steps is its membership test.
pub record PlannerPolicy : Type 0 where
  pub allowed_steps : Step → Bool
  pub max_steps : ℕ
  pub allow_identity : Bool
  pub max_full_frame_seconds : ℕ

-- the fields' defaults: every step is allowed
abbrev pub default_policy : PlannerPolicy
default_policy = record {
  allowed_steps = λ step. true;
  max_steps = 12;
  allow_identity = false;
  max_full_frame_seconds = 900;
}

abbrev pub all_of : (Step → Bool) → List Step → Bool
all_of test [] = true
all_of test (step ∷ rest) = test step && all_of test rest

abbrev filter_steps : (Step → Bool) → List Step → List Step
filter_steps test [] = []
filter_steps test (step ∷ rest) =
    let kept = filter_steps test rest in if test step then step ∷ kept else kept

abbrev pub media_steps : MediaCapabilities → List Step
media_steps c = if c.transcript_only then ingest_transcript_step ∷ [] else elim c.mode [
  | image ↦ inspect_media ∷ observe_image_step ∷ []
  | video ↦
      inspect_media
      ∷ extract_frames
      ∷ ((if c.has_audio then transcribe_audio_step ∷ [] else []) ++ observe_media_step ∷ [])
  | structured ↦ inspect_media ∷ []
]

abbrev pub report_steps : List Step
report_steps =
    validate_observations_step ∷ compute_metrics_step ∷ narrate_report_step ∷ verify_claims_step
    ∷ publish_report_step ∷ []

abbrev pub steps_of : MediaCapabilities → List Step
steps_of c =
    media_steps c ++ ((if c.rubric_available then retrieve_knowledge ∷ [] else []) ++ report_steps)

-- the steps that need a registered tool
abbrev pub needs_tool : Step → Bool
needs_tool inspect_media = true
needs_tool extract_frames = true
needs_tool transcribe_audio_step = true
needs_tool observe_image_step = true
needs_tool observe_media_step = true
needs_tool retrieve_knowledge = true
needs_tool _ = false

-- the steps left out of `tools`
abbrev is_report_step : Step → Bool
is_report_step validate_observations_step = true
is_report_step compute_metrics_step = true
is_report_step narrate_report_step = true
is_report_step verify_claims_step = true
is_report_step publish_report_step = true
is_report_step _ = false

-- no tool is missing; without tool names nothing is checked
abbrev pub has_tools : Option (Step → Bool) → List Step → Bool
has_tools none steps = true
has_tools (some names) steps = all_of (λ step. not (needs_tool step) || names step) steps

abbrev deadline_of : Mode → ℕ
deadline_of video = 900
deadline_of _ = 300

unfoldable pub plan :
    PlannerPolicy → MediaCapabilities → Option (Step → Bool) → Outcome PlannerError AnalysisPlan
plan policy c tool_names = do
  raise_if (c.requested_identity && not policy.allow_identity) identity_recognition
  raise_if (c.requested_full_frame && ltb policy.max_full_frame_seconds c.duration_seconds)
      full_frame_budget
  let steps = steps_of c
  raise_if (not (all_of policy.allowed_steps steps)) steps_not_permitted
  raise_if (ltb policy.max_steps (length steps)) plan_too_long
  raise_if (not (has_tools tool_names steps)) tools_missing
  ok (record {
    steps = steps;
    deadline_seconds = deadline_of c.mode;
    tools = filter_steps (λ step. not (is_report_step step)) steps;
  })
