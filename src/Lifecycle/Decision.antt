-- ===== src/Lifecycle/Decision.antt =====
-- `ReviewDecision` of packages/agent_runtime/state_machines.py, and the exceptions of `transition`.
use evidenceclass_agent.Base.{Bool, true, false, Option, none, some}
use evidenceclass_agent.Base.Outcome.{Outcome}
pub use evidenceclass_agent.Base.Outcome.{ok, err}

pub data ReviewDecision : Type 0 where
  approved modified rejected materials_requested : ReviewDecision

-- `review_decision in {ReviewDecision.APPROVED, ReviewDecision.MODIFIED}`
abbrev pub is_approving : Option ReviewDecision → Bool
is_approving (some approved) = true
is_approving (some modified) = true
is_approving _ = false

pub data TransitionError : Type 0 where
  invalid_transition : TransitionError
  -- the `TypeError`: state and event belong to different lifecycles
  type_error : TransitionError

abbrev pub Result {ℓ} : Type ℓ → Type ℓ
Result A = Outcome TransitionError A

-- `table[(current, event)]`, a missing key being an `InvalidTransition`
abbrev pub found {ℓ} : {A : Type ℓ} → Option A → Result A
found (some a) = ok a
found none = err invalid_transition
