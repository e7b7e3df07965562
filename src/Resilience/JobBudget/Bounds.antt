-- ===== src/Resilience/JobBudget/Bounds.antt =====
-- The budget of packages/model_gateway/resilience.py, used as the executor uses it: each call is begun
-- and then settled with the same estimate.
use evidenceclass_agent.Base.{ℕ, ◌+◌, ◌≤◌, ◌≡◌, Option, none, some, arith}
use evidenceclass_agent.Resilience.Errors.{ok}
use evidenceclass_agent.Resilience.JobBudget.{
  BudgetLimits, CallEstimate, ModelUsage, JobModelBudget, new_budget, begin_call, settle_call,
}

pub record IsWithin (b : JobModelBudget) : Type 0 where
  pub calls : b.calls ≤ b.limits.max_model_calls
  pub tokens : b.tokens ≤ b.limits.max_total_tokens
  pub cost : b.cost ≤ b.limits.max_cost_usd

-- room for the ceiling of a call, if it is known
abbrev pub Room : JobModelBudget → Option ℕ → Type 0
Room b none = ⊥
Room b (some ceiling) = b.cost + ceiling ≤ b.limits.max_cost_usd

-- a call has been begun, and its ceilings fit
pub record Reserves (estimate : CallEstimate) (b : JobModelBudget) : Type 0 where
  pub calls : b.calls ≤ b.limits.max_model_calls
  pub tokens : b.tokens + estimate.max_total_tokens ≤ b.limits.max_total_tokens
  pub cost : Room b estimate.max_cost_usd

pub begin_call-Reserves :
    (b : JobModelBudget) (estimate : CallEstimate) (now : ℕ) {b' : JobModelBudget}
    → begin_call b estimate now ≡ ok b'
    → Reserves estimate b'
unfolding begin_call
begin_call-Reserves b estimate now h = ground arith

pub Reserves-IsWithin :
    (estimate : CallEstimate) (b : JobModelBudget) → Reserves estimate b → IsWithin b
Reserves-IsWithin estimate b r = ground arith

pub settle_call-IsWithin :
    (b : JobModelBudget) (usage : ModelUsage) (estimate : CallEstimate) (now : ℕ)
    → Reserves estimate b
    → IsWithin (settle_call b usage estimate now).0
unfolding settle_call
settle_call-IsWithin b usage estimate now r = ground arith

pub new_budget-IsWithin : (limits : BudgetLimits) (now : ℕ) → IsWithin (new_budget limits now)
new_budget-IsWithin limits now = omega arith
