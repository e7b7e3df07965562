-- ===== src/Resilience/JobBudget.antt =====
-- `JobModelBudget` of packages/model_gateway/resilience.py. Costs are counted in units of 10^-10
-- dollars, the precision to which the code rounds them; times are clock readings in ticks.
pub mod Bounds
use evidenceclass_agent.Base.{
  ℕ, ◌+◌, ◌-◌, Bool, true, false, ◌&&◌, Option, none, some, ltb, leb, if◌then◌else◌,
}
use evidenceclass_agent.Resilience.Errors.{
  Result, ok, err, ◌>>=◌, ◌>>◌, raise_if, budget_exceeded, cost_unknown,
}

pub record BudgetLimits : Type 0 where
  pub max_model_calls : ℕ
  pub max_total_tokens : ℕ
  pub max_cost_usd : ℕ
  pub max_wall_seconds : ℕ

-- `__post_init__`: false where it raises
unfoldable pub post_init : BudgetLimits → Bool
post_init l = ltb 0 l.max_model_calls && ltb 0 l.max_total_tokens && ltb 0 l.max_wall_seconds

pub record CallEstimate : Type 0 where
  pub max_total_tokens : ℕ
  pub max_cost_usd : Option ℕ

-- `ModelUsage` of packages/model_gateway/contracts.py, as far as the budget reads it
pub record ModelUsage : Type 0 where
  pub input_tokens : ℕ
  pub output_tokens : ℕ
  pub cost_usd : Option ℕ

abbrev pub total_tokens : ModelUsage → ℕ
total_tokens u = u.input_tokens + u.output_tokens

pub record JobModelBudget : Type 0 where
  pub limits : BudgetLimits
  pub started : ℕ
  pub calls : ℕ
  pub tokens : ℕ
  pub cost : ℕ

abbrev pub new_budget : BudgetLimits → ℕ → JobModelBudget
new_budget limits now = record { limits = limits; started = now; calls = 0; tokens = 0; cost = 0 }

abbrev pub check_wall_time : JobModelBudget → ℕ → Result (Unit {0})
check_wall_time b now = raise_if (ltb (b.started + b.limits.max_wall_seconds) now) budget_exceeded

-- an amount that must be known
abbrev known : Option ℕ → Result ℕ
known none = err cost_unknown
known (some cost) = ok cost

-- A raise leaves the budget as it was.
unfoldable pub begin_call : JobModelBudget → CallEstimate → ℕ → Result JobModelBudget
begin_call b estimate now = do
  check_wall_time b now
  raise_if (ltb b.limits.max_model_calls (b.calls + 1)) budget_exceeded
  raise_if (ltb b.limits.max_total_tokens (b.tokens + estimate.max_total_tokens)) budget_exceeded
  ceiling ← known estimate.max_cost_usd
  raise_if (ltb b.limits.max_cost_usd (b.cost + ceiling)) budget_exceeded
  ok (record b { calls = b.calls + 1 })

-- `estimate.max_cost_usd is None or usage.cost_usd > estimate.max_cost_usd`
abbrev is_over : ℕ → Option ℕ → Bool
is_over cost none = true
is_over cost (some ceiling) = ltb ceiling cost

-- what is booked once the ceilings are kept
abbrev booked : JobModelBudget → ModelUsage → CallEstimate → Result JobModelBudget
booked b usage estimate = do
  raise_if (ltb estimate.max_total_tokens (total_tokens usage)) budget_exceeded
  cost ← known usage.cost_usd
  raise_if (is_over cost estimate.max_cost_usd) budget_exceeded
  ok (record b { tokens = b.tokens + total_tokens usage; cost = b.cost + cost })

-- The usage stays booked when the check of the wall time raises behind it.
abbrev then_check : JobModelBudget → Result JobModelBudget → ℕ → JobModelBudget × Result (Unit {0})
then_check b (err e) now = (b, err e)
then_check b (ok b') now = (b', check_wall_time b' now)

unfoldable pub settle_call :
    JobModelBudget → ModelUsage → CallEstimate → ℕ → JobModelBudget × Result (Unit {0})
settle_call b usage estimate now = then_check b (booked b usage estimate) now

pub record BudgetSnapshot : Type 0 where
  pub calls : ℕ
  pub total_tokens : ℕ
  pub cost_usd : ℕ
  pub elapsed_seconds : ℕ

-- `max(0.0, clock() - started)`
unfoldable pub snapshot : JobModelBudget → ℕ → BudgetSnapshot
snapshot b now = record {
  calls = b.calls;
  total_tokens = b.tokens;
  cost_usd = b.cost;
  elapsed_seconds = now - b.started;
}
