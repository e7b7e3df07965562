-- ===== src/Budget.antt =====
-- packages/agent_runtime/budget.py: the limits of an Agent run and their accounting. A method that
-- raises has written nothing, so a method returns the tracker or the exception. Costs are counted
-- in a fixed unit, and times are instants that the caller reads off the clock.
pub mod Bounds
mod Examples
use evidenceclass_agent.Base.{
  ℕ, ◌+◌, Bool, true, false, ◌||◌, Option, none, some, ltb, leb, if◌then◌else◌,
}
use evidenceclass_agent.Base.Outcome.{Outcome}
pub use evidenceclass_agent.Base.Outcome.{ok, err, ◌>>=◌, ◌>>◌, raise_if}
use evidenceclass_agent.Base.Int.{ℤ, is_negative, to_nat}

-- A naive `datetime` is read as UTC, like an aware one that has been converted.
pub data Deadline : Type 0 where
  aware naive : ℕ → Deadline

-- `deadline.replace(tzinfo=timezone.utc)` for the naive one: the instant that it stands for
abbrev pub instant : Deadline → ℕ
instant (aware t) = t
instant (naive t) = t

pub record BudgetLimits : Type 0 where
  pub max_steps : ℕ
  pub max_model_calls : ℕ
  pub max_tool_retries : ℕ
  pub max_input_tokens : ℕ
  pub max_output_tokens : ℕ
  pub max_cost : ℕ
  pub max_repair_rounds : ℕ
  pub deadline_at : Option Deadline

pub record BudgetUsage : Type 0 where
  pub steps : ℕ
  pub model_calls : ℕ
  pub tool_retries : ℕ
  pub input_tokens : ℕ
  pub output_tokens : ℕ
  pub cost : ℕ
  pub repair_rounds : ℕ

pub record BudgetTracker : Type 0 where
  pub limits : BudgetLimits
  pub usage : BudgetUsage

pub data BudgetError : Type 0 where
  deadline_passed steps_exceeded model_calls_exceeded tool_retries_exceeded : BudgetError
  input_tokens_exceeded output_tokens_exceeded cost_exceeded repair_rounds_exceeded : BudgetError
  -- the `ValueError` for a negative amount
  negative_amount : BudgetError

abbrev pub Result {ℓ} : Type ℓ → Type ℓ
Result A = Outcome BudgetError A

-- `usage or BudgetUsage()` with no usage
abbrev pub no_usage : BudgetUsage
no_usage = record {
  steps = 0;
  model_calls = 0;
  tool_retries = 0;
  input_tokens = 0;
  output_tokens = 0;
  cost = 0;
  repair_rounds = 0;
}

abbrev pub new_tracker : BudgetLimits → BudgetTracker
new_tracker limits = record { limits = limits; usage = no_usage }

abbrev is_past : Option Deadline → ℕ → Bool
is_past none now = false
is_past (some deadline) now = leb (instant deadline) now

abbrev pub check_deadline : BudgetTracker → ℕ → Result (Unit {0})
check_deadline t now = raise_if (is_past t.limits.deadline_at now) deadline_passed

unfoldable pub check_available : BudgetTracker → ℕ → Result (Unit {0})
check_available t now = do
  check_deadline t now
  raise_if (ltb t.limits.max_steps t.usage.steps) steps_exceeded
  raise_if (ltb t.limits.max_model_calls t.usage.model_calls) model_calls_exceeded
  raise_if (ltb t.limits.max_tool_retries t.usage.tool_retries) tool_retries_exceeded
  raise_if (ltb t.limits.max_cost t.usage.cost) cost_exceeded

unfoldable pub before_step : BudgetTracker → ℕ → Result BudgetTracker
before_step t now = do
  check_deadline t now
  raise_if (leb t.limits.max_steps t.usage.steps) steps_exceeded
  ok (record t { usage = record t.usage { steps = t.usage.steps + 1 } })

unfoldable pub before_model_call : BudgetTracker → ℕ → ℤ → Result BudgetTracker
before_model_call t now tokens = do
  raise_if (is_negative tokens) negative_amount
  check_deadline t now
  raise_if (leb t.limits.max_model_calls t.usage.model_calls) model_calls_exceeded
  raise_if (ltb t.limits.max_input_tokens (t.usage.input_tokens + to_nat tokens))
      input_tokens_exceeded
  ok (record t {
    usage = record t.usage {
      model_calls = t.usage.model_calls + 1;
      input_tokens = t.usage.input_tokens + to_nat tokens;
    };
  })

unfoldable pub record_model_output : BudgetTracker → ℤ → ℤ → Result BudgetTracker
record_model_output t tokens amount = do
  raise_if (is_negative tokens || is_negative amount) negative_amount
  raise_if (ltb t.limits.max_output_tokens (t.usage.output_tokens + to_nat tokens))
      output_tokens_exceeded
  raise_if (ltb t.limits.max_cost (t.usage.cost + to_nat amount)) cost_exceeded
  ok (record t {
    usage = record t.usage {
      output_tokens = t.usage.output_tokens + to_nat tokens;
      cost = t.usage.cost + to_nat amount;
    };
  })

unfoldable pub before_tool_retry : BudgetTracker → Result BudgetTracker
before_tool_retry t = do
  raise_if (leb t.limits.max_tool_retries t.usage.tool_retries) tool_retries_exceeded
  ok (record t { usage = record t.usage { tool_retries = t.usage.tool_retries + 1 } })

unfoldable pub before_repair : BudgetTracker → Result BudgetTracker
before_repair t = do
  raise_if (leb t.limits.max_repair_rounds t.usage.repair_rounds) repair_rounds_exceeded
  ok (record t { usage = record t.usage { repair_rounds = t.usage.repair_rounds + 1 } })
