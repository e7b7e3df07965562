-- ===== src/Budget/Bounds.antt =====
-- No history of calls overdraws a budget of packages/agent_runtime/budget.py, and the step counter
-- grants exactly the steps that the limit names.
use evidenceclass_agent.Base.{
  ℕ, zero, suc, ◌+◌, ◌≤◌, ◌≡◌, Bool, true, false, List, [], ◌∷◌, arith, leb, inl, inr, Bool-cases,
  refl, ap, ◌∙◌, if◌then◌else◌,
}
use evidenceclass_agent.Base.Int.{ℤ}
use evidenceclass_agent.Budget.{
  BudgetLimits, BudgetTracker, Result, ok, err, ◌>>=◌, is_past, deadline_passed, check_available,
  before_step, before_model_call, record_model_output, before_tool_retry, before_repair,
  new_tracker,
}

-- A call of the tracker, with the time at which it reads the clock where it does.
pub data Call : Type 0 where
  step : ℕ → Call
  model_call : ℕ → ℤ → Call
  model_output : ℤ → ℤ → Call
  tool_retry repair : Call

abbrev pub invoke : BudgetTracker → Call → Result BudgetTracker
invoke t (step now) = before_step t now
invoke t (model_call now tokens) = before_model_call t now tokens
invoke t (model_output tokens amount) = record_model_output t tokens amount
invoke t tool_retry = before_tool_retry t
invoke t repair = before_repair t

-- the tracker that the caller holds after a call: the same object, untouched by a raise
abbrev pub settle : BudgetTracker → Result BudgetTracker → BudgetTracker
settle t (ok u) = u
settle t (err e) = t

unfoldable pub after : BudgetTracker → List Call → BudgetTracker
after t [] = t
after t (c ∷ calls) = after (settle t (invoke t c)) calls

pub record IsWithin (t : BudgetTracker) : Type 0 where
  pub steps : t.usage.steps ≤ t.limits.max_steps
  pub model_calls : t.usage.model_calls ≤ t.limits.max_model_calls
  pub tool_retries : t.usage.tool_retries ≤ t.limits.max_tool_retries
  pub input_tokens : t.usage.input_tokens ≤ t.limits.max_input_tokens
  pub output_tokens : t.usage.output_tokens ≤ t.limits.max_output_tokens
  pub cost : t.usage.cost ≤ t.limits.max_cost
  pub repair_rounds : t.usage.repair_rounds ≤ t.limits.max_repair_rounds

invoke-IsWithin : (t : BudgetTracker) (c : Call) → IsWithin t → IsWithin (settle t (invoke t c))
unfolding before_step before_model_call record_model_output before_tool_retry before_repair
invoke-IsWithin t (step now) w = ground arith
invoke-IsWithin t (model_call now tokens) w = ground arith
invoke-IsWithin t (model_output tokens amount) w = ground arith
invoke-IsWithin t tool_retry w = ground arith
invoke-IsWithin t repair w = ground arith

after-IsWithin : (t : BudgetTracker) (calls : List Call) → IsWithin t → IsWithin (after t calls)
unfolding after
after-IsWithin t [] w = w
after-IsWithin t (c ∷ calls) w =
    after-IsWithin (settle t (invoke t c)) calls (invoke-IsWithin t c w)

-- Whatever calls a run makes, in any order and with any amounts, and whichever of them raise, a
-- tracker that starts with no usage never counts more than its limits allow, in any of the seven
-- counters.
pub after-new_tracker-IsWithin :
    (limits : BudgetLimits) (calls : List Call) → IsWithin (after (new_tracker limits) calls)
after-new_tracker-IsWithin limits calls = after-IsWithin (new_tracker limits) calls (omega arith)

-- `n` calls of `before_step` in a row at one time, until one raises
abbrev pub steps_at : BudgetTracker → ℕ → ℕ → Result BudgetTracker
steps_at t now zero = ok t
steps_at t now (suc n) = before_step t now >>= λ u. steps_at u now n

abbrev pub fits : Result BudgetTracker → Bool
fits (ok t) = true
fits (err e) = false

-- While the deadline is ahead, `n` steps in a row are granted if and only if they fit under
-- `max_steps` together with the steps already taken.
steps_at_exact :
    (t : BudgetTracker) (now n : ℕ)
    → is_past t.limits.deadline_at now ≡ false
    → t.usage.steps ≤ t.limits.max_steps
    → fits (steps_at t now n) ≡ leb (t.usage.steps + n) t.limits.max_steps
unfolding before_step
steps_at_exact t now zero d w = ground arith
steps_at_exact t now (suc n) d w = elim (Bool-cases (leb t.limits.max_steps t.usage.steps)) [
  | inl full ↦ rw (d, full) (ground arith)
  | inr room ↦
      rw (d, room)
        (ground (
          arith,
          steps_at_exact (record t { usage = record t.usage { steps = t.usage.steps + 1 } }) now n,
        ))
]

invoke-limits : (t : BudgetTracker) (c : Call) → (settle t (invoke t c)).limits ≡ t.limits
unfolding before_step before_model_call record_model_output before_tool_retry before_repair
invoke-limits t (step now) = ground arith
invoke-limits t (model_call now tokens) = ground arith
invoke-limits t (model_output tokens amount) = ground arith
invoke-limits t tool_retry = ground arith
invoke-limits t repair = ground arith

after-limits : (t : BudgetTracker) (calls : List Call) → (after t calls).limits ≡ t.limits
unfolding after
after-limits t [] = refl
after-limits t (c ∷ calls) = after-limits (settle t (invoke t c)) calls ∙ invoke-limits t c

within-check_available :
    (t : BudgetTracker) (now : ℕ)
    → IsWithin t
    → check_available t now
      ≡ (if is_past t.limits.deadline_at now then err deadline_passed else ok tt)
unfolding check_available
within-check_available t now w = ground arith

-- Whatever calls a run has made on a tracker that started with no usage, in any order and with any
-- amounts, and whichever of them raised: the check before a tool call raises if and only if the
-- deadline has passed, and then for the deadline. Its four comparisons of counters never refuse a
-- call, also when every step, model call, retry or cost unit of the limits is used up.
pub check_available-is_past :
    (limits : BudgetLimits) (calls : List Call) (now : ℕ)
    → check_available (after (new_tracker limits) calls) now
      ≡ (if is_past limits.deadline_at now then err deadline_passed else ok tt)
check_available-is_past limits calls now =
    let t = after (new_tracker limits) calls in
    within-check_available t now (after-new_tracker-IsWithin limits calls)
    ∙ ap (λ l. if is_past l.deadline_at now then err deadline_passed else ok tt)
        (after-limits (new_tracker limits) calls)
