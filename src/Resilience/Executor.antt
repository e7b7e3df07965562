-- ===== src/Resilience/Executor.antt =====
-- `RetryPolicy` and `ResilientModelExecutor` of packages/model_gateway/resilience.py. What the world
-- answers is given: the clock readings of each turn of the loop, and the outcome of the operation at
-- each attempt, by whether it is asked to repair. The recorder is the list of its records. The loop
-- takes fuel, one unit a turn; `execute` gives it what the policy's counts allow.
pub mod Termination
pub mod Outcomes
use evidenceclass_agent.Base.{
  ℕ, zero, suc, ◌+◌, ◌*◌, ◌^◌, min, String, Bool, true, false, ◌&&◌, Option, none, some, List, [],
  ◌∷◌, ◌++◌, ltb, if◌then◌else◌,
}
use evidenceclass_agent.Resilience.Errors.{
  ModelGatewayError, retryable, is_schema_parse, Result, ok, err,
}
use evidenceclass_agent.Resilience.CircuitBreaker.{
  CircuitBreaker, before_call, record_success, record_failure,
}
use evidenceclass_agent.Resilience.RateLimiter.{SlidingWindowRateLimiter, acquire}
use evidenceclass_agent.Resilience.JobBudget.{
  CallEstimate, ModelUsage, JobModelBudget, begin_call, settle_call,
}

pub record RetryPolicy : Type 0 where
  pub max_retries : ℕ
  pub max_schema_repairs : ℕ
  pub base_delay : ℕ
  pub max_delay : ℕ

-- `base` of `_retry_delay`, before the random jitter
unfoldable pub retry_base : RetryPolicy → ℕ → ℕ
retry_base p retry_index = min p.max_delay (p.base_delay * 2 ^ retry_index)

-- the parsed value stands for itself
pub record CapabilityResult : Type 0 where
  pub usage : ModelUsage
  pub value : ℕ

-- `AttemptRecord`, as far as the loop computes it: the attempt, and its error if it failed
pub record AttemptRecord : Type 0 where
  pub attempt : ℕ
  pub error : Option ModelGatewayError

-- the clock readings of one turn, in the order in which they are taken
pub record Turn : Type 0 where
  pub before_at : ℕ
  pub acquire_at : ℕ
  pub begin_at : ℕ
  pub settle_at : ℕ
  pub failure_at : ℕ

pub record World : Type 0 where
  pub turn : ℕ → Turn
  pub operation : ℕ → Bool → Result CapabilityResult

-- the shared objects that a call changes, and what it has recorded
pub record Machine : Type 0 where
  pub breaker : CircuitBreaker
  pub limiter : SlidingWindowRateLimiter
  pub budget : JobModelBudget
  pub records : List AttemptRecord

-- how a turn of the loop ends
pub data Verdict : Type 0 where
  finish : Result CapabilityResult → Verdict
  retry repair : Verdict

-- the turns that the policy's counts allow
abbrev pub enough : RetryPolicy → ℕ
enough policy = policy.max_retries + policy.max_schema_repairs + 1

-- the rest of the loop, from a machine and the counts of attempts, retries and repairs
abbrev pub Loop : Type 0
Loop = Machine → (attempt retries repairs : ℕ) → Machine × Option (Result CapabilityResult)

-- `return`, `raise`, or `continue` with the counts that it sets
abbrev pub follow :
    Loop
    → Machine × Verdict
    → (attempt retries repairs : ℕ) → Machine × Option (Result CapabilityResult)
follow next (m, finish r) attempt retries repairs = (m, some r)
follow next (m, retry) attempt retries repairs = next m (attempt + 1) (retries + 1) repairs
follow next (m, repair) attempt retries repairs = next m (attempt + 1) retries (repairs + 1)

module _ (policy : RetryPolicy) (world : World) (key : String) (estimate : CallEstimate) where
  -- the `except` clause
  abbrev pub on_failure :
      Machine → ModelGatewayError → (attempt retries repairs : ℕ) → Machine × Verdict
  on_failure m e attempt retries repairs =
      let breaker =
        if retryable e
        then record_failure m.breaker key (world.turn attempt).failure_at
        else m.breaker in
      (
        record m {
          breaker = breaker;
          records = m.records ++ record { attempt = attempt + 1; error = some e } ∷ [];
        },
        if is_schema_parse e && ltb repairs policy.max_schema_repairs
            then repair
            else if retryable e && ltb retries policy.max_retries
            then retry
            else finish (err e),
      )

  -- the statements behind the `try`
  abbrev pub on_success : Machine → CapabilityResult → ℕ → Machine × Verdict
  on_success m result attempt = (
    record m {
      breaker = record_success m.breaker key;
      records = m.records ++ record { attempt = attempt + 1; error = none } ∷ [];
    },
    finish (ok result),
  )

  -- the body of the `try`, once the operation has returned
  abbrev pub settle : Machine → CapabilityResult → (attempt retries repairs : ℕ) → Machine × Verdict
  settle m result attempt retries repairs =
      let (budget, settled) =
        settle_call m.budget result.usage estimate (world.turn attempt).settle_at in
      let m' = record m { budget = budget } in
      elim settled [
        | ok _ ↦ on_success m' result attempt
        | err e ↦ on_failure m' e attempt retries repairs
      ]

  -- the `try` statement
  abbrev pub call : Machine → (attempt retries repairs : ℕ) → Machine × Verdict
  call m attempt retries repairs = elim (world.operation (attempt + 1) (ltb 0 repairs)) [
    | ok result ↦ settle m result attempt retries repairs
    | err e ↦ on_failure m e attempt retries repairs
  ]

  -- the guards in front of it, whose errors leave the loop
  abbrev pub begin : Machine → (attempt retries repairs : ℕ) → Machine × Verdict
  begin m attempt retries repairs =
      elim (begin_call m.budget estimate (world.turn attempt).begin_at) [
        | ok budget ↦ call (record m { budget = budget }) attempt retries repairs
        | err e ↦ (m, finish (err e))
      ]

  abbrev pub limit : Machine → (attempt retries repairs : ℕ) → Machine × Verdict
  limit m attempt retries repairs =
      let (limiter, granted) = acquire m.limiter key (world.turn attempt).acquire_at in
      let m' = record m { limiter = limiter } in
      elim granted [ ok _ ↦ begin m' attempt retries repairs | err e ↦ (m', finish (err e)) ]

  -- one turn of the loop, after `attempt` attempts
  unfoldable pub step : Machine → (attempt retries repairs : ℕ) → Machine × Verdict
  step m attempt retries repairs =
      let (breaker, admitted) = before_call m.breaker key (world.turn attempt).before_at in
      let m' = record m { breaker = breaker } in
      elim admitted [ ok _ ↦ limit m' attempt retries repairs | err e ↦ (m', finish (err e)) ]

  -- the loop; `none` means that the fuel ran out
  unfoldable pub loop : ℕ → Loop
  loop zero m attempt retries repairs = (m, none)
  loop (suc fuel) m attempt retries repairs =
      follow (loop fuel) (step m attempt retries repairs) attempt retries repairs

  unfoldable pub execute : Machine → Machine × Option (Result CapabilityResult)
  execute m = loop (enough policy) m 0 0 0
