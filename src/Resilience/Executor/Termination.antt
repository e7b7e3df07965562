-- ===== src/Resilience/Executor/Termination.antt =====
-- The loop of `ResilientModelExecutor.execute` in packages/model_gateway/resilience.py ends, after at
-- most one attempt for each retry and repair of the policy, and one more.
use evidenceclass_agent.Base.{
  ℕ, zero, suc, ◌+◌, ◌≤◌, ◌<◌, ◌≡◌, refl, String, Option, some, arith, length, length-append_one,
}
use evidenceclass_agent.Resilience.Errors.{Result}
use evidenceclass_agent.Resilience.JobBudget.{CallEstimate}
use evidenceclass_agent.Resilience.Executor.{
  RetryPolicy, World, Machine, CapabilityResult, Verdict, finish, retry, repair, step, Loop, follow,
  loop, enough, execute,
}

-- a turn may go on only by a retry or a repair that the policy has left
abbrev Allowed : RetryPolicy → (retries repairs : ℕ) → Verdict → Type 0
Allowed p retries repairs (finish r) = Unit
Allowed p retries repairs retry = retries < p.max_retries
Allowed p retries repairs repair = repairs < p.max_schema_repairs

module _ (policy : RetryPolicy) (world : World) (key : String) (estimate : CallEstimate) where
  -- a turn makes at most one record, and exactly one if the loop goes on
  abbrev Recorded : Machine → Machine × Verdict → Type 0
  Recorded m (m', finish r) = length m'.records ≤ length m.records + 1
  Recorded m (m', retry) = length m'.records ≡ length m.records + 1
  Recorded m (m', repair) = length m'.records ≡ length m.records + 1

  step-Allowed :
      (m : Machine) (attempt retries repairs : ℕ)
      → Allowed policy retries repairs (step policy world key estimate m attempt retries repairs).1
  unfolding step
  step-Allowed m attempt retries repairs = ground arith

  step-Recorded :
      (m : Machine) (attempt retries repairs : ℕ)
      → Recorded m (step policy world key estimate m attempt retries repairs)
  unfolding step
  step-Recorded m attempt retries repairs = grind (arith, length-append_one)

  -- The loop ends, within a number of records.
  abbrev Ends : ℕ → Machine → Machine × Option (Result CapabilityResult) → Type 0
  Ends n m (m', outcome) =
      (r : Result CapabilityResult) × (outcome ≡ some r)
      × (length m'.records ≤ length m.records + n)

  -- the counts that `fuel` turns can serve
  record Serves (fuel retries repairs : ℕ) : Type 0 where
    retries_left : retries ≤ policy.max_retries
    repairs_left : repairs ≤ policy.max_schema_repairs
    enough_left : policy.max_retries + policy.max_schema_repairs < fuel + retries + repairs

  follow-Ends :
      (fuel : ℕ) (next : Loop) (m : Machine) (s : Machine × Verdict) (attempt retries repairs : ℕ)
      → ((m' : Machine) (a rt rp : ℕ) → Serves fuel rt rp → Ends fuel m' (next m' a rt rp))
      → Allowed policy retries repairs s.1
      → Recorded m s
      → Serves (suc fuel) retries repairs
      → Ends (suc fuel) m (follow next s attempt retries repairs)
  follow-Ends fuel next m (m', finish r) attempt retries repairs ih a rec s = (r, refl, omega arith)
  follow-Ends fuel next m (m', retry) attempt retries repairs ih a rec s =
      let (r, e, n) = ih m' (attempt + 1) (retries + 1) repairs (omega arith) in (r, e, omega arith)
  follow-Ends fuel next m (m', repair) attempt retries repairs ih a rec s =
      let (r, e, n) = ih m' (attempt + 1) retries (repairs + 1) (omega arith) in (r, e, omega arith)

  loop-Ends :
      (fuel : ℕ) (m : Machine) (attempt retries repairs : ℕ)
      → Serves fuel retries repairs
      → Ends fuel m (loop policy world key estimate fuel m attempt retries repairs)
  unfolding loop
  loop-Ends zero m attempt retries repairs s = absurd (omega arith)
  loop-Ends (suc fuel) m attempt retries repairs s =
      follow-Ends fuel (loop policy world key estimate fuel) m _ attempt retries repairs
        (λ m' a rt rp. loop-Ends fuel m' a rt rp) (step-Allowed m attempt retries repairs)
        (step-Recorded m attempt retries repairs) s

  -- Whatever the clock, the provider, the breaker, the limiter and the budget do, the executor ends:
  -- it returns a result or raises an error, after recording at most
  -- `max_retries + max_schema_repairs + 1` attempts.
  pub execute-Ends :
      (m : Machine)
      → (r : Result CapabilityResult) × ((execute policy world key estimate m).1 ≡ some r)
        × (length (execute policy world key estimate m).0.records
            ≤ length m.records + enough policy)
  unfolding execute
  execute-Ends m = loop-Ends (enough policy) m 0 0 0 (omega arith)
