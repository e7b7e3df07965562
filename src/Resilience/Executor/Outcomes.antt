-- ===== src/Resilience/Executor/Outcomes.antt =====
-- What `ResilientModelExecutor.execute` of packages/model_gateway/resilience.py returns, and what it
-- leaves behind.
use evidenceclass_agent.Base.{
  ℕ, zero, suc, ◌+◌, ◌≡◌, String, Bool, true, false, Option, some, [], ◌∷◌, ◌++◌, arith, ltb, inl,
  inr,
}
use native.Mathlib.Numerals.{add-one}
use evidenceclass_agent.Resilience.Errors.{
  ModelGatewayError, retryable, is_schema_parse, Result, ok, err, is_ok, Outcome-cases,
}
use evidenceclass_agent.Resilience.CircuitBreaker.{before_call}
use evidenceclass_agent.Resilience.RateLimiter.{acquire}
use evidenceclass_agent.Resilience.JobBudget.{CallEstimate, begin_call, settle_call}
use evidenceclass_agent.Resilience.JobBudget.Bounds.{
  IsWithin, Reserves, begin_call-Reserves, Reserves-IsWithin, settle_call-IsWithin,
}
use evidenceclass_agent.Resilience.Executor.{
  RetryPolicy, World, Machine, CapabilityResult, Verdict, finish, retry, repair, settle, call,
  begin, limit, step, Loop, follow, loop, enough, execute,
}

module _ (policy : RetryPolicy) (world : World) (key : String) (estimate : CallEstimate) where
  module _ (P : Machine → Type 0) where
    follow_inv :
        (next : Loop) (s : Machine × Verdict) (attempt retries repairs : ℕ)
        → ((m : Machine) (a rt rp : ℕ) → P m → P (next m a rt rp).0)
        → P s.0
        → P (follow next s attempt retries repairs).0
    follow_inv next (m, finish r) attempt retries repairs ih h = h
    follow_inv next (m, retry) attempt retries repairs ih h =
        ih m (attempt + 1) (retries + 1) repairs h
    follow_inv next (m, repair) attempt retries repairs ih h =
        ih m (attempt + 1) retries (repairs + 1) h

    -- what every turn keeps holds when the loop stops
    loop_inv :
        ((m : Machine) (a rt rp : ℕ) → P m → P (step policy world key estimate m a rt rp).0)
        → (fuel : ℕ) (m : Machine) (attempt retries repairs : ℕ) → P m
        → P (loop policy world key estimate fuel m attempt retries repairs).0
    unfolding loop
    loop_inv keep zero m attempt retries repairs h = h
    loop_inv keep (suc fuel) m attempt retries repairs h =
        follow_inv (loop policy world key estimate fuel) _ attempt retries repairs
          (λ m' a rt rp. loop_inv keep fuel m' a rt rp) (keep m attempt retries repairs h)

  call-IsWithin :
      (m : Machine) (attempt retries repairs : ℕ)
      → Reserves estimate m.budget
      → IsWithin (call policy world key estimate m attempt retries repairs).0.budget
  call-IsWithin m attempt retries repairs v =
      elim (Outcome-cases (world.operation (attempt + 1) (ltb 0 repairs))) [
        | inl (result, e) ↦
            rw (e, call)
              (settled-IsWithin result (
                settle_call-IsWithin m.budget result.usage estimate (world.turn attempt).settle_at
                  v))
        | inr (error, e) ↦ rw (e, call) (Reserves-IsWithin estimate m.budget v)
      ]
    where
      settled-IsWithin :
          (result : CapabilityResult)
          → IsWithin (settle_call m.budget result.usage estimate (world.turn attempt).settle_at).0
          → IsWithin (settle policy world key estimate m result attempt retries repairs).0.budget
      settled-IsWithin result w =
          elim (Outcome-cases
            (settle_call m.budget result.usage estimate (world.turn attempt).settle_at).1) [
              | inl (u, e) ↦ rw (e, settle) w
              | inr (error, e) ↦ rw (e, settle) w
            ]

  step-IsWithin :
      (m : Machine) (attempt retries repairs : ℕ)
      → IsWithin m.budget
      → IsWithin (step policy world key estimate m attempt retries repairs).0.budget
  unfolding step
  step-IsWithin m attempt retries repairs w =
      elim (Outcome-cases (before_call m.breaker key (world.turn attempt).before_at).1) [
        | inr (error, e) ↦ rw (e, step) w
        | inl (u, e) ↦
            rw (e, step)
              (elim (Outcome-cases (acquire m.limiter key (world.turn attempt).acquire_at).1) [
                | inr (error, f) ↦ rw (f, limit) w
                | inl (v, f) ↦
                    rw (f, limit)
                      (elim (Outcome-cases
                        (begin_call m.budget estimate (world.turn attempt).begin_at)) [
                          | inr (error, g) ↦ rw (g, begin) w
                          | inl (b, g) ↦
                              rw (g, begin)
                                (call-IsWithin _ attempt retries repairs (
                                  begin_call-Reserves m.budget estimate
                                    (world.turn attempt).begin_at g))
                        ])
              ])
      ]

  -- One budget may serve any number of executions, with any outcomes: if its counts are within the
  -- limits before, the calls, tokens and costs that it has booked are within them after.
  pub execute-IsWithin :
      (m : Machine) → IsWithin m.budget → IsWithin (execute policy world key estimate m).0.budget
  unfolding execute
  execute-IsWithin m w =
      loop_inv (λ m'. IsWithin m'.budget) (λ m' a rt rp. step-IsWithin m' a rt rp) (enough policy) m
        0 0 0 w

  -- a turn that returns a value returns what the operation gave at that attempt
  abbrev Honest : (attempt repairs : ℕ) → Verdict → Type 0
  Honest attempt repairs (finish (ok result)) =
      world.operation (attempt + 1) (ltb 0 repairs) ≡ ok result
  Honest attempt repairs _ = Unit

  step-Honest :
      (m : Machine) (attempt retries repairs : ℕ)
      → Honest attempt repairs (step policy world key estimate m attempt retries repairs).1
  unfolding step
  step-Honest m attempt retries repairs = ground arith

  -- some attempt gave the result
  abbrev pub Given : CapabilityResult → Type 0
  Given result =
      (attempt : ℕ) × (repairing : Bool) × (world.operation attempt repairing ≡ ok result)

  abbrev IsGiven : Option (Result CapabilityResult) → Type 0
  IsGiven (some (ok result)) = Given result
  IsGiven _ = Unit

  follow-IsGiven :
      (next : Loop) (s : Machine × Verdict) (attempt retries repairs : ℕ)
      → ((m : Machine) (a rt rp : ℕ) → IsGiven (next m a rt rp).1)
      → Honest attempt repairs s.1
      → IsGiven (follow next s attempt retries repairs).1
  follow-IsGiven next (m, finish (ok result)) attempt retries repairs ih h =
      (attempt + 1, ltb 0 repairs, h)
  follow-IsGiven next (m, finish (err e)) attempt retries repairs ih h = tt
  follow-IsGiven next (m, retry) attempt retries repairs ih h =
      ih m (attempt + 1) (retries + 1) repairs
  follow-IsGiven next (m, repair) attempt retries repairs ih h =
      ih m (attempt + 1) retries (repairs + 1)

  loop-IsGiven :
      (fuel : ℕ) (m : Machine) (attempt retries repairs : ℕ)
      → IsGiven (loop policy world key estimate fuel m attempt retries repairs).1
  unfolding loop
  loop-IsGiven zero m attempt retries repairs = tt
  loop-IsGiven (suc fuel) m attempt retries repairs =
      follow-IsGiven (loop policy world key estimate fuel) _ attempt retries repairs
        (λ m' a rt rp. loop-IsGiven fuel m' a rt rp) (step-Honest m attempt retries repairs)

  -- A result that the executor returns is one that the operation gave at some attempt.
  execute-Given :
      (m : Machine) (result : CapabilityResult)
      → (execute policy world key estimate m).1 ≡ some (ok result)
      → Given result
  unfolding execute
  execute-Given m result e = rw e at (loop-IsGiven (enough policy) m 0 0 0)

  -- An error that is neither retryable nor a schema error is raised at once: the operation is called
  -- a single time, if the breaker, the limiter and the budget let it be called at all.
  permanent_error :
      (m : Machine) (e : ModelGatewayError)
      → world.operation 1 false ≡ err e
      → retryable e ≡ false
      → is_schema_parse e ≡ false
      → is_ok (before_call m.breaker key (world.turn 0).before_at).1 ≡ true
      → is_ok (acquire m.limiter key (world.turn 0).acquire_at).1 ≡ true
      → is_ok (begin_call m.budget estimate (world.turn 0).begin_at) ≡ true
      → ((execute policy world key estimate m).1 ≡ some (err e))
        × ((execute policy world key estimate m).0.records
            ≡ m.records ++ record { attempt = 1; error = some e } ∷ [])
  unfolding execute loop step
  permanent_error m e o r s a b c = rw add-one (ground arith)
