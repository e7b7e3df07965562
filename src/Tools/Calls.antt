-- ===== src/Tools/Calls.antt =====
-- What `ToolRegistry.invoke` of packages/agent_runtime/tools.py returns, and keeps.
pub mod Kept
use evidenceclass_agent.Base.{
  ℕ, zero, suc, ◌+◌, ◌≤◌, ◌≡◌, refl, sym, String, true, false, Option, some, arith, inl, inr,
  Option-cases, pair_eq, String_eq,
}
use evidenceclass_agent.Base.Dict.{lookup, lookup-insert_self}
use evidenceclass_agent.Base.Outcome.{Outcome, ok, err, Outcome-cases}
use evidenceclass_agent.Budget.{BudgetTracker}
use evidenceclass_agent.Tools.{
  ToolError, output, ToolSpec, ToolRegistry, ToolCallResult, Turn, done, again, Attempts, follow,
  attempt_once, attempts_from, Caller, cache_key, checked, perform, finish, find, invoke,
}

module _ {Payload Input Output : Type 0} where
  module _ (spec : ToolSpec Payload Input Output) (model : Input) where
    -- An output comes from the handler, at an attempt within the bounds.
    abbrev Answers : ℕ → Outcome ToolError (Output × ℕ) → Type 0
    Answers bound (err e) = Unit
    Answers bound (ok (o, n)) =
        (attempt : ℕ) × (n ≡ attempt + 1) × (n ≤ bound) × (spec.handler model attempt ≡ output o)

    abbrev AnswersNow : ℕ → Turn Output → Type 0
    AnswersNow attempt (done (ok (o, n))) =
        (n ≡ attempt + 1) × (spec.handler model attempt ≡ output o)
    AnswersNow attempt _ = Unit

    attempt_once-AnswersNow :
        (attempt : ℕ) (budget : Option BudgetTracker)
        → AnswersNow attempt (attempt_once spec model attempt budget)
    attempt_once-AnswersNow attempt budget = ground arith

    follow-Answers :
        (bound attempt : ℕ) (next : Option BudgetTracker → Attempts Output)
        (budget : Option BudgetTracker) (t : Turn Output)
        → ((b : Option BudgetTracker) → Answers bound (next b).1)
        → AnswersNow attempt t
        → attempt + 1 ≤ bound
        → Answers bound (follow next budget t).1
    follow-Answers bound attempt next budget (done (ok (o, n))) ih (e, h) b =
        (attempt, e, omega arith, h)
    follow-Answers bound attempt next budget (done (err e)) ih h b = tt
    follow-Answers bound attempt next budget (again charged) ih h b = ih charged

    attempts_from-Answers :
        (left attempt bound : ℕ) (budget : Option BudgetTracker)
        → left + attempt ≤ bound
        → Answers bound (attempts_from spec model left attempt budget).1
    unfolding attempts_from
    attempts_from-Answers zero attempt bound budget b = tt
    attempts_from-Answers (suc left) attempt bound budget b =
        follow-Answers bound attempt (attempts_from spec model left (attempt + 1)) budget _
          (λ c. attempts_from-Answers left (attempt + 1) bound c (omega arith))
          (attempt_once-AnswersNow attempt budget) (omega arith)

  finish_error :
      (r : ToolRegistry Payload Input Output) (name : String) (spec : ToolSpec Payload Input Output)
      (key : Option (String × String)) (a : Attempts Output) (e : ToolError)
      → (finish r name spec key a).outcome ≡ err e
      → (finish r name spec key a).registry ≡ r
  finish_error r name spec key (budget, err f) e h = refl
  finish_error r name spec key (budget, ok (o, n)) e h = ground arith

  perform_error :
      (r : ToolRegistry Payload Input Output) (name : String) (spec : ToolSpec Payload Input Output)
      (model : Input) (c : Caller) (e : ToolError)
      → (perform r name spec model c).outcome ≡ err e
      → (perform r name spec model c).registry ≡ r
  perform_error r name spec model c e h =
      elim (Option-cases (find (cache_key name spec c.idempotency_key) r.cache)) [
        | inl f ↦
            rw (f, perform)
              (finish_error r name spec _ (attempts_from spec model spec.max_attempts 0 c.budget) e
                (rw (f, perform) at h))
        | inr (o, f) ↦ rw (f, perform) refl
      ]

  -- A call that raises leaves the registry, its tools and its cache, as it was.
  invoke_error :
      (r : ToolRegistry Payload Input Output) (name : String) (payload : Payload) (c : Caller)
      (e : ToolError)
      → (invoke r name payload c).outcome ≡ err e
      → (invoke r name payload c).registry ≡ r
  unfolding invoke
  invoke_error r name payload c e h =
      elim (Outcome-cases (checked name (lookup name r.tools) payload c)) [
        | inl ((spec, m), f) ↦
            rw (f, invoke) (perform_error r name spec m c e (rw (f, invoke) at h))
        | inr (error, f) ↦ rw (f, invoke) refl
      ]

  finish-cached :
      (r : ToolRegistry Payload Input Output) (name : String) (spec : ToolSpec Payload Input Output)
      (found : Option (String × String)) (key : String × String) (a : Attempts Output)
      (res : ToolCallResult Output)
      → found ≡ some key
      → (finish r name spec found a).outcome ≡ ok res
      → lookup key (finish r name spec found a).registry.cache ≡ some res.output
  finish-cached r name spec found key (budget, err f) res e h = ground arith
  finish-cached r name spec found key (budget, ok (o, n)) res e h =
      ground (arith, lookup-insert_self key o r.cache)

  pub perform-hit :
      (r : ToolRegistry Payload Input Output) (name : String) (key : String × String)
      (spec : ToolSpec Payload Input Output) (model : Input) (c : Caller) (o : Output)
      → cache_key name spec c.idempotency_key ≡ some key
      → lookup key r.cache ≡ some o
      → (perform r name spec model c).outcome
        ≡ ok (record {
          tool_name = name;
          version = spec.version;
          output = o;
          cached = true;
          attempts = 1;
        })
  perform-hit r name key spec model c o k f = rw (k, f, perform) refl

  pub perform-cached :
      (r : ToolRegistry Payload Input Output) (name : String) (key : String × String)
      (spec : ToolSpec Payload Input Output) (model : Input) (c : Caller)
      (res : ToolCallResult Output)
      → cache_key name spec c.idempotency_key ≡ some key
      → (perform r name spec model c).outcome ≡ ok res
      → lookup key (perform r name spec model c).registry.cache ≡ some res.output
  perform-cached r name key spec model c res k h = elim (Option-cases (lookup key r.cache)) [
    | inl f ↦
        rw (k, f, perform)
          (finish-cached r name spec _ key (attempts_from spec model spec.max_attempts 0 c.budget)
            res k (rw (k, f, perform) at h))
    | inr (o, f) ↦
        rw (k, f, perform) (ground (arith, h, f, perform-hit r name key spec model c o k f))
  ]

  finish-tools :
      (r : ToolRegistry Payload Input Output) (name : String) (spec : ToolSpec Payload Input Output)
      (key : Option (String × String)) (a : Attempts Output)
      → (finish r name spec key a).registry.tools ≡ r.tools
  finish-tools r name spec key (budget, err f) = refl
  finish-tools r name spec key (budget, ok (o, n)) = refl

  pub perform-tools :
      (r : ToolRegistry Payload Input Output) (name : String) (spec : ToolSpec Payload Input Output)
      (model : Input) (c : Caller)
      → (perform r name spec model c).registry.tools ≡ r.tools
  perform-tools r name spec model c =
      elim (Option-cases (find (cache_key name spec c.idempotency_key) r.cache)) [
        | inl f ↦ rw (f, perform) (finish-tools r name spec _ _)
        | inr (o, f) ↦ rw (f, perform) refl
      ]

  pub invoke-checked :
      (r : ToolRegistry Payload Input Output) (name : String) (spec : ToolSpec Payload Input Output)
      (payload : Payload) (c : Caller) (m : Input)
      → checked name (lookup name r.tools) payload c ≡ ok (spec, m)
      → invoke r name payload c ≡ perform r name spec m c
  unfolding invoke
  invoke-checked r name spec payload c m e = rw (e, invoke) refl

  -- An output is the cached one, or what the handler answered at one of the attempts.
  abbrev FromHandler :
      ToolSpec Payload Input Output → Input → Outcome ToolError (ToolCallResult Output) → Type 0
  FromHandler spec model (err e) = Unit
  FromHandler spec model (ok res) =
      res.cached ≡ false
      → (attempt : ℕ) × (res.attempts ≡ attempt + 1)
        × (res.attempts ≤ spec.max_attempts)
        × (spec.handler model attempt ≡ output res.output)

  finish-FromHandler :
      (r : ToolRegistry Payload Input Output) (name : String) (spec : ToolSpec Payload Input Output)
      (model : Input) (key : Option (String × String)) (a : Attempts Output)
      → Answers spec model spec.max_attempts a.1
      → FromHandler spec model (finish r name spec key a).outcome
  finish-FromHandler r name spec model key (budget, err e) h = tt
  finish-FromHandler r name spec model key (budget, ok (o, n)) h = λ u. h

  perform-FromHandler :
      (r : ToolRegistry Payload Input Output) (name : String) (spec : ToolSpec Payload Input Output)
      (model : Input) (c : Caller)
      → FromHandler spec model (perform r name spec model c).outcome
  perform-FromHandler r name spec model c =
      elim (Option-cases (find (cache_key name spec c.idempotency_key) r.cache)) [
        | inl f ↦
            rw (f, perform)
              (finish-FromHandler r name spec model _ _ (
                attempts_from-Answers spec model spec.max_attempts 0 spec.max_attempts c.budget
                  (omega arith)))
        | inr (o, f) ↦ rw (f, perform) (λ u. absurd (ground arith))
      ]

  -- A call that passes the checks and returns an output that is not cached: the handler gave it at an
  -- attempt that the result counts, of at most `max_attempts`.
  invoke-output :
      (r : ToolRegistry Payload Input Output) (name : String) (spec : ToolSpec Payload Input Output)
      (payload : Payload) (c : Caller) (model : Input) (res : ToolCallResult Output)
      → checked name (lookup name r.tools) payload c ≡ ok (spec, model)
      → (invoke r name payload c).outcome ≡ ok res
      → res.cached ≡ false
      → (attempt : ℕ) × (res.attempts ≡ attempt + 1)
        × (res.attempts ≤ spec.max_attempts)
        × (spec.handler model attempt ≡ output res.output)
  invoke-output r name spec payload c model res e h =
      let p = invoke-checked r name spec payload c model e in
      let q = rw p at h in rw q at (perform-FromHandler r name spec model c)
