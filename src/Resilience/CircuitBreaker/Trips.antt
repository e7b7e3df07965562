-- ===== src/Resilience/CircuitBreaker/Trips.antt =====
-- When the circuit of packages/model_gateway/resilience.py opens, and when it lets a call through.
use evidenceclass_agent.Base.{
  ℕ, zero, suc, ◌+◌, ◌≤◌, ◌<◌, ◌≡◌, refl, String, Bool, true, not, ◌&&◌, none, some, List, [], ◌∷◌,
  arith, ltb, leb, ◌==◌, String_eq, eq_iff, if◌then◌else◌,
}
use evidenceclass_agent.Base.Dict.{lookup, lookup-insert}
use evidenceclass_agent.Resilience.Errors.{ok, is_ok}
use evidenceclass_agent.Resilience.CircuitBreaker.{
  CircuitState, CircuitBreaker, fresh, state_of, with_state, new_breaker, before_call,
  record_success, fail_once, record_failure, half_open,
}

state_of-with_state :
    (b : CircuitBreaker) (key k : String) (s : CircuitState)
    → state_of (with_state b key s) k ≡ (if key == k then s else state_of b k)
state_of-with_state b key k s = ground (arith, lookup-insert b.states key s k)

-- what one key's circuit sees
pub data Signal : Type 0 where
  calls success failure : ℕ → Signal

abbrev pub react : CircuitBreaker → String × Signal → CircuitBreaker
react b (key, calls now) = (before_call b key now).0
react b (key, success now) = record_success b key
react b (key, failure now) = record_failure b key now

unfoldable pub after : CircuitBreaker → List (String × Signal) → CircuitBreaker
after b [] = b
after b (s ∷ rest) = after (react b s) rest

-- a closed circuit is short of the threshold
abbrev pub IsSound : CircuitBreaker → Type 0
IsSound b =
    (key : String) → (state_of b key).opened_at ≡ none → (state_of b key).failures < b.threshold

threshold-react : (b : CircuitBreaker) (s : String × Signal) → (react b s).threshold ≡ b.threshold
unfolding before_call record_success record_failure
threshold-react b (key, calls now) = ground arith
threshold-react b (key, success now) = refl
threshold-react b (key, failure now) = refl

react-IsSound :
    (b : CircuitBreaker) (s : String × Signal) → 0 < b.threshold → IsSound b → IsSound (react b s)
unfolding before_call record_success record_failure
react-IsSound b (key, calls now) p h = λ k. ground (
  arith,
  h k,
  h key,
  eq_iff key k,
  state_of-with_state b key k (state_of b key),
  state_of-with_state b key k (half_open b),
)
react-IsSound b (key, success now) p h = λ k. ground (arith, h k, state_of-with_state b key k fresh)
react-IsSound b (key, failure now) p h =
    λ k. ground (arith, h k, h key, state_of-with_state b key k (fail_once b (state_of b key) now))

after-IsSound :
    (b : CircuitBreaker) (signals : List (String × Signal))
    → 0 < b.threshold
    → IsSound b
    → IsSound (after b signals)
unfolding after
after-IsSound b [] p h = h
after-IsSound b (s ∷ rest) p h =
    after-IsSound (react b s) rest (rw threshold-react p) (react-IsSound b s p h)

-- Whatever calls, successes and failures a new breaker sees, on any keys and at any times, a circuit
-- that is closed has counted fewer failures than the threshold.
pub after-new_breaker-IsSound :
    (threshold cooldown : ℕ) (b : CircuitBreaker) (signals : List (String × Signal))
    → new_breaker threshold cooldown ≡ some b
    → IsSound (after b signals)
unfolding new_breaker lookup
after-new_breaker-IsSound threshold cooldown b signals e =
    after-IsSound b signals (ground arith) (λ k. ground arith)

-- `n` failures of one key in a row, the one numbered `i` at the clock reading `at i`
abbrev pub fails : CircuitBreaker → String → (ℕ → ℕ) → ℕ → CircuitBreaker
fails b key at zero = b
fails b key at (suc n) = record_failure (fails b key at n) key (at n)

threshold-fails :
    (b : CircuitBreaker) (key : String) (at : ℕ → ℕ) (n : ℕ)
    → ((fails b key at n).threshold ≡ b.threshold) × ((fails b key at n).cooldown ≡ b.cooldown)
unfolding record_failure
threshold-fails b key at zero = (refl, refl)
threshold-fails b key at (suc n) = threshold-fails b key at n

abbrev after_failures : ℕ → (ℕ → ℕ) → ℕ → CircuitState
after_failures threshold at zero = fresh
after_failures threshold at (suc n) = record {
  failures = n + 1;
  opened_at = if leb threshold (n + 1) then some (at n) else none;
}

state_of-record_failure_self :
    (b : CircuitBreaker) (key : String) (now : ℕ)
    → state_of (record_failure b key now) key ≡ fail_once b (state_of b key) now
unfolding record_failure
state_of-record_failure_self b key now =
    ground (arith, eq_iff key key, state_of-with_state b key key (fail_once b (state_of b key) now))

state_of-fails :
    (b : CircuitBreaker) (key : String) (at : ℕ → ℕ) (n : ℕ)
    → 0 < b.threshold
    → state_of b key ≡ fresh
    → state_of (fails b key at n) key ≡ after_failures b.threshold at n
state_of-fails b key at zero p f = f
state_of-fails b key at (suc zero) p f = ground (arith, state_of-record_failure_self b key (at 0))
state_of-fails b key at (suc (suc n)) p f = ground (
  arith,
  state_of-record_failure_self (fails b key at (suc n)) key (at (suc n)),
  state_of-fails b key at (suc n) p f,
  threshold-fails b key at (suc n),
)

-- what `before_call` answers in a state
abbrev lets_through : CircuitState → ℕ → ℕ → Bool
lets_through s cooldown now = elim s.opened_at [
  | none ↦ true
  | some opened ↦ not (ltb now (opened + cooldown))
]

before_call-lets_through :
    (b : CircuitBreaker) (key : String) (now : ℕ)
    → is_ok (before_call b key now).1 ≡ lets_through (state_of b key) b.cooldown now
unfolding before_call
before_call-lets_through b key now = ground arith

before_call-half_open :
    (b : CircuitBreaker) (key : String) (opened now : ℕ)
    → (state_of b key).opened_at ≡ some opened
    → opened + b.cooldown ≤ now
    → before_call b key now ≡ (with_state b key (half_open b), ok tt)
unfolding before_call
before_call-half_open b key opened now o late = ground arith

state_of-record_success_self :
    (b : CircuitBreaker) (key : String) → state_of (record_success b key) key ≡ fresh
unfolding record_success
state_of-record_success_self b key =
    ground (arith, eq_iff key key, state_of-with_state b key key fresh)

-- After a success, `n + 1` failures of a key in a row open its circuit exactly if they reach the
-- threshold: the next call is refused if and only if they do and the cooldown since the last failure
-- is not over.
before_call-fails :
    (b : CircuitBreaker) (key : String) (at : ℕ → ℕ) (n now : ℕ)
    → 0 < b.threshold
    → is_ok (before_call (fails (record_success b key) key at (suc n)) key now).1
      ≡ not (leb b.threshold (n + 1) && ltb now (at n + b.cooldown))
unfolding record_success
before_call-fails b key at n now p =
    let closed = record_success b key in
    ground (
      arith,
      before_call-lets_through (fails closed key at (suc n)) key now,
      state_of-fails closed key at (suc n) p (state_of-record_success_self b key),
      threshold-fails closed key at (suc n),
    )

cooldown-record_failure :
    (b : CircuitBreaker) (key : String) (now : ℕ) → (record_failure b key now).cooldown ≡ b.cooldown
unfolding record_failure
cooldown-record_failure b key now = refl

-- Once the cooldown is over, one call is let through, and its outcome decides: a failure at time `u`
-- opens the circuit for another cooldown, a success closes it with no failure on record.
half_open_probe :
    (b : CircuitBreaker) (key : String) (opened now u v : ℕ)
    → 0 < b.threshold
    → (state_of b key).opened_at ≡ some opened
    → opened + b.cooldown ≤ now
    → ((before_call b key now).1 ≡ ok tt)
      × (is_ok (before_call (record_failure (before_call b key now).0 key u) key v).1
          ≡ leb (u + b.cooldown) v)
      × (state_of (record_success (before_call b key now).0 key) key ≡ fresh)
half_open_probe b key opened now u v p o late =
    let probed = with_state b key (half_open b) in
    rw (before_call-half_open b key opened now o late) (
      refl,
      ground (
        arith,
        before_call-lets_through (record_failure probed key u) key v,
        state_of-record_failure_self probed key u,
        state_of-with_state b key key (half_open b),
        eq_iff key key,
        cooldown-record_failure probed key u,
      ),
      state_of-record_success_self probed key,
    )
