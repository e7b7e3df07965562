-- ===== src/Resilience/RateLimiter/Window.antt =====
-- What `SlidingWindowRateLimiter` of packages/model_gateway/resilience.py promises: a call is granted
-- if and only if fewer than `max_calls` were granted in the window that ends with it.
use evidenceclass_agent.Base.{
  ℕ, ◌+◌, ◌≤◌, ◌<◌, ◌≡◌, refl, sym, ◌∙◌, String, not, ◌&&◌, List, [], ◌∷◌, ◌++◌, arith, leb, ltb,
  ◌==◌, String_eq, eq_iff, if◌then◌else◌, length, inl, inr, Bool-cases, if_intro,
}
use evidenceclass_agent.Base.Dict.{lookup, lookup-insert}
use evidenceclass_agent.Resilience.Errors.{is_ok}
use evidenceclass_agent.Resilience.RateLimiter.{
  SlidingWindowRateLimiter, new_limiter, events_of, is_old, expire, acquire, with_events,
}

-- the calls asked for, each with its key and its clock reading
abbrev pub Calls : Type 0
Calls = List (String × ℕ)

-- a limiter and the log of the calls that it granted, the latest first
abbrev pub Logged : Type 0
Logged = SlidingWindowRateLimiter × Calls

abbrev pub serve : Logged → String × ℕ → Logged
serve (r, log) (key, now) =
    let (r', reply) = acquire r key now in (r', if is_ok reply then (key, now) ∷ log else log)

unfoldable pub after : Logged → Calls → Logged
after l [] = l
after l (c ∷ rest) = after (serve l c) rest

-- the granted calls of `key` that are still in the window at `now`
abbrev pub recent : ℕ → ℕ → String → Calls → ℕ
recent window now key [] = 0
recent window now key ((k, at) ∷ log) =
    (if k == key && not (is_old window now at) then 1 else 0) + recent window now key log

-- the events of a deque that are in the window at `now`
abbrev in_window : ℕ → ℕ → List ℕ → ℕ
in_window window now [] = 0
in_window window now (at ∷ rest) =
    (if is_old window now at then 0 else 1) + in_window window now rest

in_window-append :
    (window now : ℕ) (xs ys : List ℕ)
    → in_window window now (xs ++ ys) ≡ in_window window now xs + in_window window now ys
in_window-append window now [] ys = omega arith
in_window-append window now (x ∷ xs) ys = omega (arith, in_window-append window now xs ys)

-- what has left the window stays out of it
in_window-expire :
    (window now later : ℕ) (xs : List ℕ)
    → now ≤ later
    → in_window window later (expire window now xs) ≡ in_window window later xs
unfolding expire
in_window-expire window now later [] h = refl
in_window-expire window now later (x ∷ xs) h =
    ground (arith, in_window-expire window now later xs h)

abbrev SortedFrom : ℕ → List ℕ → Type 0
SortedFrom t [] = Unit
SortedFrom t (x ∷ xs) = (t ≤ x) × SortedFrom x xs

abbrev last_of : ℕ → List ℕ → ℕ
last_of t [] = t
last_of t (x ∷ xs) = last_of x xs

SortedFrom-append :
    (t now : ℕ) (xs : List ℕ) → SortedFrom t xs → last_of t xs ≤ now → SortedFrom t (xs ++ now ∷ [])
SortedFrom-append t now [] s h = (h, tt)
SortedFrom-append t now (x ∷ xs) s h = (s.0, SortedFrom-append x now xs s.1 h)

SortedFrom-mono : (t u : ℕ) (xs : List ℕ) → t ≤ u → SortedFrom u xs → SortedFrom t xs
SortedFrom-mono t u [] h s = tt
SortedFrom-mono t u (x ∷ xs) h s = (omega arith, s.1)

SortedFrom-expire :
    (window now t : ℕ) (xs : List ℕ) → SortedFrom t xs → SortedFrom t (expire window now xs)
unfolding expire
SortedFrom-expire window now t [] s = tt
SortedFrom-expire window now t (x ∷ xs) s = elim (Bool-cases (is_old window now x)) [
  | inl old ↦ rw old (SortedFrom-mono t x _ s.0 (SortedFrom-expire window now x xs s.1))
  | inr new ↦ rw new s
]

-- a sorted deque whose first event is in the window is all in the window
length_of_fresh :
    (window now t : ℕ) (xs : List ℕ)
    → SortedFrom t xs
    → now < t + window
    → length xs ≡ in_window window now xs
length_of_fresh window now t [] s h = refl
length_of_fresh window now t (x ∷ xs) s h = ground (arith, length_of_fresh window now x xs s.1)

length-expire :
    (window now t : ℕ) (xs : List ℕ)
    → SortedFrom t xs
    → length (expire window now xs) ≡ in_window window now xs
unfolding expire
length-expire window now t [] s = refl
length-expire window now t (x ∷ xs) s =
    ground (arith, length-expire window now x xs s.1, length_of_fresh window now x xs s.1)

events_of-with_events :
    (r : SlidingWindowRateLimiter) (key k : String) (xs : List ℕ)
    → events_of (with_events r key xs) k ≡ (if key == k then xs else events_of r k)
events_of-with_events r key k xs = ground (arith, lookup-insert r.events key xs k)

-- the limiter stands for its log, from time `t` on
record Agrees (t : ℕ) (l : Logged) : Type 0 where
  counts :
      (k : String) (later : ℕ)
      → t ≤ later
      → recent l.0.window later k l.1 ≡ in_window l.0.window later (events_of l.0 k)
  sorted : (k : String) → SortedFrom 0 (events_of l.0 k)
  latest : (k : String) → last_of 0 (events_of l.0 k) ≤ t

last_of-append : (t now : ℕ) (xs : List ℕ) → last_of t (xs ++ now ∷ []) ≤ now
last_of-append t now [] = omega arith
last_of-append t now (x ∷ xs) = last_of-append x now xs

last_of-le : (t x u : ℕ) (xs : List ℕ) → t ≤ u → last_of x xs ≤ u → last_of t xs ≤ u
last_of-le t x u [] h k = h
last_of-le t x u (y ∷ xs) h k = k

last_of-expire :
    (window now t u : ℕ) (xs : List ℕ)
    → t ≤ u
    → last_of t xs ≤ u
    → last_of t (expire window now xs) ≤ u
unfolding expire
last_of-expire window now t u [] h k = h
last_of-expire window now t u (x ∷ xs) h k = elim (Bool-cases (is_old window now x)) [
  | inl old ↦ rw old (last_of-expire window now t u xs h (last_of-le t x u xs h k))
  | inr new ↦ rw new k
]

module _ (r : SlidingWindowRateLimiter) (log : Calls) (key : String) (t now : ℕ) (h : t ≤ now)
    (a : Agrees t (r, log)) where
  kept : List ℕ
  kept = expire r.window now (events_of r key)

  sorted-kept : SortedFrom 0 kept
  unfolding kept
  sorted-kept = SortedFrom-expire r.window now 0 (events_of r key) (a.sorted key)

  latest-kept : last_of 0 kept ≤ now
  unfolding kept
  latest-kept = last_of-expire r.window now 0 now (events_of r key) (omega arith) (latest key)
    where
      latest : (k : String) → last_of 0 (events_of r k) ≤ now
      latest k = omega (arith, a.latest k)

  counts-kept :
      (k : String) (later : ℕ)
      → now ≤ later
      → recent r.window later k log
        ≡ in_window r.window later (if key == k then kept else events_of r k)
  unfolding kept
  counts-kept k later g = ground (
    arith,
    eq_iff key k,
    a.counts k later (omega arith),
    in_window-expire r.window now later (events_of r key) g,
  )

  refused-Agrees : Agrees now (with_events r key kept, log)
  refused-Agrees = record {
    counts = λ k later g. rw (events_of-with_events r key k kept) (counts-kept k later g);
    sorted = λ k.
        rw (events_of-with_events r key k kept)
          (if_intro (SortedFrom 0) (key == k) _ _ sorted-kept (a.sorted k));
    latest = λ k. rw (events_of-with_events r key k kept) (
        if_intro (λ xs. last_of 0 xs ≤ now) (key == k) _ _ latest-kept (omega (arith, a.latest k)));
  }

  granted-Agrees : Agrees now (with_events r key (kept ++ now ∷ []), (key, now) ∷ log)
  granted-Agrees = record {
    counts = λ k later g. rw (events_of-with_events r key k (kept ++ now ∷ [])) (
        ground (
          arith,
          counts-kept k later g,
          eq_iff key k,
          in_window-append r.window later kept (now ∷ []),
        ));
    sorted = λ k. rw (events_of-with_events r key k (kept ++ now ∷ [])) (
        if_intro (SortedFrom 0) (key == k) _ _
          (SortedFrom-append 0 now kept sorted-kept latest-kept) (a.sorted k));
    latest = λ k. rw (events_of-with_events r key k (kept ++ now ∷ [])) (
        if_intro (λ xs. last_of 0 xs ≤ now) (key == k) _ _ (last_of-append 0 now kept)
          (omega (arith, a.latest k)));
  }

  length-kept : length kept ≡ recent r.window now key log
  unfolding kept
  length-kept =
      length-expire r.window now 0 (events_of r key) (a.sorted key) ∙ sym (a.counts key now h)

  serve-Agrees : Agrees now (serve (r, log) (key, now))
  unfolding acquire kept
  serve-Agrees = elim (Bool-cases (leb r.max_calls (length kept))) [
    | inl full ↦ rw (full, acquire) refused-Agrees
    | inr room ↦ rw (room, acquire) granted-Agrees
  ]

  acquire-recent : is_ok (acquire r key now).1 ≡ ltb (recent r.window now key log) r.max_calls
  unfolding acquire kept
  acquire-recent = ground (arith, length-kept)

-- The clock readings never go back, from `t` on.
abbrev pub Monotone : ℕ → Calls → Type 0
Monotone t [] = Unit
Monotone t ((key, at) ∷ rest) = (t ≤ at) × Monotone at rest

-- the last reading, or `t`
abbrev pub latest_of : ℕ → Calls → ℕ
latest_of t [] = t
latest_of t ((key, at) ∷ rest) = latest_of at rest

after-Agrees :
    (t : ℕ) (l : Logged) (calls : Calls)
    → Agrees t l
    → Monotone t calls
    → Agrees (latest_of t calls) (after l calls)
unfolding after
after-Agrees t l [] a m = a
after-Agrees t (r, log) ((key, at) ∷ rest) a m =
    after-Agrees at _ rest (serve-Agrees r log key t at m.0 a) m.1

after-limits :
    (l : Logged) (calls : Calls)
    → ((after l calls).0.window ≡ l.0.window) × ((after l calls).0.max_calls ≡ l.0.max_calls)
unfolding after acquire
after-limits l [] = (refl, refl)
after-limits (r, log) ((key, at) ∷ rest) =
    ground (arith, after-limits (serve (r, log) (key, at)) rest)

new_limiter-Agrees : (max_calls window : ℕ) → Agrees 0 (new_limiter max_calls window, [])
unfolding lookup
new_limiter-Agrees max_calls window = record {
  counts = λ k later g. refl;
  sorted = λ k. tt;
  latest = λ k. omega arith;
}

-- If the clock never goes back, then after any calls of any keys the next call of `key` is granted
-- if and only if fewer than `max_calls` calls of that key were granted within the last `window`.
pub acquire_exact :
    (max_calls window : ℕ) (calls : Calls) (key : String) (now : ℕ)
    → Monotone 0 calls
    → latest_of 0 calls ≤ now
    → is_ok (acquire (after (new_limiter max_calls window, []) calls).0 key now).1
      ≡ ltb (recent window now key (after (new_limiter max_calls window, []) calls).1) max_calls
acquire_exact max_calls window calls key now m h =
    let start : Logged = (new_limiter max_calls window, []) in
    let l = after start calls in
    let agrees = after-Agrees 0 start calls (new_limiter-Agrees max_calls window) m in
    ground
      (arith, acquire-recent l.0 l.1 key (latest_of 0 calls) now h agrees, after-limits start calls)
