-- ===== src/Admission/Bounds.antt =====
-- The guard of apps/worker/admission.py over whole histories: its ceilings are never passed, and its
-- window stays in the order of time, on which the early stop of pruning rests.
use evidenceclass_agent.Base.{
  ℕ, ◌≤◌, ◌≡◌, String, Option, List, [], ◌∷◌, ◌++◌, arith, String_eq, eq_iff, ◌⊎◌, inl, inr,
}
use evidenceclass_agent.Base.Int.{ℤ}
use evidenceclass_agent.Admission.Estimate.{
  AdmissionLimits, Mode, Entry, TaskEstimate, estimate_task,
}
use evidenceclass_agent.Admission.{
  QueueGuard, new_guard, prune, queued_of, total_weight, admit, release, on_gpu_oom, reset_gpu_oom,
  snapshot, decide,
}
use evidenceclass_agent.Admission.Window.{
  queued_of-append, total_weight-append, queued_of-drop_expired-le, total_weight-drop_expired-le,
  queued_of-release-le, total_weight-release-le, SortedFrom, SortedFrom-drop_expired,
  SortedFrom-release, SortedFrom-append, last_at-le, AllBy, AllBy-mono, AllBy-append,
  AllBy-drop_expired, AllBy-release, live, drop_expired-live,
}
use native.Mathlib.Nat.{le_refl}

-- A call of the guard, with its clock readings.
pub data Operation : Type 0 where
  admits : String → ℤ → Mode → ℤ → (now later : ℕ) → Operation
  releases : String → Option ℕ → Operation
  ooms resets : String → Operation
  snapshots : (now : ℕ) → Operation

abbrev pub apply : QueueGuard → Operation → QueueGuard
apply g (admits w seconds mode assets now later) = (admit g w seconds mode assets now later).0
apply g (releases w weight) = (release g w weight).0
apply g (ooms w) = (on_gpu_oom g w).0
apply g (resets w) = reset_gpu_oom g w
apply g (snapshots now) = (snapshot g now).0

unfoldable pub after : QueueGuard → List Operation → QueueGuard
after g [] = g
after g (o ∷ rest) = after (apply g o) rest

pub record IsBounded (g : QueueGuard) : Type 0 where
  pub queued : (w : String) → queued_of w g.entries ≤ g.limits.max_queued_per_workspace
  pub weight : total_weight g.entries ≤ g.limits.max_total_weight

prune-IsBounded : (g : QueueGuard) (now : ℕ) → IsBounded g → IsBounded (prune g now)
unfolding prune
prune-IsBounded g now b = record {
  queued = λ w.
      let ttl = g.limits.in_flight_ttl_seconds in
      omega (arith, queued_of-drop_expired-le w ttl now g.entries, b.queued w);
  weight =
      omega (
        arith,
        total_weight-drop_expired-le g.limits.in_flight_ttl_seconds now g.entries,
        b.weight,
      );
}

abbrev entry_of : TaskEstimate → ℕ → Entry
entry_of estimate later = record {
  at = later;
  workspace_id = estimate.workspace_id;
  weight = estimate.weight;
}

decide-IsBounded :
    (g : QueueGuard) (estimate : TaskEstimate) (later : ℕ)
    → IsBounded g
    → IsBounded (decide g estimate later).0
decide-IsBounded g estimate later b =
    let new = entry_of estimate later ∷ [] in
    record {
      queued = λ w.
          ground
            (arith, queued_of-append w g.entries new, b.queued w, eq_iff estimate.workspace_id w);
      weight = ground (arith, total_weight-append g.entries new, b.weight);
    }

apply-IsBounded : (g : QueueGuard) (o : Operation) → IsBounded g → IsBounded (apply g o)
unfolding admit release on_gpu_oom reset_gpu_oom snapshot
apply-IsBounded g (admits w seconds mode assets now later) b =
    decide-IsBounded (prune g now) (estimate_task w seconds mode assets) later
      (prune-IsBounded g now b)
apply-IsBounded g (releases v weight) b = record {
  queued = λ w. omega (arith, queued_of-release-le w v weight g.entries, b.queued w);
  weight = omega (arith, total_weight-release-le v weight g.entries, b.weight);
}
apply-IsBounded g (ooms w) b = record { queued = b.queued; weight = b.weight }
apply-IsBounded g (resets w) b = record { queued = b.queued; weight = b.weight }
apply-IsBounded g (snapshots now) b = prune-IsBounded g now b

after-IsBounded :
    (g : QueueGuard) (history : List Operation) → IsBounded g → IsBounded (after g history)
unfolding after
after-IsBounded g [] b = b
after-IsBounded g (o ∷ rest) b = after-IsBounded (apply g o) rest (apply-IsBounded g o b)

-- After any history of admissions, releases, GPU failures, resets and snapshots, in any order and at
-- any clock readings, a new guard holds at most `max_queued_per_workspace` entries of each workspace
-- and at most `max_total_weight` of weight in all.
pub after-new_guard-IsBounded :
    (limits : AdmissionLimits) (history : List Operation)
    → IsBounded (after (new_guard limits) history)
after-new_guard-IsBounded limits history =
    after-IsBounded (new_guard limits) history
      (record { queued = λ w. omega arith; weight = omega arith })

-- The clock readings of a history never go back, from `t` on.
abbrev pub Monotone : ℕ → List Operation → Type 0
Monotone t [] = Unit
Monotone t (admits w seconds mode assets now later ∷ rest) =
    (t ≤ now) × (now ≤ later) × Monotone later rest
Monotone t (snapshots now ∷ rest) = (t ≤ now) × Monotone now rest
Monotone t (o ∷ rest) = Monotone t rest

-- in order, and nothing later than the last reading
abbrev pub IsTimely : ℕ → QueueGuard → Type 0
IsTimely t g = SortedFrom 0 g.entries × AllBy t g.entries

prune-IsTimely : (t u now : ℕ) (g : QueueGuard) → t ≤ u → IsTimely t g → IsTimely u (prune g now)
unfolding prune
prune-IsTimely t u now g h s =
    let ttl = g.limits.in_flight_ttl_seconds in
    (
      SortedFrom-drop_expired ttl now 0 g.entries s.0,
      AllBy-drop_expired ttl now u g.entries (AllBy-mono t u g.entries h s.1),
    )

decide-entries :
    (g : QueueGuard) (estimate : TaskEstimate) (later : ℕ)
    → ((decide g estimate later).0.entries ≡ g.entries)
      ⊎ ((decide g estimate later).0.entries ≡ g.entries ++ entry_of estimate later ∷ [])
decide-entries g estimate later = ground arith

decide-IsTimely :
    (t later : ℕ) (g : QueueGuard) (estimate : TaskEstimate)
    → t ≤ later
    → IsTimely t g
    → IsTimely later (decide g estimate later).0
decide-IsTimely t later g estimate h s = elim (decide-entries g estimate later) [
  | inl same ↦ rw same (s.0, AllBy-mono t later g.entries h s.1)
  | inr more ↦ rw more (
    SortedFrom-append 0 g.entries (entry_of estimate later) s.0
        (last_at-le 0 later g.entries (omega arith) (AllBy-mono t later g.entries h s.1)),
    AllBy-append later g.entries (entry_of estimate later ∷ []) (AllBy-mono t later g.entries h s.1)
        (le_refl later, tt),
  )
]

after-IsTimely :
    (t : ℕ) (g : QueueGuard) (history : List Operation)
    → IsTimely t g
    → Monotone t history
    → SortedFrom 0 (after g history).entries
unfolding after admit release on_gpu_oom reset_gpu_oom snapshot
after-IsTimely t g [] s m = s.0
after-IsTimely t g (admits w seconds mode assets now later ∷ rest) s m =
    after-IsTimely later _ rest
      (decide-IsTimely t later (prune g now) (estimate_task w seconds mode assets) (omega arith)
        (prune-IsTimely t t now g (le_refl t) s))
      m.2
after-IsTimely t g (releases w weight ∷ rest) s m =
    after-IsTimely t _ rest
      (SortedFrom-release w weight 0 g.entries s.0, AllBy-release w weight t g.entries s.1) m
after-IsTimely t g (ooms w ∷ rest) s m = after-IsTimely t _ rest s m
after-IsTimely t g (resets w ∷ rest) s m = after-IsTimely t _ rest s m
after-IsTimely t g (snapshots now ∷ rest) s m =
    after-IsTimely now _ rest (prune-IsTimely t now now g m.0 s) m.1

-- If the clock never goes back, then after any history from a new guard the early stop of `_prune`
-- misses nothing: what is left is exactly the entries that have not expired.
prune-live :
    (limits : AdmissionLimits) (history : List Operation) (now : ℕ)
    → Monotone 0 history
    → (prune (after (new_guard limits) history) now).entries
      ≡ live
          (after (new_guard limits) history).limits.in_flight_ttl_seconds
          now
          (after (new_guard limits) history).entries
unfolding prune
prune-live limits history now m =
    drop_expired-live _ now 0 _ (after-IsTimely 0 (new_guard limits) history (tt, tt) m)
