-- ===== src/Admission/Verdicts.antt =====
-- The verdicts of apps/worker/admission.py: exactly when a task is admitted, what a release gives
-- back, and when repeated GPU failures escalate.
use evidenceclass_agent.Base.{
  ℕ, zero, suc, ◌+◌, ◌≤◌, ◌<◌, ◌≡◌, refl, ◌∙◌, ◌↔◌, String, true, none, List, [], ◌∷◌, arith, ltb,
  ◌==◌, String_eq, eq_iff, if◌then◌else◌,
}
use evidenceclass_agent.Base.Int.{ℤ}
use evidenceclass_agent.Base.Dict.{lookup-insert_self, lookup-remove}
use evidenceclass_agent.Admission.Estimate.{
  AdmissionLimits, Mode, Entry, TaskEstimate, estimate_task,
}
use evidenceclass_agent.Admission.{
  QueueGuard, prune, queued_of, total_weight, admit, release_loop, release, oom_count, on_gpu_oom,
  reset_gpu_oom, decide, oom_decision,
}
use native.Mathlib.Nat.{zero-add}
use evidenceclass_agent.Admission.Window.{AllBy, drop_expired_all}

-- what the pruned guard must have room for
pub record Fits (g : QueueGuard) (e : TaskEstimate) : Type 0 where
  pub time : e.estimated_seconds ≤ g.limits.max_task_seconds
  pub memory : e.estimated_memory_mb ≤ g.limits.max_task_memory_mb
  pub queue : queued_of e.workspace_id g.entries < g.limits.max_queued_per_workspace
  pub weight : total_weight g.entries + e.weight ≤ g.limits.max_total_weight

decide-Fits :
    (g : QueueGuard) (e : TaskEstimate) (later : ℕ)
    → (decide g e later).1.admitted ≡ true
    → Fits g e
decide-Fits g e later h = ground arith

Fits-decide :
    (g : QueueGuard) (e : TaskEstimate) (later : ℕ)
    → Fits g e
    → (decide g e later).1.admitted ≡ true
Fits-decide g e later f = ground arith

-- A task is admitted if and only if its estimate is within the time and memory ceilings and the
-- window, once pruned, has room for it in its workspace's queue and in the total weight.
admit-Fits_iff :
    (g : QueueGuard) (w : String) (seconds : ℤ) (mode : Mode) (assets : ℤ) (now later : ℕ)
    → ((admit g w seconds mode assets now later).1.admitted ≡ true)
      ↔ Fits (prune g now) (estimate_task w seconds mode assets)
unfolding admit
admit-Fits_iff g w seconds mode assets now later =
    let e = estimate_task w seconds mode assets in
    (decide-Fits (prune g now) e later, Fits-decide (prune g now) e later)

-- Backpressure ends: once every entry has outlived its time to live, whoever forgot to release it, a
-- task within the single-task ceilings whose weight fits an empty window is admitted.
admit_after_ttl :
    (g : QueueGuard) (w : String) (seconds : ℤ) (mode : Mode) (assets : ℤ) (t now later : ℕ)
    → AllBy t g.entries
    → t + g.limits.in_flight_ttl_seconds < now
    → 0 < g.limits.max_queued_per_workspace
    → (estimate_task w seconds mode assets).estimated_seconds ≤ g.limits.max_task_seconds
    → (estimate_task w seconds mode assets).estimated_memory_mb ≤ g.limits.max_task_memory_mb
    → (estimate_task w seconds mode assets).weight ≤ g.limits.max_total_weight
    → (admit g w seconds mode assets now later).1.admitted ≡ true
unfolding admit prune
admit_after_ttl g w seconds mode assets t now later by late room sec mem wt =
    Fits-decide _ (estimate_task w seconds mode assets) later (
      rw (drop_expired_all g.limits.in_flight_ttl_seconds now t g.entries by late)
        (record { time = sec; memory = mem; queue = room; weight = omega arith }))

queued_of-release :
    (v w : String) (xs : List Entry)
    → queued_of w (release_loop v none xs).0 ≡ (if v == w then 0 else queued_of w xs)
unfolding release_loop
queued_of-release v w [] = ground arith
queued_of-release v w (x ∷ xs) =
    ground (
      arith,
      queued_of-release v w xs,
      eq_iff v w,
      eq_iff x.workspace_id v,
      eq_iff x.workspace_id w,
    )

released-queued_of : (v : String) (xs : List Entry) → (release_loop v none xs).1 ≡ queued_of v xs
unfolding release_loop
released-queued_of v [] = refl
released-queued_of v (x ∷ xs) = ground (arith, released-queued_of v xs)

-- A release without a weight returns how many entries its workspace had in flight, leaves it none,
-- and leaves every other workspace all of its own.
release-queued_of :
    (g : QueueGuard) (v w : String)
    → ((release g v none).1 ≡ queued_of v g.entries)
      × (queued_of w (release g v none).0.entries ≡ (if v == w then 0 else queued_of w g.entries))
unfolding release
release-queued_of g v w = (released-queued_of v g.entries, queued_of-release v w g.entries)

-- `n` GPU failures of a workspace in a row
abbrev pub ooms : QueueGuard → String → ℕ → QueueGuard
ooms g w zero = g
ooms g w (suc n) = (on_gpu_oom (ooms g w n) w).0

oom_count-on_gpu_oom :
    (g : QueueGuard) (w : String) → oom_count (on_gpu_oom g w).0 w ≡ oom_count g w + 1
unfolding on_gpu_oom
oom_count-on_gpu_oom g w = ground (arith, lookup-insert_self w (oom_count g w + 1) g.gpu_oom_counts)

oom_count-ooms :
    (g : QueueGuard) (w : String) (n : ℕ) → oom_count (ooms g w n) w ≡ oom_count g w + n
oom_count-ooms g w zero = omega arith
oom_count-ooms g w (suc n) =
    omega (arith, oom_count-on_gpu_oom (ooms g w n) w, oom_count-ooms g w n)

limits-ooms : (g : QueueGuard) (w : String) (n : ℕ) → (ooms g w n).limits ≡ g.limits
unfolding on_gpu_oom
limits-ooms g w zero = refl
limits-ooms g w (suc n) = limits-ooms g w n

oom_count-reset_gpu_oom : (g : QueueGuard) (w : String) → oom_count (reset_gpu_oom g w) w ≡ 0
unfolding reset_gpu_oom
oom_count-reset_gpu_oom g w = ground (arith, lookup-remove w w g.gpu_oom_counts, eq_iff w w)

admitted-oom_decision :
    (limits : AdmissionLimits) (count : ℕ)
    → (oom_decision limits count).admitted ≡ ltb count limits.gpu_oom_escalation_threshold
admitted-oom_decision limits count = ground arith

-- After a reset, the failures of a workspace are answered by a smaller batch while there are fewer
-- than `gpu_oom_escalation_threshold` of them in a row, and from then on by an escalation.
oom_escalation :
    (g : QueueGuard) (w : String) (n : ℕ)
    → (on_gpu_oom (ooms (reset_gpu_oom g w) w n) w).1.admitted
      ≡ ltb (n + 1) g.limits.gpu_oom_escalation_threshold
unfolding on_gpu_oom
oom_escalation g w n =
    let r = reset_gpu_oom g w in
    admitted-oom_decision (ooms r w n).limits (oom_count (ooms r w n) w + 1)
    ∙ rw (limits-ooms r w n, oom_count-ooms r w n, oom_count-reset_gpu_oom g w)
        (unfold reset_gpu_oom in rw zero-add)
