-- ===== src/Admission.antt =====
-- apps/worker/admission.py: the guard that bounds the work in flight of each workspace and of all
-- together. A clock reading is a number of ticks, handed to the call that reads the clock; the
-- ceilings on time are in the same unit. The texts of `reason` are left out: `code` determines them.
pub mod Estimate
pub mod Window
pub mod Bounds
pub mod Verdicts
mod Examples
use evidenceclass_agent.Base.{
  ℕ, ◌+◌, ◌*◌, ◌/◌, max, String, Bool, true, false, ◌&&◌, ◌||◌, Option, none, some, List, [], ◌∷◌,
  ◌++◌, ltb, leb, ◌==◌, String_eq, ℕ_eq, if◌then◌else◌, length,
}
use evidenceclass_agent.Base.Int.{ℤ, to_nat}
use evidenceclass_agent.Base.Dict.{lookup, insert, remove}
use Estimate.{
  Resolution, admit_task, reject, degrade, Code, queue_task_too_long, queue_task_too_large,
  queue_backpressure, queue_admitted, gpu_oom_escalated, gpu_oom_degraded, AdmissionLimits, Mode,
  TaskEstimate, estimate_task, Details, limit, limit_mb, queued_limit, weight_limit,
  admitted_totals, needs_review, degraded, AdmissionDecision, Entry,
}

pub record QueueGuard : Type 0 where
  pub limits : AdmissionLimits
  pub entries : List Entry
  pub gpu_oom_counts : List (String × ℕ)

abbrev pub new_guard : AdmissionLimits → QueueGuard
new_guard limits = record { limits = limits; entries = []; gpu_oom_counts = [] }

-- `entry.at < clock() - ttl`
abbrev pub is_expired : ℕ → ℕ → Entry → Bool
is_expired ttl now entry = ltb (entry.at + ttl) now

-- the loop of `_prune`
pub drop_expired : ℕ → ℕ → List Entry → List Entry
drop_expired ttl now [] = []
drop_expired ttl now (entry ∷ rest) =
    let later = drop_expired ttl now rest in
    if is_expired ttl now entry then later else entry ∷ rest

pub prune : QueueGuard → ℕ → QueueGuard
prune g now = record g { entries = drop_expired g.limits.in_flight_ttl_seconds now g.entries }

-- `sum(1 for entry in entries if entry.workspace_id == workspace)`
abbrev pub queued_of : String → List Entry → ℕ
queued_of workspace [] = 0
queued_of workspace (entry ∷ rest) =
    (if entry.workspace_id == workspace then 1 else 0) + queued_of workspace rest

abbrev pub total_weight : List Entry → ℕ
total_weight [] = 0
total_weight (entry ∷ rest) = entry.weight + total_weight rest

abbrev rejection : Code → Option ℕ → TaskEstimate → Details → AdmissionDecision
rejection code retry estimate details = record {
  admitted = false;
  code = code;
  resolution = reject;
  retry_after_seconds = retry;
  estimate = some estimate;
  details = details;
}

-- the guard after `_prune`, with the decision and the entry to append at the second clock reading
abbrev pub decide : QueueGuard → TaskEstimate → ℕ → QueueGuard × AdmissionDecision
decide g estimate later =
    let queued = queued_of estimate.workspace_id g.entries in
    let total = total_weight g.entries in
    let wait = some g.limits.suggested_wait_seconds in
    if ltb g.limits.max_task_seconds estimate.estimated_seconds
    then (g, rejection queue_task_too_long none estimate (limit g.limits.max_task_seconds))
    else if ltb g.limits.max_task_memory_mb estimate.estimated_memory_mb
    then (g, rejection queue_task_too_large none estimate (limit_mb g.limits.max_task_memory_mb))
    else if leb g.limits.max_queued_per_workspace queued
    then (
      g,
      rejection queue_backpressure wait estimate
          (queued_limit queued g.limits.max_queued_per_workspace),
    )
    else if ltb g.limits.max_total_weight (total + estimate.weight)
    then (
      g,
      rejection queue_backpressure wait estimate
          (weight_limit total estimate.weight g.limits.max_total_weight),
    )
    else (
      record g {
        entries =
            g.entries
            ++ record { at = later; workspace_id = estimate.workspace_id; weight = estimate.weight }
              ∷ [];
      },
      record {
        admitted = true;
        code = queue_admitted;
        resolution = admit_task;
        retry_after_seconds = none;
        estimate = some estimate;
        details = admitted_totals (total + estimate.weight) (queued + 1);
      },
    )

-- `now` is the clock reading of `_prune`, `later` that of the new entry
pub admit : QueueGuard → String → ℤ → Mode → ℤ → (now later : ℕ) → QueueGuard × AdmissionDecision
admit g workspace_id duration_seconds mode asset_count now later =
    decide (prune g now) (estimate_task workspace_id duration_seconds mode asset_count) later

abbrev matches_weight : Option ℕ → Entry → Bool
matches_weight none entry = true
matches_weight (some w) entry = entry.weight == w

abbrev is_released : String → Option ℕ → Entry → Bool
is_released workspace weight entry = entry.workspace_id == workspace && matches_weight weight entry

-- the loop of `release`: what is kept, and how many were released
pub release_loop : String → Option ℕ → List Entry → List Entry × ℕ
release_loop workspace weight [] = ([], 0)
release_loop workspace weight (entry ∷ rest) =
    let (kept, released) = release_loop workspace weight rest in
    if is_released workspace weight entry then (kept, released + 1) else (entry ∷ kept, released)

pub release : QueueGuard → String → Option ℕ → QueueGuard × ℕ
release g workspace weight =
    let (kept, released) = release_loop workspace weight g.entries in
    (record g { entries = kept }, released)

-- `self._gpu_oom_counts.get(workspace_id, 0)`
abbrev pub oom_count : QueueGuard → String → ℕ
oom_count g workspace = elim (lookup workspace g.gpu_oom_counts) [ none ↦ 0 | some n ↦ n ]

abbrev pub oom_decision : AdmissionLimits → ℕ → AdmissionDecision
oom_decision limits count =
    if leb limits.gpu_oom_escalation_threshold count
    then record {
      admitted = false;
      code = gpu_oom_escalated;
      resolution = reject;
      retry_after_seconds = none;
      estimate = none;
      details = needs_review count;
    }
    else record {
      admitted = true;
      code = gpu_oom_degraded;
      resolution = degrade;
      retry_after_seconds = none;
      estimate = none;
      details = degraded count limits.gpu_oom_degrade_batch;
    }

pub on_gpu_oom : QueueGuard → String → QueueGuard × AdmissionDecision
on_gpu_oom g workspace =
    let count = oom_count g workspace + 1 in
    (
      record g { gpu_oom_counts = insert workspace count g.gpu_oom_counts },
      oom_decision g.limits count,
    )

pub reset_gpu_oom : QueueGuard → String → QueueGuard
reset_gpu_oom g workspace = record g { gpu_oom_counts = remove workspace g.gpu_oom_counts }

-- `snapshot`: what it returns, beside the pruned guard. `per_workspace` is the count of each
-- workspace in flight, in the order of their first entries.
pub record Snapshot : Type 0 where
  pub in_flight : ℕ
  pub total : ℕ
  pub per_workspace : List (String × ℕ)
  pub limits : AdmissionLimits

pub count_workspaces : List (String × ℕ) → List Entry → List (String × ℕ)
count_workspaces counts [] = counts
count_workspaces counts (entry ∷ rest) =
    let known : ℕ = elim (lookup entry.workspace_id counts) [ none ↦ 0 | some n ↦ n ] in
    count_workspaces (insert entry.workspace_id (known + 1) counts) rest

pub snapshot : QueueGuard → ℕ → QueueGuard × Snapshot
snapshot g now =
    let pruned = prune g now in
    (
      pruned,
      record {
        in_flight = length pruned.entries;
        total = total_weight pruned.entries;
        per_workspace = count_workspaces [] pruned.entries;
        limits = g.limits;
      },
    )
