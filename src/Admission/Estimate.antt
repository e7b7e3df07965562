-- ===== src/Admission/Estimate.antt =====
-- The values of apps/worker/admission.py: the limits, the estimate of a task and the decision.
use evidenceclass_agent.Base.{ℕ, ◌+◌, ◌*◌, ◌/◌, max, String, Bool, ◌&&◌, Option, ltb, if◌then◌else◌}
use evidenceclass_agent.Base.Int.{ℤ, to_nat}

pub data Resolution : Type 0 where
  admit_task reject degrade : Resolution

pub data Code : Type 0 where
  queue_task_too_long queue_task_too_large queue_backpressure queue_admitted : Code
  gpu_oom_escalated gpu_oom_degraded : Code

pub record AdmissionLimits : Type 0 where
  pub max_queued_per_workspace : ℕ
  pub max_concurrent_per_workspace : ℕ
  pub max_total_weight : ℕ
  pub max_task_seconds : ℕ
  pub max_task_memory_mb : ℕ
  pub suggested_wait_seconds : ℕ
  pub in_flight_ttl_seconds : ℕ
  pub gpu_oom_degrade_batch : ℕ
  pub gpu_oom_escalation_threshold : ℕ

-- the fields' defaults
abbrev pub default_limits : AdmissionLimits
default_limits = record {
  max_queued_per_workspace = 8;
  max_concurrent_per_workspace = 3;
  max_total_weight = 240;
  max_task_seconds = 3600;
  max_task_memory_mb = 4096;
  suggested_wait_seconds = 30;
  in_flight_ttl_seconds = 3600;
  gpu_oom_degrade_batch = 2;
  gpu_oom_escalation_threshold = 2;
}

-- `__post_init__`: false where it raises
unfoldable pub post_init : AdmissionLimits → Bool
post_init l =
    ltb 0 l.max_queued_per_workspace
    && ltb 0 l.max_concurrent_per_workspace
    && ltb 0 l.max_total_weight
    && ltb 0 l.max_task_seconds

pub data Mode : Type 0 where
  image other : Mode

pub record TaskEstimate : Type 0 where
  pub workspace_id : String
  pub mode : Mode
  pub duration_seconds : ℕ
  pub weight : ℕ
  pub estimated_seconds : ℕ
  pub estimated_memory_mb : ℕ

-- the entries of `details`
pub data Details : Type 0 where
  limit limit_mb : ℕ → Details
  queued_limit : (workspace_queued limit : ℕ) → Details
  weight_limit : (total_weight incoming_weight limit : ℕ) → Details
  admitted_totals : (total_weight workspace_queued : ℕ) → Details
  needs_review : (oom_count : ℕ) → Details
  degraded : (oom_count degraded_batch : ℕ) → Details

pub record AdmissionDecision : Type 0 where
  pub admitted : Bool
  pub code : Code
  pub resolution : Resolution
  pub retry_after_seconds : Option ℕ
  pub estimate : Option TaskEstimate
  pub details : Details

-- `_Entry`
pub record Entry : Type 0 where
  pub at : ℕ
  pub workspace_id : String
  pub weight : ℕ

abbrev per_asset : Mode → ℕ
per_asset image = 10
per_asset other = 6

-- `math.ceil(duration / 60.0)`
abbrev pub minutes_ceil : ℕ → ℕ
minutes_ceil duration = (duration + 59) / 60

unfoldable pub estimate_task : String → ℤ → Mode → ℤ → TaskEstimate
estimate_task workspace_id duration_seconds mode asset_count =
    let duration = to_nat duration_seconds in
    let assets = max 1 (to_nat asset_count) in
    record {
      workspace_id = workspace_id;
      mode = mode;
      duration_seconds = duration;
      weight = max 1 (1 + minutes_ceil duration) * per_asset mode + assets;
      estimated_seconds = if ltb 0 duration then duration else 60;
      estimated_memory_mb = 256 + 64 * assets + duration / 60 * 8;
    }
