-- ===== src/Admission/Examples.antt =====
-- The guard of apps/worker/admission.py on concrete tasks.
use evidenceclass_agent.Base.{◌≡◌, refl, false, List, [], ◌∷◌}
use evidenceclass_agent.Base.Int.{pos}
use evidenceclass_agent.Admission.Estimate.{default_limits, image, other, estimate_task}
use evidenceclass_agent.Admission.{QueueGuard, new_guard, prune, admit, drop_expired}
use evidenceclass_agent.Admission.Bounds.{
  Operation, admits, ooms, snapshots, after, IsBounded, after-new_guard-IsBounded,
}

abbrev history : List Operation
history =
    admits "a" (pos 2760) other (pos 2) 5 6
    ∷ admits "b" (pos 60) image (pos 1) 7 8
    ∷ ooms "a"
    ∷ snapshots 4000
    ∷ []

-- a 46-minute recording weighs 6 * 47 + 1, more than the ceiling
too_heavy : (admit (new_guard default_limits) "a" (pos 2760) other (pos 1) 0 0).1.admitted ≡ false
unfolding admit prune drop_expired estimate_task
too_heavy = refl

after-new_guard-IsBounded_example : IsBounded (after (new_guard default_limits) history)
after-new_guard-IsBounded_example = after-new_guard-IsBounded default_limits history

abbrev busy : QueueGuard
busy = record {
  limits = default_limits;
  entries =
      record { at = 3; workspace_id = "a"; weight = 200 }
      ∷ record { at = 9; workspace_id = "b"; weight = 40 }
      ∷ [];
  gpu_oom_counts = ("a", 1) ∷ [];
}
