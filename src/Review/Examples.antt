-- ===== src/Review/Examples.antt =====
-- Reviews of packages/agent_runtime/review.py at concrete calls.
use evidenceclass_agent.Base.{none, List, [], ◌∷◌, ℕ_eq}
use evidenceclass_agent.Base.Dict.{lookup}
use evidenceclass_agent.Review.{ReviewItem, Request, Verdict, new_service, create}
use evidenceclass_agent.Review.Audit.{
  Call, request, verdict, after, audits_of, Matches, after-new_service-IsAudited,
}

abbrev concern : Request
concern = record { job_id = 4; reason = "face"; risk = "high"; observation = 9 }

abbrev approving : Verdict
approving = record {
  reviewer_id = "ann";
  role = "reviewer";
  decision = "APPROVED";
  note = "";
  revised_observation = none;
  now = 5;
}

-- one reviewer approves, a student tries to, and an administrator comes too late
abbrev calls : List Call
calls =
    request 1 concern
    ∷ verdict 1 (record approving { role = "student" })
    ∷ verdict 1 approving
    ∷ verdict 1 (record approving { role = "admin"; decision = "REJECTED"; now = 6 })
    ∷ verdict 2 approving
    ∷ []

after-new_service-IsAudited_example :
    Matches
      (lookup 1 (after new_service calls).items)
      (audits_of 1 (after new_service calls).audits)
after-new_service-IsAudited_example = after-new_service-IsAudited calls 1

abbrev item : ReviewItem
item = (create new_service 1 concern).1
