-- ===== src/Review.antt =====
-- packages/agent_runtime/review.py: the review items, and the audit of their decisions. Items are
-- kept by the number that stands for their identifier; the text of a note is its text, and an
-- observation is a number that stands for it.
pub mod Audit
mod Examples
use evidenceclass_agent.Base.{
  ℕ, ◌+◌, String, Bool, true, false, not, ◌||◌, Option, none, some, List, [], ◌∷◌, ◌++◌, ℕ_eq,
  String_eq, ◌==◌,
}
use evidenceclass_agent.Base.Dict.{Items, lookup, insert}
use evidenceclass_agent.Base.Outcome.{Outcome, ok, err, ◌>>=◌, ◌>>◌, raise_if}

pub data ReviewStatus : Type 0 where
  pending decided : ReviewStatus

pub data ReviewError : Type 0 where
  unknown_item role_required already_decided unsupported_decision : ReviewError

pub record ReviewItem : Type 0 where
  pub job_id : ℕ
  pub reason : String
  pub risk : String
  pub status : ReviewStatus
  pub original_observation : ℕ
  pub revised_observation : Option ℕ
  pub reviewer_id : Option String
  pub decision : Option String
  pub decided_at : Option ℕ
  pub revision : ℕ
  pub note : Option String

pub record ReviewAudit : Type 0 where
  pub review_id : ℕ
  pub reviewer_id : String
  pub decision : String
  pub revision : ℕ
  pub created_at : ℕ

pub record ReviewService : Type 0 where
  pub items : Items ℕ ReviewItem
  pub audits : List ReviewAudit

abbrev pub new_service : ReviewService
new_service = record { items = []; audits = [] }

-- the arguments of `create`
pub record Request : Type 0 where
  pub job_id : ℕ
  pub reason : String
  pub risk : String
  pub observation : ℕ

-- `create`, with the identifier that `uuid4` draws
unfoldable pub create : ReviewService → ℕ → Request → ReviewService × ReviewItem
create s review_id r =
    let item : ReviewItem = record {
      job_id = r.job_id;
      reason = r.reason;
      risk = r.risk;
      status = pending;
      original_observation = r.observation;
      revised_observation = none;
      reviewer_id = none;
      decision = none;
      decided_at = none;
      revision = 0;
      note = none;
    } in
    (record s { items = insert review_id item s.items }, item)

unfoldable pub get : ReviewService → ℕ → Outcome ReviewError ReviewItem
get s review_id = elim (lookup review_id s.items) [ none ↦ err unknown_item | some item ↦ ok item ]

-- the arguments of `decide` behind the identifier, and the clock reading
pub record Verdict : Type 0 where
  pub reviewer_id : String
  pub role : String
  pub decision : String
  pub note : String
  pub revised_observation : Option ℕ
  pub now : ℕ

abbrev pub is_reviewer : String → Bool
is_reviewer role = role == "reviewer" || role == "admin"

abbrev pub is_supported : String → Bool
is_supported decision =
    decision == "APPROVED"
    || decision == "REJECTED"
    || decision == "MODIFIED"
    || decision == "MATERIALS_REQUESTED"

abbrev pub is_pending : ReviewStatus → Bool
is_pending pending = true
is_pending decided = false

-- the item with its decision
abbrev pub updated : ReviewItem → Verdict → ReviewItem
updated item v = record item {
  status = decided;
  reviewer_id = some v.reviewer_id;
  decision = some v.decision;
  decided_at = some v.now;
  revision = item.revision + 1;
  note = some v.note;
  revised_observation = v.revised_observation;
}

abbrev pub audit_of : ℕ → ReviewItem → Verdict → ReviewAudit
audit_of review_id item v = record {
  review_id = review_id;
  reviewer_id = v.reviewer_id;
  decision = v.decision;
  revision = item.revision + 1;
  created_at = v.now;
}

unfoldable pub decide :
    ReviewService → ℕ → Verdict → Outcome ReviewError (ReviewService × ReviewItem)
decide s review_id v = do
  item ← get s review_id
  raise_if (not (is_reviewer v.role)) role_required
  raise_if (not (is_pending item.status)) already_decided
  raise_if (not (is_supported v.decision)) unsupported_decision
  ok (
    record {
      items = insert review_id (updated item v) s.items;
      audits = s.audits ++ audit_of review_id item v ∷ [];
    },
    updated item v,
  )
