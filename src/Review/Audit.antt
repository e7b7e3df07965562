-- ===== src/Review/Audit.antt =====
-- The history of a review item of packages/agent_runtime/review.py.
use evidenceclass_agent.Base.{
  ℕ, ◌≡◌, refl, Bool, true, false, ◌&&◌, Option, none, some, List, [], ◌∷◌, ◌++◌, arith, ℕ_eq, ◌==◌,
  same_iff, if◌then◌else◌, inl, inr, Bool-cases, Option-cases, if_intro,
}
use evidenceclass_agent.Base.Dict.{lookup, insert, lookup-insert, lookup-insert_self}
use evidenceclass_agent.Base.Outcome.{Outcome, ok, err}
use evidenceclass_agent.Review.{
  ReviewService, ReviewItem, ReviewAudit, Request, Verdict, pending, decided, new_service, create,
  get, decide, is_reviewer, is_supported, is_pending, updated, audit_of,
}

-- A call of the service: a request under the identifier that is drawn, or a verdict.
pub data Call : Type 0 where
  request : ℕ → Request → Call
  verdict : ℕ → Verdict → Call

abbrev settle :
    ReviewService → {E : Type 0} → Outcome E (ReviewService × ReviewItem) → ReviewService
settle s (ok r) = r.0
settle s (err e) = s

-- an identifier that is drawn is new: a request under a known one is not a call
abbrev pub invoke : ReviewService → Call → ReviewService
invoke s (request i r) = elim (lookup i s.items) [ none ↦ (create s i r).0 | some item ↦ s ]
invoke s (verdict i v) = settle s (decide s i v)

unfoldable pub after : ReviewService → List Call → ReviewService
after s [] = s
after s (c ∷ calls) = after (invoke s c) calls

-- the audits of an item
unfoldable pub audits_of : ℕ → List ReviewAudit → List ReviewAudit
audits_of i [] = []
audits_of i (a ∷ rest) =
    let others = audits_of i rest in if a.review_id == i then a ∷ others else others

audits_of-append :
    (i : ℕ) (l : List ReviewAudit) (a : ReviewAudit)
    → audits_of i (l ++ a ∷ [])
      ≡ (if a.review_id == i then audits_of i l ++ a ∷ [] else audits_of i l)
unfolding audits_of
audits_of-append i [] a = ground arith
audits_of-append i (b ∷ l) a = ground (arith, audits_of-append i l a)

-- a single audit, with what the item says
abbrev pub Tells : ReviewItem → List ReviewAudit → Type 0
Tells item (a ∷ []) =
    (item.decision ≡ some a.decision)
    × (item.reviewer_id ≡ some a.reviewer_id)
    × (item.decided_at ≡ some a.created_at)
    × (item.revision ≡ 1)
    × (a.revision ≡ 1)
Tells item _ = ⊥

-- what the audits of an item must be
abbrev pub Matches : Option ReviewItem → List ReviewAudit → Type 0
Matches none l = l ≡ []
Matches (some item) l = elim item.status [
  | pending ↦ (l ≡ []) × (item.revision ≡ 0)
  | decided ↦ Tells item l
]

abbrev pub IsAudited : ReviewService → Type 0
IsAudited s = (i : ℕ) → Matches (lookup i s.items) (audits_of i s.audits)

create-IsAudited :
    (s : ReviewService) (i : ℕ) (r : Request)
    → lookup i s.items ≡ none
    → IsAudited s
    → IsAudited (create s i r).0
unfolding create
create-IsAudited s i r e w j =
    ground (arith, w j, w i, same_iff i j, lookup-insert s.items i (create s i r).1 j)

-- the service behind a verdict that is accepted
abbrev pub with_verdict : ReviewService → ℕ → ReviewItem → Verdict → ReviewService
with_verdict s i item v = record {
  items = insert i (updated item v) s.items;
  audits = s.audits ++ audit_of i item v ∷ [];
}

abbrev accepts : Verdict → Bool
accepts v = is_reviewer v.role && is_supported v.decision

decide-known :
    (s : ReviewService) (i : ℕ) (item : ReviewItem) (v : Verdict)
    → lookup i s.items ≡ some item
    → settle s (decide s i v)
      ≡ (if is_pending item.status && accepts v then with_verdict s i item v else s)
unfolding decide get
decide-known s i item v e = ground arith

decide-unknown :
    (s : ReviewService) (i : ℕ) (v : Verdict)
    → lookup i s.items ≡ none
    → settle s (decide s i v) ≡ s
unfolding decide get
decide-unknown s i v e = ground arith

with_verdict-IsAudited :
    (s : ReviewService) (i : ℕ) (item : ReviewItem) (v : Verdict)
    → lookup i s.items ≡ some item
    → is_pending item.status ≡ true
    → IsAudited s
    → IsAudited (with_verdict s i item v)
with_verdict-IsAudited s i item v e p w j = ground (
  arith,
  w j,
  w i,
  same_iff i j,
  lookup-insert s.items i (updated item v) j,
  audits_of-append j s.audits (audit_of i item v),
)

decide-IsAudited :
    (s : ReviewService) (i : ℕ) (v : Verdict) → IsAudited s → IsAudited (settle s (decide s i v))
decide-IsAudited s i v w = elim (Option-cases (lookup i s.items)) [
  | inl e ↦ rw (decide-unknown s i v e) w
  | inr (item, e) ↦ rw (decide-known s i item v e) (elim (Bool-cases (is_pending item.status)) [
    | inl p ↦
        if_intro IsAudited (is_pending item.status && accepts v) (with_verdict s i item v) s
          (with_verdict-IsAudited s i item v e p w) w
    | inr p ↦ rw (p, if◌then◌else◌) w
  ])
]

invoke-IsAudited : (s : ReviewService) (c : Call) → IsAudited s → IsAudited (invoke s c)
invoke-IsAudited s (request i r) w = elim (Option-cases (lookup i s.items)) [
  | inl e ↦ rw (e, invoke) (create-IsAudited s i r e w)
  | inr (item, e) ↦ rw (e, invoke) w
]
invoke-IsAudited s (verdict i v) w = decide-IsAudited s i v w

after-IsAudited : (s : ReviewService) (calls : List Call) → IsAudited s → IsAudited (after s calls)
unfolding after
after-IsAudited s [] w = w
after-IsAudited s (c ∷ calls) w = after-IsAudited (invoke s c) calls (invoke-IsAudited s c w)

-- Whatever requests and verdicts a service gets, in any order, accepted or not: an item that waits has
-- no audit, and an item that is decided has exactly one, with the decision, the reviewer and the time
-- that the item shows, at revision 1; an identifier without an item has none.
pub after-new_service-IsAudited :
    (calls : List Call) (i : ℕ)
    → Matches
        (lookup i (after new_service calls).items)
        (audits_of i (after new_service calls).audits)
unfolding audits_of lookup
after-new_service-IsAudited calls i = after-IsAudited new_service calls (λ j. refl) i

-- a verdict on a decided item, or a request under a known identifier, changes nothing of it
invoke-decided :
    (s : ReviewService) (c : Call) (i : ℕ) (item : ReviewItem)
    → lookup i s.items ≡ some item
    → is_pending item.status ≡ false
    → lookup i (invoke s c).items ≡ some item
unfolding create
invoke-decided s (request j r) i item e p =
    ground (arith, same_iff j i, lookup-insert s.items j (create s j r).1 i)
invoke-decided s (verdict j v) i item e p = elim (Option-cases (lookup j s.items)) [
  | inl f ↦ rw (decide-unknown s j v f) e
  | inr (other, f) ↦
      rw (decide-known s j other v f)
        (ground (arith, same_iff j i, lookup-insert s.items j (updated other v) i))
]

after-decided :
    (s : ReviewService) (calls : List Call) (i : ℕ) (item : ReviewItem)
    → lookup i s.items ≡ some item
    → is_pending item.status ≡ false
    → lookup i (after s calls).items ≡ some item
unfolding after
after-decided s [] i item e p = e
after-decided s (c ∷ calls) i item e p =
    after-decided (invoke s c) calls i item (invoke-decided s c i item e p) p

decide-accepted :
    (s t : ReviewService) (i : ℕ) (v : Verdict) (item : ReviewItem)
    → decide s i v ≡ ok (t, item)
    → (lookup i t.items ≡ some item)
      × (is_pending item.status ≡ false)
      × (item.decision ≡ some v.decision)
      × (item.reviewer_id ≡ some v.reviewer_id)
      × (item.revised_observation ≡ v.revised_observation)
unfolding decide get
decide-accepted s t i v item e = elim (Option-cases (lookup i s.items)) [
  | inl f ↦ ground arith
  | inr (old, f) ↦ ground (arith, lookup-insert_self i (updated old v) s.items)
]

-- A verdict that is accepted is final: whatever requests and verdicts come behind it, the item keeps
-- the decision, the reviewer and the revised observation of that verdict.
decision_stands :
    (s t : ReviewService) (i : ℕ) (v : Verdict) (item : ReviewItem) (calls : List Call)
    → decide s i v ≡ ok (t, item)
    → (lookup i (after t calls).items ≡ some item)
      × (item.decision ≡ some v.decision)
      × (item.reviewer_id ≡ some v.reviewer_id)
      × (item.revised_observation ≡ v.revised_observation)
decision_stands s t i v item calls e =
    let (l, p, d, r, o) = decide-accepted s t i v item e in
    (after-decided t calls i item l p, d, r, o)
