-- ===== src/Retrieval/Budget.antt =====
-- The contexts that packages/retrieval/service.py takes into the token budget.
pub mod Within
pub mod Kept
use mathlib.Core.Path.{subst}
use evidenceclass_agent.Base.{
  ℕ, zero, suc, ◌+◌, ◌-◌, ◌≤◌, ◌<◌, max, min, String, ◌≡◌, refl, Bool, true, false, not, List, [],
  ◌∷◌, ◌++◌, arith, ◌==◌, ℕ_eq, String_eq, if◌then◌else◌, length, leb, inl, inr, Bool-cases,
  same_iff, take, ◌||◌,
}
use evidenceclass_agent.Base.Members.{All, All-append, All-weaken, contains}
use evidenceclass_agent.Retrieval.{KnowledgeChunk}
use evidenceclass_agent.Retrieval.Chunks.{Texts, count_tokens}
use evidenceclass_agent.Retrieval.Search.{ScoredChunk}
use evidenceclass_agent.Retrieval.Context.{
  RetrievedContext, Budgeting, include, include_all, whole, cut, with_context, truncate,
  new_budgeting, sum_tokens, last_end,
}

abbrev pub with_hash : ScoredChunk → Budgeting → Budgeting
with_hash item b = record b { seen_hashes = item.chunk.content_sha256 ∷ b.seen_hashes }

abbrev pub with_dropped : ScoredChunk → Budgeting → Budgeting
with_dropped item b = record (with_hash item b) { budget_dropped = b.budget_dropped + 1 }

-- the four ways of a round of the loop
pub include_intro :
    (Q : Budgeting → Type 0) (texts : Texts) (item : ScoredChunk) (b : Budgeting)
    → (contains b.seen_hashes item.chunk.content_sha256 ≡ true
        → Q (record b { duplicates_dropped = b.duplicates_dropped + 1 }))
    → (contains b.seen_hashes item.chunk.content_sha256 ≡ false
        → b.remaining ≡ 0
        → Q (with_dropped item b))
    → (contains b.seen_hashes item.chunk.content_sha256 ≡ false
        → 0 < b.remaining
        → item.chunk.token_count ≤ b.remaining
        → Q (with_context texts (whole texts item) (with_hash item b)))
    → (contains b.seen_hashes item.chunk.content_sha256 ≡ false
        → 0 < b.remaining
        → b.remaining < item.chunk.token_count
        → Q (with_context texts (cut texts item b.remaining) (with_dropped item b)))
    → Q (include texts item b)
unfolding include
include_intro Q texts item b twice full fits long =
    elim (Bool-cases (contains b.seen_hashes item.chunk.content_sha256)) [
      | inl seen ↦ rw (seen, if◌then◌else◌) (twice seen)
      | inr new ↦ elim (Bool-cases (b.remaining == 0)) [
        | inl spent ↦ rw (new, spent, if◌then◌else◌) (full new (ground arith))
        | inr left ↦ elim (Bool-cases (leb item.chunk.token_count b.remaining)) [
          | inl short ↦
              rw (new, left, short, if◌then◌else◌) (fits new (ground arith) (ground arith))
          | inr over ↦ rw (new, left, over, if◌then◌else◌) (long new (ground arith) (ground arith))
        ]
      ]
    ]

-- What a round keeps, the loop keeps.
pub include_all_inv :
    (Q : Budgeting → Type 0) (R : ScoredChunk → Type 0) (texts : Texts)
    → ((item : ScoredChunk) (b : Budgeting) → R item → Q b → Q (include texts item b))
    → (items : List ScoredChunk) (b : Budgeting) → All R items
    → Q b
    → Q (include_all texts items b)
unfolding include_all
include_all_inv Q R texts keep [] b r q = q
include_all_inv Q R texts keep (item ∷ items) b r q =
    include_all_inv Q R texts keep items (include texts item b) r.1 (keep item b r.0 q)
