-- ===== src/Retrieval/Returns.antt =====
-- When `RetrievalService.retrieve` of packages/retrieval/service.py returns.
use mathlib.Core.Path.{subst}
use evidenceclass_agent.Base.{
  ℕ, zero, suc, ◌<◌, min, String, ◌≡◌, refl, Option, none, some, List, [], ◌∷◌, arith, map, length,
  take, length-map, ◌≤◌, ◌==◌, String_eq, sym, false,
}
use evidenceclass_agent.Base.Members.{All}
use evidenceclass_agent.Retrieval.{RetrievalFilters, ok}
use evidenceclass_agent.Retrieval.Registry.{Repository, list_searchable_chunks}
use evidenceclass_agent.Retrieval.Chunks.{Texts}
use evidenceclass_agent.Retrieval.Query.{StructuredQuery, Words, rewrite}
use evidenceclass_agent.Retrieval.Search.{
  ScoredChunk, Rerank, RerankedItem, candidate_at, ranked_by, rerank, is_refused,
}
use evidenceclass_agent.Retrieval.Search.Scored.{IsComparable, search-ok}
use evidenceclass_agent.Retrieval.Context.{
  RetrievalService, RetrievalResult, as_result, budget_contexts, retrieve,
}

-- A reranker, where there is one, answers each request that the contract accepts, with indices of the
-- documents that it was given.
abbrev pub AnswersInRange : Option Rerank → Type 0
AnswersInRange none = Unit
AnswersInRange (some reranker) =
    (query : String) (documents : List String) (top_n : ℕ)
    → is_refused query (length documents) top_n ≡ false
    → (answers : List RerankedItem) × (reranker query documents top_n ≡ ok answers)
      × All (λ item. item.0 < length documents) answers

-- The contract accepts the request of a service that has a reranker.
abbrev pub IsAccepted : Option Rerank → ℕ → ℕ → String → Type 0
IsAccepted none recall_k context_k query = Unit
IsAccepted (some reranker) recall_k context_k query =
    (0 < context_k) × (recall_k ≤ 256) × ((query == "") ≡ false)

candidate_at-ok :
    (items : List ScoredChunk) (index : ℕ)
    → index < length items
    → (item : ScoredChunk) × (candidate_at items index ≡ ok item)
unfolding candidate_at
candidate_at-ok [] index h = absurd (omega (arith, h))
candidate_at-ok (item ∷ items) zero h = (item, refl)
candidate_at-ok (item ∷ items) (suc index) h = candidate_at-ok items index (omega (arith, h))

ranked_by-ok :
    (candidates : List ScoredChunk) (items : List RerankedItem)
    → All (λ item. item.0 < length candidates) items
    → (ranked : List ScoredChunk) × (ranked_by candidates items ≡ ok ranked)
unfolding ranked_by
ranked_by-ok candidates [] h = ([], refl)
ranked_by-ok candidates (item ∷ items) h =
    let (first, found) = candidate_at-ok candidates item.0 h.0 in
    let (rest, done) = ranked_by-ok candidates items h.1 in
    (record first { rerank_score = some item.1 } ∷ rest, rw (found, done, ranked_by) refl)

-- the request for some candidates
is_refused-candidates :
    (context_k : ℕ) (query : String) (item : ScoredChunk) (items : List ScoredChunk)
    → 0 < context_k
    → length (item ∷ items) ≤ 256
    → (query == "") ≡ false
    → is_refused query (length (item ∷ items)) (min context_k (length (item ∷ items))) ≡ false
is_refused-candidates context_k query item items some_wanted few named = ground arith

rerank-ok :
    (reranker : Option Rerank) (recall_k context_k : ℕ) (query : String)
    (candidates : List ScoredChunk)
    → AnswersInRange reranker
    → IsAccepted reranker recall_k context_k query
    → length candidates ≤ recall_k
    → (ranked : List ScoredChunk) × (rerank reranker context_k query candidates ≡ ok ranked)
unfolding rerank
rerank-ok reranker recall_k context_k query [] h a few = ([], refl)
rerank-ok none recall_k context_k query (item ∷ items) h a few =
    (take context_k (item ∷ items), refl)
rerank-ok (some reranker) recall_k context_k query (item ∷ items) h (wanted, bound, named) few =
    let candidates = item ∷ items in
    let texts = map (λ (i : ScoredChunk). i.chunk.content) candidates in
    let same : length texts ≡ length candidates =
      length-map candidates (λ (i : ScoredChunk). i.chunk.content) in
    let top_n = min context_k (length candidates) in
    let accepted : is_refused query (length texts) top_n ≡ false =
      subst (λ n. is_refused query n top_n ≡ false) (sym same)
        (is_refused-candidates context_k query item items wanted (omega (arith, few, bound))
          named) in
    let (answers, given, in_range) = h query texts top_n accepted in
    let (ranked, done) =
      ranked_by-ok candidates answers
        (subst (λ n. All (λ (i : RerankedItem). i.0 < n) answers) same in_range) in
    (ranked, rw (accepted, given, rerank) done)

-- Where the rewriter accepts the query, the embedding model answers for the rewritten text, and each
-- searchable chunk has an embedding of the dimension of the query's, `retrieve` returns a result for the
-- rewritten query, also where no chunk is searchable. If there is a reranker, then further conditions
-- are that it answers every request that its contract accepts with indices of the documents that it
-- was given, that `context_k` is positive and `recall_k` at most 256, and that the rewritten text is
-- not empty.
pub retrieve_returns :
    (python : Words) (texts : Texts) (service : RetrievalService) (query : String)
    (filters : RetrievalFilters) (repository : Repository) (structured : StructuredQuery)
    (embedding : ℕ)
    → rewrite python query filters ≡ ok structured
    → service.embed structured.normalized ≡ ok embedding
    → All
        (IsComparable service.similarity embedding)
        (list_searchable_chunks structured.filters repository)
    → AnswersInRange service.reranker
    → IsAccepted service.reranker service.recall_k service.context_k structured.normalized
    → (result : RetrievalResult) × (retrieve python texts service query filters repository
        ≡ ok result)
      × (result.query ≡ structured)
unfolding retrieve
retrieve_returns python texts service query filters repository structured embedding accepted answers
      comparable fits request =
    let (found, searched, few) =
      search-ok service.similarity embedding structured.filters service.recall_k repository
        comparable in
    let (ranked, done) =
      rerank-ok service.reranker service.recall_k service.context_k structured.normalized found fits
        request few in
    (
      as_result structured found (budget_contexts texts service.context_token_budget ranked),
      rw (accepted, answers, searched, done, retrieve) refl,
      refl,
    )
