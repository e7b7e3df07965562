-- ===== src/Retrieval/Answers.antt =====
-- What a call of `RetrievalService.retrieve` that returns has gone through.

use evidenceclass_agent.Base.{ℕ, String, ◌≡◌, List, arith, String_eq, inl, inr}
use evidenceclass_agent.Base.Outcome.{Outcome-cases}
use evidenceclass_agent.Retrieval.{RetrievalFilters, ok}
use evidenceclass_agent.Retrieval.Registry.{Repository}
use evidenceclass_agent.Retrieval.Chunks.{Texts}
use evidenceclass_agent.Retrieval.Query.{StructuredQuery, Words, rewrite}
use evidenceclass_agent.Retrieval.Search.{ScoredChunk, search, rerank}
use evidenceclass_agent.Retrieval.Context.{
  RetrievalService, RetrievalResult, as_result, budget_contexts, retrieve,
}

pub rewrite-filters :
    (python : Words) (query : String) (filters : RetrievalFilters) (structured : StructuredQuery)
    → rewrite python query filters ≡ ok structured
    → structured.filters ≡ filters
unfolding rewrite
rewrite-filters python query filters structured done = ground arith

pub record Answered (python : Words) (texts : Texts) (service : RetrievalService) (query : String)
    (filters : RetrievalFilters) (repository : Repository) (result : RetrievalResult) : Type 0 where
  pub structured : StructuredQuery
  pub embedding : ℕ
  pub candidates : List ScoredChunk
  pub ranked : List ScoredChunk
  pub rewritten : rewrite python query filters ≡ ok structured
  pub is_found :
      search service.similarity embedding filters service.recall_k repository ≡ ok candidates
  pub is_ranked :
      rerank service.reranker service.context_k structured.normalized candidates ≡ ok ranked
  pub is_result :
      result
      ≡ as_result structured candidates (budget_contexts texts service.context_token_budget ranked)

pub retrieve-Answered :
    (python : Words) (texts : Texts) (service : RetrievalService) (query : String)
    (filters : RetrievalFilters) (repository : Repository) (result : RetrievalResult)
    → retrieve python texts service query filters repository ≡ ok result
    → Answered python texts service query filters repository result
unfolding retrieve
retrieve-Answered python texts service query filters repository result done =
    elim (Outcome-cases (rewrite python query filters)) [
      | inr (error, raised) ↦ absurd (ground arith)
      | inl (structured, rewritten) ↦ elim (Outcome-cases (service.embed structured.normalized)) [
        | inr (error, raised) ↦ absurd (ground arith)
        | inl (embedding, embedded) ↦
            let found =
              search service.similarity embedding structured.filters service.recall_k repository in
            elim (Outcome-cases found) [
              | inr (error, raised) ↦ absurd (ground arith)
              | inl (candidates, is_found) ↦
                  elim (Outcome-cases
                    (rerank service.reranker service.context_k structured.normalized candidates)) [
                      | inr (error, raised) ↦ absurd (ground arith)
                      | inl (ranked, is_ranked) ↦
                          let same = rewrite-filters python query filters structured rewritten in
                          record {
                            structured = structured;
                            embedding = embedding;
                            candidates = candidates;
                            ranked = ranked;
                            rewritten = rewritten;
                            is_found = rw (← same) is_found;
                            is_ranked = is_ranked;
                            is_result = ground arith;
                          }
                    ]
            ]
      ]
    ]
