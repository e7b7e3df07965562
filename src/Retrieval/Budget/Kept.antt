-- ===== src/Retrieval/Budget/Kept.antt =====
-- The token budget over the whole of packages/retrieval.
use evidenceclass_agent.Base.{◌≤◌, String, ◌≡◌, refl, List, arith}
use evidenceclass_agent.Base.Members.{All-weaken}
use evidenceclass_agent.Retrieval.{RetrievalFilters, ok}
use evidenceclass_agent.Retrieval.Registry.{new_repository, list_searchable_chunks}
use evidenceclass_agent.Retrieval.Chunks.{Texts}
use evidenceclass_agent.Retrieval.Ingested.{IsMade}
use evidenceclass_agent.Retrieval.Query.{Words}
use evidenceclass_agent.Retrieval.Context.{RetrievalService, RetrievalResult, retrieve, sum_tokens}
use evidenceclass_agent.Retrieval.Answers.{retrieve-Answered}
use evidenceclass_agent.Retrieval.Shown.{Answered-Scored, retrieve-Shown}
use evidenceclass_agent.Retrieval.Isolation.{IsVisible, list_searchable_chunks-IsVisible}
use evidenceclass_agent.Retrieval.Histories.{
  Library, Action, after_actions, new_repository-after-IsFiled,
}
use evidenceclass_agent.Retrieval.Budget.Within.{
  CutsAtTokens, IsDistinct, hash, content, IsDistinct-content, include_all-IsBudgeted,
}

-- Where a text that is cut at the end of its n-th token and stripped has n tokens: in the repository
-- behind any sequence of ingestions, publications and deletions, begun with an empty one, each result
-- that `retrieve` returns has contexts of at most `context_token_budget` tokens together, which is the
-- sum that the result names; and no two of its contexts are of chunks with one content, nor of chunks
-- with one content hash.
pub retrieve-IsDistinct_within :
    (texts : Texts)
    → CutsAtTokens texts
    → (library : Library) (python : Words) (service : RetrievalService) (actions : List Action)
      (query : String) (filters : RetrievalFilters) (result : RetrievalResult)
    → retrieve python texts service query filters
        (after_actions texts library actions new_repository)
      ≡ ok result
    → (result.context_tokens ≤ service.context_token_budget)
      × (result.context_tokens ≡ sum_tokens result.contexts)
      × IsDistinct hash result.contexts
      × IsDistinct content result.contexts
retrieve-IsDistinct_within texts cuts library python service actions query filters result done =
    let repository = after_actions texts library actions new_repository in
    let a = retrieve-Answered python texts service query filters repository result done in
    let counted =
      All-weaken (λ c. IsVisible repository filters c × IsMade texts c) (IsMade texts) (λ c v. v.1)
        (list_searchable_chunks filters repository)
        (list_searchable_chunks-IsVisible (IsMade texts) filters repository
          (new_repository-after-IsFiled texts library actions)) in
    let kept = include_all-IsBudgeted texts cuts service.context_token_budget a.ranked (
      Answered-Scored (IsMade texts) python texts service query filters repository result a
        counted) in
    let shown =
      retrieve-Shown (IsMade texts) python texts service query filters repository result counted
        done in
    (
      rw a.is_result (omega (arith, kept.within)),
      rw a.is_result refl,
      rw a.is_result kept.different,
      IsDistinct-content texts result.contexts shown (rw a.is_result kept.different),
    )
