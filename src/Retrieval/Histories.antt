-- ===== src/Retrieval/Histories.antt =====
-- The repository of packages/retrieval under its callers: ingestions, publications and deletions.
use evidenceclass_agent.Base.{ℕ, String, ◌≡◌, List, [], ◌∷◌, inl, inr}
use evidenceclass_agent.Base.Members.{All}
use evidenceclass_agent.Base.Outcome.{Outcome-cases}
use evidenceclass_agent.Retrieval.{
  SourceRegistration, RetrievalFilters, RetrievalError, Result, ok, err,
}
use evidenceclass_agent.Retrieval.Registry.{Repository, new_repository, publish, delete_chunk}
use evidenceclass_agent.Retrieval.Chunks.{Chunker, Texts}
use evidenceclass_agent.Retrieval.Ingestion.{Source, ingest}
use evidenceclass_agent.Retrieval.Filed.{IsFiled, new_repository-IsFiled}
use evidenceclass_agent.Retrieval.Filed.Operations.{publish-IsFiled, delete_chunk-IsFiled}
use evidenceclass_agent.Retrieval.Ingested.{IsMade}
use evidenceclass_agent.Retrieval.Ingested.Stored.{ingest-IsFiled}
use evidenceclass_agent.Retrieval.Query.{Words}
use evidenceclass_agent.Retrieval.Context.{RetrievalService, RetrievalResult, retrieve}
use evidenceclass_agent.Retrieval.Isolation.{IsVisible, retrieve-IsVisible}

-- what the ingestion service and the publication of a document are made with
pub record Library : Type 0 where
  pub embed : List String → Result (List ℕ)
  pub batch_size : ℕ
  pub chunker : Chunker
  pub str : RetrievalError → String
  pub casefold : String → String

pub data Action : Type 0 where
  ingests : SourceRegistration → Source → Action
  publishes : String → Action
  deletes : String → Action

abbrev settled : Repository → Result Repository → Repository
settled repository (ok behind) = behind
settled repository (err error) = repository

module _ (texts : Texts) (library : Library) where
  open library use {embed, batch_size, chunker, str, casefold}

  unfoldable pub act : Action → Repository → Repository
  unfolding ingest publish delete_chunk
  act (ingests registration source) repository =
      (ingest embed batch_size texts chunker str registration source repository).0
  act (publishes document_id) repository =
      settled repository (publish casefold document_id repository)
  act (deletes chunk_id) repository = delete_chunk chunk_id repository

  unfoldable pub after_actions : List Action → Repository → Repository
  unfolding act
  after_actions [] repository = repository
  after_actions (action ∷ actions) repository = after_actions actions (act action repository)

  act-IsFiled :
      (action : Action) (repository : Repository)
      → IsFiled (IsMade texts) repository
      → IsFiled (IsMade texts) (act action repository)
  unfolding act
  act-IsFiled (ingests registration source) repository f =
      ingest-IsFiled texts embed batch_size chunker str registration source repository f
  act-IsFiled (publishes document_id) repository f =
      elim (Outcome-cases (publish casefold document_id repository)) [
        | inl (behind, done) ↦
            rw (done, settled)
              (publish-IsFiled (IsMade texts) casefold document_id repository behind done f)
        | inr (error, raised) ↦ rw (raised, settled) f
      ]
  act-IsFiled (deletes chunk_id) repository f =
      delete_chunk-IsFiled (IsMade texts) chunk_id repository f

  after_actions-IsFiled :
      (actions : List Action) (repository : Repository)
      → IsFiled (IsMade texts) repository
      → IsFiled (IsMade texts) (after_actions actions repository)
  unfolding after_actions
  after_actions-IsFiled [] repository f = f
  after_actions-IsFiled (action ∷ actions) repository f =
      after_actions-IsFiled actions _ (act-IsFiled action repository f)

  pub new_repository-after-IsFiled :
      (actions : List Action) → IsFiled (IsMade texts) (after_actions actions new_repository)
  new_repository-after-IsFiled actions =
      after_actions-IsFiled actions new_repository (new_repository-IsFiled (IsMade texts))

  -- In the repository behind any sequence of ingestions, publications and deletions of chunks, begun
  -- with an empty one, whether they raise or not, and for every query, embedding model, similarity,
  -- reranker and budget: each context of a result that `retrieve` returns is a chunk stored under
  -- its identifier, whose document is stored and is one that the filters allow, that is
  -- published, of the workspace of the filters, and of their sources and versions; and the chunk
  -- itself names that workspace.
  pub retrieve-isolated :
      (python : Words) (service : RetrievalService) (actions : List Action) (query : String)
      (filters : RetrievalFilters) (result : RetrievalResult)
      → retrieve python texts service query filters (after_actions actions new_repository)
        ≡ ok result
      → All
          (λ context. IsVisible (after_actions actions new_repository) filters context.chunk)
          result.contexts
  retrieve-isolated python service actions query filters result done =
      retrieve-IsVisible (IsMade texts) python texts service query filters
        (after_actions actions new_repository) result (new_repository-after-IsFiled actions) done
