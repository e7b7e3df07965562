-- ===== src/Retrieval/Citations/Answers.antt =====
-- The citations of what packages/retrieval/service.py returns, under packages/retrieval/citations.py.
use mathlib.Core.Path.{subst}
use evidenceclass_agent.Base.{String, ◌≡◌, refl, sym, true, false, List, arith}
use evidenceclass_agent.Base.Members.{All, In, All-In, All-weaken}
use evidenceclass_agent.Retrieval.{RetrievalFilters, ok}
use evidenceclass_agent.Retrieval.Registry.{Repository, new_repository, is_allowed, is_empty}
use evidenceclass_agent.Retrieval.Chunks.{Texts}
use evidenceclass_agent.Retrieval.Query.{Words}
use evidenceclass_agent.Retrieval.Context.{
  RetrievedContext, RetrievalService, RetrievalResult, retrieve,
}
use evidenceclass_agent.Retrieval.Isolation.{IsVisible}
use evidenceclass_agent.Retrieval.Histories.{Library, Action, after_actions, retrieve-isolated}
use evidenceclass_agent.Retrieval.Citations.{Citation, ReportClaim, validate, is_knowledge}
use evidenceclass_agent.Retrieval.Citations.Grounded.{
  IsGrounded, IsSupported, validate-IsSupported_iff,
}

-- the citation of a context, as GroundedPromptBuilder hands its identifiers out
abbrev pub cite : RetrievedContext → Citation
cite context = record {
  chunk_id = context.chunk.chunk_id;
  document_id = context.chunk.document_id;
  page = context.chunk.page;
  version = context.chunk.version;
}

IsGrounded-cite :
    (repository : Repository) (filters : RetrievalFilters) (context : RetrievedContext)
    → IsVisible repository filters context.chunk
    → IsGrounded repository filters.workspace_id (cite context)
unfolding is_allowed
IsGrounded-cite repository filters context (stored, document, filed, allowed, own) =
    (context.chunk, document, stored, filed, refl, own, refl, refl, ground arith)

-- A claim of a report that cites retrieved contexts alone, and at least one for knowledge.
abbrev pub CitesOnly : List RetrievedContext → ReportClaim → Type 0
CitesOnly contexts claim =
    (is_knowledge claim.kind ≡ true → is_empty claim.citations ≡ false)
    × All
        (λ citation. (context : RetrievedContext) × In context contexts × (citation ≡ cite context))
        claim.citations

-- the gate opens
abbrev pub IsPublishable : Repository → List ReportClaim → String → Type 0
IsPublishable repository claims workspace_id =
    (validate repository claims workspace_id).publishable ≡ true

CitesOnly-IsSupported :
    (repository : Repository) (filters : RetrievalFilters) (contexts : List RetrievedContext)
    (claim : ReportClaim)
    → All (λ context. IsVisible repository filters context.chunk) contexts
    → CitesOnly contexts claim
    → IsSupported repository filters.workspace_id claim
CitesOnly-IsSupported repository filters contexts claim visible (cited, only) = (
  cited,
  All-weaken
      (λ citation. (context : RetrievedContext) × In context contexts × (citation ≡ cite context))
      (IsGrounded repository filters.workspace_id)
      (λ citation (context, held, same).
        subst (IsGrounded repository filters.workspace_id) (sym same) (
          IsGrounded-cite repository filters context
            (All-In (λ c. IsVisible repository filters c.chunk) context contexts visible held)))
      claim.citations only,
)

-- In the repository behind any sequence of ingestions, publications and deletions, begun with an empty
-- one: where `retrieve` returns a result for a workspace and the claims of a report cite contexts of this
-- result alone, each by its chunk, document, page and version, and each claim of knowledge cites at
-- least one, the validator finds the report publishable for that workspace.
pub retrieve-IsPublishable :
    (texts : Texts) (library : Library) (python : Words) (service : RetrievalService)
    (actions : List Action) (query : String) (filters : RetrievalFilters) (result : RetrievalResult)
    (claims : List ReportClaim)
    → retrieve python texts service query filters
        (after_actions texts library actions new_repository)
      ≡ ok result
    → All (CitesOnly result.contexts) claims
    → IsPublishable (after_actions texts library actions new_repository) claims filters.workspace_id
retrieve-IsPublishable texts library python service actions query filters result claims done cites =
    let repository = after_actions texts library actions new_repository in
    let visible =
      retrieve-isolated texts library python service actions query filters result done in
    (validate-IsSupported_iff repository claims filters.workspace_id).1 (
      All-weaken (CitesOnly result.contexts) (IsSupported repository filters.workspace_id)
        (λ claim c. CitesOnly-IsSupported repository filters result.contexts claim visible c) claims
        cites)
