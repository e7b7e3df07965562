-- ===== src/Retrieval/Isolation.antt =====
-- Whose chunks packages/retrieval/service.py shows.
use mathlib.Core.Path.{subst}
use evidenceclass_agent.Base.{
  String, ◌≡◌, refl, sym, ap, ◌∙◌, true, ◌&&◌, some, List, [], ◌∷◌, arith, ◌==◌, String_eq,
  if◌then◌else◌, if_intro, same_iff, inl, inr, ℕ_eq, Bool-cases,
}
use evidenceclass_agent.Base.Dict.{Items, lookup}
use evidenceclass_agent.Base.Members.{All, In, contains, All-weaken, lookup-In}
use evidenceclass_agent.Retrieval.{KnowledgeDocumentRecord, KnowledgeChunk, RetrievalFilters, ok}
use evidenceclass_agent.Retrieval.Registry.{
  Repository, is_allowed, allowed_documents, searchable, is_embedded, list_searchable_chunks,
}
use evidenceclass_agent.Retrieval.Shown.{retrieve-Shown}
use evidenceclass_agent.Retrieval.Filed.{IsFiled}
use evidenceclass_agent.Retrieval.Search.{}
use evidenceclass_agent.Retrieval.Chunks.{Texts}
use evidenceclass_agent.Retrieval.Query.{Words}
use evidenceclass_agent.Retrieval.Context.{RetrievalService, RetrievalResult, retrieve}

-- A chunk that the caller of a search may see: it is stored under its identifier and its document is
-- stored too, published, of the caller's workspace, and one that the filters take.
abbrev pub IsVisible : Repository → RetrievalFilters → KnowledgeChunk → Type 0
IsVisible repository filters c =
    (lookup c.chunk_id repository.chunks ≡ some c)
    × (r : KnowledgeDocumentRecord) × (lookup c.document_id repository.documents ≡ some r)
    × (is_allowed filters r ≡ true)
    × (c.workspace_id ≡ filters.workspace_id)

allowed_document :
    (filters : RetrievalFilters) (documents : Items String KnowledgeDocumentRecord) (i : String)
    → contains (allowed_documents filters documents) i ≡ true
    → (r : KnowledgeDocumentRecord) × In (i, r) documents × (is_allowed filters r ≡ true)
unfolding allowed_documents contains
allowed_document filters [] i h = absurd (ground arith)
allowed_document filters ((j, r) ∷ documents) i h = elim (Bool-cases (is_allowed filters r)) [
  | inr left ↦ let (s, m, a) = allowed_document filters documents i (ground arith) in (s, inr m, a)
  | inl taken ↦ elim (Bool-cases (j == i)) [
    | inl same ↦ (r, inl (ap (λ x. (x, r)) ((same_iff j i).0 same)), taken)
    | inr other ↦
        let (s, m, a) = allowed_document filters documents i (ground arith) in (s, inr m, a)
  ]
]

abbrev IsHeld : List String → Items String KnowledgeChunk → KnowledgeChunk → Type 0
IsHeld allowed chunks c = (k : String) × In (k, c) chunks × (contains allowed c.document_id ≡ true)

searchable-IsHeld :
    (allowed : List String) (chunks : Items String KnowledgeChunk)
    → All (IsHeld allowed chunks) (searchable allowed chunks)
unfolding searchable
searchable-IsHeld allowed [] = tt
searchable-IsHeld allowed ((k, c) ∷ chunks) =
    let rest =
      All-weaken (IsHeld allowed chunks) (IsHeld allowed ((k, c) ∷ chunks))
        (λ x h. (h.0, inr h.1, h.2)) (searchable allowed chunks)
        (searchable-IsHeld allowed chunks) in
    elim (Bool-cases (contains allowed c.document_id)) [
      | inr left ↦ rw (left, ◌&&◌, if◌then◌else◌) rest
      | inl taken ↦
          let first : IsHeld allowed ((k, c) ∷ chunks) c = (k, inl refl, taken) in
          if_intro (All (IsHeld allowed ((k, c) ∷ chunks)))
            (contains allowed c.document_id && is_embedded c) _ _ (first, rest) rest
    ]

pub list_searchable_chunks-IsVisible :
    (Kind : KnowledgeChunk → Type 0) (filters : RetrievalFilters) (repository : Repository)
    → IsFiled Kind repository
    → All (λ c. IsVisible repository filters c × Kind c) (list_searchable_chunks filters repository)
unfolding list_searchable_chunks is_allowed
list_searchable_chunks-IsVisible Kind filters repository f =
    let allowed = allowed_documents filters repository.documents in
    All-weaken (IsHeld allowed repository.chunks) (λ c. IsVisible repository filters c × Kind c)
      (λ c held.
        let (k, m, a) = held in
        let h = lookup-In k c repository.chunks f.chunks_unique m in
        let (i, kind, r, l, w) = f.owned k c h in
        let (s, n, o) = allowed_document filters repository.documents c.document_id a in
        let same : some r ≡ some s =
          sym l ∙ lookup-In c.document_id s repository.documents f.documents_unique n in
        let e : s ≡ r = ground arith in
        (
          (
            subst (λ k. lookup k repository.chunks ≡ some c) (sym i) h,
            r,
            l,
            subst (λ d. is_allowed filters d ≡ true) e o,
            w ∙ ground (arith, same_iff r.registration.workspace_id filters.workspace_id, o),
          ),
          kind,
        ))
      (searchable allowed repository.chunks) (searchable-IsHeld allowed repository.chunks)

-- Where the repository is filed, every context that `retrieve` returns is visible to the caller.
pub retrieve-IsVisible :
    (Kind : KnowledgeChunk → Type 0) (python : Words) (texts : Texts) (service : RetrievalService)
    (query : String) (filters : RetrievalFilters) (repository : Repository)
    (result : RetrievalResult)
    → IsFiled Kind repository
    → retrieve python texts service query filters repository ≡ ok result
    → All (λ context. IsVisible repository filters context.chunk) result.contexts
retrieve-IsVisible Kind python texts service query filters repository result f done =
    retrieve-Shown (IsVisible repository filters) python texts service query filters repository
      result
      (All-weaken (λ c. IsVisible repository filters c × Kind c) (IsVisible repository filters)
        (λ c v. v.0) (list_searchable_chunks filters repository)
        (list_searchable_chunks-IsVisible Kind filters repository f))
      done
