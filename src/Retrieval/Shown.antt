-- ===== src/Retrieval/Shown.antt =====
-- What holds of the chunks of packages/retrieval/stores.py holds of what service.py shows.
use mathlib.Core.Path.{subst}
use evidenceclass_agent.Base.{
  ℕ, zero, suc, min, String, ◌≡◌, Option, none, some, List, [], ◌∷◌, arith, String_eq, if_intro,
  length, take, map, inl, inr, ℕ_eq, sym, Bool-cases,
}
use evidenceclass_agent.Base.Members.{All, All-append, All-take}
use evidenceclass_agent.Base.Outcome.{Outcome-cases}
use evidenceclass_agent.Retrieval.{KnowledgeChunk, RetrievalFilters, ok, Result}
use evidenceclass_agent.Retrieval.Registry.{Repository, list_searchable_chunks}
use evidenceclass_agent.Retrieval.Search.{
  ScoredChunk, goes_before, put, sorted, is_refused, Rerank, RerankedItem, candidate_at, ranked_by,
  rerank,
}
use evidenceclass_agent.Retrieval.Search.Scored.{search-scored, AreScored-All}
use evidenceclass_agent.Retrieval.Chunks.{Texts}
use evidenceclass_agent.Retrieval.Query.{Words}
use evidenceclass_agent.Retrieval.Answers.{Answered, retrieve-Answered}
use evidenceclass_agent.Retrieval.Budget.{include_intro, include_all_inv}
use evidenceclass_agent.Retrieval.Context.{
  RetrievedContext, Budgeting, include, whole, cut, new_budgeting, RetrievalService,
  RetrievalResult, retrieve,
}

the_value : {A : Type 0} (a b : A) → ◌≡◌ {A = Result A} (ok a) (ok b) → a ≡ b
the_value a b e = ground arith

-- What holds of the chunks that a search ranks holds of what it gives.
module _ (P : KnowledgeChunk → Type 0) where
  abbrev Scored : ScoredChunk → Type 0
  Scored item = P item.chunk

  put-Scored :
      (item : ScoredChunk) (items : List ScoredChunk)
      → P item.chunk
      → All Scored items
      → All Scored (put item items)
  unfolding put
  put-Scored item [] p h = (p, tt)
  put-Scored item (other ∷ others) p h =
      if_intro (All Scored) (goes_before item other) _ _ (p, h) (h.0, put-Scored item others p h.1)

  sorted-Scored : (items : List ScoredChunk) → All Scored items → All Scored (sorted items)
  unfolding sorted
  sorted-Scored [] h = tt
  sorted-Scored (item ∷ items) h = put-Scored item (sorted items) h.0 (sorted-Scored items h.1)

  candidate_at-Scored :
      (items : List ScoredChunk) (index : ℕ) (item : ScoredChunk)
      → candidate_at items index ≡ ok item
      → All Scored items
      → P item.chunk
  unfolding candidate_at
  candidate_at-Scored [] index item e h = absurd (ground arith)
  candidate_at-Scored (i ∷ items) zero item e h = subst (λ x. P x.chunk) (the_value i item e) h.0
  candidate_at-Scored (i ∷ items) (suc index) item e h = candidate_at-Scored items index item e h.1

  ranked_by-Scored :
      (candidates : List ScoredChunk) (items : List RerankedItem) (ranked : List ScoredChunk)
      → ranked_by candidates items ≡ ok ranked
      → All Scored candidates
      → All Scored ranked
  unfolding ranked_by
  ranked_by-Scored candidates [] ranked e h = subst (All Scored) (the_value [] ranked e) tt
  ranked_by-Scored candidates ((index, value) ∷ items) ranked e h =
      elim (Outcome-cases (candidate_at candidates index)) [
        | inr (error, raised) ↦ absurd (ground arith)
        | inl (item, found) ↦ elim (Outcome-cases (ranked_by candidates items)) [
          | inr (error, raised) ↦ absurd (ground arith)
          | inl (rest, done) ↦
              subst (All Scored)
                (the_value (record item { rerank_score = some value } ∷ rest) ranked (ground arith))
                (
                  candidate_at-Scored candidates index item found h,
                  ranked_by-Scored candidates items rest done h,
                )
        ]
      ]

  rerank-Scored :
      (reranker : Option Rerank) (context_k : ℕ) (query : String)
      (candidates ranked : List ScoredChunk)
      → rerank reranker context_k query candidates ≡ ok ranked
      → All Scored candidates
      → All Scored ranked
  unfolding rerank
  rerank-Scored reranker context_k query [] ranked e h =
      subst (All Scored) (the_value [] ranked e) tt
  rerank-Scored none context_k query (item ∷ items) ranked e h =
      subst (All Scored) (the_value (take context_k (item ∷ items)) ranked e)
        (All-take Scored context_k (item ∷ items) h)
  rerank-Scored (some reranker) context_k query (item ∷ items) ranked e h =
      let documents = map (λ (i : ScoredChunk). i.chunk.content) (item ∷ items) in
      let top_n = min context_k (length (item ∷ items)) in
      elim (Bool-cases (is_refused query (length documents) top_n)) [
        | inl refused ↦ absurd (ground arith)
        | inr accepted ↦ elim (Outcome-cases (reranker query documents top_n)) [
          | inr (error, raised) ↦ absurd (ground arith)
          | inl (answers, given) ↦ ranked_by-Scored (item ∷ items) answers ranked (ground arith) h
        ]
      ]

  abbrev Shown : RetrievedContext → Type 0
  Shown context = P context.chunk

  include-Shown :
      (texts : Texts) (item : ScoredChunk) (b : Budgeting)
      → P item.chunk
      → All Shown b.contexts
      → All Shown (include texts item b).contexts
  include-Shown texts item b p h =
      include_intro (λ x. All Shown x.contexts) texts item b (λ seen. h) (λ new spent. h)
        (λ new left short. All-append Shown b.contexts (whole texts item ∷ []) h (p, tt))
        (λ new left over. All-append Shown b.contexts (cut texts item b.remaining ∷ []) h (p, tt))

  -- Every chunk that `retrieve` ranks is one that the store found.
  pub Answered-Scored :
      (python : Words) (texts : Texts) (service : RetrievalService) (query : String)
      (filters : RetrievalFilters) (repository : Repository) (result : RetrievalResult)
      (a : Answered python texts service query filters repository result)
      → All P (list_searchable_chunks filters repository)
      → All Scored a.ranked
  Answered-Scored python texts service query filters repository result a h =
      let (scored, first, are_scored) =
        search-scored service.similarity a.embedding filters service.recall_k repository
          a.candidates a.is_found in
      let found = All-take Scored service.recall_k (sorted scored) (
        sorted-Scored scored
          (AreScored-All P service.similarity a.embedding _ scored are_scored h)) in
      rerank-Scored service.reranker service.context_k a.structured.normalized a.candidates a.ranked
        a.is_ranked (subst (All Scored) (sym first) found)

  pub retrieve-Shown :
      (python : Words) (texts : Texts) (service : RetrievalService) (query : String)
      (filters : RetrievalFilters) (repository : Repository) (result : RetrievalResult)
      → All P (list_searchable_chunks filters repository)
      → retrieve python texts service query filters repository ≡ ok result
      → All Shown result.contexts
  retrieve-Shown python texts service query filters repository result h done =
      let a = retrieve-Answered python texts service query filters repository result done in
      rw a.is_result (
        include_all_inv (λ x. All Shown x.contexts) Scored texts (include-Shown texts) a.ranked
          (new_budgeting texts service.context_token_budget)
          (Answered-Scored python texts service query filters repository result a h) tt)
