-- ===== src/Retrieval/Search/Scored.antt =====
-- What the list of scored chunks in `InMemoryVectorStore.search` of packages/retrieval/stores.py holds, and
-- when the search returns.
use mathlib.Core.Path.{subst}
use evidenceclass_agent.Base.{
  length, length-take, ◌≤◌, some, none, ℕ, ◌≡◌, refl, ap, sym, ◌∙◌, List, [], ◌∷◌, arith, map, inl,
  inr, Option-cases, take,
}
use evidenceclass_agent.Base.Members.{All}
use evidenceclass_agent.Base.Outcome.{Outcome-cases}
use evidenceclass_agent.Retrieval.{KnowledgeChunk, RetrievalFilters, ok}
use evidenceclass_agent.Retrieval.Registry.{Repository, list_searchable_chunks}
use evidenceclass_agent.Retrieval.Search.{ScoredChunk, Similarity, score, score_all, sorted, search}

abbrev pub chunk_of : ScoredChunk → KnowledgeChunk
chunk_of item = item.chunk

module _ (similarity : Similarity) (query : ℕ) where
  -- the items of some chunks, in their order, each with the chunk's similarity
  pub record AreScored (chunks : List KnowledgeChunk) (scored : List ScoredChunk) : Type 0 where
    pub chunks_of : map chunk_of scored ≡ chunks
    pub scores : All (λ item. score similarity query item.chunk ≡ ok item) scored

  score-chunk :
      (c : KnowledgeChunk) (item : ScoredChunk)
      → score similarity query c ≡ ok item
      → item.chunk ≡ c
  score-chunk c item e = elim (Option-cases c.embedding) [
    | inl missing ↦ absurd (ground arith)
    | inr (vector, f) ↦ elim (Outcome-cases (similarity query vector)) [
      | inr (error, raised) ↦ absurd (ground arith)
      | inl (value, known) ↦ ground arith
    ]
  ]

  AreScored-cons :
      (c : KnowledgeChunk) (chunks : List KnowledgeChunk) (item : ScoredChunk)
      (scored : List ScoredChunk)
      → score similarity query c ≡ ok item
      → AreScored chunks scored
      → AreScored (c ∷ chunks) (item ∷ scored)
  AreScored-cons c chunks item scored e a =
      let same = score-chunk c item e in
      record {
        chunks_of = ap (λ x. x ∷ map chunk_of scored) same ∙ ap (λ xs. c ∷ xs) a.chunks_of;
        scores = (ap (score similarity query) same ∙ e, a.scores);
      }

  pub score_all-AreScored :
      (chunks : List KnowledgeChunk) (scored : List ScoredChunk)
      → score_all similarity query chunks ≡ ok scored
      → AreScored chunks scored
  unfolding score_all
  score_all-AreScored [] scored e =
      let none_left : [] ≡ scored = ground arith in
      subst (AreScored []) none_left (record { chunks_of = refl; scores = tt })
  score_all-AreScored (c ∷ chunks) scored e = elim (Outcome-cases (score similarity query c)) [
    | inr (error, raised) ↦ absurd (ground arith)
    | inl (item, first) ↦ elim (Outcome-cases (score_all similarity query chunks)) [
      | inr (error, raised) ↦ absurd (ground arith)
      | inl (rest, done) ↦
          let whole : item ∷ rest ≡ scored = ground arith in
          subst (AreScored (c ∷ chunks)) whole
            (AreScored-cons c chunks item rest first (score_all-AreScored chunks rest done))
    ]
  ]

  -- Where a search returns, it gives the first of the sorted items of all searchable chunks.
  pub search-scored :
      (filters : RetrievalFilters) (top_k : ℕ) (repository : Repository) (result : List ScoredChunk)
      → search similarity query filters top_k repository ≡ ok result
      → (scored : List ScoredChunk) × (result ≡ take top_k (sorted scored))
        × AreScored (list_searchable_chunks filters repository) scored
  unfolding search
  search-scored filters top_k repository result e =
      let chunks = list_searchable_chunks filters repository in
      elim (Outcome-cases (score_all similarity query chunks)) [
        | inr (error, raised) ↦ absurd (ground arith)
        | inl (scored, done) ↦ (scored, ground arith, score_all-AreScored chunks scored done)
      ]

module _ (P : KnowledgeChunk → Type 0) where
  All-chunk_of :
      (items : List ScoredChunk) → All P (map chunk_of items) → All (λ item. P item.chunk) items
  All-chunk_of [] p = tt
  All-chunk_of (item ∷ items) p = (p.0, All-chunk_of items p.1)

  -- What holds of the chunks holds of their items.
  pub AreScored-All :
      (similarity : Similarity) (query : ℕ) (chunks : List KnowledgeChunk)
      (scored : List ScoredChunk)
      → AreScored similarity query chunks scored
      → All P chunks
      → All (λ item. P item.chunk) scored
  AreScored-All similarity query chunks scored a h =
      All-chunk_of scored (subst (All P) (sym a.chunks_of) h)

-- A chunk has an embedding, of the dimension of the query's.
abbrev pub IsComparable : Similarity → ℕ → KnowledgeChunk → Type 0
IsComparable similarity query chunk =
    (vector value : ℕ) × (chunk.embedding ≡ some vector) × (similarity query vector ≡ ok value)

score_all-ok :
    (similarity : Similarity) (query : ℕ) (chunks : List KnowledgeChunk)
    → All (IsComparable similarity query) chunks
    → (scored : List ScoredChunk) × (score_all similarity query chunks ≡ ok scored)
unfolding score_all
score_all-ok similarity query [] h = ([], refl)
score_all-ok similarity query (c ∷ chunks) ((vector, value, stored, known), h) =
    let (rest, done) = score_all-ok similarity query chunks h in
    (
      record { chunk = c; vector_score = value; rerank_score = none } ∷ rest,
      rw (stored, known, done, score_all) refl,
    )

pub search-ok :
    (similarity : Similarity) (query : ℕ) (filters : RetrievalFilters) (top_k : ℕ)
    (repository : Repository)
    → All (IsComparable similarity query) (list_searchable_chunks filters repository)
    → (found : List ScoredChunk) × (search similarity query filters top_k repository ≡ ok found)
      × (length found ≤ top_k)
unfolding search
search-ok similarity query filters top_k repository h =
    let (scored, done) =
      score_all-ok similarity query (list_searchable_chunks filters repository) h in
    (
      take top_k (sorted scored),
      rw (done, search) refl,
      omega (arith, length-take top_k (sorted scored)),
    )
