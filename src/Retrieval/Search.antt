-- ===== src/Retrieval/Search.antt =====
-- The in-memory store of packages/retrieval/stores.py, and the recall, the ranking and the budget of
-- packages/retrieval/service.py. What is not this code is a parameter: the similarity of two embeddings
-- (a computation with floats), the embedding model, the reranker, `re`'s search for tokens and the
-- order of Python's texts is that of the library.
pub mod Scored
pub mod Best
use Prim.Native.Nat.{Ordering}
use Prim.Native.String.{compare}
use evidenceclass_agent.Base.{
  ℕ, zero, suc, ◌+◌, ◌-◌, max, min, String, Bool, true, false, not, ◌&&◌, ◌||◌, Option, none, some,
  List, [], ◌∷◌, map, if◌then◌else◌, ◌==◌, String_eq, ltb, leb, length, take,
}
use evidenceclass_agent.Base.Members.{contains}
use evidenceclass_agent.Retrieval.{
  KnowledgeChunk, RetrievalFilters, Result, ok, err, ◌>>=◌, ◌>>◌, raise_if, value_error,
  index_error,
}
use evidenceclass_agent.Retrieval.Registry.{Repository, list_searchable_chunks}

pub record ScoredChunk : Type 0 where
  pub chunk : KnowledgeChunk
  pub vector_score : ℕ
  pub rerank_score : Option ℕ

abbrev pub effective_score : ScoredChunk → ℕ
effective_score item = elim item.rerank_score [ none ↦ item.vector_score | some score ↦ score ]

-- `cosine_similarity`, which raises where the dimensions of the vectors differ
abbrev pub Similarity : Type 0
Similarity = ℕ → ℕ → Result ℕ

-- the vector of a query is not empty, so `[]` for a missing embedding is of another dimension
abbrev pub score : Similarity → ℕ → KnowledgeChunk → Result ScoredChunk
score similarity query chunk = do
  value ← elim chunk.embedding [ none ↦ err value_error | some vector ↦ similarity query vector ]
  ok (record { chunk = chunk; vector_score = value; rerank_score = none })

-- the list of the scored chunks; the first similarity that raises ends it
unfoldable pub score_all : Similarity → ℕ → List KnowledgeChunk → Result (List ScoredChunk)
score_all similarity query [] = ok []
score_all similarity query (chunk ∷ chunks) = do
  item ← score similarity query chunk
  rest ← score_all similarity query chunks
  ok (item ∷ rest)

-- the key `(-vector_score, chunk_id)` of one item is at most that of another
unfoldable pub goes_before : ScoredChunk → ScoredChunk → Bool
goes_before a b =
    ltb b.vector_score a.vector_score
    || (leb b.vector_score a.vector_score
        && elim (compare a.chunk.chunk_id b.chunk.chunk_id) [ Ordering.gt ↦ false | _ ↦ true ])

-- `sorted` keeps the order of items with one key
unfoldable pub put : ScoredChunk → List ScoredChunk → List ScoredChunk
put item [] = item ∷ []
put item (other ∷ others) =
    let rest = put item others in
    if goes_before item other then item ∷ other ∷ others else other ∷ rest

unfoldable pub sorted : List ScoredChunk → List ScoredChunk
sorted [] = []
sorted (item ∷ items) = put item (sorted items)

-- `InMemoryVectorStore.search`, with `similarity` for `cosine_similarity` of the query's embedding
unfoldable pub search :
    Similarity → ℕ → RetrievalFilters → ℕ → Repository → Result (List ScoredChunk)
unfolding sorted score_all
search similarity query filters top_k repository = do
  scored ← score_all similarity query (list_searchable_chunks filters repository)
  ok (take top_k (sorted scored))

-- an item of the reranker's answer: the index of a document of the request, and its score
abbrev pub RerankedItem : Type 0
RerankedItem = ℕ × ℕ

-- `Reranker.rerank`, for a query, the documents and `top_n`; it may raise
abbrev pub Rerank : Type 0
Rerank = String → List String → ℕ → Result (List RerankedItem)

-- `candidates[index]`
unfoldable pub candidate_at : List ScoredChunk → ℕ → Result ScoredChunk
candidate_at [] index = err index_error
candidate_at (item ∷ items) zero = ok item
candidate_at (item ∷ items) (suc index) = candidate_at items index

-- the loop over the reranker's items
unfoldable pub ranked_by : List ScoredChunk → List RerankedItem → Result (List ScoredChunk)
unfolding candidate_at
ranked_by candidates [] = ok []
ranked_by candidates (item ∷ items) = do
  candidate ← candidate_at candidates item.0
  rest ← ranked_by candidates items
  ok (record candidate { rerank_score = some item.1 } ∷ rest)

-- what `RerankRequest` of packages/model_gateway/contracts.py refuses, for a list of documents that is
-- not empty
abbrev pub is_refused : String → ℕ → ℕ → Bool
is_refused query documents top_n =
    query == "" || ltb 256 documents || leb top_n 0 || ltb documents top_n

-- `RetrievalService._rerank`
unfoldable pub rerank : Option Rerank → ℕ → String → List ScoredChunk → Result (List ScoredChunk)
unfolding ranked_by
rerank reranker context_k query [] = ok []
rerank none context_k query (item ∷ items) = ok (take context_k (item ∷ items))
rerank (some reranker) context_k query (item ∷ items) = do
  let candidates = item ∷ items
  let documents = map (λ (i : ScoredChunk). i.chunk.content) candidates
  let top_n = min context_k (length candidates)
  raise_if (is_refused query (length documents) top_n) value_error
  answers ← reranker query documents top_n
  ranked_by candidates answers
