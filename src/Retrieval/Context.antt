-- ===== src/Retrieval/Context.antt =====
-- `RetrievalService` of packages/retrieval/service.py behind the rewriting of the query: the token budget of
-- the contexts, and `retrieve`. A budget below 0 is as 0.
use evidenceclass_agent.Base.{
  ℕ, ◌+◌, ◌-◌, max, String, Bool, true, false, Option, List, [], ◌∷◌, ◌++◌, map, if◌then◌else◌,
  ◌==◌, ℕ_eq, String_eq, ltb, leb, length, take, ◌||◌,
}
use evidenceclass_agent.Base.Members.{contains}
use evidenceclass_agent.Retrieval.{
  KnowledgeChunk, RetrievalFilters, Result, ok, ◌>>=◌, ◌>>◌, raise_if, value_error,
}
use evidenceclass_agent.Retrieval.Registry.{Repository}
use evidenceclass_agent.Retrieval.Chunks.{Texts, count_tokens}
use evidenceclass_agent.Retrieval.Query.{StructuredQuery, Words, rewrite}
use evidenceclass_agent.Retrieval.Search.{
  ScoredChunk, effective_score, Rerank, Similarity, search, rerank,
}

pub record RetrievedContext : Type 0 where
  pub chunk : KnowledgeChunk
  pub score : ℕ
  pub presented_content : String
  pub included_tokens : ℕ
  pub truncated : Bool

-- the variables of `_budget`
pub record Budgeting : Type 0 where
  pub remaining : ℕ
  pub contexts : List RetrievedContext
  pub seen_hashes : List String
  pub duplicates_dropped : ℕ
  pub budget_dropped : ℕ

-- the end of the last match of a list
unfoldable pub last_end : List (ℕ × ℕ) → ℕ
last_end [] = 0
last_end (token ∷ []) = token.1
last_end (token ∷ other ∷ tokens) = last_end (other ∷ tokens)

module _ (texts : Texts) where
  -- `_truncate`: `matches[min(token_budget, len(matches)) - 1].end()`
  -- What it gives ends with a token, which is not blank, so `RetrievedContext` accepts it as not empty.
  unfoldable pub truncate : String → ℕ → String
  unfolding last_end
  truncate text token_budget =
      let matches = texts.find_tokens text in
      if length matches == 0 || token_budget == 0
      then "[context omitted]"
      else texts.strip (texts.slice text 0 (last_end (take token_budget matches)))

  abbrev pub whole : ScoredChunk → RetrievedContext
  whole item = record {
    chunk = item.chunk;
    score = effective_score item;
    presented_content = item.chunk.content;
    included_tokens = item.chunk.token_count;
    truncated = false;
  }

  abbrev pub cut : ScoredChunk → ℕ → RetrievedContext
  cut item remaining = record {
    chunk = item.chunk;
    score = effective_score item;
    presented_content = truncate item.chunk.content remaining;
    included_tokens = max 1 (count_tokens texts (truncate item.chunk.content remaining));
    truncated = true;
  }

  -- `contexts.append` and `remaining -= included_tokens`
  abbrev pub with_context : RetrievedContext → Budgeting → Budgeting
  with_context context b = record b {
    contexts = b.contexts ++ context ∷ [];
    remaining = b.remaining - context.included_tokens;
  }

  -- the body of the loop
  unfoldable pub include : ScoredChunk → Budgeting → Budgeting
  unfolding contains
  include item b =
      let new = record b { seen_hashes = item.chunk.content_sha256 ∷ b.seen_hashes } in
      let dropped = record new { budget_dropped = b.budget_dropped + 1 } in
      if contains b.seen_hashes item.chunk.content_sha256
      then record b { duplicates_dropped = b.duplicates_dropped + 1 }
      else if b.remaining == 0
      then dropped
      else if leb item.chunk.token_count b.remaining
      then with_context (whole item) new
      else with_context (cut item b.remaining) dropped

  unfoldable pub include_all : List ScoredChunk → Budgeting → Budgeting
  unfolding include
  include_all [] b = b
  include_all (item ∷ items) b = include_all items (include item b)

  abbrev pub new_budgeting : ℕ → Budgeting
  new_budgeting budget = record {
    remaining = budget;
    contexts = [];
    seen_hashes = [];
    duplicates_dropped = 0;
    budget_dropped = 0;
  }

  -- `_budget`
  abbrev pub budget_contexts : ℕ → List ScoredChunk → Budgeting
  budget_contexts budget ranked = include_all ranked (new_budgeting budget)

unfoldable pub sum_tokens : List RetrievedContext → ℕ
sum_tokens [] = 0
sum_tokens (context ∷ contexts) = context.included_tokens + sum_tokens contexts

pub record RetrievalService : Type 0 where
  pub similarity : Similarity
  -- the embedding model
  pub embed : String → Result ℕ
  pub reranker : Option Rerank
  pub recall_k : ℕ
  pub context_k : ℕ
  pub context_token_budget : ℕ

-- what `__init__` refuses
unfoldable pub new_service : RetrievalService → Result RetrievalService
new_service service = do raise_if (ltb service.recall_k service.context_k) value_error; ok service

pub record RetrievalResult : Type 0 where
  pub query : StructuredQuery
  pub candidate_chunk_ids : List String
  pub contexts : List RetrievedContext
  pub context_tokens : ℕ
  pub duplicates_dropped : ℕ
  pub budget_dropped : ℕ

abbrev pub as_result : StructuredQuery → List ScoredChunk → Budgeting → RetrievalResult
as_result structured candidates b = record {
  query = structured;
  candidate_chunk_ids = map (λ item. item.chunk.chunk_id) candidates;
  contexts = b.contexts;
  context_tokens = sum_tokens b.contexts;
  duplicates_dropped = b.duplicates_dropped;
  budget_dropped = b.budget_dropped;
}

unfoldable pub retrieve :
    Words
    → Texts
    → RetrievalService
    → String
    → RetrievalFilters
    → Repository
    → Result RetrievalResult
unfolding rewrite search rerank include_all sum_tokens
retrieve python texts service query filters repository = do
  structured ← rewrite python query filters
  embedding ← service.embed structured.normalized
  candidates ← search service.similarity embedding structured.filters service.recall_k repository
  ranked ← rerank service.reranker service.context_k structured.normalized candidates
  ok (as_result structured candidates (budget_contexts texts service.context_token_budget ranked))
