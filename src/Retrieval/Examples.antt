-- ===== src/Retrieval/Examples.antt =====
-- The theorems about packages/retrieval at concrete inputs: texts whose tokens are their characters.
use mathlib.Core.List.{Perm}
use evidenceclass_agent.Base.{
  ◌++◌, ℕ, zero, suc, ◌+◌, ◌≤◌, ◌<◌, min, String, ◌≡◌, refl, inl, ◌↔◌, true, false, none, some,
  List, [], ◌∷◌, map, ap, arith, length, take,
}
use evidenceclass_agent.Base.Text.{clip}
use evidenceclass_agent.Base.Dict.{lookup, insert}
use evidenceclass_agent.Base.Members.{All, contains}
use evidenceclass_agent.Retrieval.{authorized, SourceRegistration, RetrievalFilters, ok}
use evidenceclass_agent.Retrieval.Registry.{
  new_repository, list_searchable_chunks, register, is_registered, mark_parsed, passes_gate,
  has_chunk, with_chunks, without_document, supersede,
}
use evidenceclass_agent.Retrieval.Chunks.{Texts, ParsedSection, chunk, new_chunker, windows}
use evidenceclass_agent.Retrieval.Chunks.Windows.{Covers, windows-Covers}
use evidenceclass_agent.Retrieval.Published.{registers, publishes, fails, deletes, after, IsSound}
use evidenceclass_agent.Retrieval.Published.Sound.{after-new_repository-IsSound}
use evidenceclass_agent.Retrieval.Ingestion.{Source, embed_chunks}
use evidenceclass_agent.Retrieval.Query.{Words, rewrite}
use evidenceclass_agent.Retrieval.Search.{ScoredChunk, Rerank, put, search}
use evidenceclass_agent.Retrieval.Search.Scored.{AreScored, IsComparable}
use evidenceclass_agent.Retrieval.Search.Best.{IsDescending, search_best}
use evidenceclass_agent.Retrieval.Context.{
  RetrievedContext, RetrievalService, RetrievalResult, retrieve, sum_tokens, last_end, truncate,
}
use evidenceclass_agent.Retrieval.Budget.Within.{CutsAtTokens, IsDistinct, hash, content}
use evidenceclass_agent.Retrieval.Budget.Kept.{retrieve-IsDistinct_within}
use evidenceclass_agent.Retrieval.Returns.{AnswersInRange, retrieve_returns}
use evidenceclass_agent.Retrieval.Isolation.{IsVisible}
use evidenceclass_agent.Retrieval.Histories
use evidenceclass_agent.Retrieval.Histories.{Library, Action, after_actions, retrieve-isolated}
use evidenceclass_agent.Retrieval.Citations.{ReportClaim, knowledge, metric, validate}
use evidenceclass_agent.Retrieval.Citations.Grounded.{IsSupported, validate-IsSupported_iff}
use evidenceclass_agent.Retrieval.Citations.Answers.{cite, IsPublishable, retrieve-IsPublishable}

-- each character is a token
unfoldable tokens_from : ℕ → String → List (ℕ × ℕ)
tokens_from start String.[] = []
tokens_from start (String.◌∷◌ c text) = (start, start + 1) ∷ tokens_from (start + 1) text

unfoldable skip : ℕ → String → String
skip zero text = text
skip (suc n) String.[] = String.[]
skip (suc n) (String.◌∷◌ c text) = skip n text

abbrev characters : Texts
characters = record {
  find_tokens = tokens_from 0;
  slice = λ text start end. skip start (clip end text);
  strip = λ text. text;
  sha256 = λ text. text;
  chunk_digest = λ registration section ordinal digest. registration.document_id;
}

tokens_from-last :
    (n start : ℕ) (text : String)
    → 0 < n
    → n ≤ length (tokens_from start text)
    → last_end (take n (tokens_from start text)) ≡ start + n
unfolding tokens_from last_end
tokens_from-last zero start text h k = absurd (omega arith)
tokens_from-last (suc n) start String.[] h k = absurd (omega arith)
tokens_from-last (suc zero) start (String.◌∷◌ c text) h k = refl
tokens_from-last (suc (suc n)) start (String.◌∷◌ c String.[]) h k = absurd (omega arith)
tokens_from-last (suc (suc n)) start (String.◌∷◌ c (String.◌∷◌ d text)) h k =
    omega
      (arith, tokens_from-last (suc n) (start + 1) (String.◌∷◌ d text) (omega arith) (omega arith))

length-tokens_from-clip :
    (n start : ℕ) (text : String)
    → n ≤ length (tokens_from start text)
    → length (tokens_from start (clip n text)) ≡ n
unfolding tokens_from clip
length-tokens_from-clip zero start text h = refl
length-tokens_from-clip (suc n) start String.[] h = absurd (omega arith)
length-tokens_from-clip (suc n) start (String.◌∷◌ c text) h =
    ap suc (length-tokens_from-clip n (start + 1) text (omega arith))

characters-CutsAtTokens : CutsAtTokens characters
unfolding skip
characters-CutsAtTokens text n h k =
    let end : last_end (take n (tokens_from 0 text)) ≡ n =
      omega (arith, tokens_from-last n 0 text h k) in
    rw end (length-tokens_from-clip n 0 text k)

abbrev guide : SourceRegistration
guide = record {
  document_id = "guide-1";
  workspace_id = "north";
  source_id = "guide";
  source_uri = "guide.md";
  title = "Guide";
  version = "v1";
  license_name = "CC-BY-4.0";
  authorization_status = authorized;
  sha256 = "digest";
}

-- the next version of the guide, which supersedes the first
abbrev new_guide : SourceRegistration
new_guide = record guide { document_id = "guide-2"; version = "v2" }

abbrev section : ParsedSection
section = record { page = some 3; heading = "Waiting"; content = "abc" }

abbrev source : Source
source = record { sha256 = ok "digest"; parsed = ok ("document-parser.v0.1", section ∷ []) }

abbrev library : Library
library = record {
  embed = λ contents. ok (map (λ content. 7) contents);
  batch_size = 128;
  chunker = record { max_tokens = 220; overlap_tokens = 30 };
  str = λ error. "refused";
  casefold = λ text. text;
}

abbrev python : Words
python = record { base = λ text. text; within = λ trigger text. false; words = λ text. text ∷ [] }

abbrev service : RetrievalService
service = record {
  similarity = λ query vector. ok (query + vector);
  embed = λ text. ok 1;
  reranker = none;
  recall_k = 20;
  context_k = 5;
  context_token_budget = 2;
}

abbrev filters : RetrievalFilters
filters = record { workspace_id = "north"; source_ids = []; versions = "v2" ∷ [] }

abbrev actions : List Action
actions =
    Histories.ingests guide source
    ∷ Histories.publishes "guide-1"
    ∷ Histories.ingests new_guide source
    ∷ Histories.publishes "guide-2"
    ∷ []

abbrev shown : RetrievedContext
shown = record {
  chunk = record {
    chunk_id = "guide-2";
    document_id = "guide-2";
    workspace_id = "north";
    source_id = "guide";
    source_uri = "guide.md";
    title = "Guide";
    version = "v2";
    page = some 3;
    heading = "Waiting";
    ordinal = 0;
    content = "abc";
    content_sha256 = "abc";
    token_count = 3;
    embedding = some 7;
  };
  score = 8;
  presented_content = "ab";
  included_tokens = 2;
  truncated = true;
}

abbrev answer : RetrievalResult
answer = record {
  query = record {
    original = "why wait";
    normalized = "why wait";
    terms = "why wait" ∷ [];
    filters = filters;
  };
  candidate_chunk_ids = "guide-2" ∷ [];
  contexts = shown ∷ [];
  context_tokens = 2;
  duplicates_dropped = 0;
  budget_dropped = 1;
}

-- the run of all of it
answered :
    retrieve python characters service "why wait" filters
      (after_actions characters library actions new_repository)
    ≡ ok answer
unfolding retrieve after_actions tokens_from skip clip lookup insert contains list_searchable_chunks
    register is_registered embed_chunks chunk mark_parsed passes_gate has_chunk with_chunks
    without_document supersede put truncate
answered = refl

abbrev report : List ReportClaim
report =
    record { claim_id = "c1"; kind = knowledge; text = "wait"; citations = cite shown ∷ [] }
    ∷ record { claim_id = "c2"; kind = metric; text = "3 s"; citations = [] }
    ∷ []

after-new_repository-IsSound_example :
    IsSound
      (λ text. text)
      (after
        (λ text. text)
        (registers guide ∷ fails "guide-1" "x" ∷ publishes "guide-1" ∷ deletes "k" ∷ [])
        new_repository)
after-new_repository-IsSound_example =
    after-new_repository-IsSound (λ text. text)
      (registers guide ∷ fails "guide-1" "x" ∷ publishes "guide-1" ∷ deletes "k" ∷ [])

windows-Covers_example :
    Covers
      (record { max_tokens = 20; overlap_tokens = 5 })
      50
      0
      (windows (record { max_tokens = 20; overlap_tokens = 5 }) 50 50 0)
unfolding new_chunker
windows-Covers_example =
    windows-Covers 20 5 50 (record { max_tokens = 20; overlap_tokens = 5 }) refl (omega arith)

comparable :
    All
      (IsComparable service.similarity 1)
      (list_searchable_chunks filters (after_actions characters library actions new_repository))
unfolding after_actions tokens_from skip clip lookup insert contains list_searchable_chunks register
    is_registered embed_chunks chunk mark_parsed passes_gate has_chunk with_chunks without_document
    supersede
comparable = ((7, 8, refl, refl), tt)

search_best_example :
    (result scored rest : List ScoredChunk) × (search service.similarity 1 filters 20
        (after_actions characters library actions new_repository)
      ≡ ok result)
    × AreScored service.similarity 1
        (list_searchable_chunks filters (after_actions characters library actions new_repository))
        scored
    × Perm (result ++ rest) scored
    × IsDescending (result ++ rest)
    × (length result
        ≡ min 20 (
            length (
              list_searchable_chunks filters
                (after_actions characters library actions new_repository))))
search_best_example =
    search_best service.similarity 1 filters 20
      (after_actions characters library actions new_repository) comparable

retrieve-isolated_example :
    All
      (λ context.
        IsVisible (after_actions characters library actions new_repository) filters context.chunk)
      answer.contexts
retrieve-isolated_example =
    retrieve-isolated characters library python service actions "why wait" filters answer answered

retrieve-IsDistinct_within_example :
    (answer.context_tokens ≤ service.context_token_budget)
    × (answer.context_tokens ≡ sum_tokens answer.contexts)
    × IsDistinct hash answer.contexts
    × IsDistinct content answer.contexts
retrieve-IsDistinct_within_example =
    retrieve-IsDistinct_within characters characters-CutsAtTokens library python service actions
      "why wait" filters answer answered

validate-IsSupported_iff_example :
    ((validate (after_actions characters library actions new_repository) report "north").publishable
      ≡ true)
    ↔ All (IsSupported (after_actions characters library actions new_repository) "north") report
validate-IsSupported_iff_example =
    validate-IsSupported_iff (after_actions characters library actions new_repository) report
      "north"

retrieve-IsPublishable_example :
    IsPublishable (after_actions characters library actions new_repository) report "north"
retrieve-IsPublishable_example =
    retrieve-IsPublishable characters library python service actions "why wait" filters answer
      report answered
      (((λ k. refl), ((shown, inl refl, refl), tt)), (((λ k. absurd (ground arith)), tt), tt))

-- it gives the first document the score 9
abbrev first_only : Rerank
first_only query documents top_n = ok ((0, 9) ∷ [])

abbrev reranking : RetrievalService
reranking = record service { reranker = some first_only }

first_only-AnswersInRange : AnswersInRange (some first_only)
first_only-AnswersInRange query documents top_n accepted = ((0, 9) ∷ [], refl, (ground arith, tt))

retrieve_returns_example :
    (result : RetrievalResult) × (retrieve python characters reranking "why wait" filters
        (after_actions characters library actions new_repository)
      ≡ ok result)
    × (result.query ≡ answer.query)
unfolding rewrite contains
retrieve_returns_example =
    retrieve_returns python characters reranking "why wait" filters
      (after_actions characters library actions new_repository) answer.query 1 refl refl comparable
      first_only-AnswersInRange (omega arith, omega arith, refl)
