-- ===== src/Retrieval/Ingestion.antt =====
-- `KnowledgeIngestionService` of packages/retrieval/ingestion.py over the in-memory repository. The
-- file's bytes and their digest, the parser's sections and the embedding model are parameters.
pub mod Whole
use evidenceclass_agent.Base.{
  ℕ, zero, suc, String, not, some, List, [], ◌∷◌, ◌++◌, map, ◌==◌, ℕ_eq, String_eq, length, take,
  drop,
}
use evidenceclass_agent.Retrieval.{
  SourceRegistration, KnowledgeChunk, Result, ok, err, ◌>>=◌, ◌>>◌, raise_if, document_parse_error,
  value_error, RetrievalError,
}
use evidenceclass_agent.Retrieval.Registry.{Repository, register, mark_parsed, mark_parse_failed}
use evidenceclass_agent.Retrieval.Chunks.{ParsedSection, Chunker, Texts, chunk}

-- what the file gives: its digest, and what the parser makes of it, its version with the sections
pub record Source : Type 0 where
  pub sha256 : Result String
  pub parsed : Result (String × List ParsedSection)

abbrev with_vector : KnowledgeChunk → ℕ → KnowledgeChunk
with_vector chunk vector = record chunk { embedding = some vector }

-- `zip(batch, vectors)` of two lists of one length
unfoldable pub zip_vectors : List KnowledgeChunk → List ℕ → List KnowledgeChunk
zip_vectors (chunk ∷ chunks) (vector ∷ vectors) =
    with_vector chunk vector ∷ zip_vectors chunks vectors
zip_vectors chunks vectors = []

module _ (embed : List String → Result (List ℕ)) (batch_size : ℕ) where
  -- the rounds of the loop over `range(0, len(chunks), batch_size)`: at most as many as chunks
  unfoldable pub embed_batches : ℕ → List KnowledgeChunk → Result (List KnowledgeChunk)
  unfolding zip_vectors
  embed_batches rounds [] = ok []
  embed_batches zero (chunk ∷ chunks) = ok []
  embed_batches (suc rounds) (chunk ∷ chunks) = do
    let batch = take batch_size (chunk ∷ chunks)
    vectors ← embed (map (λ c. c.content) batch)
    raise_if (not (length vectors == length batch)) document_parse_error
    rest ← embed_batches rounds (drop batch_size (chunk ∷ chunks))
    ok (zip_vectors batch vectors ++ rest)

  -- a step of 0 is refused by `range`
  unfoldable pub embed_chunks : List KnowledgeChunk → Result (List KnowledgeChunk)
  unfolding embed_batches
  embed_chunks chunks = do
    raise_if (batch_size == 0) value_error
    embed_batches (length chunks) chunks

  module _ (texts : Texts) (chunker : Chunker) (str : RetrievalError → String) where
    -- the statements under `try`
    unfoldable pub ingest_parsed :
        SourceRegistration → Source → Repository → Result (Repository × List KnowledgeChunk)
    ingest_parsed registration source repository = do
      actual_hash ← source.sha256
      raise_if (not (actual_hash == registration.sha256)) document_parse_error
      parsed ← source.parsed
      embedded ← embed_chunks (chunk texts chunker registration parsed.1)
      behind ← mark_parsed registration.document_id embedded parsed.0 repository
      ok (behind, embedded)

    abbrev pub settled : Repository → Result Repository → Repository
    settled repository (ok behind) = behind
    settled repository (err error) = repository

    -- the `except`, which raises what it caught; the text of the exception is `str`'s
    abbrev pub caught :
        SourceRegistration
        → Repository
        → Result (Repository × List KnowledgeChunk)
        → Repository × Result (List KnowledgeChunk)
    caught registration repository (ok (behind, embedded)) = (behind, ok embedded)
    caught registration repository (err error) = (
      settled repository (mark_parse_failed registration.document_id (str error) repository),
      err error,
    )

    abbrev pub ingest_registered :
        SourceRegistration
        → Source
        → Repository
        → Result Repository
        → Repository × Result (List KnowledgeChunk)
    ingest_registered registration source repository (ok behind) =
        caught registration behind (ingest_parsed registration source behind)
    ingest_registered registration source repository (err error) = (repository, err error)

    unfoldable pub ingest :
        SourceRegistration → Source → Repository → Repository × Result (List KnowledgeChunk)
    unfolding ingest_parsed
    ingest registration source repository =
        ingest_registered registration source repository (register registration repository)
