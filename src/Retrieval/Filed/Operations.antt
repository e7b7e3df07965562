-- ===== src/Retrieval/Filed/Operations.antt =====
-- Each operation of packages/retrieval/registry.py keeps its dictionaries together.

use evidenceclass_agent.Base.{
  String, ◌≡◌, refl, some, List, arith, String_eq, inl, inr, if_intro, Option-cases,
}
use evidenceclass_agent.Base.Dict.{lookup, lookup-remove}
use evidenceclass_agent.Base.Members.{insert-IsDict, remove-IsDict, All, All-weaken}
use evidenceclass_agent.Retrieval.{SourceRegistration, KnowledgeDocumentRecord, KnowledgeChunk, ok}
use evidenceclass_agent.Retrieval.Published.Rivals.{lookup-supersede}
use evidenceclass_agent.Retrieval.Registry.{
  Repository, new_document, register, mark_parsed, mark_parse_failed, publish, delete_chunk,
  as_parsed, as_failed, as_published, demoted, supersede, with_chunks, without_document,
  with_document, with_published,
}
use evidenceclass_agent.Retrieval.Filed.{
  IsOwned, IsFiled, IsOwned-Keeps, insert_new-Keeps, insert-Keeps, supersede-Keeps,
  supersede-IsDict,
}
use evidenceclass_agent.Retrieval.Filed.Chunks.{
  lookup-without_document, without_document-IsDict, with_chunks-IsDict, lookup-with_chunks,
}

-- the operations, where they do not raise
pub register-IsFiled :
    (Kind : KnowledgeChunk → Type 0) (registration : SourceRegistration)
    (repository behind : Repository)
    → register registration repository ≡ ok behind
    → IsFiled Kind repository
    → IsFiled Kind behind
unfolding register
register-IsFiled Kind registration repository behind done f =
    elim (Option-cases (lookup registration.document_id repository.documents)) [
      | inr known ↦ absurd (ground arith)
      | inl new ↦
          let e : behind
              ≡ with_document registration.document_id (new_document registration) repository =
            ground arith in
          rw e (record {
            documents_unique =
                insert-IsDict registration.document_id (new_document registration)
                  repository.documents f.documents_unique;
            chunks_unique = f.chunks_unique;
            owned = λ k c h.
                IsOwned-Keeps Kind k c repository.documents _
                  (insert_new-Keeps registration.document_id (new_document registration)
                    repository.documents new)
                  (f.owned k c h);
          })
    ]

with_document-IsFiled :
    (Kind : KnowledgeChunk → Type 0) (i : String) (old document : KnowledgeDocumentRecord)
    (repository : Repository)
    → lookup i repository.documents ≡ some old
    → document.registration ≡ old.registration
    → IsFiled Kind repository
    → IsFiled Kind (with_document i document repository)
with_document-IsFiled Kind i old document repository known e f = record {
  documents_unique = insert-IsDict i document repository.documents f.documents_unique;
  chunks_unique = f.chunks_unique;
  owned = λ k c h.
      IsOwned-Keeps Kind k c repository.documents _
        (insert-Keeps i old document repository.documents known e) (f.owned k c h);
}

pub mark_parse_failed-IsFiled :
    (Kind : KnowledgeChunk → Type 0) (document_id error : String) (repository behind : Repository)
    → mark_parse_failed document_id error repository ≡ ok behind
    → IsFiled Kind repository
    → IsFiled Kind behind
unfolding mark_parse_failed
mark_parse_failed-IsFiled Kind document_id error repository behind done f =
    elim (Option-cases (lookup document_id repository.documents)) [
      | inl unknown ↦ absurd (ground arith)
      | inr (old, known) ↦
          let e : behind ≡ with_document document_id (as_failed error old) repository =
            ground arith in
          rw e (
            with_document-IsFiled Kind document_id old (as_failed error old) repository known refl
              f)
    ]

pub delete_chunk-IsFiled :
    (Kind : KnowledgeChunk → Type 0) (chunk_id : String) (repository : Repository)
    → IsFiled Kind repository
    → IsFiled Kind (delete_chunk chunk_id repository)
unfolding delete_chunk
delete_chunk-IsFiled Kind chunk_id repository f = record {
  documents_unique = f.documents_unique;
  chunks_unique = remove-IsDict chunk_id repository.chunks f.chunks_unique;
  owned = λ k c h. f.owned k c (ground (arith, lookup-remove chunk_id k repository.chunks));
}

pub publish-IsFiled :
    (Kind : KnowledgeChunk → Type 0) (casefold : String → String) (document_id : String)
    (repository behind : Repository)
    → publish casefold document_id repository ≡ ok behind
    → IsFiled Kind repository
    → IsFiled Kind behind
unfolding publish
publish-IsFiled Kind casefold document_id repository behind done f =
    elim (Option-cases (lookup document_id repository.documents)) [
      | inl unknown ↦ absurd (ground arith)
      | inr (old, known) ↦
          let e : behind ≡ with_published document_id old repository = ground arith in
          let rest = supersede document_id old.registration repository.documents in
          rw e (
            with_document-IsFiled Kind document_id
              (demoted document_id old.registration document_id old) (as_published old)
              (record repository { documents = rest })
              (rw
                (
                  lookup-supersede document_id old.registration repository.documents document_id,
                  known,
                )
                refl)
              (if_intro (λ (x : KnowledgeDocumentRecord). old.registration ≡ x.registration) _ _ _
                refl refl)
              (record {
                documents_unique =
                    supersede-IsDict document_id old.registration repository.documents
                      f.documents_unique;
                chunks_unique = f.chunks_unique;
                owned = λ k c h.
                    IsOwned-Keeps Kind k c repository.documents rest
                      (supersede-Keeps document_id old.registration repository.documents)
                      (f.owned k c h);
              }))
    ]

-- chunks that name the workspace of the document for which they are filed
pub mark_parsed-IsFiled :
    (Kind : KnowledgeChunk → Type 0) (document_id : String) (chunks : List KnowledgeChunk)
    (version : String) (repository behind : Repository) (old : KnowledgeDocumentRecord)
    → lookup document_id repository.documents ≡ some old
    → All
        (λ c.
          (c.document_id ≡ document_id) × (c.workspace_id ≡ old.registration.workspace_id) × Kind c)
        chunks
    → mark_parsed document_id chunks version repository ≡ ok behind
    → IsFiled Kind repository
    → IsFiled Kind behind
unfolding mark_parsed
mark_parsed-IsFiled Kind document_id chunks version repository behind old known own done f =
    let kept = with_chunks chunks (without_document document_id repository.chunks) in
    let e : behind
        ≡ with_document document_id (as_parsed version old) (record repository { chunks = kept }) =
      ground arith in
    rw e (
      with_document-IsFiled Kind document_id old (as_parsed version old)
        (record repository { chunks = kept }) known refl
        (record {
          documents_unique = f.documents_unique;
          chunks_unique =
              with_chunks-IsDict chunks _
                (without_document-IsDict document_id repository.chunks f.chunks_unique);
          owned =
              lookup-with_chunks (λ k c. IsOwned Kind k c repository.documents) chunks _
                (All-weaken _ _ (λ c o. (refl, o.2, old, rw o.0 known, o.1)) chunks own)
                (λ k c h.
                  f.owned k c
                    (lookup-without_document document_id repository.chunks k c h f.chunks_unique));
        }))
