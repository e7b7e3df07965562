-- ===== src/Retrieval/Ingested/Stored.antt =====
-- What packages/retrieval/ingestion.py leaves in the repository.
use mathlib.Core.Path.{subst}
use evidenceclass_agent.Base.{ℕ, String, ◌≡◌, refl, some, List, arith, ℕ_eq, String_eq, inl, inr}
use evidenceclass_agent.Base.Dict.{lookup, lookup-insert_self}
use evidenceclass_agent.Base.Members.{All-weaken}
use evidenceclass_agent.Base.Outcome.{Outcome-cases}
use evidenceclass_agent.Retrieval.{
  SourceRegistration, KnowledgeDocumentRecord, KnowledgeChunk, RetrievalError, ok, Result,
}
use evidenceclass_agent.Retrieval.Registry.{
  Repository, new_document, register, mark_parsed, mark_parse_failed, with_document,
}
use evidenceclass_agent.Retrieval.Filed.{IsFiled}
use evidenceclass_agent.Retrieval.Filed.Operations.{
  register-IsFiled, mark_parsed-IsFiled, mark_parse_failed-IsFiled,
}
use evidenceclass_agent.Retrieval.Chunks.{Chunker, Texts, chunk}
use evidenceclass_agent.Retrieval.Ingestion.{
  Source, embed_chunks, ingest_parsed, ingest_registered, caught, settled, ingest,
}
use evidenceclass_agent.Retrieval.Ingested.{IsMade, IsFrom, embed_chunks-IsFrom}

register-lookup :
    (registration : SourceRegistration) (repository behind : Repository)
    → register registration repository ≡ ok behind
    → lookup registration.document_id behind.documents ≡ some (new_document registration)
unfolding register
register-lookup registration repository behind done =
    let after = with_document registration.document_id (new_document registration) repository in
    let e : after ≡ behind = ground arith in
    subst
      (λ (r : Repository).
        lookup registration.document_id r.documents ≡ some (new_document registration))
      e
      (lookup-insert_self registration.document_id (new_document registration) repository.documents)

module _ (texts : Texts) (embed : List String → Result (List ℕ)) (batch_size : ℕ)
    (chunker : Chunker) (str : RetrievalError → String) where
  ingest_parsed-IsFiled :
      (registration : SourceRegistration) (source : Source) (repository behind : Repository)
      (embedded : List KnowledgeChunk) (old : KnowledgeDocumentRecord)
      → lookup registration.document_id repository.documents ≡ some old
      → old.registration ≡ registration
      → ingest_parsed embed batch_size texts chunker str registration source repository
        ≡ ok (behind, embedded)
      → IsFiled (IsMade texts) repository
      → IsFiled (IsMade texts) behind
  unfolding ingest_parsed
  ingest_parsed-IsFiled registration source repository behind embedded old known own done f =
      elim (Outcome-cases source.sha256) [
        | inr (error, raised) ↦ absurd (ground arith)
        | inl (actual, hashed) ↦ elim (Outcome-cases source.parsed) [
          | inr (error, raised) ↦ absurd (ground arith)
          | inl (parsed, read) ↦
              let made =
                embed_chunks embed batch_size (chunk texts chunker registration parsed.1) in
              elim (Outcome-cases made) [
                | inr (error, raised) ↦ absurd (ground arith)
                | inl (vectored, given) ↦
                    elim (Outcome-cases
                      (mark_parsed registration.document_id vectored parsed.0 repository)) [
                        | inr (error, raised) ↦ absurd (ground arith)
                        | inl (left, marked) ↦
                            let e : left ≡ behind = ground arith in
                            subst (IsFiled (IsMade texts)) e (
                              mark_parsed-IsFiled (IsMade texts) registration.document_id vectored
                                parsed.0 repository left old known
                                (All-weaken (IsFrom texts registration) _
                                  (λ c o. (o.0, rw own o.1, o.2)) vectored
                                  (embed_chunks-IsFrom texts registration embed batch_size chunker
                                    parsed.1 vectored given))
                                marked f)
                      ]
              ]
        ]
      ]

  caught-IsFiled :
      (registration : SourceRegistration) (source : Source) (repository : Repository)
      → IsFiled (IsMade texts) repository
      → lookup registration.document_id repository.documents ≡ some (new_document registration)
      → IsFiled
          (IsMade texts)
          (caught embed batch_size texts chunker str registration repository
            (ingest_parsed embed batch_size texts chunker str registration source repository)).0
  caught-IsFiled registration source repository f known =
      elim (Outcome-cases
        (ingest_parsed embed batch_size texts chunker str registration source repository)) [
          | inl ((behind, embedded), done) ↦
              rw (done, caught)
                (ingest_parsed-IsFiled registration source repository behind embedded
                  (new_document registration) known refl done f)
          | inr (error, raised) ↦
              elim (Outcome-cases
                (mark_parse_failed registration.document_id (str error) repository)) [
                  | inr (other, again) ↦ rw (raised, caught, again, settled) f
                  | inl (behind, noted) ↦
                      rw (raised, caught, noted, settled)
                        (mark_parse_failed-IsFiled (IsMade texts) registration.document_id
                          (str error) repository behind noted f)
                ]
        ]

  pub ingest-IsFiled :
      (registration : SourceRegistration) (source : Source) (repository : Repository)
      → IsFiled (IsMade texts) repository
      → IsFiled
          (IsMade texts)
          (ingest embed batch_size texts chunker str registration source repository).0
  unfolding ingest
  ingest-IsFiled registration source repository f =
      elim (Outcome-cases (register registration repository)) [
        | inr (error, raised) ↦ rw (raised, ingest_registered) f
        | inl (behind, done) ↦
            rw (done, ingest_registered)
              (caught-IsFiled registration source behind
                (register-IsFiled (IsMade texts) registration repository behind done f)
                (register-lookup registration repository behind done))
      ]
