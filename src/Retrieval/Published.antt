-- ===== src/Retrieval/Published.antt =====
-- The documents that packages/retrieval/registry.py keeps as published.
pub mod Within
pub mod Rivals
pub mod Sound
use mathlib.Core.Path.{subst}
use evidenceclass_agent.Base.{
  String, ◌≡◌, refl, sym, ap, ◌∙◌, true, false, none, some, List, [], ◌∷◌, arith, ◌==◌, String_eq,
  if◌then◌else◌, same_iff, inl, inr, Bool-cases, Option-cases,
}
use evidenceclass_agent.Base.Dict.{Items, lookup, lookup-insert}
use evidenceclass_agent.Base.Members.{contains}
use evidenceclass_agent.Retrieval.{
  SourceRegistration, KnowledgeDocumentRecord, KnowledgeChunk, ok, err, Result,
}
use evidenceclass_agent.Retrieval.Registry.{
  Repository, new_repository, new_document, unknown_license_values, is_published, is_authorized,
  register, mark_parsed, mark_parse_failed, passes_gate, demoted, is_rival, with_published,
  supersede, as_published, as_parsed, as_failed, publish, delete_chunk,
}

-- A call of the repository.
pub data Operation : Type 0 where
  registers : SourceRegistration → Operation
  parses : String → List KnowledgeChunk → String → Operation
  fails : String → String → Operation
  publishes : String → Operation
  deletes : String → Operation

-- An exception leaves the repository as it was.
abbrev pub settled : Repository → Result Repository → Repository
settled repository (ok after) = after
settled repository (err error) = repository

module _ (casefold : String → String) where
  unfoldable pub perform : Operation → Repository → Repository
  unfolding register mark_parsed mark_parse_failed publish delete_chunk
  perform (registers registration) repository =
      settled repository (register registration repository)
  perform (parses document_id chunks version) repository =
      settled repository (mark_parsed document_id chunks version repository)
  perform (fails document_id error) repository =
      settled repository (mark_parse_failed document_id error repository)
  perform (publishes document_id) repository =
      settled repository (publish casefold document_id repository)
  perform (deletes chunk_id) repository = delete_chunk chunk_id repository

  unfoldable pub after : List Operation → Repository → Repository
  unfolding perform
  after [] repository = repository
  after (operation ∷ operations) repository = after operations (perform operation repository)

  -- A published document has an authorization and a known licence, and it is the only published one
  -- of its source in its workspace.
  abbrev pub IsCleared : KnowledgeDocumentRecord → Type 0
  IsCleared document =
      (is_authorized document.registration.authorization_status ≡ true)
      × (contains unknown_license_values (casefold document.registration.license_name) ≡ false)

  pub record IsSound (repository : Repository) : Type 0 where
    pub cleared :
        (i : String) (r : KnowledgeDocumentRecord)
        → lookup i repository.documents ≡ some r
        → is_published r.status ≡ true
        → IsCleared r
    pub only :
        (i j : String) (r s : KnowledgeDocumentRecord)
        → lookup i repository.documents ≡ some r
        → lookup j repository.documents ≡ some s
        → is_published r.status ≡ true
        → is_published s.status ≡ true
        → r.registration.workspace_id ≡ s.registration.workspace_id
        → r.registration.source_id ≡ s.registration.source_id
        → i ≡ j
