-- ===== src/Retrieval/Published/Within.antt =====
-- The operations of packages/retrieval/registry.py that publish nothing.

use evidenceclass_agent.Base.{
  String, ◌≡◌, refl, true, some, List, arith, ◌==◌, String_eq, same_iff, inl, inr, Bool-cases,
  Option-cases,
}
use evidenceclass_agent.Base.Dict.{lookup, lookup-insert}
use evidenceclass_agent.Retrieval.{SourceRegistration, KnowledgeDocumentRecord, KnowledgeChunk}
use evidenceclass_agent.Retrieval.Registry.{
  Repository, new_document, is_published, register, mark_parsed, mark_parse_failed, as_parsed,
  as_failed,
}
use evidenceclass_agent.Retrieval.Published.{settled}

-- What is published behind a change was published before it.
abbrev pub Within : Repository → Repository → Type 0
Within before behind =
    (j : String) (s : KnowledgeDocumentRecord)
    → lookup j behind.documents ≡ some s
    → is_published s.status ≡ true
    → (r : KnowledgeDocumentRecord) × (lookup j before.documents ≡ some r)
      × (is_published r.status ≡ true)
      × (s.registration ≡ r.registration)

pub register-Within :
    (registration : SourceRegistration) (repository : Repository)
    → Within repository (settled repository (register registration repository))
unfolding register
register-Within registration repository j s h p = (
  s,
  ground (
    arith,
    lookup-insert repository.documents registration.document_id (new_document registration) j,
  ),
  p,
  refl,
)

pub mark_parsed-Within :
    (document_id : String) (chunks : List KnowledgeChunk) (version : String)
    (repository : Repository)
    → Within repository (settled repository (mark_parsed document_id chunks version repository))
unfolding mark_parsed
mark_parsed-Within document_id chunks version repository j s h p =
    elim (Option-cases (lookup document_id repository.documents)) [
      | inl unknown ↦ (s, ground arith, p, refl)
      | inr (document, known) ↦ (
        s,
        ground
            (arith, lookup-insert repository.documents document_id (as_parsed version document) j),
        p,
        refl,
      )
    ]

pub mark_parse_failed-Within :
    (document_id error : String) (repository : Repository)
    → Within repository (settled repository (mark_parse_failed document_id error repository))
unfolding mark_parse_failed
mark_parse_failed-Within document_id error repository j s h p =
    elim (Option-cases (lookup document_id repository.documents)) [
      | inl unknown ↦ (s, ground arith, p, refl)
      | inr (document, known) ↦ elim (Bool-cases (document_id == j)) [
        | inl same ↦
            let e : s ≡ as_failed error document = ground (
              arith,
              same_iff document_id j,
              lookup-insert repository.documents document_id (as_failed error document) j,
            ) in
            (document, ground (arith, same_iff document_id j), ground arith, rw e)
        | inr other ↦ (
          s,
          ground
              (arith, lookup-insert repository.documents document_id (as_failed error document) j),
          p,
          refl,
        )
      ]
    ]
