-- ===== src/Retrieval/Published/Sound.antt =====
-- The invariant of the published documents of packages/retrieval/registry.py.
use mathlib.Core.Path.{subst}
use evidenceclass_agent.Base.{
  String, ◌≡◌, sym, ap, ◌∙◌, true, false, some, List, [], ◌∷◌, arith, ◌==◌, String_eq, same_iff,
  inl, inr, Bool-cases, Option-cases,
}
use evidenceclass_agent.Base.Dict.{lookup}
use evidenceclass_agent.Base.Members.{contains}
use evidenceclass_agent.Retrieval.{KnowledgeDocumentRecord}
use evidenceclass_agent.Retrieval.Registry.{
  Repository, new_repository, unknown_license_values, is_authorized, passes_gate, with_published,
  as_published, publish, delete_chunk,
}
use evidenceclass_agent.Retrieval.Published.{
  Operation, registers, parses, fails, publishes, deletes, settled, perform, after, IsSound,
}
use evidenceclass_agent.Retrieval.Published.Within.{
  Within, register-Within, mark_parsed-Within, mark_parse_failed-Within,
}
use evidenceclass_agent.Retrieval.Published.Rivals.{lookup-published, rest_of_publish, alone}

module _ (casefold : String → String) where
  new_repository-IsSound : IsSound casefold new_repository
  unfolding lookup
  new_repository-IsSound = record {
    cleared = λ i r h. absurd (ground arith);
    only = λ i j r s h. absurd (ground arith);
  }

  IsSound-Within :
      (before behind : Repository)
      → Within before behind
      → IsSound casefold before
      → IsSound casefold behind
  IsSound-Within before behind within sound = record {
    cleared = λ i r h p.
        (let (q, l, o, e) = within i r h p in
          subst
            (λ registration.
              (is_authorized registration.authorization_status ≡ true)
              × (contains unknown_license_values (casefold registration.license_name) ≡ false))
            (sym e) (sound.cleared i q l o));
    only = λ i j r s h k p q w o.
        (let (r', hr, pr, er) = within i r h p in
          let (s', hs, ps, es) = within j s k q in
          sound.only i j r' s' hr hs pr ps
            (ap (λ x. x.workspace_id) (sym er) ∙ w ∙ ap (λ x. x.workspace_id) es)
            (ap (λ x. x.source_id) (sym er) ∙ o ∙ ap (λ x. x.source_id) es));
  }

  with_published-IsSound :
      (document_id : String) (document : KnowledgeDocumentRecord) (repository : Repository)
      → lookup document_id repository.documents ≡ some document
      → passes_gate casefold repository document document_id ≡ true
      → IsSound casefold repository
      → IsSound casefold (with_published document_id document repository)
  unfolding passes_gate
  with_published-IsSound document_id document repository known passes sound = record {
    cleared = λ i r h p. elim (Bool-cases (document_id == i)) [
      | inl same ↦
          let e : r ≡ as_published document =
            ground (arith, lookup-published document_id document repository i) in
          rw e (ground arith, ground arith)
      | inr other ↦
          sound.cleared i r (rest_of_publish document_id document repository i r other h p).0 p
    ];
    only = λ i j r s h k p q w o. elim (Bool-cases (document_id == i)) [
      | inl first ↦ elim (Bool-cases (document_id == j)) [
        | inl second ↦ sym ((same_iff document_id i).0 first) ∙ (same_iff document_id j).0 second
        | inr second ↦ absurd (alone document_id document repository i j r s first second h k q w o)
      ]
      | inr first ↦ elim (Bool-cases (document_id == j)) [
        | inl second ↦
            absurd
              (alone document_id document repository j i s r second first k h p (sym w) (sym o))
        | inr second ↦
            sound.only i j r s (rest_of_publish document_id document repository i r first h p).0
              (rest_of_publish document_id document repository j s second k q).0 p q w o
      ]
    ];
  }

  publish-IsSound :
      (document_id : String) (repository : Repository)
      → IsSound casefold repository
      → IsSound casefold (settled repository (publish casefold document_id repository))
  unfolding publish
  publish-IsSound document_id repository sound =
      elim (Option-cases (lookup document_id repository.documents)) [
        | inl unknown ↦ rw (unknown, settled, publish) sound
        | inr (document, known) ↦
            elim (Bool-cases (passes_gate casefold repository document document_id)) [
              | inl passes ↦
                  rw (known, passes, settled, publish)
                    (with_published-IsSound document_id document repository known passes sound)
              | inr stays ↦ rw (known, stays, settled, publish) sound
            ]
      ]

  perform-IsSound :
      (operation : Operation) (repository : Repository)
      → IsSound casefold repository
      → IsSound casefold (perform casefold operation repository)
  unfolding perform delete_chunk
  perform-IsSound (registers registration) repository sound =
      IsSound-Within repository _ (register-Within registration repository) sound
  perform-IsSound (parses document_id chunks version) repository sound =
      IsSound-Within repository _ (mark_parsed-Within document_id chunks version repository) sound
  perform-IsSound (fails document_id error) repository sound =
      IsSound-Within repository _ (mark_parse_failed-Within document_id error repository) sound
  perform-IsSound (publishes document_id) repository sound =
      publish-IsSound document_id repository sound
  perform-IsSound (deletes chunk_id) repository sound = record {
    cleared = sound.cleared;
    only = sound.only;
  }

  pub after-IsSound :
      (operations : List Operation) (repository : Repository)
      → IsSound casefold repository
      → IsSound casefold (after casefold operations repository)
  unfolding after
  after-IsSound [] repository sound = sound
  after-IsSound (operation ∷ operations) repository sound =
      after-IsSound operations _ (perform-IsSound operation repository sound)

  -- In the repository behind any sequence of registrations, parses, failed parses, publications and
  -- deletions of chunks, begun with an empty one, whether they raise or not: a document whose status
  -- is PUBLISHED has the authorization AUTHORIZED and a licence outside UNKNOWN_LICENSE_VALUES, and
  -- two published documents of the same workspace and source are one document. For every `casefold`.
  pub after-new_repository-IsSound :
      (operations : List Operation) → IsSound casefold (after casefold operations new_repository)
  after-new_repository-IsSound operations =
      after-IsSound operations new_repository new_repository-IsSound
