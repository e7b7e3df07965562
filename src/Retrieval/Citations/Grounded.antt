-- ===== src/Retrieval/Citations/Grounded.antt =====
-- Which claims packages/retrieval/citations.py lets through.
use mathlib.Core.Path.{subst}
use evidenceclass_agent.Base.{
  ℕ, String, ◌≡◌, ◌↔◌, refl, Bool, true, false, not, ◌&&◌, Option, none, some, List, [], ◌∷◌, ◌++◌,
  arith, ◌==◌, ℕ_eq, String_eq, same_iff, inl, inr, Bool-cases, Option-cases,
}
use evidenceclass_agent.Base.Dict.{lookup}
use evidenceclass_agent.Base.Members.{All}
use evidenceclass_agent.Retrieval.{KnowledgeChunk, KnowledgeDocumentRecord}
use evidenceclass_agent.Retrieval.Registry.{Repository, document_for_chunk, is_published, is_empty}
use evidenceclass_agent.Retrieval.Citations.{
  Citation, ReportClaim, same_page, mismatches, check_citation, check_citations, check_claim,
  check_claims, validate, is_knowledge, CitationError, error_if, Problem, document_id_mismatch,
  crosses_workspace, version_mismatch, page_mismatch, not_published,
}

-- A citation stands on a stored chunk of the workspace, with the citation's document, version and
-- page, whose document is stored as published.
abbrev pub IsGrounded : Repository → String → Citation → Type 0
IsGrounded repository workspace_id citation =
    (c : KnowledgeChunk) × (d : KnowledgeDocumentRecord) × (lookup citation.chunk_id
        repository.chunks
      ≡ some c)
    × (lookup c.document_id repository.documents ≡ some d)
    × (c.document_id ≡ citation.document_id)
    × (c.workspace_id ≡ workspace_id)
    × (c.version ≡ citation.version)
    × (c.page ≡ citation.page)
    × (is_published d.status ≡ true)

-- a claim of knowledge has a citation, and every citation is grounded
abbrev pub IsSupported : Repository → String → ReportClaim → Type 0
IsSupported repository workspace_id claim =
    (is_knowledge claim.kind ≡ true → is_empty claim.citations ≡ false)
    × All (IsGrounded repository workspace_id) claim.citations

same_page_iff : (a b : Option ℕ) → (same_page a b ≡ true) ↔ (a ≡ b)
unfolding same_page
same_page_iff none none = ((λ h. refl), (λ h. refl))
same_page_iff (some n) (some m) = ((λ h. ground arith), (λ h. ground arith))
same_page_iff none (some m) = ((λ h. absurd (ground arith)), (λ h. absurd (ground arith)))
same_page_iff (some n) none = ((λ h. absurd (ground arith)), (λ h. absurd (ground arith)))

is_empty_append :
    (xs ys : List CitationError)
    → (is_empty (xs ++ ys) ≡ true) ↔ ((is_empty xs ≡ true) × (is_empty ys ≡ true))
is_empty_append [] ys = ((λ h. (refl, h)), (λ h. h.1))
is_empty_append (x ∷ xs) ys = ((λ h. absurd (ground arith)), (λ h. absurd (ground arith)))

error_if_iff :
    (test : Bool) (claim_id : String) (problem : Problem)
    → (is_empty (error_if (not test) claim_id problem) ≡ true) ↔ (test ≡ true)
error_if_iff true claim_id problem = ((λ h. refl), (λ h. refl))
error_if_iff false claim_id problem = ((λ h. absurd (ground arith)), (λ h. absurd (ground arith)))

-- what the tests of a citation find out
abbrev Matches : String → Citation → KnowledgeChunk → KnowledgeDocumentRecord → Type 0
Matches workspace_id citation c d =
    (c.document_id ≡ citation.document_id)
    × (c.workspace_id ≡ workspace_id)
    × (c.version ≡ citation.version)
    × (c.page ≡ citation.page)
    × (is_published d.status ≡ true)

both_iff :
    {P : Type 0} (xs ys : List CitationError)
    → (is_empty xs ≡ true) ↔ P
    → {Q : Type 0} → (is_empty ys ≡ true) ↔ Q
    → (is_empty (xs ++ ys) ≡ true) ↔ (P × Q)
both_iff xs ys p q = (
  (λ h. let (l, r) = (is_empty_append xs ys).0 h in (p.0 l, q.0 r)),
  (λ h. (is_empty_append xs ys).1 (p.1 h.0, q.1 h.1)),
)

test_iff :
    (claim_id : String) (problem : Problem) (a b : String)
    → (is_empty (error_if (not (a == b)) claim_id problem) ≡ true) ↔ (a ≡ b)
test_iff claim_id problem a b = (
  (λ h. (same_iff a b).0 ((error_if_iff (a == b) claim_id problem).0 h)),
  (λ h. (error_if_iff (a == b) claim_id problem).1 ((same_iff a b).1 h)),
)

mismatches_iff :
    (claim_id workspace_id : String) (citation : Citation) (c : KnowledgeChunk)
    (d : KnowledgeDocumentRecord)
    → (is_empty (mismatches claim_id workspace_id citation c d) ≡ true)
      ↔ Matches workspace_id citation c d
mismatches_iff claim_id workspace_id citation c d =
    let nested =
      both_iff _ _ (test_iff claim_id document_id_mismatch c.document_id citation.document_id) (
        both_iff _ _ (test_iff claim_id crosses_workspace c.workspace_id workspace_id) (
          both_iff _ _ (test_iff claim_id version_mismatch c.version citation.version) (
            both_iff _ _
              (
                (λ h.
                    (same_page_iff c.page citation.page).0
                      ((error_if_iff (same_page c.page citation.page) claim_id page_mismatch).0 h)),
                (λ h.
                    (error_if_iff (same_page c.page citation.page) claim_id page_mismatch).1
                      ((same_page_iff c.page citation.page).1 h)),
              )
              (error_if_iff (is_published d.status) claim_id not_published)))) in
    (
      (λ h. let (i, rest) = nested.0 h in (i, rest.0, rest.1.0, rest.1.1.0, rest.1.1.1)),
      (λ h. nested.1 (h.0, (h.1, (h.2, (h.3, h.4))))),
    )

module _ (repository : Repository) (workspace_id : String) where
  check_citation-found :
      (claim_id : String) (citation : Citation) (c : KnowledgeChunk) (d : KnowledgeDocumentRecord)
      → lookup citation.chunk_id repository.chunks ≡ some c
      → lookup c.document_id repository.documents ≡ some d
      → check_citation repository workspace_id claim_id citation
        ≡ mismatches claim_id workspace_id citation c d
  unfolding check_citation
  check_citation-found claim_id citation c d found filed =
      let document : document_for_chunk citation.chunk_id repository ≡ some d =
        rw (found, document_for_chunk) filed in
      rw (found, document, check_citation) refl

  check_citation_iff :
      (claim_id : String) (citation : Citation)
      → (is_empty (check_citation repository workspace_id claim_id citation) ≡ true)
        ↔ IsGrounded repository workspace_id citation
  unfolding check_citation
  check_citation_iff claim_id citation =
      elim (Option-cases (lookup citation.chunk_id repository.chunks)) [
        | inl unknown ↦ ((λ h. absurd (ground arith)), (λ h. let e = h.2 in absurd (ground arith)))
        | inr (c, found) ↦ elim (Option-cases (lookup c.document_id repository.documents)) [
          | inl missing ↦ (
            (λ h. absurd (ground arith)),
            (λ h. let e = h.2 in let n = h.3 in absurd (ground arith)),
          )
          | inr (d, filed) ↦
              let checked = check_citation-found claim_id citation c d found filed in
              let same = mismatches_iff claim_id workspace_id citation c d in
              (
                (λ h.
                    let m = same.0 (rw (← checked) h) in
                    (c, d, found, filed, m.0, m.1, m.2, m.3, m.4)),
                (λ h.
                    let e : h.0 ≡ c = let f = h.2 in ground arith in
                    let g : h.1 ≡ d = let f = h.2 in let k = h.3 in ground arith in
                    rw checked (
                      same.1 (
                        subst (λ x. Matches workspace_id citation x d) e
                          (subst (λ x. Matches workspace_id citation h.0 x) g
                            (h.4, h.5, h.6, h.7, h.8))))),
              )
        ]
      ]

  check_citations_iff :
      (claim_id : String) (citations : List Citation)
      → (is_empty (check_citations repository workspace_id claim_id citations) ≡ true)
        ↔ All (IsGrounded repository workspace_id) citations
  unfolding check_citations
  check_citations_iff claim_id [] = ((λ h. tt), (λ h. refl))
  check_citations_iff claim_id (citation ∷ citations) =
      both_iff _ _ (check_citation_iff claim_id citation) (check_citations_iff claim_id citations)

  check_claim_iff :
      (claim : ReportClaim)
      → (is_empty (check_claim repository workspace_id claim) ≡ true)
        ↔ IsSupported repository workspace_id claim
  unfolding check_claim
  check_claim_iff claim =
      let all = check_citations_iff claim.claim_id claim.citations in
      elim (Bool-cases (is_knowledge claim.kind && is_empty claim.citations)) [
        | inl bare ↦ (
          (λ h. absurd (ground arith)),
          (λ h. absurd (let f = h.0 (ground arith) in ground arith)),
        )
        | inr cited ↦
            let e : check_claim repository workspace_id claim
                ≡ check_citations repository workspace_id claim.claim_id claim.citations =
              rw (cited, check_claim) refl in
            ((λ h. ((λ k. ground arith), all.0 (rw (← e) h))), (λ h. rw e (all.1 h.1)))
      ]

  check_claims_iff :
      (claims : List ReportClaim)
      → (is_empty (check_claims repository workspace_id claims) ≡ true)
        ↔ All (IsSupported repository workspace_id) claims
  unfolding check_claims
  check_claims_iff [] = ((λ h. tt), (λ h. refl))
  check_claims_iff (claim ∷ claims) = both_iff _ _ (check_claim_iff claim) (check_claims_iff claims)

-- The validator finds claims publishable exactly when each of them is supported: a claim of knowledge
-- has a citation, and every citation of a claim of any kind names a stored chunk of the workspace, with
-- the document, the version and the page of that chunk, whose document is stored as published.
pub validate-IsSupported_iff :
    (repository : Repository) (claims : List ReportClaim) (workspace_id : String)
    → ((validate repository claims workspace_id).publishable ≡ true)
      ↔ All (IsSupported repository workspace_id) claims
unfolding validate
validate-IsSupported_iff repository claims workspace_id =
    check_claims_iff repository workspace_id claims
