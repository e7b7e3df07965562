-- ===== src/Retrieval/Citations.antt =====
-- `CitationValidator` of packages/retrieval/citations.py and the contracts that it reads. An error is
-- kept as its kind, with the claim; the text of an error is made of them.
pub mod Grounded
pub mod Answers
use evidenceclass_agent.Base.{
  ℕ, ◌+◌, String, Bool, true, false, not, ◌&&◌, Option, none, some, List, [], ◌∷◌, ◌++◌,
  if◌then◌else◌, ◌==◌, ℕ_eq, String_eq, length,
}
use evidenceclass_agent.Retrieval.Registry.{
  Repository, get_chunk, document_for_chunk, is_published, is_empty,
}
use evidenceclass_agent.Retrieval.{KnowledgeDocumentRecord, KnowledgeChunk}

pub record Citation : Type 0 where
  pub chunk_id : String
  pub document_id : String
  pub page : Option ℕ
  pub version : String

pub data ClaimKind : Type 0 where
  knowledge observation metric : ClaimKind

pub record ReportClaim : Type 0 where
  pub claim_id : String
  pub kind : ClaimKind
  pub text : String
  pub citations : List Citation

pub data Problem : Type 0 where
  has_no_citation unknown_chunk document_is_missing document_id_mismatch : Problem
  crosses_workspace version_mismatch page_mismatch not_published : Problem

pub record CitationError : Type 0 where
  pub claim_id : String
  pub problem : Problem

abbrev pub is_knowledge : ClaimKind → Bool
is_knowledge knowledge = true
is_knowledge kind = false

unfoldable pub same_page : Option ℕ → Option ℕ → Bool
same_page none none = true
same_page (some n) (some m) = n == m
same_page a b = false

-- `if test: errors.append(…)`
abbrev pub error_if : Bool → String → Problem → List CitationError
error_if test claim_id problem =
    if test then record { claim_id = claim_id; problem = problem } ∷ [] else []

-- the tests of a citation whose chunk and document are found
abbrev pub mismatches :
    String → String → Citation → KnowledgeChunk → KnowledgeDocumentRecord → List CitationError
mismatches claim_id workspace_id citation chunk document =
    let published_test = error_if (not (is_published document.status)) claim_id not_published in
    let page_test =
      error_if (not (same_page chunk.page citation.page)) claim_id page_mismatch
      ++ published_test in
    let version_test =
      error_if (not (chunk.version == citation.version)) claim_id version_mismatch ++ page_test in
    let workspace_test =
      error_if (not (chunk.workspace_id == workspace_id)) claim_id crosses_workspace
      ++ version_test in
    error_if (not (chunk.document_id == citation.document_id)) claim_id document_id_mismatch
    ++ workspace_test

module _ (repository : Repository) (workspace_id : String) where
  -- the body of the inner loop
  unfoldable pub check_citation : String → Citation → List CitationError
  unfolding same_page
  check_citation claim_id citation = elim (get_chunk citation.chunk_id repository) [
    | none ↦ error_if true claim_id unknown_chunk
    | some chunk ↦ elim (document_for_chunk citation.chunk_id repository) [
      | none ↦ error_if true claim_id document_is_missing
      | some document ↦ mismatches claim_id workspace_id citation chunk document
    ]
  ]

  unfoldable pub check_citations : String → List Citation → List CitationError
  unfolding check_citation
  check_citations claim_id [] = []
  check_citations claim_id (citation ∷ citations) =
      check_citation claim_id citation ++ check_citations claim_id citations

  unfoldable pub check_claim : ReportClaim → List CitationError
  unfolding check_citations
  check_claim claim =
      if is_knowledge claim.kind && is_empty claim.citations
      then error_if true claim.claim_id has_no_citation
      else check_citations claim.claim_id claim.citations

  unfoldable pub check_claims : List ReportClaim → List CitationError
  unfolding check_claim
  check_claims [] = []
  check_claims (claim ∷ claims) = check_claim claim ++ check_claims claims

pub record CitationValidationResult : Type 0 where
  pub publishable : Bool
  pub checked_claims : ℕ
  pub errors : List CitationError

unfoldable pub validate : Repository → List ReportClaim → String → CitationValidationResult
unfolding check_claims
validate repository claims workspace_id = record {
  publishable = is_empty (check_claims repository workspace_id claims);
  checked_claims = length claims;
  errors = check_claims repository workspace_id claims;
}
