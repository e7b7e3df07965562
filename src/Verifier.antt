-- ===== src/Verifier.antt =====
-- packages/agent_runtime/verifier.py: the checks of the claims of a report. Numbers stand for the
-- floats that are compared, and 0 for 0.0. What the regular expressions find in a text is given: the
-- numbers of the analysis and of the artifacts, and whether a text is causal or psychological; so are
-- the values of a metric in the analysis and in each artifact that is a mapping.
pub mod Publishes
mod Examples
use evidenceclass_agent.Base.{
  ℕ, String, Bool, true, false, not, ◌&&◌, ◌||◌, Option, none, some, List, [], ◌∷◌, ◌++◌, length,
  if◌then◌else◌, String_eq, ℕ_eq, ◌==◌,
}

pub data IssueCode : Type 0 where
  unknown_evidence cross_job_evidence unknown_citation cross_workspace_citation : IssueCode
  unsupported_claim number_not_in_result image_scope_escalation unsupported_causality : IssueCode
  psychological_inference unknown_as_zero artifact_value_mismatch : IssueCode

pub record AgentClaim : Type 0 where
  pub claim_id : String
  pub text : String
  pub kind : String
  pub evidence_ids : List String
  pub citation_ids : List String
  pub numbers : List ℕ
  pub scope : String
  pub metric_key : Option String

pub record VerificationIssue : Type 0 where
  pub claim_id : String
  pub code : IssueCode

pub record VerificationResult : Type 0 where
  pub publishable : Bool
  pub checked_claims : ℕ
  pub issues : List VerificationIssue

-- the other arguments of `verify`
pub record Sources : Type 0 where
  pub workspace_id : String
  pub job_id : Option String
  pub evidence_ids : String → Bool
  pub citation_ids : String → Bool
  pub evidence_jobs : Option (String → Option String)
  pub citation_workspaces : Option (String → Option String)
  pub analysis_numbers : ℕ → Bool
  pub artifact_numbers : ℕ → Bool
  pub mode : String
  pub is_causal : String → Bool
  pub is_psychological : String → Bool
  pub metric_value : String → Option ℕ
  pub artifact_metrics : Option (List (String → Option ℕ))

abbrev is_value : Option String → String → Bool
is_value none value = false
is_value (some v) value = v == value

-- the evidence's job is not the one that is verified
abbrev pub crosses_job : Sources → String → Bool
crosses_job w id = elim w.job_id [
  | none ↦ false
  | some job ↦ elim w.evidence_jobs [ none ↦ false | some jobs ↦ not (is_value (jobs id) job) ]
]

abbrev pub crosses_workspace : Sources → String → Bool
crosses_workspace w id = elim w.citation_workspaces [
  | none ↦ false
  | some workspaces ↦ not (is_value (workspaces id) w.workspace_id)
]

abbrev pub issue_if : Bool → AgentClaim → IssueCode → List VerificationIssue
issue_if test claim code =
    if test then record { claim_id = claim.claim_id; code = code } ∷ [] else []

unfoldable pub evidence_issues : Sources → AgentClaim → List String → List VerificationIssue
evidence_issues w claim [] = []
evidence_issues w claim (id ∷ rest) =
    (if not (w.evidence_ids id)
      then issue_if true claim unknown_evidence
      else issue_if (crosses_job w id) claim cross_job_evidence)
    ++ evidence_issues w claim rest

unfoldable pub citation_issues : Sources → AgentClaim → List String → List VerificationIssue
citation_issues w claim [] = []
citation_issues w claim (id ∷ rest) =
    (if not (w.citation_ids id)
      then issue_if true claim unknown_citation
      else issue_if (crosses_workspace w id) claim cross_workspace_citation)
    ++ citation_issues w claim rest

abbrev pub is_empty : List String → Bool
is_empty [] = true
is_empty (x ∷ xs) = false

abbrev pub needs_support : String → Bool
needs_support kind = kind == "KNOWLEDGE" || kind == "OBSERVATION" || kind == "METRIC"

abbrev pub is_unsupported : AgentClaim → Bool
is_unsupported claim =
    needs_support claim.kind && (is_empty claim.evidence_ids && is_empty claim.citation_ids)

abbrev pub has_unknown_number : Sources → List ℕ → Bool
has_unknown_number w [] = false
has_unknown_number w (n ∷ rest) =
    (not (w.analysis_numbers n) && not (w.artifact_numbers n)) || has_unknown_number w rest

abbrev pub has_zero : List ℕ → Bool
has_zero [] = false
has_zero (n ∷ rest) = n == 0 || has_zero rest

-- a value that an artifact has, and that differs
abbrev pub has_mismatch : String → ℕ → List (String → Option ℕ) → Bool
has_mismatch key value [] = false
has_mismatch key value (artifact ∷ rest) =
    elim (artifact key) [ none ↦ false | some v ↦ not (v == value) ] || has_mismatch key value rest

abbrev pub metric_issues : Sources → AgentClaim → List VerificationIssue
metric_issues w claim = elim claim.metric_key [
  | none ↦ []
  | some key ↦ elim (w.metric_value key) [
    | none ↦ issue_if (has_zero claim.numbers) claim unknown_as_zero
    | some value ↦ elim w.artifact_metrics [
      | none ↦ []
      | some artifacts ↦ issue_if (has_mismatch key value artifacts) claim artifact_value_mismatch
    ]
  ]
]

-- the checks behind the identifiers
abbrev pub statement_issues : Sources → AgentClaim → List VerificationIssue
statement_issues w claim =
    issue_if (is_unsupported claim) claim unsupported_claim
    ++ (issue_if (has_unknown_number w claim.numbers) claim number_not_in_result
        ++ (issue_if (w.mode == "image" && claim.scope == "lesson") claim image_scope_escalation
            ++ (issue_if (w.is_causal claim.text && is_empty claim.citation_ids) claim
                  unsupported_causality
                ++ (issue_if (w.is_psychological claim.text) claim psychological_inference
                    ++ metric_issues w claim))))

-- the body of the loop over the claims
unfoldable pub claim_issues : Sources → AgentClaim → List VerificationIssue
claim_issues w claim =
    evidence_issues w claim claim.evidence_ids
    ++ (citation_issues w claim claim.citation_ids ++ statement_issues w claim)

unfoldable pub all_issues : Sources → List AgentClaim → List VerificationIssue
all_issues w [] = []
all_issues w (claim ∷ rest) = claim_issues w claim ++ all_issues w rest

abbrev pub is_clean : List VerificationIssue → Bool
is_clean [] = true
is_clean (issue ∷ rest) = false

unfoldable pub verify : Sources → List AgentClaim → VerificationResult
verify w claims = record {
  publishable = is_clean (all_issues w claims);
  checked_claims = length claims;
  issues = all_issues w claims;
}
