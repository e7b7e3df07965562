-- ===== src/Verifier/Publishes.antt =====
-- What the claims of a report that packages/agent_runtime/verifier.py lets through rest on.
use evidenceclass_agent.Base.{
  String, ◌≡◌, refl, Bool, true, not, ◌&&◌, List, [], ◌∷◌, ◌++◌, arith, String_eq, ◌==◌,
}
use evidenceclass_agent.Verifier.{
  AgentClaim, Sources, VerificationIssue, statement_issues, issue_if, metric_issues, is_empty,
  unsupported_claim, number_not_in_result, image_scope_escalation, unsupported_causality,
  psychological_inference, crosses_job, crosses_workspace, evidence_issues, citation_issues,
  is_unsupported, has_unknown_number, claim_issues, all_issues, is_clean, verify,
}

-- every element of a list passes a test
abbrev pub every : {A : Type 0} → (A → Bool) → List A → Bool
every test [] = true
every test (x ∷ rest) = test x && every test rest

is_clean-append : (l m : List VerificationIssue) → is_clean (l ++ m) ≡ (is_clean l && is_clean m)
is_clean-append [] m = refl
is_clean-append (i ∷ l) m = refl

evidence-clean :
    (w : Sources) (claim : AgentClaim) (ids : List String)
    → is_clean (evidence_issues w claim ids)
      ≡ every (λ id. w.evidence_ids id && not (crosses_job w id)) ids
unfolding evidence_issues
evidence-clean w claim [] = refl
evidence-clean w claim (id ∷ rest) = ground (arith, evidence-clean w claim rest)

citation-clean :
    (w : Sources) (claim : AgentClaim) (ids : List String)
    → is_clean (citation_issues w claim ids)
      ≡ every (λ id. w.citation_ids id && not (crosses_workspace w id)) ids
unfolding citation_issues
citation-clean w claim [] = refl
citation-clean w claim (id ∷ rest) = ground (arith, citation-clean w claim rest)

-- the checks that a reader of a published report relies on
abbrev pub rests_on_sources : Sources → AgentClaim → Bool
rests_on_sources w claim =
    every (λ id. w.evidence_ids id && not (crosses_job w id)) claim.evidence_ids
    && (every (λ id. w.citation_ids id && not (crosses_workspace w id)) claim.citation_ids
        && (not (is_unsupported claim)
            && (not (has_unknown_number w claim.numbers) && not (w.is_psychological claim.text))))

statement-clean :
    (w : Sources) (claim : AgentClaim)
    → is_clean (statement_issues w claim) ≡ true
    → (not (is_unsupported claim)
        && (not (has_unknown_number w claim.numbers) && not (w.is_psychological claim.text)))
      ≡ true
statement-clean w claim h =
    split (is_unsupported claim) (has_unknown_number w claim.numbers)
      (w.mode == "image" && claim.scope == "lesson")
      (w.is_causal claim.text && is_empty claim.citation_ids) (w.is_psychological claim.text) h
  where
    split :
        (a b c d e : Bool)
        → is_clean (
            issue_if a claim unsupported_claim
            ++ (issue_if b claim number_not_in_result
                ++ (issue_if c claim image_scope_escalation
                    ++ (issue_if d claim unsupported_causality
                        ++ (issue_if e claim psychological_inference ++ metric_issues w claim)))))
          ≡ true
        → (not a && (not b && not e)) ≡ true
    split a b c d e h = ground arith

claim-rests :
    (w : Sources) (claim : AgentClaim)
    → is_clean (claim_issues w claim) ≡ true
    → rests_on_sources w claim ≡ true
unfolding claim_issues
claim-rests w claim h =
    let E = evidence_issues w claim claim.evidence_ids in
    let C = citation_issues w claim claim.citation_ids in
    ground (
      arith,
      is_clean-append E (C ++ statement_issues w claim),
      is_clean-append C (statement_issues w claim),
      evidence-clean w claim claim.evidence_ids,
      citation-clean w claim claim.citation_ids,
      statement-clean w claim,
    )

-- If a report is publishable then each of its claims rests on its sources: its evidence is known, and of
-- the job where a job and the jobs of the evidence are given; its citations are known, and of the
-- workspace where their workspaces are given; it has evidence or a citation if its kind needs one;
-- each of its numbers is in the analysis or in an artifact; and its text infers no psychology.
pub publishable-rests_on_sources :
    (w : Sources) (claims : List AgentClaim)
    → (verify w claims).publishable ≡ true
    → every (rests_on_sources w) claims ≡ true
unfolding verify all_issues
publishable-rests_on_sources w [] h = refl
publishable-rests_on_sources w (claim ∷ rest) h = ground (
  arith,
  is_clean-append (claim_issues w claim) (all_issues w rest),
  claim-rests w claim,
  publishable-rests_on_sources w rest,
)
