-- ===== src/Verifier/Examples.antt =====
-- The verifier of packages/agent_runtime/verifier.py at concrete claims.
use evidenceclass_agent.Base.{
  ◌≡◌, refl, String_eq, ◌==◌, ◌||◌, true, some, none, List, [], ◌∷◌, nat_eq,
}
use evidenceclass_agent.Verifier.{
  AgentClaim, Sources, claim_issues, evidence_issues, citation_issues, all_issues, verify,
}
use evidenceclass_agent.Verifier.Publishes.{every, rests_on_sources, publishable-rests_on_sources}

abbrev sources : Sources
sources = record {
  workspace_id = "w";
  job_id = some "j";
  evidence_ids = λ id. id == "e1" || id == "e2";
  citation_ids = λ id. id == "c1";
  evidence_jobs = some (λ id. some "j");
  citation_workspaces = some (λ id. some "w");
  analysis_numbers = λ n. nat_eq n 12;
  artifact_numbers = λ n. nat_eq n 3;
  mode = "video";
  is_causal = λ text. text == "because";
  is_psychological = λ text. text == "motivation";
  metric_value = λ key. some 12;
  artifact_metrics = some ((λ key. some 12) ∷ (λ key. none) ∷ []);
}

abbrev claim : AgentClaim
claim = record {
  claim_id = "1";
  text = "because";
  kind = "METRIC";
  evidence_ids = "e1" ∷ "e2" ∷ [];
  citation_ids = "c1" ∷ [];
  numbers = 12 ∷ 3 ∷ [];
  scope = "lesson";
  metric_key = some "talk";
}

abbrev claims : List AgentClaim
claims = claim ∷ record claim { kind = "ADVICE"; evidence_ids = []; numbers = [] } ∷ []

publishable-rests_on_sources_example : every (rests_on_sources sources) claims ≡ true
unfolding verify all_issues claim_issues evidence_issues citation_issues
publishable-rests_on_sources_example = publishable-rests_on_sources sources claims refl
