-- ===== src/Resilience/Errors.antt =====
-- packages/model_gateway/errors.py: the errors by class, with their class attributes.
use evidenceclass_agent.Base.{Bool, true, false}
use evidenceclass_agent.Base.Outcome.{Outcome}
pub use evidenceclass_agent.Base.Outcome.{ok, err, ◌>>=◌, ◌>>◌, raise_if, is_ok, Outcome-cases}

pub data ModelGatewayError : Type 0 where
  model_timeout model_rate_limited model_server_error schema_parse_failed : ModelGatewayError
  semantic_validation_failed capability_unavailable authentication_failed : ModelGatewayError
  permission_denied content_policy_blocked request_invalid : ModelGatewayError
  budget_exceeded circuit_open local_rate_limit cost_unknown : ModelGatewayError

-- `exc.retryable`
abbrev pub retryable : ModelGatewayError → Bool
retryable model_timeout = true
retryable model_rate_limited = true
retryable model_server_error = true
retryable local_rate_limit = true
retryable _ = false

-- `isinstance(exc, SchemaParseError)`
abbrev pub is_schema_parse : ModelGatewayError → Bool
is_schema_parse schema_parse_failed = true
is_schema_parse _ = false

abbrev pub Result {ℓ} : Type ℓ → Type ℓ
Result A = Outcome ModelGatewayError A
