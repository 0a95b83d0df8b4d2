-- ===== src/Outcome/Classify.antt =====
-- app/pipeline/result.py: the classification of an exception. An exception is what the `isinstance`
-- tests of its class say, with the status code of an API error and what a ResendError carries: its
-- type in lower case, and the code that `int` reads from it (status codes are natural numbers).
use payroll_agent.Prelude.{
  ℕ, Text, codes, list_eq, nat_eq, Bool, true, false, ◌&&◌, ◌||◌, ltb, leb, Option, none, some,
  ◌==◌, if◌then◌else◌,
}
use payroll_agent.Outcome.{
  retryable, terminal, PipelineStage, unknown, load, extract, persist, clarification, compute,
  delivery, PipelineReason, unclassified, provider_connection_failure, provider_timeout,
  provider_rate_limit, provider_server_failure, schema_or_parse_failure, client_request_failure,
  ambiguous_send_failure, delivery_timeout, delivery_connection_failure, delivery_rate_limit,
  delivery_server_failure, delivery_idempotency_payload_mismatch, delivery_quota_exhausted,
  delivery_validation_failure, delivery_authentication_failure, delivery_authorization_failure,
  delivery_configuration_failure, delivery_provider_failure, PipelineResult,
}

pub record ResendError : Type 0 where
  pub error_type : Text
  pub code : Option ℕ

pub record Exception : Type 0 where
  pub is_validation : Bool
  pub is_api_timeout : Bool
  pub is_api_connection : Bool
  pub is_rate_limit : Bool
  pub api_status : Option ℕ
  pub is_timeout : Bool
  pub is_connection : Bool
  pub resend : Option ResendError

-- `isinstance(exc, APIStatusError) and exc.status_code >= 500`
unfoldable pub is_server_failure : Option ℕ → Bool
is_server_failure none = false
is_server_failure (some code) = leb 500 code

unfoldable pub delivery_retryable : PipelineReason → PipelineResult
delivery_retryable reason = record { outcome = retryable; stage = delivery; reason = reason }

unfoldable pub delivery_terminal : PipelineReason → PipelineResult
delivery_terminal reason = record { outcome = terminal; stage = delivery; reason = reason }

unfoldable pub has_code : Option ℕ → ℕ → Bool
has_code none n = false
has_code (some c) n = c == n

unfoldable pub code_within : Option ℕ → ℕ → ℕ → Bool
code_within none lo hi = false
code_within (some c) lo hi = leb lo c && ltb c hi

unfoldable pub classify_resend_error : ResendError → PipelineResult
unfolding delivery_retryable delivery_terminal has_code code_within
classify_resend_error e =
    if e.error_type == codes "rate_limit_exceeded" && has_code e.code 429
    then delivery_retryable delivery_rate_limit
    else if e.error_type == codes "daily_quota_exceeded"
        || e.error_type == codes "monthly_quota_exceeded"
    then delivery_terminal delivery_quota_exhausted
    else if code_within e.code 500 600
    then delivery_retryable delivery_server_failure
    else if has_code e.code 409 && e.error_type == codes "invalid_idempotent_request"
    then delivery_terminal delivery_idempotency_payload_mismatch
    else if (e.error_type == codes "validation_error"
          || e.error_type == codes "missing_required_fields")
        || (has_code e.code 400 || has_code e.code 422)
    then delivery_terminal delivery_validation_failure
    else if e.error_type == codes "missing_api_key"
    then delivery_terminal delivery_configuration_failure
    else if has_code e.code 401
    then delivery_terminal delivery_authentication_failure
    else if has_code e.code 403
    then delivery_terminal delivery_authorization_failure
    else delivery_terminal delivery_provider_failure

-- The first chain of tests; `is_timeout` is `(TimeoutError, httpx.TimeoutException)`, and
-- `is_connection` is `(ConnectionError, httpx.ConnectError)`.
unfoldable pub retryable_reason : Exception → Option PipelineReason
unfolding is_server_failure
retryable_reason x =
    if x.is_timeout || x.is_api_timeout
    then some delivery_timeout
    else if x.is_connection || x.is_api_connection
    then some delivery_connection_failure
    else if x.is_rate_limit
    then some delivery_rate_limit
    else if is_server_failure x.api_status
    then some delivery_server_failure
    else none

unfoldable pub classify_delivery_exception : Exception → PipelineResult
unfolding retryable_reason classify_resend_error delivery_retryable delivery_terminal
classify_delivery_exception x = elim (retryable_reason x) [
  | some reason ↦ delivery_retryable reason
  | none ↦ elim x.resend [
    | some e ↦ classify_resend_error e
    | none ↦ delivery_terminal delivery_provider_failure
  ]
]

-- A result of the given stage, and terminal.
unfoldable pub stopped : PipelineStage → PipelineReason → PipelineResult
stopped stage reason = record { outcome = terminal; stage = stage; reason = reason }

unfoldable pub retried : PipelineStage → PipelineReason → PipelineResult
retried stage reason = record { outcome = retryable; stage = stage; reason = reason }

unfoldable pub is_api_status : Exception → Bool
is_api_status x = elim x.api_status [ none ↦ false | some code ↦ true ]

-- The tests that only extraction makes.
unfoldable pub classify_extraction : Exception → PipelineResult
unfolding stopped retried is_server_failure is_api_status
classify_extraction x =
    if x.is_api_timeout
    then retried extract provider_timeout
    else if x.is_api_connection
    then retried extract provider_connection_failure
    else if x.is_rate_limit
    then retried extract provider_rate_limit
    else if is_api_status x
    then (if is_server_failure x.api_status
        then retried extract provider_server_failure
        else stopped extract client_request_failure)
    else stopped extract unclassified

unfoldable pub classify_other : PipelineStage → Exception → PipelineResult
unfolding stopped
classify_other stage x =
    if x.is_validation then stopped stage schema_or_parse_failure else stopped stage unclassified

-- The stage is tested by `is`; delivery has its own classifier.
unfoldable pub classify_pipeline_exception : PipelineStage → Exception → PipelineResult
unfolding classify_delivery_exception classify_extraction classify_other stopped is_api_status
classify_pipeline_exception delivery x = classify_delivery_exception x
classify_pipeline_exception clarification x =
    if x.is_validation
    then stopped clarification schema_or_parse_failure
    else if x.is_api_connection || is_api_status x
    then stopped clarification ambiguous_send_failure
    else stopped clarification unclassified
classify_pipeline_exception extract x =
    if x.is_validation then stopped extract schema_or_parse_failure else classify_extraction x
classify_pipeline_exception unknown x = classify_other unknown x
classify_pipeline_exception load x = classify_other load x
classify_pipeline_exception persist x = classify_other persist x
classify_pipeline_exception compute x = classify_other compute x
