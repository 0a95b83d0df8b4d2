-- ===== src/Outcome.antt =====
-- app/pipeline/result.py: the bounded outcomes that the stages hand to the queue, and the fixed
-- schedule of delivery replays. A point of time is a number of microseconds.
pub mod Classify
pub mod Codes
pub mod Replay
pub mod Replayable
mod Tests
use payroll_agent.Prelude.{
  ℕ, ◌+◌, ◌*◌, Text, codes, ltb, leb, Bool, Option, none, some, ◌∷◌, ◌++◌, List, [], if◌then◌else◌,
  get_elem?,
}

pub data PipelineOutcome : Type 0 where
  ok retryable terminal : PipelineOutcome

pub data PipelineStage : Type 0 where
  unknown load extract persist clarification compute delivery : PipelineStage

pub data PipelineReason : Type 0 where
  unclassified provider_connection_failure provider_timeout provider_rate_limit : PipelineReason
  provider_server_failure schema_or_parse_failure client_request_failure ambiguous_send_failure :
      PipelineReason
  invalid_operator_override_context delivery_timeout delivery_connection_failure : PipelineReason
  delivery_rate_limit delivery_server_failure delivery_idempotency_payload_mismatch : PipelineReason
  delivery_quota_exhausted delivery_validation_failure delivery_authentication_failure :
      PipelineReason
  delivery_authorization_failure delivery_configuration_failure delivery_provider_failure :
      PipelineReason
  delivery_record_only delivery_authorization_expired : PipelineReason

unfoldable pub outcome_value : PipelineOutcome → Text
outcome_value ok = codes "ok"
outcome_value retryable = codes "retryable"
outcome_value terminal = codes "terminal"

unfoldable pub stage_value : PipelineStage → Text
stage_value unknown = codes "unknown"
stage_value load = codes "load"
stage_value extract = codes "extract"
stage_value persist = codes "persist"
stage_value clarification = codes "clarification"
stage_value compute = codes "compute"
stage_value delivery = codes "delivery"

unfoldable pub reason_value : PipelineReason → Text
reason_value unclassified = codes "unclassified"
reason_value provider_connection_failure = codes "provider_connection_failure"
reason_value provider_timeout = codes "provider_timeout"
reason_value provider_rate_limit = codes "provider_rate_limit"
reason_value provider_server_failure = codes "provider_server_failure"
reason_value schema_or_parse_failure = codes "schema_or_parse_failure"
reason_value client_request_failure = codes "client_request_failure"
reason_value ambiguous_send_failure = codes "ambiguous_send_failure"
reason_value invalid_operator_override_context = codes "invalid_operator_override_context"
reason_value delivery_timeout = codes "delivery_timeout"
reason_value delivery_connection_failure = codes "delivery_connection_failure"
reason_value delivery_rate_limit = codes "delivery_rate_limit"
reason_value delivery_server_failure = codes "delivery_server_failure"
reason_value delivery_idempotency_payload_mismatch = codes "delivery_idempotency_payload_mismatch"
reason_value delivery_quota_exhausted = codes "delivery_quota_exhausted"
reason_value delivery_validation_failure = codes "delivery_validation_failure"
reason_value delivery_authentication_failure = codes "delivery_authentication_failure"
reason_value delivery_authorization_failure = codes "delivery_authorization_failure"
reason_value delivery_configuration_failure = codes "delivery_configuration_failure"
reason_value delivery_provider_failure = codes "delivery_provider_failure"
reason_value delivery_record_only = codes "delivery_record_only"
reason_value delivery_authorization_expired = codes "delivery_authorization_expired"

-- The defaults of the class are `terminal`, `unknown` and `unclassified`.
pub record PipelineResult : Type 0 where
  pub outcome : PipelineOutcome
  pub stage : PipelineStage
  pub reason : PipelineReason

-- `f"{stage}:{reason}"`
unfoldable pub diagnostic_code : PipelineResult → Text
unfolding stage_value reason_value
diagnostic_code r = stage_value r.stage ++ (58 ∷ reason_value r.reason)

-- `timedelta(minutes=n)`
abbrev pub minutes : ℕ → ℕ
minutes n = n * 60000000

unfoldable pub replay_window : ℕ
replay_window = minutes 1200

unfoldable pub replay_offsets : List ℕ
replay_offsets =
    minutes 0
    ∷ minutes 1
    ∷ minutes 5
    ∷ minutes 15
    ∷ minutes 60
    ∷ minutes 180
    ∷ minutes 480
    ∷ minutes 960
    ∷ []

unfoldable pub delivery_replay_allowed : ℕ → ℕ → Bool
unfolding replay_window
delivery_replay_allowed reserved_at now = ltb now (reserved_at + replay_window)

-- A count of attempts is not negative.
unfoldable pub next_delivery_attempt_at : ℕ → ℕ → Option ℕ
unfolding replay_offsets delivery_replay_allowed
next_delivery_attempt_at reserved_at completed_attempts =
    elim (get_elem? replay_offsets completed_attempts) [
      | none ↦ none
      | some offset ↦
          let scheduled_at = reserved_at + offset in
          if delivery_replay_allowed reserved_at scheduled_at then some scheduled_at else none
    ]
