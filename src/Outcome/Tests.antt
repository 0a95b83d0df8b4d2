-- ===== src/Outcome/Tests.antt =====
-- Runs of app/pipeline/result.py.
use payroll_agent.Prelude.{
  false, none, list_beq, ◌≡◌, ◌↔◌, refl, codes, list_eq, nat_eq, true, some,
}
use payroll_agent.Outcome.{next_delivery_attempt_at}
use payroll_agent.Outcome.Codes.{IsCode, is_diagnostic_iff}
use payroll_agent.Outcome.Replay.{NextSlot, next_delivery_attempt_at-NextSlot}
use payroll_agent.Outcome.Classify.{Exception, classify_delivery_exception}
use payroll_agent.Outcome.Replayable.{classify_delivery_exception-retryable_iff}
use payroll_agent.Settlement.Outbound.{is_replayable}
use payroll_agent.Outcome.{retryable, delivery, delivery_server_failure}
use payroll_agent.Jobs.Enqueue.{is_diagnostic}

is_diagnostic_iff_example :
    (is_diagnostic (codes "load:unclassified") ≡ true) ↔ IsCode (codes "load:unclassified")
is_diagnostic_iff_example = is_diagnostic_iff (codes "load:unclassified")

third_slot : next_delivery_attempt_at 100 3 ≡ some 900000100
unfolding next_delivery_attempt_at
third_slot = refl

next_delivery_attempt_at-NextSlot_example : NextSlot 100 3 (next_delivery_attempt_at 100 3)
next_delivery_attempt_at-NextSlot_example = next_delivery_attempt_at-NextSlot 100 3

-- The provider answers 503.
abbrev unavailable : Exception
unavailable = record {
  is_validation = false;
  is_api_timeout = false;
  is_api_connection = false;
  is_rate_limit = false;
  api_status = none;
  is_timeout = false;
  is_connection = false;
  resend = some (record { error_type = codes "internal_server_error"; code = some 503 });
}

unavailable_is_retried :
    classify_delivery_exception unavailable
    ≡ record { outcome = retryable; stage = delivery; reason = delivery_server_failure }
unfolding classify_delivery_exception list_beq
unavailable_is_retried = refl

classify_delivery_exception-retryable_iff_example :
    ((classify_delivery_exception unavailable).outcome ≡ retryable)
    ↔ (is_replayable (classify_delivery_exception unavailable).reason ≡ true)
classify_delivery_exception-retryable_iff_example =
    classify_delivery_exception-retryable_iff unavailable
