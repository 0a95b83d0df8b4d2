-- ===== src/Handoffs/Handler.antt =====
-- app/queue/handlers/send_outbound.py::handle_send_outbound: what a worker does with the authority
-- that it was given. The call of the mail gateway with its deadline is the argument `send`.
use payroll_agent.Prelude.{
  ℕ, Result, ok, err, not, ◌||◌, Option, none, some, is_some, is_none, if◌then◌else◌,
}
use payroll_agent.Outcome.{
  PipelineOutcome, terminal, unknown, delivery, unclassified, delivery_authorization_expired,
  delivery_record_only, PipelineResult,
}
use payroll_agent.Jobs.{Job, send_outbound}
use payroll_agent.Settlement.{same_kind, same_id}
use payroll_agent.Store.{Db, RuntimeError}
use payroll_agent.Handoffs.{
  invalid_context, replay_window_closed, foreign_active_handoff, active_handoff_unexpired,
  Authorization, HandoffOutcome, authorized, record_only, refused,
  authorize_outbound_provider_handoff,
}

pub data ValueError : Type 0 where
  wrong_kind lacks_context mixed_context : ValueError

unfoldable pub bounded_noop : PipelineResult
bounded_noop = record { outcome = PipelineOutcome.ok; stage = unknown; reason = unclassified }

unfoldable pub result_of : (Authorization → PipelineResult) → Job → HandoffOutcome → PipelineResult
unfolding bounded_noop same_id
result_of send job (refused replay_window_closed) = record {
  outcome = terminal;
  stage = delivery;
  reason = delivery_authorization_expired;
}
result_of send job (refused invalid_context) = bounded_noop
result_of send job (refused foreign_active_handoff) = bounded_noop
result_of send job (refused active_handoff_unexpired) = bounded_noop
result_of send job (record_only run_id) =
    if same_id (some run_id) job.run_id
    then record { outcome = PipelineOutcome.ok; stage = delivery; reason = delivery_record_only }
    else bounded_noop
result_of send job (authorized a) = send a

-- The checks that come before the authorization.
unfoldable pub check_delivery_job : Job → Option ValueError
unfolding same_kind
check_delivery_job job =
    if not (same_kind job.kind send_outbound)
    then some wrong_kind
    else if is_none job.run_id || is_none job.email_id
    then some lacks_context
    else if is_some job.operator_resolution_id || is_some job.event_id
    then some mixed_context
    else none

-- What the handler answers once the authorization has returned; a RuntimeError leaves the tables.
unfoldable pub answer :
    (Authorization → PipelineResult)
    → Job
    → Db
    → Result RuntimeError (HandoffOutcome × Db)
    → Option PipelineResult × Db
unfolding result_of
answer send job db (ok (o, after)) = (some (result_of send job o), after)
answer send job db (err e) = (none, db)

-- The whole handler; it raises where it answers `none`.
unfoldable pub handle_send_outbound :
    ℕ → ℕ → (Authorization → PipelineResult) → Job → Db → Option PipelineResult × Db
unfolding check_delivery_job answer authorize_outbound_provider_handoff
handle_send_outbound now new_id send job db = elim (check_delivery_job job) [
  | some e ↦ (none, db)
  | none ↦ answer send job db (authorize_outbound_provider_handoff now new_id job db)
]
