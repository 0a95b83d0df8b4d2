-- ===== src/Settlement/Outbound.antt =====
-- app/db/repo/job_settlement.py::settle_outbound_delivery_job: the settlement of a delivery with its
-- message, its provider handoff and its run. The aliases that a confirmation teaches are written to
-- a table that is not modelled here (AliasLearning), in a savepoint that swallows every failure.
use payroll_agent.Prelude.{
  ℕ, Text, codes, list_eq, nat_eq, Bool, not, ◌&&◌, ◌||◌, Option, none, some, List, [], ◌∷◌, ◌++◌,
  ◌==◌, any, find, map, Result, ok, if◌then◌else◌,
}
use payroll_agent.Outcome.{
  PipelineReason, delivery_timeout, delivery_connection_failure, delivery_rate_limit,
  delivery_server_failure, delivery_idempotency_payload_mismatch, delivery_authentication_failure,
  delivery_authorization_failure, delivery_validation_failure, delivery_configuration_failure,
  delivery_authorization_expired, reason_value,
}
use payroll_agent.Jobs.{Job, JobState}
use payroll_agent.Runs.{
  RunStatus, approved, needs_operator, sent, reconciled, RunRow, is_run, in_status, update_runs,
  move_status,
}
use payroll_agent.Store.{Db, Message, Snapshot, SettlementOutcome, Settled, RuntimeError, require}
use payroll_agent.Settlement.{has_lease, set_leased, run_in, settle_row}
use payroll_agent.Handoffs.{is_message, reserved_slot, expected_run_status, has_status}

unfoldable pub is_reason : PipelineReason → PipelineReason → Bool
unfolding reason_value
is_reason a b = reason_value a == reason_value b

-- `_REPLAYABLE_DELIVERY_REASONS`
unfoldable pub replayable_reasons : List PipelineReason
replayable_reasons =
    delivery_timeout ∷ delivery_connection_failure ∷ delivery_rate_limit ∷ delivery_server_failure
    ∷ []

unfoldable pub is_replayable : PipelineReason → Bool
unfolding replayable_reasons is_reason
is_replayable reason = any (is_reason reason) replayable_reasons

unfoldable pub delivery_failure_category : PipelineReason → Text
unfolding is_reason
delivery_failure_category reason =
    if is_reason reason delivery_timeout || is_reason reason delivery_connection_failure
    then codes "transport"
    else if is_reason reason delivery_server_failure
    then codes "provider_5xx"
    else if is_reason reason delivery_rate_limit
    then codes "rate_limited"
    else if is_reason reason delivery_idempotency_payload_mismatch
    then codes "payload_mismatch"
    else if is_reason reason delivery_authentication_failure
        || is_reason reason delivery_authorization_failure
    then codes "authorization"
    else if is_reason reason delivery_validation_failure
    then codes "validation"
    else if is_reason reason delivery_configuration_failure
    then codes "configuration"
    else if is_reason reason delivery_authorization_expired
    then codes "authorization_expired"
    else codes "unknown"

-- `_retire_invalid_outbound_lease`, and the outcome that its callers return.
unfoldable pub retire_invalid : ℕ → Job → JobState → Db → Settled
unfolding has_lease set_leased settle_row
retire_invalid now job state db =
    require (has_lease job db) (codes "locked invalid delivery context lost its lease") (
      ok (
        SettlementOutcome.invalid_context,
        set_leased job (settle_row now state (codes "delivery:invalid_context")) db,
      ))

unfoldable pub append_attempt : ℕ → Text → Text → Db → Db
append_attempt snapshot_id state category db = record db {
  delivery_attempts =
      db.delivery_attempts
      ++ (record { snapshot_id = snapshot_id; attempt_state = state; failure_category = category }
          ∷ []);
}

unfoldable pub is_reserved_message : ℕ → ℕ → Message → Bool
unfolding is_message
is_reserved_message run_id email_id m =
    is_message run_id email_id m && m.send_state == codes "reserved"

unfoldable pub mark_sent : ℕ → ℕ → Db → Db
unfolding is_reserved_message
mark_sent run_id email_id db = record db {
  messages =
      map
        (λ (m : Message).
          if is_reserved_message run_id email_id m
          then record m { send_state = codes "sent" }
          else m)
        db.messages;
}

unfoldable pub advance_run : ℕ → ℕ → RunStatus → RunStatus → Db → Db
unfolding in_status update_runs move_status
advance_run now run_id expected status db = record db {
  runs = update_runs (in_status run_id expected) (move_status now status) db.runs;
}

unfoldable pub review_reason : Text → Text
review_reason purpose =
    if purpose == codes "confirmation"
    then codes "DeliveryReview"
    else codes "ClarificationDeliveryReview"

unfoldable pub review_row : ℕ → Text → Text → RunRow → RunRow
unfolding review_reason
review_row now purpose category r = record r {
  status = needs_operator;
  error_reason = some (review_reason purpose);
  error_detail = some (codes "delivery_review:" ++ category);
  updated_at = now;
}

-- The run goes to its operator.
unfoldable pub review_run : ℕ → ℕ → RunStatus → Text → Text → Db → Db
unfolding in_status update_runs review_row
review_run now run_id expected purpose category db = record db {
  runs = update_runs (in_status run_id expected) (review_row now purpose category) db.runs;
}

-- What the locked rows say of a delivery that is still due: its message, its snapshot, its run, and
-- the status that the purpose asks for.
pub record DeliveryContext : Type 0 where
  pub run_id : ℕ
  pub email_id : ℕ
  pub message : Message
  pub snapshot : Snapshot
  pub run : RunRow
  pub expected : RunStatus

-- The tests up to `if run_status is not expected_status`; the purposes that have no expected status
-- are those outside the set.
unfoldable pub delivery_context : ℕ → ℕ → Db → Option DeliveryContext
unfolding reserved_slot expected_run_status has_status
delivery_context run_id email_id db = elim (reserved_slot run_id email_id db) [
  | none ↦ none
  | some (m, s) ↦ elim (expected_run_status m.purpose) [
    | none ↦ none
    | some expected ↦
        if not (m.send_state == codes "reserved")
        then none
        else elim (find (is_run run_id) db.runs) [
          | none ↦ none
          | some run ↦
              if m.epoch == run.reply_epoch && has_status run (some expected)
              then some (record {
                run_id = run_id;
                email_id = email_id;
                message = m;
                snapshot = s;
                run = run;
                expected = expected;
              })
              else none
        ]
  ]
]

-- `_complete_confirmation_after_send`; the caller has just moved the run to `sent`. The load of the
-- roster reads tables that are not among these, and is taken to succeed; the write of the aliases
-- after it is in a savepoint of its own, and whatever it raises is swallowed.
unfoldable pub complete_confirmation : ℕ → ℕ → Db → Result RuntimeError Db
unfolding run_in advance_run
complete_confirmation now run_id db =
    require (any (is_run run_id) db.runs) (codes "locked confirmation success lost its run") (
      require (run_in run_id sent db.runs)
        (codes "locked confirmation success lost its sent run state")
        (ok (advance_run now run_id sent reconciled db)))

-- The statements after the reservation was marked as sent.
unfoldable pub complete_run : ℕ → DeliveryContext → Text → Db → Result RuntimeError Db
unfolding run_in advance_run complete_confirmation
complete_run now x message db =
    if x.message.purpose == codes "confirmation"
    then require (run_in x.run_id approved db.runs) message
        (complete_confirmation now x.run_id (advance_run now x.run_id approved sent db))
    else ok db
