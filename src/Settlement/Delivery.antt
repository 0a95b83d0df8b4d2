-- ===== src/Settlement/Delivery.antt =====
-- app/db/repo/job_settlement.py::settle_outbound_delivery_job: the branches of the settlement.
pub mod Context
pub mod Stranded
pub mod Owned
pub mod Total
use payroll_agent.Prelude.{
  ℕ, Text, codes, list_eq, nat_eq, Bool, true, false, not, ◌&&◌, ◌||◌, Option, none, some, List, [],
  ◌∷◌, ◌==◌, any, find, is_none, is_some, Result, ok, err, ◌>>=◌, if◌then◌else◌,
}
use payroll_agent.Outcome.{
  PipelineOutcome, retryable, terminal, delivery, stage_value, delivery_authorization_expired,
  delivery_record_only, PipelineResult, diagnostic_code, delivery_replay_allowed,
  next_delivery_attempt_at,
}
use payroll_agent.Jobs.{Job, JobState, JobRow, complete}
use payroll_agent.Store.{Db, Handoff, SettlementOutcome, Settled, RuntimeError, require}
use payroll_agent.Settlement.{locked_job, has_lease, set_leased, run_in, settle_row, retry_row}
use payroll_agent.Handoffs.{
  Authorization, authorization, delivery_ids, is_message, is_active, active_handoff,
  release_exact_handoff,
}
use payroll_agent.Settlement.Outbound.{
  is_reason, is_replayable, delivery_failure_category, retire_invalid, append_attempt,
  is_reserved_message, mark_sent, review_run, DeliveryContext, delivery_context, complete_run,
}

-- `_lock_current_provider_handoff`: the active handoff that this lease owns.
unfoldable pub is_current : Job → DeliveryContext → Handoff → Bool
unfolding is_active
is_current job x h =
    is_active x.run_id h
    && (h.email_id == x.email_id
        && (h.snapshot_id == x.snapshot.id
            && (h.job_id == job.id
                && (h.epoch == x.message.epoch && h.lease_token == job.lease_token))))

unfoldable pub current_handoff : Job → DeliveryContext → Db → Option Handoff
unfolding is_current
current_handoff job x db = find (is_current job x) db.handoffs

unfoldable pub settle_delivery_review : ℕ → Job → PipelineResult → DeliveryContext → Db → Settled
unfolding delivery_failure_category append_attempt run_in review_run has_lease set_leased settle_row
    diagnostic_code
settle_delivery_review now job result x db =
    let category = delivery_failure_category result.reason in
    require (run_in x.run_id x.expected db.runs) (codes "locked delivery review lost its run state")
      (require (has_lease job db) (codes "locked delivery review lost its lease") (
        ok (
          SettlementOutcome.done,
          set_leased job (settle_row now JobState.done (diagnostic_code result)) (
              review_run now x.run_id x.expected x.message.purpose category
                (append_attempt x.snapshot.id (codes "needs_operator") category db)),
        )))

-- The message is marked as sent, the run of a confirmation is completed, and the job is done.
unfoldable pub settle_sent : ℕ → Job → DeliveryContext → Text → Text → Text → Db → Settled
unfolding is_reserved_message mark_sent has_lease set_leased complete
settle_sent now job x no_message no_run no_lease db =
    require (any (is_reserved_message x.run_id x.email_id) db.messages) no_message (do
      after ← complete_run now x no_run (mark_sent x.run_id x.email_id db)
      require (has_lease job after) no_lease
          (ok (SettlementOutcome.done, set_leased job (complete now) after)))

unfoldable pub settle_record_only : ℕ → Job → DeliveryContext → Db → Settled
unfolding retire_invalid settle_sent
settle_record_only now job x db =
    if not x.run.record_only
    then retire_invalid now job JobState.done db
    else settle_sent now job x (codes "locked record-only delivery lost its reservation")
        (codes "locked record-only confirmation lost its run state")
        (codes "locked record-only delivery lost its lease") db

unfoldable pub settle_success : ℕ → Job → DeliveryContext → Authorization → Db → Settled
unfolding release_exact_handoff append_attempt settle_sent
settle_success now job x a db =
    let (released, db') = release_exact_handoff now (codes "finalized") a db in
    require released (codes "locked delivery success lost its provider handoff") (
      settle_sent now job x (codes "locked delivery success lost its reservation")
        (codes "locked confirmation success lost its run state")
        (codes "locked delivery success lost its lease")
        (append_attempt x.snapshot.id (codes "sent") (codes "none") db'))

-- The slot of the next attempt, for a failure that may be replayed inside the window.
unfoldable pub next_attempt : ℕ → PipelineResult → ℕ → DeliveryContext → Option ℕ
unfolding is_replayable delivery_replay_allowed next_delivery_attempt_at
next_attempt now result attempts x = elim result.outcome [
  | PipelineOutcome.ok ↦ none
  | terminal ↦ none
  | retryable ↦
      if is_replayable result.reason && delivery_replay_allowed x.snapshot.reserved_at now
      then next_delivery_attempt_at x.snapshot.reserved_at attempts
      else none
]

unfoldable pub settle_failure :
    ℕ → Job → PipelineResult → ℕ → DeliveryContext → Authorization → Db → Settled
unfolding next_attempt release_exact_handoff append_attempt delivery_failure_category has_lease
    set_leased retry_row diagnostic_code settle_delivery_review
settle_failure now job result attempts x a db = elim (next_attempt now result attempts x) [
  | some due ↦
      let (released, db') = release_exact_handoff now (codes "retry_scheduled") a db in
      require released (codes "locked delivery retry lost its provider handoff") (
        require (has_lease job db') (codes "locked delivery retry lost its lease") (
          ok (
            SettlementOutcome.retried,
            set_leased job (retry_row now due (diagnostic_code result)) (
                append_attempt x.snapshot.id (codes "retry_scheduled")
                  (delivery_failure_category result.reason) db'),
          )))
  | none ↦
      let (released, db') = release_exact_handoff now (codes "delivery_review") a db in
      require released (codes "locked delivery review lost its provider handoff")
        (settle_delivery_review now job result x db')
]

-- By the outcome of the result.
unfoldable pub settle_owned :
    PipelineOutcome → ℕ → Job → PipelineResult → ℕ → DeliveryContext → Authorization → Db → Settled
unfolding settle_success settle_failure
settle_owned PipelineOutcome.ok now job result attempts x a db = settle_success now job x a db
settle_owned retryable now job result attempts x a db =
    settle_failure now job result attempts x a db
settle_owned terminal now job result attempts x a db = settle_failure now job result attempts x a db

unfoldable pub is_terminal_outcome : PipelineOutcome → Bool
is_terminal_outcome PipelineOutcome.ok = false
is_terminal_outcome retryable = false
is_terminal_outcome terminal = true

-- The window closed before the provider was called.
unfoldable pub pre_provider_expiry : ℕ → PipelineResult → DeliveryContext → Bool
unfolding is_terminal_outcome stage_value is_reason delivery_replay_allowed
pre_provider_expiry now result x =
    is_terminal_outcome result.outcome
    && (stage_value result.stage == stage_value delivery
        && (is_reason result.reason delivery_authorization_expired
            && (not x.run.record_only && not (delivery_replay_allowed x.snapshot.reserved_at now))))

unfoldable pub settle_due : ℕ → Job → PipelineResult → ℕ → DeliveryContext → Db → Settled
unfolding is_reason settle_record_only pre_provider_expiry active_handoff settle_delivery_review
    current_handoff retire_invalid settle_owned authorization
settle_due now job result attempts x db =
    if is_reason result.reason delivery_record_only
    then settle_record_only now job x db
    else if pre_provider_expiry now result x && is_none (active_handoff x.run_id db)
    then settle_delivery_review now job result x db
    else elim (current_handoff job x db) [
      | none ↦ retire_invalid now job JobState.done db
      | some h ↦
          settle_owned result.outcome now job result attempts x
            (authorization h.id x.run_id x.email_id job x.message x.snapshot h.not_after) db
    ]

unfoldable pub settle_ids : ℕ → Job → PipelineResult → ℕ → ℕ → ℕ → Db → Settled
unfolding delivery_context retire_invalid settle_due
settle_ids now job result attempts run_id email_id db = elim (delivery_context run_id email_id db) [
  | none ↦ retire_invalid now job JobState.done db
  | some x ↦ settle_due now job result attempts x db
]

unfoldable pub settle_outbound_delivery_job : ℕ → Job → PipelineResult → Db → Settled
unfolding locked_job delivery_ids retire_invalid settle_ids
settle_outbound_delivery_job now job result db = elim (locked_job job db.jobs) [
  | none ↦ ok (SettlementOutcome.lost_lease, db)
  | some r ↦ elim (delivery_ids r job) [
    | none ↦ retire_invalid now job JobState.done db
    | some (run_id, email_id) ↦ settle_ids now job result r.attempts run_id email_id db
  ]
]
