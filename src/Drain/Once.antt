-- ===== src/Drain/Once.antt =====
-- app/queue/drain.py::drain_once: one claim, its dispatch and its settlement, on the tables. `dispatch`
-- is app/queue/dispatch.py::handle with its handler: what it makes of the tables, and its result, or
-- `none` where it raises. `later` is the time of the settlement, and `backoff` the retry delay of an
-- attempt. With the outcome comes whether the worker forgot the token that it held.
pub mod Drains
use payroll_agent.Prelude.{
  ℕ, ◌+◌, Text, Bool, true, false, Option, none, some, List, ok, err, Result, ◌>>=◌, if◌then◌else◌,
}
use payroll_agent.Outcome.{
  PipelineOutcome, terminal, PipelineStage, unknown, delivery, PipelineReason, PipelineResult,
}
use payroll_agent.Jobs.{Job, send_outbound, claim_job}
use payroll_agent.Store.{Db, SettlementOutcome, Settled, RuntimeError}
use payroll_agent.Settlement.{same_kind, settle_pipeline_job}
use payroll_agent.Settlement.Background.{settle_infrastructure_failure}
use payroll_agent.Settlement.Delivery.{settle_outbound_delivery_job}
use payroll_agent.Settlement.Reaper.{Reaping, reap_expired_final_attempt}
use payroll_agent.Drain.{DrainOutcome, empty, map_settlement_outcome, lease_is_settled}

abbrev pub Drained : Type 0
Drained = Result RuntimeError (DrainOutcome × Bool × Db)

-- `PipelineResult(stage=PipelineStage.DELIVERY)`, of a delivery that raised
unfoldable pub crashed_delivery : PipelineResult
crashed_delivery = record {
  outcome = terminal;
  stage = delivery;
  reason = PipelineReason.unclassified;
}

unfoldable pub after_settlement : Job → Settled → Drained
unfolding map_settlement_outcome lease_is_settled
after_settlement job (ok (o, after)) =
    ok (map_settlement_outcome o, lease_is_settled job.kind o, after)
after_settlement job (err e) = err e

-- After no job was claimed.
unfoldable pub after_reap : Reaping → Drained
unfolding map_settlement_outcome
after_reap (ok (none, after)) = ok (empty, false, after)
after_reap (ok (some o, after)) = ok (map_settlement_outcome o, false, after)
after_reap (err e) = err e

module _ (show_number : ℕ → Text) (backoff : ℕ → ℕ) where
  unfoldable pub settle_crashed : ℕ → Job → Db → Settled
  unfolding same_kind settle_outbound_delivery_job settle_infrastructure_failure crashed_delivery
  settle_crashed later job db =
      if same_kind job.kind send_outbound
      then settle_outbound_delivery_job later job crashed_delivery db
      else settle_infrastructure_failure show_number later (later + backoff job.attempts) job
          unknown PipelineReason.unclassified db

  unfoldable pub settle_dispatched : ℕ → Job → PipelineResult → Db → Settled
  unfolding same_kind settle_outbound_delivery_job settle_pipeline_job
  settle_dispatched later job result db =
      if same_kind job.kind send_outbound
      then settle_outbound_delivery_job later job result db
      else settle_pipeline_job show_number later (later + backoff job.attempts) job result db

  unfoldable pub run_job : (Job → Db → Option PipelineResult × Db) → ℕ → Job → Db → Drained
  unfolding after_settlement settle_crashed settle_dispatched
  run_job dispatch later job db = elim (dispatch job db).0 [
    | none ↦ after_settlement job (settle_crashed later job (dispatch job db).1)
    | some result ↦ after_settlement job (settle_dispatched later job result (dispatch job db).1)
  ]

  unfoldable pub drain_once :
      (Job → Db → Option PipelineResult × Db) → ℕ → ℕ → List ℕ → ℕ → ℕ → Db → Drained
  unfolding claim_job run_job after_reap reap_expired_final_attempt
  drain_once dispatch now later locked token lease_time db =
      let (claimed, jobs) = claim_job now locked token lease_time db.jobs in
      elim claimed [
        | none ↦
            after_reap
              (reap_expired_final_attempt show_number later locked (record db { jobs = jobs }))
        | some job ↦ run_job dispatch later job (record db { jobs = jobs })
      ]
