-- ===== src/System.antt =====
-- app/db/repo/jobs.py, app/db/repo/job_settlement.py and app/db/repo/outbound_handoffs.py together:
-- the transactions of the queue as the steps of one database. Each takes effect at once, so a path
-- of steps is any interleaving of the workers, of the routes that enqueue or make a delivery due, and
-- of a shutdown.
pub mod Invariant
mod Tests
use payroll_agent.Prelude.{ℕ, Text, Option, List, Result, ok, ◌≡◌, In}
use payroll_agent.Decimal.{Decimal}
use payroll_agent.Outcome.{PipelineResult}
use payroll_agent.Jobs.{Job, Jobs}
use payroll_agent.Jobs.Valid.{Step}
use payroll_agent.Store.{Db, SettlementOutcome}
use payroll_agent.Settlement.{settle_pipeline_job}
use payroll_agent.Settlement.Delivery.{settle_outbound_delivery_job}
use payroll_agent.Settlement.Reaper.{reap_expired_final_attempt}
use payroll_agent.Runs.{Runs}
use payroll_agent.Handoffs.Advance.{
  advance_existing_send_job_due_now, advance_existing_clarification_delivery_review_job_due_now,
}
use payroll_agent.Handoffs.Review.{
  Resolution, resolve_outbound_provider_handoff_for_delivery_review,
}
use payroll_agent.Handoffs.{HandoffOutcome, authorize_outbound_provider_handoff}

module _ (show_uuid show_number : ℕ → Text) (to_interval : Decimal → ℕ) (default : ℕ) where
  pub data Transaction (db : Db) : Db → Type 0 where
    queues :
        (jobs : Jobs)
        → Step show_uuid to_interval default db.jobs jobs
        → Transaction db (record db { jobs = jobs })
    settles_pipeline :
        (now due : ℕ) (job : Job) (result : PipelineResult) (o : SettlementOutcome) (after : Db)
        → settle_pipeline_job show_number now due job result db ≡ ok (o, after)
        → Transaction db after
    settles_delivery :
        (now : ℕ) (job : Job) (result : PipelineResult) (o : SettlementOutcome) (after : Db)
        → settle_outbound_delivery_job now job result db ≡ ok (o, after)
        → Transaction db after
    authorizes :
        (now new_id : ℕ) (job : Job) (o : HandoffOutcome) (after : Db)
        → authorize_outbound_provider_handoff now new_id job db ≡ ok (o, after)
        → Transaction db after
    reaps :
        (now : ℕ) (locked : List ℕ) (o : Option SettlementOutcome) (after : Db)
        → reap_expired_final_attempt show_number now locked db ≡ ok (o, after)
        → Transaction db after
    resolves :
        (now run_id email_id snapshot_id : ℕ) (resolution : Resolution)
        → Transaction db
            (resolve_outbound_provider_handoff_for_delivery_review now run_id email_id snapshot_id
              resolution db).1
    advances_confirmation :
        (now run_id email_id : ℕ)
        → Transaction db (advance_existing_send_job_due_now now run_id email_id db).1
    advances_clarification :
        (now run_id email_id : ℕ)
        → Transaction db
            (advance_existing_clarification_delivery_review_job_due_now now run_id email_id db).1
    -- The writers of the status of a run, and whatever else a stage or a route writes to the run.
    writes_runs : (runs : Runs) → Transaction db (record db { runs = runs })

  -- What the transactions reach from a database that satisfies a property.
  pub data Reachable (P : Db → Type 0) : Db → Type 0 where
    starts : (db : Db) → P db → Reachable P db
    then_step : {db after : Db} → Reachable P db → Transaction db after → Reachable P after
