-- ===== src/Settlement/Background.antt =====
-- app/db/repo/job_settlement.py: the failure that escapes a handler, and the terminal result of a
-- first attempt that has no job.
use payroll_agent.Prelude.{ℕ, Text, none, Result, ok, err, if◌then◌else◌}
use payroll_agent.Outcome.{
  PipelineOutcome, retryable, terminal, PipelineStage, PipelineReason, PipelineResult, reason_value,
}
use payroll_agent.Jobs.{Job}
use payroll_agent.Runs.{RunStatus}
use payroll_agent.Store.{Db, SettlementOutcome, Settled}
use payroll_agent.Settlement.{run_in, set_run_error, bounded_detail, settle_pipeline_job}

pub data BackgroundError : Type 0 where
  not_terminal : BackgroundError

module _ (show_number : ℕ → Text) where
  unfoldable pub settle_infrastructure_failure :
      ℕ → ℕ → Job → PipelineStage → PipelineReason → Db → Settled
  unfolding settle_pipeline_job
  settle_infrastructure_failure now due job stage reason =
      settle_pipeline_job show_number now due job
        (record { outcome = retryable; stage = stage; reason = reason })

  unfoldable pub terminal_settled : ℕ → ℕ → PipelineResult → RunStatus → Db → SettlementOutcome × Db
  unfolding run_in set_run_error bounded_detail reason_value
  terminal_settled now run_id result expected db =
      if run_in run_id expected db.runs
      then (
        SettlementOutcome.done,
        record db {
          runs =
              set_run_error now run_id (reason_value result.reason)
                (bounded_detail show_number result none) expected db.runs;
        },
      )
      else (SettlementOutcome.fenced, db)

  unfoldable pub settle_background_terminal :
      ℕ → ℕ → PipelineResult → RunStatus → Db → Result BackgroundError (SettlementOutcome × Db)
  unfolding terminal_settled
  settle_background_terminal now run_id result expected db = elim result.outcome [
    | PipelineOutcome.ok ↦ err not_terminal
    | retryable ↦ err not_terminal
    | terminal ↦ ok (terminal_settled now run_id result expected db)
  ]
