-- ===== src/Handlers.antt =====
-- app/queue/handlers/pipeline.py and app/queue/handlers/ingest.py: what a worker does with a claimed
-- job before the stages run. `run_pipeline_now` and `process_inbound_event` are arguments: the
-- tables that they leave, and a result, or `none` where they raise.
pub mod Starts
pub mod Resume
mod Tests
use payroll_agent.Prelude.{
  ℕ, Bool, true, false, not, ◌||◌, ◌&&◌, ltb, Option, none, some, is_some, if◌then◌else◌,
}
use payroll_agent.Outcome.{PipelineResult}
use payroll_agent.Jobs.{Job, ingest}
use payroll_agent.Runs.{
  received, extracting, Runs, RunRow, in_status, can_rewind, rewind_for_reclaim, claim_status,
}
use payroll_agent.Store.{Db}
use payroll_agent.Settlement.{same_kind}
use payroll_agent.Handoffs.Handler.{bounded_noop}

abbrev pub Handled : Type 0
Handled = Option PipelineResult × Db

-- The rewind of a second attempt.
unfoldable pub reclaimed : ℕ → ℕ → ℕ → Runs → Runs
unfolding rewind_for_reclaim
reclaimed now attempts run_id runs =
    if ltb 1 attempts then (rewind_for_reclaim now run_id runs).1 else runs

unfoldable pub start_run : ℕ → (ℕ → Db → Handled) → ℕ → ℕ → Db → Handled
unfolding reclaimed claim_status bounded_noop
start_run now run_pipeline_now attempts run_id db =
    let (won, runs) =
      claim_status now run_id received extracting (reclaimed now attempts run_id db.runs) in
    let after = record db { runs = runs } in
    if not won then (some bounded_noop, after) else run_pipeline_now run_id after

unfoldable pub handle_run_pipeline : ℕ → (ℕ → Db → Handled) → Job → Db → Handled
unfolding start_run
handle_run_pipeline now run_pipeline_now job db = elim job.run_id [
  | none ↦ (none, db)
  | some run_id ↦ start_run now run_pipeline_now job.attempts run_id db
]

unfoldable pub handle_ingest : (ℕ → Db → Handled) → Job → Db → Handled
unfolding same_kind
handle_ingest process_inbound_event job db =
    if not (same_kind job.kind ingest) then (none, db) else elim job.event_id [
      | none ↦ (none, db)
      | some event_id ↦
          if is_some job.run_id || (is_some job.email_id || is_some job.operator_resolution_id)
          then (none, db)
          else process_inbound_event event_id db
    ]
