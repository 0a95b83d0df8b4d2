-- ===== src/Handlers/Resume.antt =====
-- app/queue/handlers/resume_reply.py, with reply_sender_ok of app/routes/pipeline_glue.py: a reply
-- that was stored as an inbound email. `find_business_by_sender` and `row_to_inbound` are arguments,
-- the latter as whether the row converts; so is `resume_pipeline`, the stages behind the handler.
pub mod Authentic
mod Tests
use payroll_agent.Prelude.{
  ℕ, Text, nat_eq, Bool, true, false, not, ltb, Option, none, some, List, ◌==◌, find, if◌then◌else◌,
  get_or_else, [],
}
use payroll_agent.Outcome.{PipelineResult}
use payroll_agent.Jobs.{Job}
use payroll_agent.Runs.{
  RunStatus, received, extracting, awaiting_reply, computed, awaiting_approval, approved, sent,
  reconciled, rejected, error, needs_operator, Runs, RunRow, is_run, claim_status,
  rewind_for_reclaim,
}
use payroll_agent.Store.{Db}
use payroll_agent.Settlement.{same_id}
use payroll_agent.Handoffs.Handler.{bounded_noop}
use payroll_agent.Handlers.{Handled}

pub record InboundEmail : Type 0 where
  pub id : ℕ
  pub run_id : Option ℕ
  pub from_addr : Option Text

abbrev pub has_email_id : ℕ → InboundEmail → Bool
has_email_id email_id row = row.id == email_id

-- The table of runs when the compare-and-swap was won.
unfoldable pub when_won : Bool × Runs → Option Runs
when_won (won, runs) = if won then some runs else none

-- The status gate before the stages; `none` is the answer that does nothing.
unfoldable pub resume_gate : ℕ → ℕ → ℕ → RunStatus → Runs → Option Runs
unfolding when_won claim_status rewind_for_reclaim
resume_gate now attempts run_id awaiting_reply runs =
    when_won (claim_status now run_id awaiting_reply received runs)
resume_gate now attempts run_id received runs = if ltb 1 attempts then some runs else none
resume_gate now attempts run_id extracting runs =
    if ltb 1 attempts then when_won (rewind_for_reclaim now run_id runs) else none
resume_gate now attempts run_id computed runs =
    if ltb 1 attempts then when_won (rewind_for_reclaim now run_id runs) else none
resume_gate now attempts run_id sent runs =
    if ltb 1 attempts then when_won (rewind_for_reclaim now run_id runs) else none
resume_gate now attempts run_id awaiting_approval runs = none
resume_gate now attempts run_id approved runs = none
resume_gate now attempts run_id reconciled runs = none
resume_gate now attempts run_id rejected runs = none
resume_gate now attempts run_id error runs = none
resume_gate now attempts run_id needs_operator runs = none

module _ (find_business_by_sender : Text → Option ℕ) where
  unfoldable pub reply_sender_ok : InboundEmail → RunRow → Bool
  unfolding same_id
  reply_sender_ok row run =
      same_id (find_business_by_sender (get_or_else row.from_addr [])) (some run.business_id)

  module _ (row_to_inbound : InboundEmail → Bool)
      (resume_pipeline : ℕ → InboundEmail → Db → Handled) where
    unfoldable pub resume_row : ℕ → ℕ → ℕ → InboundEmail → RunRow → Db → Handled
    unfolding resume_gate bounded_noop
    resume_row now attempts run_id row run db =
        elim (resume_gate now attempts run_id run.status db.runs) [
          | none ↦ (some bounded_noop, db)
          | some runs ↦
              if row_to_inbound row
              then resume_pipeline run_id row (record db { runs = runs })
              else (some bounded_noop, record db { runs = runs })
        ]

    unfoldable pub resume_email : ℕ → ℕ → ℕ → ℕ → List InboundEmail → Db → Handled
    unfolding same_id reply_sender_ok resume_row bounded_noop
    resume_email now attempts run_id email_id emails db =
        elim (find (has_email_id email_id) emails) [
          | none ↦ (some bounded_noop, db)
          | some row ↦
              if not (same_id row.run_id (some run_id))
              then (some bounded_noop, db)
              else elim (find (is_run run_id) db.runs) [
                | none ↦ (some bounded_noop, db)
                | some run ↦
                    if reply_sender_ok row run
                    then resume_row now attempts run_id row run db
                    else (some bounded_noop, db)
              ]
        ]

    unfoldable pub handle_resume_reply : ℕ → List InboundEmail → Job → Db → Handled
    unfolding resume_email
    handle_resume_reply now emails job db = elim job.run_id [
      | none ↦ (none, db)
      | some run_id ↦ elim job.email_id [
        | none ↦ (none, db)
        | some email_id ↦ resume_email now job.attempts run_id email_id emails db
      ]
    ]
