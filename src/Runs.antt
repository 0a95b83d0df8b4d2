-- ===== src/Runs.antt =====
-- app/models/status.py and app/db/repo/runs.py::claim_status: the status of a run, and the
-- compare-and-swap behind every contended gate. The table `payroll_runs` is the list of its rows,
-- without the columns that no modelled statement reads: the documents that the stages store.
pub mod Swap
mod Tests
use payroll_agent.Prelude.{
  ℕ, Text, Option, codes, list_eq, nat_eq, Bool, true, false, not, some, ◌&&◌, List, map, ◌==◌, any,
  if◌then◌else◌,
}

pub data RunStatus : Type 0 where
  received extracting awaiting_reply computed awaiting_approval approved : RunStatus
  sent reconciled rejected error needs_operator : RunStatus

unfoldable pub status_value : RunStatus → Text
status_value received = codes "received"
status_value extracting = codes "extracting"
status_value awaiting_reply = codes "awaiting_reply"
status_value computed = codes "computed"
status_value awaiting_approval = codes "awaiting_approval"
status_value approved = codes "approved"
status_value sent = codes "sent"
status_value reconciled = codes "reconciled"
status_value rejected = codes "rejected"
status_value error = codes "error"
status_value needs_operator = codes "needs_operator"

pub record RunRow : Type 0 where
  pub id : ℕ
  pub status : RunStatus
  pub reply_epoch : ℕ
  pub record_only : Bool
  pub clarification_round : ℕ
  pub business_id : ℕ
  pub error_reason : Option Text
  pub error_detail : Option Text
  pub updated_at : ℕ

abbrev pub Runs : Type 0
Runs = List RunRow

-- `WHERE id = run_id AND status = expected`
unfoldable pub in_status : ℕ → RunStatus → RunRow → Bool
unfolding status_value
in_status run_id expected r = r.id == run_id && status_value r.status == status_value expected

unfoldable pub move_status : ℕ → RunStatus → RunRow → RunRow
move_status now status r = record r { status = status; updated_at = now }

unfoldable pub claim_status : ℕ → ℕ → RunStatus → RunStatus → Runs → Bool × Runs
unfolding in_status move_status
claim_status now run_id expected status db = (
  any (in_status run_id expected) db,
  map (λ r. if in_status run_id expected r then move_status now status r else r) db,
)

-- `UPDATE payroll_runs SET ... WHERE test`
unfoldable pub update_runs : (RunRow → Bool) → (RunRow → RunRow) → Runs → Runs
update_runs test set = map (λ r. if test r then set r else r)

abbrev pub is_run : ℕ → RunRow → Bool
is_run run_id r = r.id == run_id

unfoldable pub set_status : ℕ → ℕ → RunStatus → Runs → Runs
unfolding update_runs move_status
set_status now run_id status = update_runs (is_run run_id) (move_status now status)

-- `_TERMINAL_STATUSES`
unfoldable pub is_terminal : RunStatus → Bool
is_terminal sent = true
is_terminal reconciled = true
is_terminal rejected = true
is_terminal error = true
is_terminal received = false
is_terminal extracting = false
is_terminal awaiting_reply = false
is_terminal computed = false
is_terminal awaiting_approval = false
is_terminal approved = false
is_terminal needs_operator = false

-- `WHERE id = run_id AND status <> ALL(terminal)`
unfoldable pub is_recordable : ℕ → RunRow → Bool
unfolding is_terminal
is_recordable run_id r = r.id == run_id && not (is_terminal r.status)

-- The two statements of `record_run_error`; the detail that is built of the exception is an argument.
unfoldable pub stamp_error : ℕ → Text → Option Text → RunRow → RunRow
stamp_error now reason detail r = record r {
  error_reason = some reason;
  error_detail = detail;
  updated_at = now;
}

unfoldable pub record_run_error : ℕ → ℕ → Text → Option Text → Runs → Runs
unfolding is_recordable stamp_error update_runs set_status
record_run_error now run_id reason detail db =
    if any (is_recordable run_id) db
    then set_status now run_id error
        (update_runs (is_recordable run_id) (stamp_error now reason detail) db)
    else db

-- `WHERE id = run_id AND status IN ('extracting', 'computed', 'sent')`
unfoldable pub is_stranded : RunStatus → Bool
is_stranded extracting = true
is_stranded computed = true
is_stranded sent = true
is_stranded received = false
is_stranded awaiting_reply = false
is_stranded awaiting_approval = false
is_stranded approved = false
is_stranded reconciled = false
is_stranded rejected = false
is_stranded error = false
is_stranded needs_operator = false

unfoldable pub can_rewind : ℕ → RunRow → Bool
unfolding is_stranded
can_rewind run_id r = r.id == run_id && is_stranded r.status

-- Of the context columns that are cleared, the counter of the rounds is modelled.
unfoldable pub rewind : ℕ → RunRow → RunRow
rewind now r = record r { status = received; clarification_round = 0; updated_at = now }

-- app/db/repo/pipeline_state.py
unfoldable pub rewind_for_reclaim : ℕ → ℕ → Runs → Bool × Runs
unfolding can_rewind rewind update_runs
rewind_for_reclaim now run_id db =
    (any (can_rewind run_id) db, update_runs (can_rewind run_id) (rewind now) db)
