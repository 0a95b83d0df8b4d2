-- ===== src/Settlement.antt =====
-- app/db/repo/job_settlement.py: the settlement of a leased job together with its run, in one
-- transaction. The text of a number (`str`) is an argument.
pub mod Outbound
pub mod Delivery
pub mod Reaper
pub mod Cases
pub mod Lease
pub mod Alarm
pub mod Background
mod Tests
use payroll_agent.Prelude.{
  ℕ, ◌+◌, Text, codes, list_eq, nat_eq, Bool, true, false, not, ◌&&◌, ◌||◌, ltb, Option, none, some,
  List, [], ◌∷◌, ◌++◌, ◌==◌, any, keep, find, is_some, ok, err, if◌then◌else◌, take,
}
use payroll_agent.Outcome.{
  PipelineOutcome, retryable, terminal, PipelineReason, PipelineResult, diagnostic_code,
  reason_value,
}
use payroll_agent.Jobs.{
  Job, JobKind, run_pipeline, resume_reply, operator_resume, ingest, send_outbound, JobState,
  JobRow, Jobs, is_pending, fenced, complete, update_rows,
}
use payroll_agent.Runs.{
  RunStatus, received, extracting, awaiting_reply, computed, awaiting_approval, approved, sent,
  reconciled, rejected, error, needs_operator, RunRow, Runs, in_status, move_status, update_runs,
}
use payroll_agent.Store.{Db, SettlementOutcome, Settled, RuntimeError, runtime_error, require}

unfoldable pub kind_value : JobKind → Text
kind_value run_pipeline = codes "run_pipeline"
kind_value resume_reply = codes "resume_reply"
kind_value operator_resume = codes "operator_resume"
kind_value ingest = codes "ingest"
kind_value send_outbound = codes "send_outbound"

unfoldable pub same_kind : JobKind → JobKind → Bool
unfolding kind_value
same_kind a b = kind_value a == kind_value b

-- `==` on an identifier that may be None.
unfoldable pub same_id : Option ℕ → Option ℕ → Bool
same_id none none = true
same_id none (some b) = false
same_id (some a) none = false
same_id (some a) (some b) = a == b

-- The row that the lease token still fences.
unfoldable pub locked_job : Job → Jobs → Option JobRow
unfolding fenced
locked_job job = find (fenced job.id job.lease_token)

-- `UPDATE jobs SET ... WHERE id = .. AND state = 'leased' AND lease_token = .. RETURNING id`
unfoldable pub has_lease : Job → Db → Bool
unfolding fenced
has_lease job db = any (fenced job.id job.lease_token) db.jobs

unfoldable pub set_leased : Job → (JobRow → JobRow) → Db → Db
unfolding fenced update_rows
set_leased job set db = record db { jobs = update_rows (fenced job.id job.lease_token) set db.jobs }

unfoldable pub rewind_run : ℕ → ℕ → Runs → Runs
unfolding in_status move_status update_runs
rewind_run now run_id = update_runs (in_status run_id extracting) (move_status now received)

-- Whether `_rewind_run` or `_set_run_error` finds the run in the status.
unfoldable pub run_in : ℕ → RunStatus → Runs → Bool
unfolding in_status
run_in run_id expected = any (in_status run_id expected)

unfoldable pub error_row : ℕ → Text → Text → RunRow → RunRow
error_row now reason detail r = record r {
  status = error;
  error_reason = some reason;
  error_detail = some detail;
  updated_at = now;
}

unfoldable pub set_run_error : ℕ → ℕ → Text → Text → RunStatus → Runs → Runs
unfolding in_status error_row update_runs
set_run_error now run_id reason detail expected =
    update_runs (in_status run_id expected) (error_row now reason detail)

-- `UPDATE jobs SET state = .., last_error = .., lease_token = NULL, ..`
unfoldable pub settle_row : ℕ → JobState → Text → JobRow → JobRow
settle_row now state detail r = record r {
  state = state;
  last_error = some detail;
  lease_token = none;
  leased_until = none;
  updated_at = now;
}

unfoldable pub retry_row : ℕ → ℕ → Text → JobRow → JobRow
unfolding settle_row
retry_row now due detail r = record (settle_row now JobState.pending detail r) {
  available_at = due;
}

unfoldable pub ingest_target : PipelineOutcome → Bool → JobState × SettlementOutcome
ingest_target retryable true = (JobState.pending, SettlementOutcome.retried)
ingest_target retryable false = (JobState.dead, SettlementOutcome.dead)
ingest_target PipelineOutcome.ok b = (JobState.done, SettlementOutcome.done)
ingest_target terminal b = (JobState.done, SettlementOutcome.done)

-- The two `CASE`s of the statement.
unfoldable pub ingest_due : ℕ → JobState → ℕ → ℕ
unfolding is_pending
ingest_due due state available_at = if is_pending state then due else available_at

unfoldable pub ingest_error : PipelineResult → Option Text → Option Text
unfolding diagnostic_code
ingest_error result last_error = elim result.outcome [
  | PipelineOutcome.ok ↦ last_error
  | retryable ↦ some (diagnostic_code result)
  | terminal ↦ some (diagnostic_code result)
]

unfoldable pub ingest_row : ℕ → ℕ → JobState → PipelineResult → JobRow → JobRow
unfolding ingest_due ingest_error
ingest_row now due state result r = record r {
  state = state;
  available_at = ingest_due due state r.available_at;
  last_error = ingest_error result r.last_error;
  lease_token = none;
  leased_until = none;
  updated_at = now;
}

unfoldable pub settle_ingest_job : ℕ → ℕ → Job → PipelineResult → JobRow → Db → Settled
unfolding ingest_target ingest_row has_lease set_leased
settle_ingest_job now due job result r db =
    let (state, outcome) = ingest_target result.outcome (ltb r.attempts r.max_attempts) in
    require (has_lease job db) (codes "locked ingest settlement lost its lease")
      (ok (outcome, set_leased job (ingest_row now due state result) db))

-- The last branches: the run goes to `error`, and the job to `state`.
unfoldable pub settle_failed :
    ℕ → Job → PipelineResult → ℕ → Text → Text → JobState → SettlementOutcome → Db → Settled
unfolding run_in set_run_error has_lease set_leased settle_row diagnostic_code
settle_failed now job result run_id reason detail state outcome db =
    if not (run_in run_id extracting db.runs)
    then ok (SettlementOutcome.fenced, db)
    else require (has_lease job db) (codes "locked final settlement lost its lease") (
        ok (
          outcome,
          set_leased job (settle_row now state (diagnostic_code result))
              (record db { runs = set_run_error now run_id reason detail extracting db.runs }),
        ))

unfoldable pub settle_retry : ℕ → ℕ → Job → PipelineResult → ℕ → Db → Settled
unfolding run_in rewind_run has_lease set_leased retry_row diagnostic_code
settle_retry now due job result run_id db =
    if not (run_in run_id extracting db.runs)
    then ok (SettlementOutcome.fenced, db)
    else require (has_lease job db) (codes "locked retry settlement lost its lease") (
        ok (
          SettlementOutcome.retried,
          set_leased job (retry_row now due (diagnostic_code result))
              (record db { runs = rewind_run now run_id db.runs }),
        ))

module _ (show_number : ℕ → Text) where
  -- `_bounded_detail`, with the attempts of `RetryExhausted`
  unfoldable pub bounded_detail : PipelineResult → Option (ℕ × ℕ) → Text
  unfolding diagnostic_code
  bounded_detail result none = take 200 (diagnostic_code result)
  bounded_detail result (some (attempts, max_attempts)) = take 200 (
      diagnostic_code result
      ++ (codes ";attempts=" ++ (show_number attempts ++ (47 ∷ show_number max_attempts))))

  unfoldable pub settle_run_job : ℕ → ℕ → Job → PipelineResult → JobRow → ℕ → Db → Settled
  unfolding has_lease set_leased complete settle_retry settle_failed bounded_detail reason_value
  settle_run_job now due job result r run_id db = elim result.outcome [
    | PipelineOutcome.ok ↦
        if has_lease job db
        then ok (SettlementOutcome.done, set_leased job (complete now) db)
        else ok (SettlementOutcome.fenced, db)
    | retryable ↦
        if ltb r.attempts r.max_attempts
        then settle_retry now due job result run_id db
        else settle_failed now job result run_id (codes "RetryExhausted")
            (bounded_detail result (some (r.attempts, r.max_attempts))) JobState.dead
            SettlementOutcome.dead db
    | terminal ↦
        settle_failed now job result run_id (reason_value result.reason)
          (bounded_detail result none) JobState.done SettlementOutcome.done db
  ]

  unfoldable pub settle_locked : ℕ → ℕ → Job → PipelineResult → JobRow → Db → Settled
  unfolding same_kind same_id settle_ingest_job settle_run_job
  settle_locked now due job result r db =
      if not (same_kind r.kind job.kind)
      then ok (SettlementOutcome.fenced, db)
      else if same_kind r.kind ingest
      then (if is_some r.run_id || is_some job.run_id
          then ok (SettlementOutcome.fenced, db)
          else settle_ingest_job now due job result r db)
      else elim r.run_id [
        | none ↦ ok (SettlementOutcome.fenced, db)
        | some run_id ↦
            if same_id (some run_id) job.run_id
            then settle_run_job now due job result r run_id db
            else ok (SettlementOutcome.fenced, db)
      ]

  -- `due` is `now() + (backoff_seconds || ' seconds')::interval`.
  unfoldable pub settle_pipeline_job : ℕ → ℕ → Job → PipelineResult → Db → Settled
  unfolding locked_job settle_locked
  settle_pipeline_job now due job result db = elim (locked_job job db.jobs) [
    | none ↦ ok (SettlementOutcome.fenced, db)
    | some r ↦ settle_locked now due job result r db
  ]
