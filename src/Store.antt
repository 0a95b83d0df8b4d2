-- ===== src/Store.antt =====
-- The tables that a settlement reads and writes in one transaction, as lists of rows, and what it
-- returns (app/db/repo/job_settlement.py). Of email_messages the outbound rows are modelled, and of
-- every table the columns that the statements use. A RuntimeError rolls the transaction back.
use payroll_agent.Prelude.{ℕ, Text, Option, List, Bool, Result, err, if◌then◌else◌}
use payroll_agent.Jobs.{Jobs}
use payroll_agent.Runs.{Runs}

pub record Message : Type 0 where
  pub id : ℕ
  pub run_id : Option ℕ
  pub purpose : Text
  pub epoch : ℕ
  pub send_state : Text

pub record Snapshot : Type 0 where
  pub id : ℕ
  pub email_id : ℕ
  pub reserved_at : ℕ

pub record Handoff : Type 0 where
  pub id : ℕ
  pub run_id : ℕ
  pub email_id : ℕ
  pub snapshot_id : ℕ
  pub job_id : ℕ
  pub epoch : ℕ
  pub lease_token : ℕ
  pub owner_leased_until : ℕ
  pub authorized_at : ℕ
  pub not_after : ℕ
  pub released_at : Option ℕ
  pub release_reason : Option Text

pub record DeliveryAttempt : Type 0 where
  pub snapshot_id : ℕ
  pub attempt_state : Text
  pub failure_category : Text

pub record Db : Type 0 where
  pub jobs : Jobs
  pub runs : Runs
  pub messages : List Message
  pub snapshots : List Snapshot
  pub handoffs : List Handoff
  pub delivery_attempts : List DeliveryAttempt

pub data SettlementOutcome : Type 0 where
  done retried dead fenced lost_lease invalid_context reaped_final_lease : SettlementOutcome

pub data RuntimeError : Type 0 where
  runtime_error : Text → RuntimeError

-- What a transaction that does not raise returns, with the tables that it commits.
abbrev pub Settled : Type 0
Settled = Result RuntimeError (SettlementOutcome × Db)

-- `if not test: raise RuntimeError(message)`
abbrev pub require : {A : Type 0} → Bool → Text → Result RuntimeError A → Result RuntimeError A
require test message rest = if test then rest else err (runtime_error message)
