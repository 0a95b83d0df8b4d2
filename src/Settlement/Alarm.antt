-- ===== src/Settlement/Alarm.antt =====
-- app/db/repo/job_settlement.py::list_unaccounted_error_runs: the runs in `error` that no settlement
-- accounts for.
pub mod Accounted
use payroll_agent.Prelude.{
  ℕ, nat_eq, Bool, true, false, not, ◌&&◌, Option, none, some, List, map, ◌==◌, leb, any, keep,
  take, sorted, Text,
}
use payroll_agent.Jobs.{JobState, JobRow, pending, leased, done, dead}
use payroll_agent.Runs.{
  RunStatus, received, extracting, awaiting_reply, computed, awaiting_approval, approved, sent,
  reconciled, rejected, error, needs_operator, RunRow,
}
use payroll_agent.Store.{Db}
use payroll_agent.Settlement.{same_id}

-- `state IN ('done', 'dead')`
unfoldable pub is_settled : JobState → Bool
is_settled pending = false
is_settled leased = false
is_settled done = true
is_settled dead = true

-- The `WHERE` of the inner query.
unfoldable pub accounts : RunRow → JobRow → Bool
unfolding is_settled same_id
accounts r j = same_id j.run_id (some r.id) && (is_settled j.state && j.updated_at == r.updated_at)

unfoldable pub is_error : RunStatus → Bool
is_error error = true
is_error received = false
is_error extracting = false
is_error awaiting_reply = false
is_error computed = false
is_error awaiting_approval = false
is_error approved = false
is_error sent = false
is_error reconciled = false
is_error rejected = false
is_error needs_operator = false

unfoldable pub is_unaccounted : Db → RunRow → Bool
unfolding is_error accounts
is_unaccounted db r = is_error r.status && not (any (accounts r) db.jobs)

-- `ORDER BY updated_at DESC`
unfoldable pub newest_first : RunRow → RunRow → Bool
newest_first a b = leb b.updated_at a.updated_at

-- The columns that are projected.
abbrev pub AlarmRow : Type 0
AlarmRow = ℕ × Option Text × ℕ

unfoldable pub list_unaccounted_error_runs : ℕ → Db → List AlarmRow
unfolding is_unaccounted newest_first sorted
list_unaccounted_error_runs limit db =
    map (λ (r : RunRow). (r.id, r.error_reason, r.updated_at))
      (take limit (sorted newest_first (keep (is_unaccounted db) db.runs)))
