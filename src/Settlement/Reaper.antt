-- ===== src/Settlement/Reaper.antt =====
-- app/db/repo/job_settlement.py::reap_expired_final_attempt: what becomes of a job whose last
-- attempt's lease has expired. `uuid.UUID(str(None))` raises a ValueError, which rolls back as a
-- RuntimeError does.
pub mod Row
pub mod Select
pub mod Reaps
use payroll_agent.Prelude.{
  ℕ, ◌+◌, Text, codes, list_eq, nat_eq, Bool, true, false, not, ◌&&◌, ltb, Option, none, some, List,
  [], ◌∷◌, ◌++◌, ◌==◌, any, find, is_some, ok, err, Result, if◌then◌else◌, take, contains, ◌>>=◌,
}
use payroll_agent.Jobs.{
  Job, JobState, JobRow, Jobs, is_leased, lease_expired, returned_job, ingest, send_outbound,
  update_rows,
}
use payroll_agent.Runs.{
  RunStatus, received, extracting, awaiting_reply, computed, awaiting_approval, approved, sent,
  reconciled, rejected, error, needs_operator, RunRow, is_run,
}
use payroll_agent.Store.{Db, Handoff, SettlementOutcome, RuntimeError, runtime_error, require}
use payroll_agent.Settlement.{run_in, set_run_error, same_kind, settle_row}
use payroll_agent.Handoffs.{Authorization, authorization, release_exact_handoff}
use payroll_agent.Settlement.Outbound.{
  append_attempt, review_run, retire_invalid, DeliveryContext, delivery_context,
}
use payroll_agent.Settlement.Delivery.{current_handoff}

-- `_FINAL_LEASE_ERROR_STATUSES`
unfoldable pub is_final_lease_error : RunStatus → Bool
is_final_lease_error received = true
is_final_lease_error extracting = true
is_final_lease_error computed = true
is_final_lease_error approved = true
is_final_lease_error sent = false
is_final_lease_error awaiting_reply = false
is_final_lease_error awaiting_approval = false
is_final_lease_error reconciled = false
is_final_lease_error rejected = false
is_final_lease_error error = false
is_final_lease_error needs_operator = false

-- `state = 'leased' AND attempts = max_attempts AND leased_until < now()`
unfoldable pub is_final_lease : ℕ → JobRow → Bool
unfolding is_leased lease_expired
is_final_lease now r =
    is_leased r.state && (r.attempts == r.max_attempts && lease_expired now r.leased_until)

unfoldable pub expires_before : JobRow → JobRow → Bool
unfolding lease_expired
expires_before a b = elim b.leased_until [ none ↦ false | some t ↦ lease_expired t a.leased_until ]

unfoldable pub earlier : JobRow → Option JobRow → JobRow
unfolding expires_before
earlier r none = r
earlier r (some b) = if expires_before b r then b else r

-- The first expired row, but for those that another transaction has locked.
unfoldable pub select_final_lease : ℕ → List ℕ → Jobs → Option JobRow
unfolding is_final_lease earlier
select_final_lease now locked [] = none
select_final_lease now locked (r ∷ rows) =
    let rest = select_final_lease now locked rows in
    if is_final_lease now r && not (contains r.id locked) then some (earlier r rest) else rest

unfoldable pub is_expired_row : ℕ → ℕ → JobRow → Bool
unfolding is_final_lease
is_expired_row now job_id r = r.id == job_id && is_final_lease now r

unfoldable pub bury_row : ℕ → JobRow → JobRow
bury_row now r = record r {
  state = JobState.dead;
  lease_token = none;
  leased_until = none;
  updated_at = now;
}

abbrev pub Reaping : Type 0
Reaping = Result RuntimeError (Option SettlementOutcome × Db)

-- The last statement.
unfoldable pub bury_job : ℕ → JobRow → Db → Reaping
unfolding is_expired_row bury_row update_rows
bury_job now r db =
    require (any (is_expired_row now r.id) db.jobs) (codes "locked final-attempt reap lost its row")
      (ok (
        some SettlementOutcome.reaped_final_lease,
        record db { jobs = update_rows (is_expired_row now r.id) (bury_row now) db.jobs },
      ))

unfoldable pub reap_invalid : ℕ → Job → Db → Reaping
unfolding retire_invalid
reap_invalid now job db = do
  (outcome, after) ← retire_invalid now job JobState.dead db
  ok (some outcome, after)

-- The delivery goes to review with its handoff, before its job is buried.
unfoldable pub reap_owned : ℕ → JobRow → DeliveryContext → Authorization → Db → Reaping
unfolding release_exact_handoff append_attempt run_in review_run bury_job
reap_owned now r x a db =
    let (released, db') = release_exact_handoff now (codes "delivery_review") a db in
    require released (codes "locked final delivery reap lost its provider handoff") (
      require (run_in x.run_id x.expected db'.runs)
        (codes "locked final delivery reap lost its run status")
        (bury_job now r (
          review_run now x.run_id x.expected x.message.purpose (codes "final_attempt_lease_expired")
            (append_attempt x.snapshot.id (codes "needs_operator")
              (codes "final_attempt_lease_expired") db'))))

unfoldable pub reap_context : ℕ → JobRow → Job → DeliveryContext → Db → Reaping
unfolding current_handoff reap_invalid reap_owned authorization
reap_context now r job x db = elim (current_handoff job x db) [
  | none ↦ reap_invalid now job db
  | some h ↦
      reap_owned now r x
        (authorization h.id x.run_id x.email_id job x.message x.snapshot h.not_after) db
]

unfoldable pub reap_ids : ℕ → JobRow → Job → ℕ → ℕ → Db → Reaping
unfolding delivery_context reap_invalid reap_context
reap_ids now r job run_id email_id db = elim (delivery_context run_id email_id db) [
  | none ↦ reap_invalid now job db
  | some x ↦ reap_context now r job x db
]

unfoldable pub reap_delivery : ℕ → JobRow → Job → Db → Reaping
unfolding reap_invalid reap_ids
reap_delivery now r job db = elim r.run_id [
  | none ↦ reap_invalid now job db
  | some run_id ↦ elim r.email_id [
    | none ↦ reap_invalid now job db
    | some email_id ↦ reap_ids now r job run_id email_id db
  ]
]

-- `reaper_job`
unfoldable pub reaper_job : ℕ → JobRow → Job
unfolding returned_job
reaper_job token r = record (returned_job token r) { attempts = r.attempts }

module _ (show_number : ℕ → Text) where
  unfoldable pub reap_detail : JobRow → Text
  reap_detail r = take 200 (
      codes "unknown:final_attempt_lease_expired;attempts="
      ++ (show_number r.attempts ++ (47 ∷ show_number r.max_attempts)))

  -- The run goes to `error` where its status is one of those.
  unfoldable pub reap_run : ℕ → JobRow → ℕ → RunRow → Db → Reaping
  unfolding is_final_lease_error run_in set_run_error reap_detail bury_job
  reap_run now r run_id run db =
      if is_final_lease_error run.status
      then require (run_in run_id run.status db.runs)
          (codes "locked final-attempt reap lost its run status")
          (bury_job now r (record db {
            runs =
                set_run_error now run_id (codes "FinalAttemptLeaseExpired") (reap_detail r)
                  run.status db.runs;
          }))
      else bury_job now r db

  unfoldable pub reap_pipeline : ℕ → JobRow → Db → Reaping
  unfolding reap_run
  reap_pipeline now r db = elim r.run_id [
    | none ↦ ok (some SettlementOutcome.fenced, db)
    | some run_id ↦ elim (find (is_run run_id) db.runs) [
      | none ↦ ok (some SettlementOutcome.fenced, db)
      | some run ↦ reap_run now r run_id run db
    ]
  ]

  unfoldable pub reap_row : ℕ → JobRow → ℕ → Db → Reaping
  unfolding same_kind bury_job reap_delivery reap_pipeline reaper_job
  reap_row now r token db =
      if same_kind r.kind ingest
      then (if is_some r.run_id then ok (some SettlementOutcome.fenced, db) else bury_job now r db)
      else if same_kind r.kind send_outbound
      then reap_delivery now r (reaper_job token r) db
      else reap_pipeline now r db

  unfoldable pub reap_expired_final_attempt : ℕ → List ℕ → Db → Reaping
  unfolding select_final_lease reap_row
  reap_expired_final_attempt now locked db = elim (select_final_lease now locked db.jobs) [
    | none ↦ ok (none, db)
    | some r ↦ elim r.lease_token [
      | none ↦ err (runtime_error (codes "badly formed hexadecimal UUID string"))
      | some token ↦ reap_row now r token db
    ]
  ]
