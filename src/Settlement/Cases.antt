-- ===== src/Settlement/Cases.antt =====
-- app/db/repo/job_settlement.py::settle_pipeline_job: its branches, as a rule for what holds of the
-- result. A property of the five ways in which a settlement ends holds of each settlement.
use payroll_agent.Prelude.{
  ℕ, ◌≡◌, ◌≢◌, refl, inl, inr, Text, list_eq, nat_eq, Bool, true, false, ◌||◌, ltb, Option, none,
  some, In, is_some, ok, Bool-cases, Option-cases, find-elim, any-In,
}
use payroll_agent.Outcome.{PipelineOutcome, retryable, terminal, PipelineResult, diagnostic_code}
use payroll_agent.Jobs.{Job, ingest, JobState, JobRow, fenced, is_leased, complete}
use payroll_agent.Runs.{extracting}
use payroll_agent.Store.{Db, SettlementOutcome, Settled}
use payroll_agent.Settlement.{
  locked_job, has_lease, set_leased, run_in, rewind_run, set_run_error, settle_row, retry_row,
  ingest_target, ingest_row, settle_ingest_job, settle_failed, settle_retry, settle_run_job,
  settle_locked, settle_pipeline_job, same_kind, same_id,
}
use payroll_agent.Settlement.Alarm.{is_settled}

-- The row that the token fences has the lease.
pub locked_job-has_lease :
    (job : Job) (db : Db) (r : JobRow) → locked_job job db.jobs ≡ some r → has_lease job db ≡ true
unfolding locked_job has_lease
locked_job-has_lease job db r e =
    let (m, t) = find-elim (fenced job.id job.lease_token) r db.jobs e in
    any-In (fenced job.id job.lease_token) r db.jobs m t

pub locked_job-In :
    (job : Job) (db : Db) (r : JobRow)
    → locked_job job db.jobs ≡ some r
    → In r db.jobs × (fenced job.id job.lease_token r ≡ true)
unfolding locked_job
locked_job-In job db r e = find-elim (fenced job.id job.lease_token) r db.jobs e

ingest_target-settles :
    (o : PipelineOutcome) (left : Bool)
    → ((ingest_target o left).1 ≢ SettlementOutcome.fenced)
      × (is_leased (ingest_target o left).0 ≡ false)
unfolding ingest_target is_leased
ingest_target-settles PipelineOutcome.ok left = (λ q. cc q, refl)
ingest_target-settles terminal left = (λ q. cc q, refl)
ingest_target-settles retryable true = (λ q. cc q, refl)
ingest_target-settles retryable false = (λ q. cc q, refl)

module _ (show_number : ℕ → Text) (now due : ℕ) (job : Job) (result : PipelineResult) (db : Db)
    (P : Settled → Type 0) (refused : P (ok (SettlementOutcome.fenced, db)))
    (completed : P (ok (SettlementOutcome.done, set_leased job (complete now) db)))
    (rescheduled : (j : JobRow)
      → locked_job job db.jobs ≡ some j
      → (run_id : ℕ) → j.run_id ≡ some run_id
      → result.outcome ≡ retryable
      → ltb j.attempts j.max_attempts ≡ true
      → P (
          ok (
            SettlementOutcome.retried,
            set_leased job
                (retry_row now due (diagnostic_code result))
                (record db { runs = rewind_run now run_id db.runs }),
          )))
    (failed : (j : JobRow)
      → locked_job job db.jobs ≡ some j
      → (run_id : ℕ) → j.run_id ≡ some run_id
      → (reason detail : Text) (state : JobState) (o : SettlementOutcome) → is_settled state ≡ true
      → o ≢ SettlementOutcome.fenced
      → P (
          ok (
            o,
            set_leased job
                (settle_row now state (diagnostic_code result))
                (record db { runs = set_run_error now run_id reason detail extracting db.runs }),
          )))
    (ingested : (state : JobState) (o : SettlementOutcome)
      → is_leased state ≡ false
      → o ≢ SettlementOutcome.fenced
      → P (ok (o, set_leased job (ingest_row now due state result) db))) where
  settle_retry-cases :
      (j : JobRow)
      → locked_job job db.jobs ≡ some j
      → (run_id : ℕ) → j.run_id ≡ some run_id
      → result.outcome ≡ retryable
      → ltb j.attempts j.max_attempts ≡ true
      → P (settle_retry now due job result run_id db)
  unfolding settle_retry
  settle_retry-cases j e run_id i o l = elim (Bool-cases (run_in run_id extracting db.runs)) [
    | inl t ↦ rw (t, locked_job-has_lease job db j e) (rescheduled j e run_id i o l)
    | inr f ↦ rw f refused
  ]

  settle_failed-cases :
      (j : JobRow)
      → locked_job job db.jobs ≡ some j
      → (run_id : ℕ) → j.run_id ≡ some run_id
      → (reason detail : Text) (state : JobState) (o : SettlementOutcome) → is_settled state ≡ true
      → o ≢ SettlementOutcome.fenced
      → P (settle_failed now job result run_id reason detail state o db)
  unfolding settle_failed
  settle_failed-cases j e run_id i reason detail state o s ne =
      elim (Bool-cases (run_in run_id extracting db.runs)) [
        | inl t ↦
            rw (t, locked_job-has_lease job db j e) (failed j e run_id i reason detail state o s ne)
        | inr f ↦ rw f refused
      ]

  settle_ingest_job-cases :
      (j : JobRow) → locked_job job db.jobs ≡ some j → P (settle_ingest_job now due job result j db)
  unfolding settle_ingest_job
  settle_ingest_job-cases j e =
      let (state, o) = ingest_target result.outcome (ltb j.attempts j.max_attempts) in
      let (ne, free) = ingest_target-settles result.outcome (ltb j.attempts j.max_attempts) in
      rw (locked_job-has_lease job db j e) (ingested state o free ne)

  settle_run_job-cases :
      (j : JobRow)
      → locked_job job db.jobs ≡ some j
      → (run_id : ℕ) → j.run_id ≡ some run_id
      → (o : PipelineOutcome) → result.outcome ≡ o
      → P (settle_run_job show_number now due job result j run_id db)
  unfolding settle_run_job is_settled
  settle_run_job-cases j e run_id i PipelineOutcome.ok q =
      rw (q, settle_run_job) (rw (locked_job-has_lease job db j e) completed)
  settle_run_job-cases j e run_id i terminal q =
      rw (q, settle_run_job)
        (settle_failed-cases j e run_id i _ _ JobState.done SettlementOutcome.done refl (λ p. cc p))
  settle_run_job-cases j e run_id i retryable q =
      elim (Bool-cases (ltb j.attempts j.max_attempts)) [
        | inl t ↦ rw (q, settle_run_job) (rw t (settle_retry-cases j e run_id i q t))
        | inr f ↦
            rw (q, settle_run_job)
              (rw f (
                settle_failed-cases j e run_id i _ _ JobState.dead SettlementOutcome.dead refl
                  (λ p. cc p)))
      ]

  settle_by_run-cases :
      (j : JobRow)
      → locked_job job db.jobs ≡ some j
      → (run_id : Option ℕ) → j.run_id ≡ run_id
      → same_kind j.kind job.kind ≡ true
      → same_kind j.kind ingest ≡ false
      → P (settle_locked show_number now due job result j db)
  unfolding settle_locked
  settle_by_run-cases j e none i k n = rw (k, n, i, settle_locked) refused
  settle_by_run-cases j e (some run_id) i k n =
      elim (Bool-cases (same_id (some run_id) job.run_id)) [
        | inl t ↦
            rw (k, n, i, settle_locked)
              (rw t (settle_run_job-cases j e run_id i result.outcome refl))
        | inr f ↦ rw (k, n, i, settle_locked) (rw f refused)
      ]

  settle_locked-cases :
      (j : JobRow)
      → locked_job job db.jobs ≡ some j
      → P (settle_locked show_number now due job result j db)
  unfolding settle_locked
  settle_locked-cases j e = elim (Bool-cases (same_kind j.kind job.kind)) [
    | inr f ↦ rw f refused
    | inl t ↦ elim (Bool-cases (same_kind j.kind ingest)) [
      | inr f ↦ settle_by_run-cases j e j.run_id refl t f
      | inl i ↦ elim (Bool-cases (is_some j.run_id || is_some job.run_id)) [
        | inl y ↦ rw (t, i, y) refused
        | inr n ↦ rw (t, i, n) (settle_ingest_job-cases j e)
      ]
    ]
  ]

  pub settle_pipeline_job-cases : P (settle_pipeline_job show_number now due job result db)
  unfolding settle_pipeline_job
  settle_pipeline_job-cases = elim (Option-cases (locked_job job db.jobs)) [
    | inl e ↦ rw (e, settle_pipeline_job) refused
    | inr (j, e) ↦ rw (e, settle_pipeline_job) (settle_locked-cases j e)
  ]
