-- ===== src/Drain/Forgotten.antt =====
-- app/queue/drain.py::_lease_is_settled against app/db/repo/job_settlement.py::settle_pipeline_job:
-- when a worker forgets a token that still holds its job.
use payroll_agent.Prelude.{
  ℕ, ◌≡◌, ◌≢◌, refl, sym, ap, ◌∙◌, inl, inr, Text, list_eq, nat_eq, true, false, ltb, some, ok,
  Bool-cases, ==-self,
}
use mathlib.Core.Path.{subst}
use payroll_agent.Outcome.{PipelineOutcome, retryable, terminal, PipelineResult}
use payroll_agent.Jobs.{Job, JobKind, JobRow, ingest, send_outbound}
use payroll_agent.Runs.{extracting}
use payroll_agent.Store.{Db, SettlementOutcome}
use payroll_agent.Settlement.{
  kind_value, locked_job, has_lease, run_in, same_kind, same_id, settle_retry, settle_failed,
  settle_run_job, settle_locked, settle_pipeline_job,
}
use payroll_agent.Settlement.Cases.{locked_job-has_lease}
use payroll_agent.Drain.{lease_is_settled}

module _ (show_number : ℕ → Text) (now due : ℕ) (job : Job) (result : PipelineResult) (db : Db)
    (r : JobRow) (run_id : ℕ) (lost : run_in run_id extracting db.runs ≡ false) where
  run_job-fenced :
      (o : PipelineOutcome)
      → result.outcome ≡ o
      → o ≢ PipelineOutcome.ok
      → settle_run_job show_number now due job result r run_id db
        ≡ ok (SettlementOutcome.fenced, db)
  unfolding settle_run_job settle_retry settle_failed
  run_job-fenced PipelineOutcome.ok q ne = absurd (ne refl)
  run_job-fenced terminal q ne = rw (q, settle_run_job) (rw lost refl)
  run_job-fenced retryable q ne = elim (Bool-cases (ltb r.attempts r.max_attempts)) [
    | inl t ↦ rw (q, settle_run_job) (rw (t, lost) refl)
    | inr f ↦ rw (q, settle_run_job) (rw (f, lost) refl)
  ]

same_kind_refl : (k : JobKind) → same_kind k k ≡ true
unfolding same_kind
same_kind_refl k = ==-self (kind_value k)

module _ (show_number : ℕ → Text) (now due : ℕ) (job : Job) (result : PipelineResult) (db : Db)
    (r : JobRow) (run_id : ℕ) (k : r.kind ≡ job.kind) (i : same_kind job.kind ingest ≡ false)
    (own : r.run_id ≡ some run_id) (same : job.run_id ≡ some run_id) where
  kind_held : same_kind r.kind job.kind ≡ true
  kind_held = subst (λ (c : JobKind). same_kind r.kind c ≡ true) k (same_kind_refl r.kind)

  not_ingest : same_kind r.kind ingest ≡ false
  not_ingest = subst (λ (c : JobKind). same_kind c ingest ≡ false) (sym k) i

  id_held : same_id (some run_id) job.run_id ≡ true
  unfolding same_id
  id_held = ap (same_id (some run_id)) same ∙ ==-self run_id

  locked-fenced :
      result.outcome ≢ PipelineOutcome.ok
      → run_in run_id extracting db.runs ≡ false
      → settle_locked show_number now due job result r db ≡ ok (SettlementOutcome.fenced, db)
  unfolding settle_locked
  locked-fenced ne lost =
      rw (kind_held, not_ingest, own, settle_locked)
        (rw id_held
          (run_job-fenced show_number now due job result db r run_id lost result.outcome refl ne))

-- A worker whose token holds a job other than an ingest or a delivery, and whose result is not a
-- success, is answered `fenced` with every table unchanged when the run has left `extracting`: the
-- token still holds the row, and the worker forgets it all the same.
pub fenced_forgets :
    (show_number : ℕ → Text) (now due : ℕ) (job : Job) (result : PipelineResult) (db : Db)
    (r : JobRow) (run_id : ℕ)
    → locked_job job db.jobs ≡ some r
    → r.kind ≡ job.kind
    → same_kind job.kind ingest ≡ false
    → same_kind job.kind send_outbound ≡ false
    → r.run_id ≡ some run_id
    → job.run_id ≡ some run_id
    → result.outcome ≢ PipelineOutcome.ok
    → run_in run_id extracting db.runs ≡ false
    → (settle_pipeline_job show_number now due job result db ≡ ok (SettlementOutcome.fenced, db))
      × (lease_is_settled job.kind SettlementOutcome.fenced ≡ true)
      × (has_lease job db ≡ true)
unfolding settle_pipeline_job settle_locked lease_is_settled
fenced_forgets show_number now due job result db r run_id e k i s own same ne lost = (
  rw (e, settle_pipeline_job)
      (locked-fenced show_number now due job result db r run_id k i own same ne lost),
  rw s refl,
  locked_job-has_lease job db r e,
)
