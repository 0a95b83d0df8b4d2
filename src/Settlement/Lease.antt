-- ===== src/Settlement/Lease.antt =====
-- app/db/repo/job_settlement.py::settle_pipeline_job: what becomes of the lease.
use payroll_agent.Prelude.{
  ℕ, ◌≡◌, ◌≢◌, ◌⊎◌, ◌∙◌, refl, sym, inl, inr, Text, list_eq, nat_eq, Bool, true, false, none,
  is_some, ok, err, All-intro, arith,
}
use mathlib.Core.Path.{subst}
use payroll_agent.Outcome.{PipelineResult, diagnostic_code}
use payroll_agent.Jobs.{Job, JobState, JobRow, Jobs, fenced, complete, is_leased, update_rows}
use payroll_agent.Jobs.Rows.{row_id, row_key, update_rows-In, find-none}
use payroll_agent.Jobs.Valid.{IsValid, update-IsValid}
use payroll_agent.Runs.{extracting}
use payroll_agent.Store.{Db, SettlementOutcome, Settled}
use payroll_agent.Settlement.{
  locked_job, set_leased, settle_row, retry_row, ingest_row, settle_pipeline_job, rewind_run,
  set_run_error,
}
use payroll_agent.Settlement.Alarm.{is_settled}
use payroll_agent.Settlement.Cases.{settle_pipeline_job-cases}
use payroll_agent.Handoffs.Active.{OneActive}

-- A statement on a row that ends its lease, and leaves its identity and its attempts.
pub record IsRelease (set : JobRow → JobRow) : Type 0 where
  pub own_id : (r : JobRow) → row_id (set r) ≡ row_id r
  pub own_key : (r : JobRow) → row_key (set r) ≡ row_key r
  pub idle : (r : JobRow) → is_leased (set r).state ≡ false
  pub no_token : (r : JobRow) → is_some (set r).lease_token ≡ false
  pub no_deadline : (r : JobRow) → is_some (set r).leased_until ≡ false
  pub same_attempts : (r : JobRow) → (set r).attempts ≡ r.attempts
  pub same_ceiling : (r : JobRow) → (set r).max_attempts ≡ r.max_attempts

pub IsRelease-IsValid :
    (test : JobRow → Bool) (set : JobRow → JobRow) (jobs : Jobs)
    → IsRelease set
    → IsValid jobs
    → IsValid (update_rows test set jobs)
IsRelease-IsValid test set jobs s v =
    update-IsValid test set jobs s.own_id s.own_key
      (λ r m t c. record {
        token_when_leased = s.no_token r ∙ sym (s.idle r);
        deadline_when_leased = s.no_deadline r ∙ sym (s.idle r);
        bounded = omega (arith, c.bounded, s.same_attempts r, s.same_ceiling r);
      })
      v

IsRelease-fenced :
    (set : JobRow → JobRow) (i t : ℕ) (r : JobRow) → IsRelease set → fenced i t (set r) ≡ false
unfolding fenced
IsRelease-fenced set i t r s = ground (arith, s.idle r)

set_leased-free :
    (job : Job) (set : JobRow → JobRow) (db : Db)
    → IsRelease set
    → locked_job job (set_leased job set db).jobs ≡ none
unfolding locked_job set_leased
set_leased-free job set db s = find-none (fenced job.id job.lease_token) _ (
    All-intro (λ x. fenced job.id job.lease_token x ≡ false) _
      (λ x m.
        let (r, k, c) = update_rows-In (fenced job.id job.lease_token) set x db.jobs m in
        elim c [
          | inl (t, q) ↦ rw q (IsRelease-fenced set job.id job.lease_token r s)
          | inr (f, q) ↦ rw q f
        ]))

pub settle_row-IsRelease :
    (now : ℕ) (state : JobState) (detail : Text)
    → is_leased state ≡ false
    → IsRelease (settle_row now state detail)
unfolding settle_row
settle_row-IsRelease now state detail f = record {
  own_id = λ r. refl;
  own_key = λ r. refl;
  idle = λ r. f;
  no_token = λ r. refl;
  no_deadline = λ r. refl;
  same_attempts = λ r. refl;
  same_ceiling = λ r. refl;
}

pub retry_row-IsRelease : (now due : ℕ) (detail : Text) → IsRelease (retry_row now due detail)
unfolding retry_row is_leased
retry_row-IsRelease now due detail = record {
  own_id = λ r. refl;
  own_key = λ r. refl;
  idle = λ r. refl;
  no_token = λ r. refl;
  no_deadline = λ r. refl;
  same_attempts = λ r. refl;
  same_ceiling = λ r. refl;
}

ingest_row-IsRelease :
    (now due : ℕ) (state : JobState) (result : PipelineResult)
    → is_leased state ≡ false
    → IsRelease (ingest_row now due state result)
unfolding ingest_row
ingest_row-IsRelease now due state result f = record {
  own_id = λ r. refl;
  own_key = λ r. refl;
  idle = λ r. f;
  no_token = λ r. refl;
  no_deadline = λ r. refl;
  same_attempts = λ r. refl;
  same_ceiling = λ r. refl;
}

pub complete-IsRelease : (now : ℕ) → IsRelease (complete now)
unfolding complete is_leased
complete-IsRelease now = record {
  own_id = λ r. refl;
  own_key = λ r. refl;
  idle = λ r. refl;
  no_token = λ r. refl;
  no_deadline = λ r. refl;
  same_attempts = λ r. refl;
  same_ceiling = λ r. refl;
}

-- What every transaction keeps: the tables of jobs and of handoffs stay well formed.
abbrev pub Kept : Db → Db → Type 0
Kept db after =
    (IsValid db.jobs → IsValid after.jobs) × (OneActive db.handoffs → OneActive after.handoffs)

-- The worker's token holds the job no longer.
abbrev pub Ended : Job → Db → Db → Type 0
Ended job db after = (locked_job job after.jobs ≡ none) × Kept db after

pub set_leased-Ended :
    (job : Job) (set : JobRow → JobRow) (db before : Db)
    → IsRelease set
    → before.jobs ≡ db.jobs
    → (OneActive db.handoffs → OneActive before.handoffs)
    → Ended job db (set_leased job set before)
unfolding set_leased
set_leased-Ended job set db before s jobs one = (
  set_leased-free job set before s,
  (
    λ v.
        IsRelease-IsValid (fenced job.id job.lease_token) set before.jobs s
          (subst IsValid (sym jobs) v),
    one,
  ),
)

-- The settlement changed nothing and says that the fence refused it, or it freed the lease.
abbrev pub Released : Job → Db → Settled → Type 0
Released job db (err e) = ⊥
Released job db (ok (o, after)) =
    ((o ≡ SettlementOutcome.fenced) × (after ≡ db))
    ⊎ ((o ≢ SettlementOutcome.fenced) × Ended job db after)

is_settled-is_leased : (s : JobState) → is_settled s ≡ true → is_leased s ≡ false
unfolding is_settled is_leased
is_settled-is_leased JobState.pending t = refl
is_settled-is_leased JobState.leased t = cc t
is_settled-is_leased JobState.done t = refl
is_settled-is_leased JobState.dead t = refl

freed :
    (job : Job) (db : Db) (o : SettlementOutcome) (set : JobRow → JobRow) (before : Db)
    → o ≢ SettlementOutcome.fenced
    → IsRelease set
    → before.jobs ≡ db.jobs
    → before.handoffs ≡ db.handoffs
    → Released job db (ok (o, set_leased job set before))
freed job db o set before ne s jobs same =
    inr (ne, set_leased-Ended job set db before s jobs (λ one. subst OneActive (sym same) one))

-- The settlement of a leased job never raises. It either answers `fenced` and leaves every table as
-- it is, or it answers something else, the worker's token no longer holds the job, and the invariant
-- of the table of jobs is kept.
pub settle_pipeline_job-Released :
    (show_number : ℕ → Text) (now due : ℕ) (job : Job) (result : PipelineResult) (db : Db)
    → Released job db (settle_pipeline_job show_number now due job result db)
settle_pipeline_job-Released show_number now due job result db =
    settle_pipeline_job-cases show_number now due job result db (Released job db) (inl (refl, refl))
      (freed job db SettlementOutcome.done _ db (λ q. cc q) (complete-IsRelease now) refl refl)
      (λ j e run_id i o l.
        freed job db SettlementOutcome.retried _
          (record db { runs = rewind_run now run_id db.runs }) (λ q. cc q)
          (retry_row-IsRelease now due (diagnostic_code result)) refl refl)
      (λ j e run_id i reason detail state o s ne.
        freed job db o _
          (record db { runs = set_run_error now run_id reason detail extracting db.runs }) ne
          (settle_row-IsRelease now state (diagnostic_code result) (is_settled-is_leased state s))
          refl refl)
      (λ state o free ne.
        freed job db o _ db ne (ingest_row-IsRelease now due state result free) refl refl)
