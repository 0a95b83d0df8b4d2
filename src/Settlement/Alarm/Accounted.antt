-- ===== src/Settlement/Alarm/Accounted.antt =====
-- app/db/repo/job_settlement.py: a settlement accounts for the error that it writes.
use payroll_agent.Prelude.{
  ℕ, ◌≡◌, ◌⊎◌, refl, sym, inl, inr, Text, list_eq, nat_eq, Bool, true, false, some, In, any, ok,
  err, Bool-cases, any-In, any-elim, In-map, map-In, if◌then◌else◌, arith, ==-self, ==→eq,
}
use mathlib.Core.Path.{subst}
use payroll_agent.Outcome.{PipelineResult}
use payroll_agent.Jobs.{Job, JobState, JobRow, Jobs, fenced, is_leased, update_rows}
use payroll_agent.Runs.{extracting, received, RunRow, Runs, in_status, move_status, update_runs}
use payroll_agent.Store.{Db, Settled}
use payroll_agent.Settlement.{
  set_leased, rewind_run, set_run_error, error_row, settle_row, settle_pipeline_job,
}
use payroll_agent.Settlement.Cases.{locked_job-In, settle_pipeline_job-cases}
use payroll_agent.Settlement.Alarm.{is_settled, accounts, is_unaccounted}

-- A run that the alarm reports after was reported before.
abbrev pub NoAlarm : Db → Db → Type 0
NoAlarm db after =
    (x : RunRow)
    → In x after.runs
    → is_unaccounted after x ≡ true
    → In x db.runs × (is_unaccounted db x ≡ true)

settled_unleased : (s : JobState) → is_settled s ≡ true → is_leased s ≡ false
unfolding is_settled is_leased
settled_unleased JobState.pending h = cc
settled_unleased JobState.leased h = cc
settled_unleased JobState.done h = refl
settled_unleased JobState.dead h = refl

-- A row that accounts for an error has no lease, so that no settlement touches it.
accounts-fenced : (x : RunRow) (i t : ℕ) (j : JobRow) → accounts x j ≡ true → fenced i t j ≡ false
unfolding accounts fenced
accounts-fenced x i t j h = ground (arith, settled_unleased j.state, h)

update_rows-kept :
    (test : JobRow → Bool) (set : JobRow → JobRow) (j : JobRow) (db : Jobs)
    → In j db
    → test j ≡ false
    → In j (update_rows test set db)
unfolding update_rows
update_rows-kept test set j db m f = rw f at (In-map (λ r. if test r then set r else r) j db m)

set_leased-accounts :
    (job : Job) (set : JobRow → JobRow) (db : Db) (x : RunRow)
    → any (accounts x) db.jobs ≡ true
    → any (accounts x) (set_leased job set db).jobs ≡ true
unfolding set_leased
set_leased-accounts job set db x h =
    let (j, m, t) = any-elim (accounts x) db.jobs h in
    any-In (accounts x) j _
      (update_rows-kept (fenced job.id job.lease_token) set j db.jobs m
        (accounts-fenced x job.id job.lease_token j t))
      t

-- Where the jobs keep accounting, an unreported run stays unreported.
unaccounted_before :
    (db after : Db) (x : RunRow)
    → (any (accounts x) db.jobs ≡ true → any (accounts x) after.jobs ≡ true)
    → is_unaccounted after x ≡ true
    → is_unaccounted db x ≡ true
unfolding is_unaccounted
unaccounted_before db after x kept h = ground (arith, h, kept)

update_runs-In :
    (test : RunRow → Bool) (set : RunRow → RunRow) (x : RunRow) (db : Runs)
    → In x (update_runs test set db)
    → (r : RunRow) × In r db × (((test r ≡ true) × (x ≡ set r)) ⊎ ((test r ≡ false) × (x ≡ r)))
unfolding update_runs
update_runs-In test set x db m =
    let (r, k, q) = map-In (λ r. if test r then set r else r) x db m in
    elim (Bool-cases (test r)) [
      | inl t ↦ (r, k, inl (t, rw t at q))
      | inr f ↦ (r, k, inr (f, rw f at q))
    ]

update_rows-hit :
    (test : JobRow → Bool) (set : JobRow → JobRow) (j : JobRow) (db : Jobs)
    → In j db
    → test j ≡ true
    → In (set j) (update_rows test set db)
unfolding update_rows
update_rows-hit test set j db m t = rw t at (In-map (λ r. if test r then set r else r) j db m)

jobs_only : (job : Job) (set : JobRow → JobRow) (db : Db) → NoAlarm db (set_leased job set db)
unfolding set_leased
jobs_only job set db x m h =
    (m, unaccounted_before db (set_leased job set db) x (set_leased-accounts job set db x) h)

same_tables : (db : Db) → NoAlarm db db
same_tables db x m h = (m, h)

-- A run that left the status `extracting` for `received` is no error.
rewound_no_error :
    (db : Db) (now : ℕ) (r : RunRow) → is_unaccounted db (move_status now received r) ≡ false
unfolding is_unaccounted move_status
rewound_no_error db now r = refl

rewind-NoAlarm :
    (job : Job) (set : JobRow → JobRow) (now run_id : ℕ) (db : Db)
    → NoAlarm db (set_leased job set (record db { runs = rewind_run now run_id db.runs }))
unfolding rewind_run set_leased
rewind-NoAlarm job set now run_id db x m h =
    let after = set_leased job set (record db { runs = rewind_run now run_id db.runs }) in
    let (r, k, c) =
      update_runs-In (in_status run_id extracting) (move_status now received) x db.runs m in
    elim c [
      | inl (t, q) ↦
          cc (subst (λ y. is_unaccounted after y ≡ true) q h, rewound_no_error after now r)
      | inr (f, q) ↦ (
        subst (λ y. In y db.runs) (sym q) k,
        unaccounted_before db after x (set_leased-accounts job set db x) h,
      )
    ]

own_settlement :
    (now run_id : ℕ) (reason detail code : Text) (state : JobState) (r : RunRow) (j : JobRow)
    → in_status run_id extracting r ≡ true
    → j.run_id ≡ some run_id
    → is_settled state ≡ true
    → accounts (error_row now reason detail r) (settle_row now state code j) ≡ true
unfolding accounts error_row settle_row in_status
own_settlement now run_id reason detail code state r j t e s =
    let q : r.id ≡ run_id = ==→eq r.id run_id (ground (arith, t)) in
    rw (e, s, q, ==-self run_id) (==-self now)

accounted_reported :
    (db : Db) (x : RunRow) → any (accounts x) db.jobs ≡ true → is_unaccounted db x ≡ false
unfolding is_unaccounted
accounted_reported db x h = ground (arith, h)

failed-NoAlarm :
    (job : Job) (now run_id : ℕ) (reason detail code : Text) (state : JobState) (db : Db)
    (j : JobRow)
    → In j db.jobs
    → fenced job.id job.lease_token j ≡ true
    → j.run_id ≡ some run_id
    → is_settled state ≡ true
    → NoAlarm db (
        set_leased job
          (settle_row now state code)
          (record db { runs = set_run_error now run_id reason detail extracting db.runs }))
unfolding set_run_error set_leased
failed-NoAlarm job now run_id reason detail code state db j mj tj e s x m h =
    let after =
      set_leased job (settle_row now state code)
        (record db { runs = set_run_error now run_id reason detail extracting db.runs }) in
    let (r, k, c) =
      update_runs-In (in_status run_id extracting) (error_row now reason detail) x db.runs m in
    elim c [
      | inl (t, q) ↦
          let hit =
            update_rows-hit (fenced job.id job.lease_token) (settle_row now state code) j db.jobs mj
              tj in
          let seen =
            any-In (accounts (error_row now reason detail r)) (settle_row now state code j) _ hit
              (own_settlement now run_id reason detail code state r j t e s) in
          cc (
            subst (λ y. is_unaccounted after y ≡ true) q h,
            accounted_reported after (error_row now reason detail r) seen,
          )
      | inr (f, q) ↦ (
        subst (λ y. In y db.runs) (sym q) k,
        unaccounted_before db after x (set_leased-accounts job (settle_row now state code) db x) h,
      )
    ]

-- The settlement returns, and leaves no more for the alarm.
abbrev pub Quiet : Db → Settled → Type 0
Quiet db (err e) = ⊥
Quiet db (ok (o, after)) = NoAlarm db after

-- A settlement never makes the alarm report a run: a run in `error` that no done or dead job of the
-- same moment accounts for after the settlement was such a run before it. An error that the
-- settlement writes is accounted for by the job that it settles.
pub settle_pipeline_job-Quiet :
    (show_number : ℕ → Text) (now due : ℕ) (job : Job) (result : PipelineResult) (db : Db)
    → Quiet db (settle_pipeline_job show_number now due job result db)
settle_pipeline_job-Quiet show_number now due job result db =
    settle_pipeline_job-cases show_number now due job result db (Quiet db) (same_tables db)
      (jobs_only job _ db) (λ j e run_id i o l. rewind-NoAlarm job _ now run_id db)
      (λ j e run_id i reason detail state o s ne.
        let (m, t) = locked_job-In job db j e in
        failed-NoAlarm job now run_id reason detail _ state db j m t i s)
      (λ state o free ne. jobs_only job _ db)
