-- ===== src/Jobs/Fence.antt =====
-- app/db/repo/jobs.py::complete_job, fail_job and release_leases: the fence, and what a release
-- leaves behind.
use payroll_agent.Prelude.{
  ℕ, ◌≡◌, ◌≢◌, ◌↔◌, ◌≤◌, ◌<◌, sym, inl, inr, Text, nat_eq, true, false, Option, none, some, List,
  All, All-intro, arith, Option-cases, ne→==,
}
use mathlib.Core.Path.{subst}
use payroll_agent.Jobs.{
  Job, JobRow, Jobs, claimable, fenced, has_id, lease, returned_job, select_job, update_rows,
  claim_job, complete_job, fail_job, release,
}
use payroll_agent.Jobs.Rows.{update_rows-In, update_rows-none, any-none, find-none}

fenced_out :
    (now job_id token backoff : ℕ) (detail : Text) (db : Jobs)
    → All (λ r. fenced job_id token r ≡ false) db
    → (complete_job now job_id token db ≡ (false, db))
      × (fail_job now job_id token backoff detail db ≡ (none, db))
unfolding complete_job fail_job
fenced_out now job_id token backoff detail db h = (
  rw (any-none (fenced job_id token) db h, update_rows-none (fenced job_id token) _ db h),
  rw (find-none (fenced job_id token) db h, update_rows-none (fenced job_id token) _ db h),
)

leased-fenced :
    (now token lease_time job_id other : ℕ) (r : JobRow)
    → other ≢ token
    → fenced job_id other (lease now token lease_time r) ≡ false
unfolding fenced lease
leased-fenced now token lease_time job_id other r ne =
    let f = ne→== token other (λ q. ne (sym q)) in ground (arith, f)

other_id-fenced : (i other : ℕ) (r : JobRow) → has_id i r ≡ false → fenced i other r ≡ false
unfolding fenced
other_id-fenced i other r f = rw f

claimed-fenced :
    (now token lease_time i other : ℕ) (db : Jobs)
    → other ≢ token
    → All (λ x. fenced i other x ≡ false) (update_rows (has_id i) (lease now token lease_time) db)
claimed-fenced now token lease_time i other db ne =
    All-intro (λ x. fenced i other x ≡ false)
      (update_rows (has_id i) (lease now token lease_time) db)
      (λ x m.
        let (r, k, c) = update_rows-In (has_id i) (lease now token lease_time) x db m in
        elim c [
          | inl (t, q) ↦ rw q (leased-fenced now token lease_time i other r ne)
          | inr (f, q) ↦ subst (λ y. fenced i other y ≡ false) (sym q) (other_id-fenced i other r f)
        ])

own_id :
    (token : ℕ) (r : JobRow) (job : Job)
    → Path (Option Job) (some (returned_job token r)) (some job)
    → r.id ≡ job.id
unfolding returned_job
own_id token r job q = cc q

-- Once a claim has returned a job with a token, a completion or a failure of that job under any
-- other token (that of a worker that lost its lease) is refused and leaves the table as it is.
pub claim_job-fences :
    (now : ℕ) (locked : List ℕ) (token lease_time : ℕ) (db : Jobs) (job : Job)
    → (claim_job now locked token lease_time db).0 ≡ some job
    → (now' other backoff : ℕ) (detail : Text) → other ≢ token
    → let after = (claim_job now locked token lease_time db).1 in
      (complete_job now' job.id other after ≡ (false, after))
      × (fail_job now' job.id other backoff detail after ≡ (none, after))
unfolding claim_job
claim_job-fences now locked token lease_time db job h now' other backoff detail ne =
    elim (Option-cases (select_job now locked db)) [
      | inl e ↦ cc (rw (e, claim_job) at h)
      | inr (r, e) ↦
          let own : r.id ≡ job.id = own_id token r job (rw (e, claim_job) at h) in
          rw (e, claim_job)
            (fenced_out now' job.id other backoff detail
              (update_rows (has_id r.id) (lease now token lease_time) db)
              (subst
                (λ i.
                  All (λ x. fenced i other x ≡ false)
                    (update_rows (has_id r.id) (lease now token lease_time) db))
                own (claimed-fenced now token lease_time r.id other db ne)))
    ]

-- A lease that the shutdown releases can be claimed again, from that moment on, exactly when the
-- job has an attempt left. A job in its last attempt is put back to `pending` and no claim takes it
-- any more.
pub release-claimable_iff :
    (now now' : ℕ) (r : JobRow)
    → (claimable now' (release now r) ≡ true) ↔ ((r.attempts < r.max_attempts) × (now ≤ now'))
unfolding claimable release
release-claimable_iff now now' r = ground arith
