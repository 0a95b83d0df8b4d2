-- ===== src/Jobs/Tests.antt =====
-- Runs of the queue of app/db/repo/jobs.py.
use payroll_agent.Prelude.{
  ℕ, ◌≡◌, ◌≢◌, ◌↔◌, ◌≤◌, ◌<◌, refl, inl, inr, Text, codes, nat_eq, list_eq, list_beq, Bool, true,
  false, Option, none, some, List, [], ◌∷◌, In, All, Result, ok, arith,
}
use payroll_agent.Decimal.{Decimal, dec, lt_dec}
use payroll_agent.Jobs.{
  Job, JobRow, Jobs, run_pipeline, pending, leased, claimable, claim_job, complete_job, fail_job,
  release, release_leases, count_open_jobs,
}
use payroll_agent.Jobs.Enqueue.{Request, finite, check_request, enqueue_job}
use payroll_agent.Jobs.Valid.{Reachable, Step, Reachable-IsValid}
use payroll_agent.Jobs.Claim.{claim_job_exclusive}
use payroll_agent.Jobs.Fence.{claim_job-fences, release-claimable_iff}
use payroll_agent.Jobs.Progress.{Used, claim_job-total_left}
use payroll_agent.Samples.{show_digit}

abbrev no_delay : Decimal → ℕ
no_delay d = 0

abbrev request : Request
request = record {
  kind = run_pipeline;
  dedup_key = codes "run:7";
  run_id = some 7;
  email_id = none;
  operator_resolution_id = none;
  event_id = none;
  business_id = none;
  max_attempts = some 2;
  available_in_seconds = finite (dec 0 0);
  safe_last_error = some (codes "load:unclassified");
}

abbrev row : JobRow
row = record {
  id = 1;
  kind = run_pipeline;
  dedup_key = codes "run:7";
  run_id = some 7;
  email_id = none;
  operator_resolution_id = none;
  event_id = none;
  business_id = none;
  priority = 100;
  state = pending;
  attempts = 0;
  max_attempts = 2;
  available_at = 100;
  lease_token = none;
  leased_until = none;
  last_error = some (codes "load:unclassified");
  created_at = 100;
  updated_at = 100;
}

abbrev table : Jobs
table = row ∷ []

-- The job that a claim at time 101 returns, with token 9 and a lease of 50.
abbrev job : Job
job = record {
  id = 1;
  kind = run_pipeline;
  run_id = some 7;
  email_id = none;
  operator_resolution_id = none;
  event_id = none;
  attempts = 1;
  max_attempts = 2;
  lease_token = 9;
}

accepted : check_request show_digit 5 request ≡ ok 2
unfolding check_request lt_dec payroll_agent.Prelude.Int.◌*ℤ◌ list_beq
accepted = refl

enqueued_row : enqueue_job show_digit no_delay 5 100 1 request [] ≡ ok (some 1, table)
unfolding enqueue_job lt_dec payroll_agent.Prelude.Int.◌*ℤ◌ list_beq
enqueued_row = refl

claimed_job : (claim_job 101 [] 9 50 table).0 ≡ some job
unfolding claim_job
claimed_job = refl

-- A job that is claimed twice, the second time after the lease ran out, and is then released by a
-- shutdown is pending with both attempts spent.
abbrev final_attempt : Jobs
final_attempt = (claim_job 152 [] 10 50 (claim_job 101 [] 9 50 table).1).1

abbrev stranded : Jobs
stranded = (release_leases 153 (10 ∷ []) final_attempt).1

stranded_open : count_open_jobs stranded ≡ 1
unfolding count_open_jobs release_leases claim_job
stranded_open = refl

stranded_unclaimed : (claim_job 1000 [] 11 50 stranded).0 ≡ none
unfolding claim_job release_leases
stranded_unclaimed = refl

reached : Reachable show_digit no_delay 5 table
reached =
    Reachable.then_step Reachable.empty
      (Step.enqueued 100 1 request (some 1) table enqueued_row (λ m. absurd m))

claim_job-total_left_example : Used table (claim_job 101 [] 9 50 table)
claim_job-total_left_example =
    claim_job-total_left 101 [] 9 50 table (Reachable-IsValid show_digit no_delay 5 reached)

-- A second claim at time 120 finds nothing; another row would be another job.
abbrev two_rows : Jobs
two_rows = row ∷ record row { id = 2; dedup_key = codes "run:8" } ∷ []

first_of_two : (claim_job 101 [] 9 50 two_rows).0 ≡ some job
unfolding claim_job
first_of_two = refl

second_of_two :
    (claim_job 120 [] 10 50 (claim_job 101 [] 9 50 two_rows).1).0
    ≡ some (record job { id = 2; lease_token = 10 })
unfolding claim_job
second_of_two = refl

claim_job_exclusive_example : ◌≢◌ {A = ℕ} 2 1
claim_job_exclusive_example =
    claim_job_exclusive 101 [] 9 50 two_rows job first_of_two 120 [] 10 50
      (record job { id = 2; lease_token = 10 }) (omega arith) second_of_two

claim_job-fences_example :
    let after = (claim_job 101 [] 9 50 table).1 in
    (complete_job 130 1 8 after ≡ (false, after))
    × (fail_job 130 1 8 30 (codes "late") after ≡ (none, after))
claim_job-fences_example =
    claim_job-fences 101 [] 9 50 table job claimed_job 130 8 30 (codes "late") (omega arith)

-- A row in its last attempt.
abbrev last_row : JobRow
last_row = record row {
  state = leased;
  attempts = 2;
  lease_token = some 10;
  leased_until = some 202;
}

release-claimable_iff_example :
    (claimable 1000 (release 153 last_row) ≡ true) ↔ ((2 < 2) × (153 ≤ 1000))
release-claimable_iff_example = release-claimable_iff 153 1000 last_row
