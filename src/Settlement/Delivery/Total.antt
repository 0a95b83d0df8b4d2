-- ===== src/Settlement/Delivery/Total.antt =====
-- app/db/repo/job_settlement.py::settle_outbound_delivery_job: it returns, it gives the lease up,
-- and only the owner of the provider handoff marks a message as sent.
use payroll_agent.Prelude.{
  ℕ, ◌≡◌, ◌⊎◌, refl, sym, ◌∙◌, inl, inr, Text, codes, list_eq, nat_eq, true, false, ◌&&◌, none,
  some, any, arith, Bool-cases, Option-cases, is_none, ok, err, ◌>>=◌,
}
use mathlib.Core.Path.{subst}
use payroll_agent.Outcome.{
  PipelineOutcome, retryable, terminal, delivery_record_only, PipelineResult, diagnostic_code,
}
use payroll_agent.Jobs.{is_leased, Job, JobRow, JobState, fenced, complete}
use payroll_agent.Runs.{RunStatus}
use payroll_agent.Store.{Db, Handoff, SettlementOutcome, Settled}
use payroll_agent.Settlement.{
  locked_job, same_id, has_lease, set_leased, settle_row, retry_row, run_in,
}
use payroll_agent.Settlement.Cases.{locked_job-has_lease}
use payroll_agent.Settlement.Lease.{
  Ended, set_leased-Ended, settle_row-IsRelease, retry_row-IsRelease, complete-IsRelease,
}
use payroll_agent.Handoffs.Active.{OneActive, release_exact_handoff-OneActive}
use payroll_agent.Handoffs.{
  authorization, delivery_ids, active_handoff, release_exact_handoff, update_handoffs,
}
use payroll_agent.Settlement.Outbound.{
  is_reason, delivery_failure_category, DeliveryContext, delivery_context, retire_invalid,
  is_reserved_message, complete_run, mark_sent, append_attempt, review_run,
}
use payroll_agent.Settlement.Delivery.{
  current_handoff, settle_delivery_review, settle_sent, settle_record_only, settle_success,
  settle_failure, settle_owned, settle_due, settle_ids, settle_outbound_delivery_job,
  pre_provider_expiry, next_attempt,
}
use payroll_agent.Settlement.Delivery.Context.{IsConsistent, delivery_context-IsConsistent}
use payroll_agent.Settlement.Delivery.Owned.{
  context-run_in, context-reserved, current-is_exact, complete_run-ok,
}

-- Who may mark a message as sent, over what the tables hold of the delivery that the job names: a
-- run that records only, or a success of the lease that owns the handoff.
abbrev pub Authority : Job → PipelineResult → Db → Type 0
Authority job result db =
    (run_id email_id : ℕ) × (job.run_id ≡ some run_id)
    × (job.email_id ≡ some email_id)
    × (x : DeliveryContext) × IsConsistent run_id email_id db x
    × (((is_reason result.reason delivery_record_only ≡ true) × (x.run.record_only ≡ true))
        ⊎ ((result.outcome ≡ PipelineOutcome.ok)
            × (h : Handoff) × (current_handoff job x db ≡ some h)))

-- A delivery job whose row agrees with its claim names the run and the message.
delivery_ids-job :
    (r : JobRow) (job : Job) (run_id email_id : ℕ)
    → delivery_ids r job ≡ some (run_id, email_id)
    → (job.run_id ≡ some run_id) × (job.email_id ≡ some email_id)
unfolding delivery_ids same_id
delivery_ids-job r job run_id email_id i = ground (arith, i)

abbrev pub Ends : Job → PipelineResult → Db → Settled → Type 0
Ends job result db (err e) = ⊥
Ends job result db (ok (o, after)) =
    ((o ≡ SettlementOutcome.lost_lease) × (after ≡ db) × (locked_job job db.jobs ≡ none))
    ⊎ (Ended job db after × ((after.messages ≡ db.messages) ⊎ Authority job result db))

has_lease-same :
    (job : Job) (db after : Db)
    → after.jobs ≡ db.jobs
    → has_lease job db ≡ true
    → has_lease job after ≡ true
unfolding has_lease
has_lease-same job db after q h =
    subst (λ j. any (fenced job.id job.lease_token) j ≡ true) (sym q) h

run_in-same :
    (run_id : ℕ) (s : RunStatus) (db after : Db)
    → after.runs ≡ db.runs
    → run_in run_id s db.runs ≡ true
    → run_in run_id s after.runs ≡ true
run_in-same run_id s db after q h = subst (λ r. run_in run_id s r ≡ true) (sym q) h

reserved-same :
    (x : DeliveryContext) (db after : Db)
    → after.messages ≡ db.messages
    → any (is_reserved_message x.run_id x.email_id) db.messages ≡ true
    → any (is_reserved_message x.run_id x.email_id) after.messages ≡ true
reserved-same x db after q h =
    subst (λ m. any (is_reserved_message x.run_id x.email_id) m ≡ true) (sym q) h

module _ (now : ℕ) (job : Job) (result : PipelineResult) (db : Db)
    (lease : has_lease job db ≡ true) where
  retire_invalid-Ends :
      (state : JobState)
      → is_leased state ≡ false
      → Ends job result db (retire_invalid now job state db)
  unfolding retire_invalid set_leased is_leased
  retire_invalid-Ends state idle = rw lease (
      inr (
        set_leased-Ended job _ db db
            (settle_row-IsRelease now state (codes "delivery:invalid_context") idle) refl
            (λ one. one),
        inl refl,
      ))

  module _ (run_id email_id : ℕ) (x : DeliveryContext) (context : IsConsistent run_id email_id db x)
      (of_run : job.run_id ≡ some run_id) (of_email : job.email_id ≡ some email_id) where
    review-Ends :
        (db' : Db)
        → db'.runs ≡ db.runs
        → db'.jobs ≡ db.jobs
        → db'.messages ≡ db.messages
        → (OneActive db.handoffs → OneActive db'.handoffs)
        → Ends job result db (settle_delivery_review now job result x db')
    unfolding settle_delivery_review set_leased review_run append_attempt
    review-Ends db' runs jobs messages one =
        let category = delivery_failure_category result.reason in
        let db'' =
          review_run now x.run_id x.expected x.message.purpose category
            (append_attempt x.snapshot.id (codes "needs_operator") category db') in
        let free = settle_row-IsRelease now JobState.done (diagnostic_code result) refl in
        rw
          (run_in-same x.run_id x.expected db db' runs
            (context-run_in run_id email_id db x context))
          (rw (has_lease-same job db db' jobs lease) (
            inr (
              set_leased-Ended job (settle_row now JobState.done (diagnostic_code result)) db db''
                  free jobs one,
              inl messages,
            )))

    settle_sent-Ends :
        (a b c : Text) (db' : Db)
        → db'.runs ≡ db.runs
        → db'.jobs ≡ db.jobs
        → db'.messages ≡ db.messages
        → (OneActive db.handoffs → OneActive db'.handoffs)
        → Authority job result db
        → Ends job result db (settle_sent now job x a b c db')
    unfolding settle_sent mark_sent
    settle_sent-Ends a b c db' runs jobs messages one auth =
        let (after, e, q, k) =
          complete_run-ok run_id email_id db x context now b (mark_sent x.run_id x.email_id db')
            runs in
        rw (reserved-same x db db' messages (context-reserved run_id email_id db x context)) (
          rw (e, ◌>>=◌)
            (rw (has_lease-same job db after (q ∙ jobs) lease) (
              inr (
                set_leased-Ended job (complete now) db after (complete-IsRelease now) (q ∙ jobs)
                    (λ before. subst OneActive (sym k) (one before)),
                inr auth,
              ))))

    settle_success-Ends :
        (h : Handoff)
        → current_handoff job x db ≡ some h
        → Authority job result db
        → Ends job result db (
            settle_success now job x
              (authorization h.id x.run_id x.email_id job x.message x.snapshot h.not_after)
              db)
    unfolding settle_success release_exact_handoff update_handoffs append_attempt
    settle_success-Ends h e auth =
        let a = authorization h.id x.run_id x.email_id job x.message x.snapshot h.not_after in
        let db' = (release_exact_handoff now (codes "finalized") a db).1 in
        rw (current-is_exact run_id email_id db x context job h e) (
          settle_sent-Ends (codes "locked delivery success lost its reservation")
            (codes "locked confirmation success lost its run state")
            (codes "locked delivery success lost its lease")
            (append_attempt x.snapshot.id (codes "sent") (codes "none") db') refl refl refl
            (release_exact_handoff-OneActive now (codes "finalized") a db) auth)

    settle_failure-Ends :
        (h : Handoff) (attempts : ℕ)
        → current_handoff job x db ≡ some h
        → Ends job result db (
            settle_failure now job result attempts x
              (authorization h.id x.run_id x.email_id job x.message x.snapshot h.not_after)
              db)
    unfolding settle_failure release_exact_handoff update_handoffs append_attempt
    settle_failure-Ends h attempts e =
        let a = authorization h.id x.run_id x.email_id job x.message x.snapshot h.not_after in
        let found = current-is_exact run_id email_id db x context job h e in
        elim (Option-cases (next_attempt now result attempts x)) [
          | inl n ↦
              let db' = (release_exact_handoff now (codes "delivery_review") a db).1 in
              rw (n, settle_failure)
                (rw found (
                  review-Ends db' refl refl refl
                    (release_exact_handoff-OneActive now (codes "delivery_review") a db)))
          | inr (due, n) ↦
              let code = diagnostic_code result in
              let db' =
                append_attempt x.snapshot.id (codes "retry_scheduled")
                  (delivery_failure_category result.reason)
                  (release_exact_handoff now (codes "retry_scheduled") a db).1 in
              rw (n, settle_failure)
                (rw found (
                  rw lease (
                    inr (
                      set_leased-Ended job (retry_row now due code) db db'
                          (retry_row-IsRelease now due code) refl
                          (release_exact_handoff-OneActive now (codes "retry_scheduled") a db),
                      inl refl,
                    ))))
        ]

    settle_owned-Ends :
        (h : Handoff) (attempts : ℕ) (o : PipelineOutcome)
        → current_handoff job x db ≡ some h
        → result.outcome ≡ o
        → Ends job result db (
            settle_owned o now job result attempts x
              (authorization h.id x.run_id x.email_id job x.message x.snapshot h.not_after)
              db)
    unfolding settle_owned
    settle_owned-Ends h attempts PipelineOutcome.ok e q =
        settle_success-Ends h e (run_id, email_id, of_run, of_email, x, context, inr (q, h, e))
    settle_owned-Ends h attempts retryable e q = settle_failure-Ends h attempts e
    settle_owned-Ends h attempts terminal e q = settle_failure-Ends h attempts e

    settle_record_only-Ends :
        is_reason result.reason delivery_record_only ≡ true
        → Ends job result db (settle_record_only now job x db)
    unfolding settle_record_only complete_run
    settle_record_only-Ends t = elim (Bool-cases x.run.record_only) [
      | inr f ↦ rw f (retire_invalid-Ends JobState.done refl)
      | inl r ↦ rw r (
          settle_sent-Ends (codes "locked record-only delivery lost its reservation")
            (codes "locked record-only confirmation lost its run state")
            (codes "locked record-only delivery lost its lease") db refl refl refl (λ one. one)
            (run_id, email_id, of_run, of_email, x, context, inl (t, r)))
    ]

    handed-Ends :
        (attempts : ℕ)
        → is_reason result.reason delivery_record_only ≡ false
        → (pre_provider_expiry now result x && is_none (active_handoff x.run_id db)) ≡ false
        → Ends job result db (settle_due now job result attempts x db)
    unfolding settle_due
    handed-Ends attempts f g = elim (Option-cases (current_handoff job x db)) [
      | inl n ↦ rw (f, g, n, settle_due) (retire_invalid-Ends JobState.done refl)
      | inr (h, e) ↦ rw (f, g, e, settle_due) (settle_owned-Ends h attempts result.outcome e refl)
    ]

    settle_due-Ends : (attempts : ℕ) → Ends job result db (settle_due now job result attempts x db)
    unfolding settle_due
    settle_due-Ends attempts = elim (Bool-cases (is_reason result.reason delivery_record_only)) [
      | inl t ↦ rw t (settle_record_only-Ends t)
      | inr f ↦
          elim (Bool-cases
            (pre_provider_expiry now result x && is_none (active_handoff x.run_id db))) [
              | inl t ↦ rw (f, t) (review-Ends db refl refl refl (λ one. one))
              | inr g ↦ handed-Ends attempts f g
            ]
    ]

  settle_ids-Ends :
      (attempts run_id email_id : ℕ)
      → job.run_id ≡ some run_id
      → job.email_id ≡ some email_id
      → Ends job result db (settle_ids now job result attempts run_id email_id db)
  unfolding settle_ids
  settle_ids-Ends attempts run_id email_id of_run of_email =
      elim (Option-cases (delivery_context run_id email_id db)) [
        | inl n ↦ rw (n, settle_ids) (retire_invalid-Ends JobState.done refl)
        | inr (x, e) ↦
            rw (e, settle_ids)
              (settle_due-Ends run_id email_id x
                (delivery_context-IsConsistent run_id email_id db x e) of_run of_email attempts)
      ]

-- The settlement of a delivery never raises (the load of the roster after a confirmation is taken to
-- succeed). It answers `lost_lease` and changes nothing when the worker's token holds no job;
-- otherwise the token holds the job no longer, and the invariants of the tables of jobs and handoffs
-- are kept. It marks a message as sent only when the message that the
-- job names is reserved and due in the tables, and its run there records only, or the result is a
-- success and the run's active provider handoff belongs to the very lease of the job.
pub settle_outbound_delivery_job-Ends :
    (now : ℕ) (job : Job) (result : PipelineResult) (db : Db)
    → Ends job result db (settle_outbound_delivery_job now job result db)
unfolding settle_outbound_delivery_job
settle_outbound_delivery_job-Ends now job result db = elim (Option-cases (locked_job job db.jobs)) [
  | inl e ↦ rw (e, settle_outbound_delivery_job) (inl (refl, refl, e))
  | inr (r, e) ↦
      let lease = locked_job-has_lease job db r e in
      elim (Option-cases (delivery_ids r job)) [
        | inl i ↦
            rw (e, settle_outbound_delivery_job)
              (rw (i, settle_outbound_delivery_job)
                (retire_invalid-Ends now job result db lease JobState.done refl))
        | inr ((run_id, email_id), i) ↦
            let (of_run, of_email) = delivery_ids-job r job run_id email_id i in
            rw (e, settle_outbound_delivery_job)
              (rw (i, settle_outbound_delivery_job)
                (settle_ids-Ends now job result db lease r.attempts run_id email_id of_run
                  of_email))
      ]
]
