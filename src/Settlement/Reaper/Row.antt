-- ===== src/Settlement/Reaper/Row.antt =====
-- app/db/repo/job_settlement.py::reap_expired_final_attempt: what the reap of one row leaves.
use payroll_agent.Prelude.{
  ℕ, ◌≡◌, ◌≢◌, ◌⊎◌, refl, sym, ap, ◌∙◌, inl, inr, Text, codes, list_eq, nat_eq, Bool, true, false,
  none, some, In, any, any-In, find, find-elim, Bool-cases, Option-cases, arith, ==-self, is_some,
  ok, err, NoRepeat, map,
}
use mathlib.Core.Path.{subst}
use payroll_agent.Jobs.{
  JobRow, Jobs, JobState, fenced, is_leased, update_rows, ingest, send_outbound, returned_job,
}
use payroll_agent.Jobs.Rows.{row_id, update_rows-In, same_row}
use payroll_agent.Jobs.Valid.{IsValid}
use payroll_agent.Runs.{RunRow, is_run, in_status, status_value}
use payroll_agent.Store.{Db, SettlementOutcome}
use payroll_agent.Settlement.{has_lease, set_leased, settle_row, run_in, same_kind}
use payroll_agent.Handoffs.{authorization, release_exact_handoff, update_handoffs}
use payroll_agent.Settlement.Lease.{IsRelease, IsRelease-IsValid, settle_row-IsRelease, Kept}
use payroll_agent.Handoffs.Active.{OneActive, release_exact_handoff-OneActive}
use payroll_agent.Settlement.Outbound.{
  retire_invalid, review_run, append_attempt, DeliveryContext, delivery_context,
}
use payroll_agent.Settlement.Delivery.{current_handoff}
use payroll_agent.Settlement.Delivery.Context.{IsConsistent, delivery_context-IsConsistent}
use payroll_agent.Settlement.Delivery.Owned.{context-run_in, current-is_exact}
use payroll_agent.Settlement.Reaper.{
  Reaping, is_final_lease, is_expired_row, bury_row, bury_job, reap_invalid, reap_owned,
  reap_context, reap_ids, reap_delivery, reaper_job, reap_run, reap_pipeline, reap_row,
  is_final_lease_error,
}

abbrev pub IsBuried : ℕ → Jobs → Type 0
IsBuried job_id jobs = (x : JobRow) → In x jobs → x.id ≡ job_id → x.state ≡ JobState.dead

-- The job is dead, and the tables stay well formed.
abbrev pub Buried : JobRow → Db → Db → Type 0
Buried r db after = IsBuried r.id after.jobs × Kept db after

bury_row-IsRelease : (now : ℕ) → IsRelease (bury_row now)
unfolding bury_row is_leased
bury_row-IsRelease now = record {
  own_id = λ r. refl;
  own_key = λ r. refl;
  idle = λ r. refl;
  no_token = λ r. refl;
  no_deadline = λ r. refl;
  same_attempts = λ r. refl;
  same_ceiling = λ r. refl;
}

-- The reap of a row: `fenced` and no change, or the job is dead; no message changes.
abbrev pub RowEnds : JobRow → Db → Reaping → Type 0
RowEnds r db (err e) = ⊥
RowEnds r db (ok (none, after)) = ⊥
RowEnds r db (ok (some o, after)) =
    (after.messages ≡ db.messages)
    × (((o ≡ SettlementOutcome.fenced) × (after ≡ db))
        ⊎ ((o ≢ SettlementOutcome.fenced) × Buried r db after))

updated-IsBuried :
    (test : JobRow → Bool) (set : JobRow → JobRow) (jobs : Jobs) (r : JobRow)
    → NoRepeat (map row_id jobs)
    → In r jobs
    → test r ≡ true
    → ((y : JobRow) → (set y).state ≡ JobState.dead)
    → IsBuried r.id (update_rows test set jobs)
updated-IsBuried test set jobs r unique m t dead x k same =
    let (y, n, c) = update_rows-In test set x jobs k in
    elim c [
      | inl (u, q) ↦ ap (λ (j : JobRow). j.state) q ∙ dead y
      | inr (f, q) ↦
          let own : y ≡ r = same_row y r jobs unique n m (sym (ap row_id q) ∙ same) in
          let g : test r ≡ false = subst (λ j. test j ≡ false) own f in cc
    ]

module _ (now : ℕ) (db : Db) (valid : IsValid db.jobs) (r : JobRow) (token : ℕ) (m : In r db.jobs)
    (final : is_final_lease now r ≡ true) (held : r.lease_token ≡ some token) where
  row-expired : is_expired_row now r.id r ≡ true
  unfolding is_expired_row
  row-expired = rw (==-self r.id, final) refl

  row-fenced : fenced r.id token r ≡ true
  unfolding fenced is_final_lease
  row-fenced =
      let l : is_leased r.state ≡ true = ground (arith, final) in
      rw (==-self r.id, l, held) (==-self token)

  bury_job-Ends :
      (db' : Db)
      → db'.jobs ≡ db.jobs
      → db'.messages ≡ db.messages
      → (OneActive db.handoffs → OneActive db'.handoffs)
      → RowEnds r db (bury_job now r db')
  unfolding bury_job bury_row
  bury_job-Ends db' jobs messages one =
      let found : any (is_expired_row now r.id) db'.jobs ≡ true =
        subst (λ j. any (is_expired_row now r.id) j ≡ true) (sym jobs)
          (any-In (is_expired_row now r.id) r db.jobs m row-expired) in
      let buried =
        subst (λ j. IsBuried r.id (update_rows (is_expired_row now r.id) (bury_row now) j))
          (sym jobs)
          (updated-IsBuried (is_expired_row now r.id) (bury_row now) db.jobs r valid.own_ids m
            row-expired (λ y. refl)) in
      let kept : IsValid (update_rows (is_expired_row now r.id) (bury_row now) db'.jobs) =
        IsRelease-IsValid (is_expired_row now r.id) (bury_row now) db'.jobs (bury_row-IsRelease now)
          (subst IsValid (sym jobs) valid) in
      rw found (messages, inr (λ q. cc q, (buried, (λ v. kept, one))))

  reap_invalid-Ends : RowEnds r db (reap_invalid now (reaper_job token r) db)
  unfolding reap_invalid retire_invalid has_lease set_leased settle_row reaper_job returned_job
      is_leased
  reap_invalid-Ends = rw (any-In (fenced r.id token) r db.jobs m row-fenced) (
    refl,
    inr (
      λ q. cc q,
      (
        updated-IsBuried (fenced r.id token)
            (settle_row now JobState.dead (codes "delivery:invalid_context")) db.jobs r
            valid.own_ids m row-fenced (λ y. refl),
        (
          IsRelease-IsValid (fenced r.id token)
              (settle_row now JobState.dead (codes "delivery:invalid_context")) db.jobs
              (settle_row-IsRelease now JobState.dead (codes "delivery:invalid_context") refl),
          λ one. one,
        ),
      ),
    ),
  )

  reap_context-Ends :
      (run_id email_id : ℕ) (x : DeliveryContext)
      → IsConsistent run_id email_id db x
      → RowEnds r db (reap_context now r (reaper_job token r) x db)
  unfolding reap_context reap_owned release_exact_handoff update_handoffs append_attempt review_run
  reap_context-Ends run_id email_id x context =
      let job = reaper_job token r in
      elim (Option-cases (current_handoff job x db)) [
        | inl e ↦ rw (e, reap_context) reap_invalid-Ends
        | inr (h, e) ↦
            rw (e, reap_context)
              (rw (current-is_exact run_id email_id db x context job h e) (
                rw (context-run_in run_id email_id db x context) (
                  bury_job-Ends _ refl refl (
                    release_exact_handoff-OneActive now (codes "delivery_review")
                      (authorization h.id x.run_id x.email_id job x.message x.snapshot h.not_after)
                      db))))
      ]

  reap_delivery-Ends : RowEnds r db (reap_delivery now r (reaper_job token r) db)
  unfolding reap_delivery reap_ids
  reap_delivery-Ends = elim (Option-cases r.run_id) [
    | inl e ↦ rw (e, reap_delivery) reap_invalid-Ends
    | inr (run_id, e) ↦ elim (Option-cases r.email_id) [
      | inl f ↦ rw (e, f, reap_delivery) reap_invalid-Ends
      | inr (email_id, f) ↦ elim (Option-cases (delivery_context run_id email_id db)) [
        | inl g ↦ rw (e, f, reap_delivery) (rw (g, reap_ids) reap_invalid-Ends)
        | inr (x, g) ↦
            rw (e, f, reap_delivery)
              (rw (g, reap_ids)
                (reap_context-Ends run_id email_id x
                  (delivery_context-IsConsistent run_id email_id db x g)))
      ]
    ]
  ]

  run-run_in :
      (run_id : ℕ) (run : RunRow)
      → find (is_run run_id) db.runs ≡ some run
      → run_in run_id run.status db.runs ≡ true
  unfolding run_in in_status
  run-run_in run_id run e =
      let (n, t) = find-elim (is_run run_id) run db.runs e in
      any-In (in_status run_id run.status) run db.runs n (rw t (==-self (status_value run.status)))

  module _ (show_number : ℕ → Text) where
    reap_run-Ends :
        (run_id : ℕ) (run : RunRow)
        → find (is_run run_id) db.runs ≡ some run
        → RowEnds r db (reap_run show_number now r run_id run db)
    unfolding reap_run
    reap_run-Ends run_id run e = elim (Bool-cases (is_final_lease_error run.status)) [
      | inl t ↦ rw t (rw (run-run_in run_id run e) (bury_job-Ends _ refl refl (λ one. one)))
      | inr f ↦ rw f (bury_job-Ends db refl refl (λ one. one))
    ]

    reap_pipeline-Ends : RowEnds r db (reap_pipeline show_number now r db)
    unfolding reap_pipeline
    reap_pipeline-Ends = elim (Option-cases r.run_id) [
      | inl e ↦ rw (e, reap_pipeline) (refl, inl (refl, refl))
      | inr (run_id, e) ↦ elim (Option-cases (find (is_run run_id) db.runs)) [
        | inl f ↦ rw (e, f, reap_pipeline) (refl, inl (refl, refl))
        | inr (run, f) ↦ rw (e, f, reap_pipeline) (reap_run-Ends run_id run f)
      ]
    ]

    pub reap_row-Ends : RowEnds r db (reap_row show_number now r token db)
    unfolding reap_row
    reap_row-Ends = elim (Bool-cases (same_kind r.kind ingest)) [
      | inl t ↦ elim (Bool-cases (is_some r.run_id)) [
        | inl s ↦ rw (t, s) (refl, inl (refl, refl))
        | inr n ↦ rw (t, n) (bury_job-Ends db refl refl (λ one. one))
      ]
      | inr f ↦ elim (Bool-cases (same_kind r.kind send_outbound)) [
        | inl t ↦ rw (f, t) reap_delivery-Ends
        | inr n ↦ rw (f, n) reap_pipeline-Ends
      ]
    ]
