-- ===== src/Settlement/Delivery/Stranded.antt =====
-- app/db/repo/outbound_handoffs.py, app/queue/handlers/send_outbound.py and
-- app/db/repo/job_settlement.py together: a delivery job whose run has an active handoff of another
-- lease.
use payroll_agent.Prelude.{
  ℕ, ◌≡◌, ◌≢◌, ◌≤◌, ap, ◌∙◌, inl, inr, codes, list_eq, list_beq, nat_eq, true, false, none, some,
  In, Bool-cases, arith, ok, ne→==, find-elim, find-absent,
}
use mathlib.Core.Path.{subst}
use payroll_agent.Outcome.{PipelineResult, delivery_replay_allowed}
use payroll_agent.Jobs.{Job, JobRow, JobState}
use payroll_agent.Store.{Db, Handoff, SettlementOutcome}
use payroll_agent.Settlement.{locked_job, set_leased, settle_row}
use payroll_agent.Settlement.Cases.{locked_job-has_lease}
use payroll_agent.Handoffs.{
  Authorization, HandoffOutcome, delivery_ids, is_active, active_handoff, authorize_current,
  authorize_slot, authorize_ids, authorize_outbound_provider_handoff,
}
use payroll_agent.Handoffs.Refused.{Held, authorize_active-Held}
use payroll_agent.Handoffs.Handler.{bounded_noop, result_of}
use payroll_agent.Settlement.Outbound.{DeliveryContext, delivery_context, retire_invalid}
use payroll_agent.Settlement.Delivery.{
  is_current, current_handoff, settle_due, settle_ids, settle_outbound_delivery_job,
  pre_provider_expiry,
}
use payroll_agent.Settlement.Delivery.Context.{IsConsistent, delivery_context-IsConsistent}

module _ (now : ℕ) (job : Job) (run_id email_id : ℕ) (db : Db) (x : DeliveryContext) (h : Handoff)
    (context : IsConsistent run_id email_id db x) (real : x.run.record_only ≡ false)
    (window : delivery_replay_allowed x.snapshot.reserved_at now ≡ true)
    (active : active_handoff run_id db ≡ some h)
    (foreign : (y : Handoff)
      → In y db.handoffs
      → is_active run_id y ≡ true
      → y.lease_token ≢ job.lease_token)
    (unexpired : now ≤ h.owner_leased_until) where
  held_token : h.lease_token ≢ job.lease_token
  unfolding active_handoff
  held_token = let (m, t) = find-elim (is_active run_id) h db.handoffs active in foreign h m t

  authorize_slot-Held :
      (new_id until : ℕ)
      → let o = authorize_slot now new_id job until run_id email_id x.run x.message x.snapshot db in
        Held o.0 × (o.1 ≡ db)
  unfolding authorize_slot authorize_current
  authorize_slot-Held new_id until =
      rw (real, context.due, context.status, context.epoch, window)
        (rw (active, authorize_current)
          (authorize_active-Held now job until run_id email_id x.run x.message x.snapshot h db
            held_token unexpired))

  authorize_ids-Held :
      (new_id until : ℕ)
      → Held (authorize_ids now new_id job until run_id email_id db).0
        × ((authorize_ids now new_id job until run_id email_id db).1 ≡ db)
  unfolding authorize_ids
  authorize_ids-Held new_id until =
      rw (context.slot, authorize_ids)
        (rw context.reserved (rw (context.found, authorize_ids) (authorize_slot-Held new_id until)))

  other_owner : (y : Handoff) → In y db.handoffs → is_current job x y ≡ false
  unfolding is_current
  other_owner y m = elim (Bool-cases (is_active x.run_id y)) [
    | inr f ↦ rw f
    | inl t ↦
        let own : is_active run_id y ≡ true =
          subst (λ i. is_active i y ≡ true) context.same_run t in
        let ne = ne→== y.lease_token job.lease_token (foreign y m own) in ground (arith, ne)
  ]

  no_current : current_handoff job x db ≡ none
  unfolding current_handoff
  no_current = find-absent (is_current job x) db.handoffs other_owner

  settle_due-noop :
      (attempts : ℕ)
      → settle_due now job bounded_noop attempts x db ≡ retire_invalid now job JobState.done db
  unfolding settle_due bounded_noop pre_provider_expiry list_beq
  settle_due-noop attempts = rw (no_current, settle_due)

Held-noop :
    (send : Authorization → PipelineResult) (job : Job) (o : HandoffOutcome)
    → Held o
    → result_of send job o ≡ bounded_noop
unfolding result_of
Held-noop send job o (inl q) = rw q
Held-noop send job o (inr q) = rw q

noop_settled :
    (now : ℕ) (job : Job) (db : Db) (r : JobRow) (run_id email_id : ℕ) (x : DeliveryContext)
    → locked_job job db.jobs ≡ some r
    → delivery_ids r job ≡ some (run_id, email_id)
    → delivery_context run_id email_id db ≡ some x
    → settle_due now job bounded_noop r.attempts x db ≡ retire_invalid now job JobState.done db
    → settle_outbound_delivery_job now job bounded_noop db
      ≡ ok (
        SettlementOutcome.invalid_context,
        set_leased job (settle_row now JobState.done (codes "delivery:invalid_context")) db,
      )
unfolding settle_outbound_delivery_job settle_ids retire_invalid
noop_settled now job db r run_id email_id x e i c q =
    rw (e, settle_outbound_delivery_job)
      (rw (i, settle_outbound_delivery_job)
        (rw (c, settle_ids) (q ∙ rw (locked_job-has_lease job db r e))))

-- A worker holds a delivery job whose row names the run and the message of its claim, as after a
-- shutdown that put the job back. Its run has an active handoff, every active handoff of the run
-- belongs to another lease, and it asks no later than that owner's lease ends
-- (`owner_leased_until`), inside the replay window, for a run that does not only record and whose
-- delivery is still due. Then the worker is refused, does not call the provider, and settles the job
-- as done; only the job's row changes, so its message stays reserved, its run keeps its status and
-- the handoff stays active.
pub settle_outbound-stranded :
    (now new_id : ℕ) (job : Job) (send : Authorization → PipelineResult) (db : Db) (r : JobRow)
    (until run_id email_id : ℕ) (x : DeliveryContext) (h : Handoff)
    → locked_job job db.jobs ≡ some r
    → r.leased_until ≡ some until
    → delivery_ids r job ≡ some (run_id, email_id)
    → delivery_context run_id email_id db ≡ some x
    → x.run.record_only ≡ false
    → delivery_replay_allowed x.snapshot.reserved_at now ≡ true
    → active_handoff run_id db ≡ some h
    → ((y : Handoff)
        → In y db.handoffs
        → is_active run_id y ≡ true
        → y.lease_token ≢ job.lease_token)
    → now ≤ h.owner_leased_until
    → (o : HandoffOutcome) × Held o
      × (authorize_outbound_provider_handoff now new_id job db ≡ ok (o, db))
      × (settle_outbound_delivery_job now job (result_of send job o) db
          ≡ ok (
            SettlementOutcome.invalid_context,
            set_leased job (settle_row now JobState.done (codes "delivery:invalid_context")) db,
          ))
unfolding authorize_outbound_provider_handoff
settle_outbound-stranded now new_id job send db r until run_id email_id x h e l i c real window
      active foreign le =
    let context = delivery_context-IsConsistent run_id email_id db x c in
    let (held, same) =
      authorize_ids-Held now job run_id email_id db x h context real window active foreign le new_id
        until in
    (
      (authorize_ids now new_id job until run_id email_id db).0,
      held,
      rw (e, authorize_outbound_provider_handoff)
          (rw (l, i, authorize_outbound_provider_handoff)
            (ap (λ (d : Db). ok ((authorize_ids now new_id job until run_id email_id db).0, d))
              same)),
      ap (λ (p : PipelineResult). settle_outbound_delivery_job now job p db)
            (Held-noop send job _ held)
          ∙ noop_settled now job db r run_id email_id x e i c (
              settle_due-noop now job run_id email_id db x h context real window active foreign le
                r.attempts),
    )
