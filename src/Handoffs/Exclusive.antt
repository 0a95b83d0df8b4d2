-- ===== src/Handoffs/Exclusive.antt =====
-- app/db/repo/outbound_handoffs.py::authorize_outbound_provider_handoff: one lease at a time has the
-- authority for a run.
use payroll_agent.Prelude.{
  ℕ, ◌≡◌, ◌≢◌, ◌⊎◌, ◌≤◌, sym, ◌∙◌, inl, inr, codes, list_eq, nat_eq, ◌&&◌, some, find, Bool-cases,
  Option-cases, arith, ◌==◌, ok,
}
use mathlib.Core.Path.{subst}
use payroll_agent.Outcome.{delivery_replay_allowed}
use payroll_agent.Jobs.{Job, JobRow}
use payroll_agent.Runs.{RunRow, is_run}
use payroll_agent.Store.{Db, Message, Snapshot, Handoff}
use payroll_agent.Settlement.{locked_job, same_id}
use payroll_agent.Handoffs.{
  Authorization, HandoffOutcome, authorized, record_only, refused, delivery_ids, reserved_slot,
  expected_run_status, has_status, active_handoff, authorize_current, authorize_slot, authorize_ids,
  authorize_outbound_provider_handoff,
}
use payroll_agent.Handoffs.Refused.{Refuses, authorize_active-Held, Held-Refuses}
use payroll_agent.Handoffs.Granted.{Grants, authorize_current-Grants}

-- What holds of each refusal, and of the choice that the active handoff makes, holds of every
-- authorization.
module _ (now new_id : ℕ) (job : Job) (until run_id email_id : ℕ) (db : Db)
    (P : HandoffOutcome × Db → Type 0) (no : (o : HandoffOutcome) → Refuses o → P (o, db))
    (current : (run : RunRow) (m : Message) (s : Snapshot)
      → P (authorize_current now new_id job until run_id email_id run m s db)) where
  authorize_slot-cases :
      (run : RunRow) (m : Message) (s : Snapshot)
      → P (authorize_slot now new_id job until run_id email_id run m s db)
  unfolding authorize_slot
  authorize_slot-cases run m s = elim (Bool-cases run.record_only) [
    | inl r ↦ rw r (no (record_only run_id) tt)
    | inr n ↦
        elim (Bool-cases
          (has_status run (expected_run_status m.purpose) && m.epoch == run.reply_epoch)) [
            | inr f ↦ rw (n, f) (no _ tt)
            | inl t ↦ elim (Bool-cases (delivery_replay_allowed s.reserved_at now)) [
              | inr f ↦ rw (n, t, f) (no _ tt)
              | inl w ↦ rw (n, t, w) (current run m s)
            ]
          ]
  ]

  authorize_ids-cases : P (authorize_ids now new_id job until run_id email_id db)
  unfolding authorize_ids
  authorize_ids-cases = elim (Option-cases (reserved_slot run_id email_id db)) [
    | inl n ↦ rw (n, authorize_ids) (no _ tt)
    | inr ((m, s), e) ↦ elim (Bool-cases (m.send_state == codes "reserved")) [
      | inr f ↦ rw (e, authorize_ids) (rw f (no _ tt))
      | inl t ↦ elim (Option-cases (find (is_run run_id) db.runs)) [
        | inl n ↦ rw (e, authorize_ids) (rw t (rw (n, authorize_ids) (no _ tt)))
        | inr (run, r) ↦
            rw (e, authorize_ids) (rw t (rw (r, authorize_ids) (authorize_slot-cases run m s)))
      ]
    ]
  ]

Refuses-Grants :
    (job : Job) (until run_id : ℕ) (db : Db) (o : HandoffOutcome)
    → Refuses o
    → Grants job until run_id db (o, db)
Refuses-Grants job until run_id db (authorized a) h = absurd h
Refuses-Grants job until run_id db (record_only i) h = tt
Refuses-Grants job until run_id db (refused why) h = tt

authorize_ids-Grants :
    (now new_id : ℕ) (job : Job) (until run_id email_id : ℕ) (db : Db)
    → Grants job until run_id db (authorize_ids now new_id job until run_id email_id db)
authorize_ids-Grants now new_id job until run_id email_id db =
    authorize_ids-cases now new_id job until run_id email_id db (Grants job until run_id db)
      (Refuses-Grants job until run_id db)
      (λ run m s. authorize_current-Grants now job until run_id email_id run m s new_id db)

authorize_current-Refuses :
    (now new_id : ℕ) (job : Job) (until run_id email_id : ℕ) (db : Db) (h : Handoff)
    → active_handoff run_id db ≡ some h
    → h.lease_token ≢ job.lease_token
    → now ≤ h.owner_leased_until
    → (run : RunRow) (m : Message) (s : Snapshot)
    → Refuses (authorize_current now new_id job until run_id email_id run m s db).0
unfolding authorize_current
authorize_current-Refuses now new_id job until run_id email_id db h e ne le run m s =
    rw (e, authorize_current)
      (Held-Refuses _ (authorize_active-Held now job until run_id email_id run m s h db ne le).0)

authorize_ids-Refuses :
    (now new_id : ℕ) (job : Job) (until run_id email_id : ℕ) (db : Db) (h : Handoff)
    → active_handoff run_id db ≡ some h
    → h.lease_token ≢ job.lease_token
    → now ≤ h.owner_leased_until
    → Refuses (authorize_ids now new_id job until run_id email_id db).0
authorize_ids-Refuses now new_id job until run_id email_id db h e ne le =
    authorize_ids-cases now new_id job until run_id email_id db (λ p. Refuses p.0) (λ o r. r)
      (authorize_current-Refuses now new_id job until run_id email_id db h e ne le)

-- Inversion of an authorization that was given.
abbrev Granted : ℕ → ℕ → Job → Db → HandoffOutcome × Db → Type 0
Granted now new_id job db p =
    (r : JobRow) × (until run_id email_id : ℕ) × (locked_job job db.jobs ≡ some r)
    × (r.leased_until ≡ some until)
    × (delivery_ids r job ≡ some (run_id, email_id))
    × (authorize_ids now new_id job until run_id email_id db ≡ p)

authorized-Granted :
    (now new_id : ℕ) (job : Job) (db after : Db) (a : Authorization)
    → authorize_outbound_provider_handoff now new_id job db ≡ ok (authorized a, after)
    → Granted now new_id job db (authorized a, after)
unfolding authorize_outbound_provider_handoff
authorized-Granted now new_id job db after a e = elim (Option-cases (locked_job job db.jobs)) [
  | inl n ↦ cc (rw (n, authorize_outbound_provider_handoff) at e)
  | inr (r, l) ↦ elim (Option-cases r.leased_until) [
    | inl n ↦ cc (
        rw (n, authorize_outbound_provider_handoff) at
          (rw (l, authorize_outbound_provider_handoff) at e))
    | inr (until, u) ↦ elim (Option-cases (delivery_ids r job)) [
      | inl n ↦ cc (
          rw (u, n, authorize_outbound_provider_handoff) at
            (rw (l, authorize_outbound_provider_handoff) at e))
      | inr ((run_id, email_id), i) ↦
          let q : ok (authorize_ids now new_id job until run_id email_id db)
              ≡ ok (authorized a, after) =
            rw (u, i, authorize_outbound_provider_handoff) at
              (rw (l, authorize_outbound_provider_handoff) at e) in
          (r, until, run_id, email_id, l, u, i, cc q)
    ]
  ]
]

delivery_ids-run :
    (r : JobRow) (job : Job) (run_id email_id i : ℕ)
    → delivery_ids r job ≡ some (run_id, email_id)
    → job.run_id ≡ some i
    → run_id ≡ i
unfolding delivery_ids same_id
delivery_ids-run r job run_id email_id i e q = ground (arith, e, q)

-- A worker that is authorized to call the provider for a run holds its job under a lease and owns the
-- run's active handoff, whose end is the end of that lease, unless the handoff was its own before
-- and stays as it was. On the tables that this leaves, as long as that end has not passed, no
-- authorization is given to another lease for that run.
pub authorize_exclusive :
    (now new_id : ℕ) (job : Job) (db after : Db) (a : Authorization)
    → authorize_outbound_provider_handoff now new_id job db ≡ ok (authorized a, after)
    → (r : JobRow) × (until : ℕ) × (h : Handoff) × (locked_job job db.jobs ≡ some r)
      × (r.leased_until ≡ some until)
      × (active_handoff a.run_id after ≡ some h)
      × (h.lease_token ≡ job.lease_token)
      × ((h.owner_leased_until ≡ until) ⊎ (active_handoff a.run_id db ≡ some h))
      × ((now' new_id' : ℕ) (job' : Job) (after' : Db) (a' : Authorization)
          → job'.lease_token ≢ job.lease_token
          → job'.run_id ≡ some a.run_id
          → now' ≤ h.owner_leased_until
          → authorize_outbound_provider_handoff now' new_id' job' after
            ≢ ok (authorized a', after'))
authorize_exclusive now new_id job db after a e =
    let (r, until, run_id, email_id, l, u, i, q) = authorized-Granted now new_id job db after a e in
    let (same, (h, active, own, ends)) =
      subst (Grants job until run_id db) q
        (authorize_ids-Grants now new_id job until run_id email_id db) in
    (
      r,
      until,
      h,
      l,
      u,
      subst (λ k. active_handoff k after ≡ some h) (sym same) active,
      own,
      subst (λ k. (h.owner_leased_until ≡ until) ⊎ (active_handoff k db ≡ some h)) (sym same) ends,
      λ now' new_id' job' after' a' ne on le e'.
          let (r', until', run_id', email_id', l', u', i', q') =
            authorized-Granted now' new_id' job' after after' a' e' in
          let at_run : run_id' ≡ run_id =
            delivery_ids-run r' job' run_id' email_id' a.run_id i' on ∙ same in
          subst (λ p. Refuses p.0) q'
            (authorize_ids-Refuses now' new_id' job' until' run_id' email_id' after h
              (subst (λ k. active_handoff k after ≡ some h) (sym at_run) active)
              (λ t. ne (sym t ∙ own)) le),
    )
