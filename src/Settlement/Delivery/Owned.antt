-- ===== src/Settlement/Delivery/Owned.antt =====
-- app/db/repo/job_settlement.py::settle_outbound_delivery_job: the statements find the rows that the
-- transaction has locked.
use payroll_agent.Prelude.{
  ℕ, ◌≡◌, refl, sym, inl, inr, Text, codes, list_eq, nat_eq, true, some, In, any, find, Bool-cases,
  Option-cases, if◌then◌else◌, arith, ◌==◌, ==-self, any-In, find-elim, ok, In-map,
}
use mathlib.Core.Path.{subst}
use payroll_agent.Jobs.{Job}
use payroll_agent.Runs.{
  RunStatus, RunRow, Runs, is_run, in_status, status_value, approved, sent, reconciled, move_status,
  update_runs,
}
use payroll_agent.Store.{Db, Snapshot, Handoff}
use payroll_agent.Settlement.{run_in}
use payroll_agent.Handoffs.{
  authorization, is_message, reserved_slot, expected_run_status, has_status, is_exact,
}
use payroll_agent.Settlement.Outbound.{
  DeliveryContext, is_reserved_message, advance_run, complete_run, complete_confirmation,
}
use payroll_agent.Settlement.Delivery.{is_current, current_handoff}
use payroll_agent.Settlement.Delivery.Context.{IsConsistent}

current_exact :
    (job : Job) (x : DeliveryContext) (h : Handoff)
    → is_current job x h ≡ true
    → is_exact (authorization h.id x.run_id x.email_id job x.message x.snapshot h.not_after) h
      ≡ true
unfolding is_current is_exact authorization
current_exact job x h t = ground (arith, t)

module _ (run_id email_id : ℕ) (db : Db) (x : DeliveryContext)
    (context : IsConsistent run_id email_id db x) where
  run_row : In x.run db.runs × (in_status x.run_id x.expected x.run ≡ true)
  unfolding in_status has_status
  run_row =
      let (m, t) = find-elim (is_run run_id) x.run db.runs context.found in
      let own : is_run x.run_id x.run ≡ true = rw context.same_run t in
      (m, ground (arith, own, context.status))

  pub context-run_in : run_in x.run_id x.expected db.runs ≡ true
  unfolding run_in
  context-run_in = let (m, t) = run_row in any-In (in_status x.run_id x.expected) x.run db.runs m t

  message_row : In x.message db.messages × (is_message run_id email_id x.message ≡ true)
  unfolding reserved_slot
  message_row = elim (Option-cases (find (is_message run_id email_id) db.messages)) [
    | inl a ↦ cc (rw (a, reserved_slot) at context.slot)
    | inr (m, a) ↦ elim (Option-cases (find (λ (s : Snapshot). s.email_id == m.id) db.snapshots)) [
      | inl b ↦ cc (rw (a, b, reserved_slot) at context.slot)
      | inr (s, b) ↦
          let q : some (m, s) ≡ some (x.message, x.snapshot) =
            rw (a, b, reserved_slot) at context.slot in
          let p : m ≡ x.message = cc q in
          subst (λ y. In y db.messages × (is_message run_id email_id y ≡ true)) p
            (find-elim (is_message run_id email_id) m db.messages a)
    ]
  ]

  pub context-reserved : any (is_reserved_message x.run_id x.email_id) db.messages ≡ true
  unfolding is_reserved_message
  context-reserved =
      let (m, t) = message_row in
      any-In (is_reserved_message x.run_id x.email_id) x.message db.messages m
        (rw (context.same_run, context.same_email, t) context.reserved)

  pub current-is_exact :
      (job : Job) (h : Handoff)
      → current_handoff job x db ≡ some h
      → any
          (is_exact (authorization h.id x.run_id x.email_id job x.message x.snapshot h.not_after))
          db.handoffs
        ≡ true
  unfolding current_handoff
  current-is_exact job h e =
      let (m, t) = find-elim (is_current job x) h db.handoffs e in
      any-In _ h db.handoffs m (current_exact job x h t)

moved_status :
    (now run_id : ℕ) (expected status : RunStatus) (r : RunRow)
    → in_status run_id expected r ≡ true
    → in_status run_id status (move_status now status r) ≡ true
unfolding in_status move_status
moved_status now run_id expected status r t =
    let own : (r.id == run_id) ≡ true = ground (arith, t) in rw own (==-self (status_value status))

run_row-moved :
    (now run_id : ℕ) (expected status : RunStatus) (r : RunRow) (runs : Runs)
    → In r runs
    → in_status run_id expected r ≡ true
    → any (is_run run_id) (update_runs (in_status run_id expected) (move_status now status) runs)
      ≡ true
unfolding update_runs in_status move_status
run_row-moved now run_id expected status r runs m t =
    let k =
      In-map (λ r. if in_status run_id expected r then move_status now status r else r) r runs m in
    any-In (is_run run_id) (move_status now status r) _ (rw t at k) (ground (arith, t))

-- A run that a statement moves is in the status that it was moved to.
moved-run_in :
    (now run_id : ℕ) (expected status : RunStatus) (r : RunRow) (runs : Runs)
    → In r runs
    → in_status run_id expected r ≡ true
    → run_in run_id status (update_runs (in_status run_id expected) (move_status now status) runs)
      ≡ true
unfolding run_in update_runs
moved-run_in now run_id expected status r runs m t =
    let k =
      In-map (λ r. if in_status run_id expected r then move_status now status r else r) r runs m in
    let moved = rw t at k in
    any-In (in_status run_id status) (move_status now status r) _ moved
      (moved_status now run_id expected status r t)

confirmation_approved :
    (purpose : Text) (expected : RunStatus)
    → expected_run_status purpose ≡ some expected
    → (purpose == codes "confirmation") ≡ true
    → expected ≡ approved
unfolding expected_run_status
confirmation_approved purpose expected e t =
    let q : some approved ≡ some expected = rw (t, expected_run_status) at e in sym (cc q)

-- The statements on the run of a delivered message find it, and leave the other tables alone.
pub complete_run-ok :
    (run_id email_id : ℕ) (db : Db) (x : DeliveryContext)
    → IsConsistent run_id email_id db x
    → (now : ℕ) (message : Text) (db' : Db) → db'.runs ≡ db.runs
    → (after : Db) × (complete_run now x message db' ≡ ok after)
      × (after.jobs ≡ db'.jobs)
      × (after.handoffs ≡ db'.handoffs)
unfolding complete_run complete_confirmation run_in advance_run
complete_run-ok run_id email_id db x context now message db' same =
    elim (Bool-cases (x.message.purpose == codes "confirmation")) [
      | inr f ↦ (db', rw f refl, refl, refl)
      | inl t ↦
          let q = confirmation_approved x.message.purpose x.expected context.due t in
          let (m, u) = run_row run_id email_id db x context in
          let u' : in_status x.run_id approved x.run ≡ true =
            subst (λ s. in_status x.run_id s x.run ≡ true) q u in
          let m' : In x.run db'.runs = subst (In x.run) (sym same) m in
          let first : any (in_status x.run_id approved) db'.runs ≡ true =
            any-In (in_status x.run_id approved) x.run db'.runs m' u' in
          let second = run_row-moved now x.run_id approved sent x.run db'.runs m' u' in
          let third = moved-run_in now x.run_id approved sent x.run db'.runs m' u' in
          (
            advance_run now x.run_id sent reconciled (advance_run now x.run_id approved sent db'),
            rw (t, first) (rw (second) (rw third refl)),
            refl,
            refl,
          )
    ]
