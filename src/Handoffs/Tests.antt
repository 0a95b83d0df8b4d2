-- ===== src/Handoffs/Tests.antt =====
-- Runs of app/db/repo/outbound_handoffs.py.
use payroll_agent.Prelude.{
  map, codes, ℕ, ◌≡◌, ◌≢◌, ◌⊎◌, ◌≤◌, refl, nat_eq, list_eq, list_beq, none, some, [], ◌∷◌, ok,
}
use payroll_agent.Jobs.{Job, JobRow, pending}
use payroll_agent.Store.{Db, Handoff}
use payroll_agent.Settlement.{locked_job}
use payroll_agent.Handoffs.{
  Authorization, authorized, active_handoff, authorize_outbound_provider_handoff,
}
use payroll_agent.Handoffs.Advance.{
  advanced, missing, advance_existing_send_job_due_now,
  advance_existing_clarification_delivery_review_job_due_now,
}
use payroll_agent.Runs.{needs_operator}
use payroll_agent.Handoffs.Exclusive.{authorize_exclusive}
use payroll_agent.Fixture.{database, delivery_job, delivery_row, run_row}

-- The first authorization of the delivery, for the 20 hours of its window.
abbrev first : Authorization
first = record {
  handoff_id = 9;
  run_id = 7;
  email_id = 5;
  snapshot_id = 50;
  job_id = 1;
  lease_token = 11;
  epoch = 0;
  not_after = 72000000100;
}

abbrev opened : Handoff
opened = record {
  id = 9;
  run_id = 7;
  email_id = 5;
  snapshot_id = 50;
  job_id = 1;
  epoch = 0;
  lease_token = 11;
  owner_leased_until = 200;
  authorized_at = 120;
  not_after = 72000000100;
  released_at = none;
  release_reason = none;
}

abbrev after_first : Db
after_first = record database { handoffs = opened ∷ [] }

first_opens :
    authorize_outbound_provider_handoff 120 9 delivery_job database
    ≡ ok (authorized first, after_first)
unfolding authorize_outbound_provider_handoff list_beq
first_opens = refl

authorize_exclusive_example :
    (r : JobRow) × (until : ℕ) × (h : Handoff) × (locked_job delivery_job database.jobs ≡ some r)
    × (r.leased_until ≡ some until)
    × (active_handoff 7 after_first ≡ some h)
    × (h.lease_token ≡ 11)
    × ((h.owner_leased_until ≡ until) ⊎ (active_handoff 7 database ≡ some h))
    × ((now new_id : ℕ) (job : Job) (after : Db) (a : Authorization)
        → job.lease_token ≢ 11
        → job.run_id ≡ some 7
        → now ≤ h.owner_leased_until
        → authorize_outbound_provider_handoff now new_id job after_first ≢ ok (authorized a, after))
authorize_exclusive_example =
    authorize_exclusive 120 9 delivery_job database after_first first first_opens

-- The delivery waits until 900; its run was put before an operator, who sends it now.
abbrev waiting : Db
waiting = record database {
  jobs =
      record delivery_row {
        state = pending;
        lease_token = none;
        leased_until = none;
        available_at = 900;
      }
      ∷ [];
  runs = record (run_row 7 needs_operator) { error_reason = some (codes "DeliveryReview") } ∷ [];
}

waiting_advanced :
    let (o, after) = advance_existing_send_job_due_now 150 7 5 waiting in
    (o ≡ advanced) × (map (λ (r : JobRow). r.available_at) after.jobs ≡ 150 ∷ [])
unfolding advance_existing_send_job_due_now list_beq
waiting_advanced = (refl, refl)

-- It is no clarification, so the other route's function finds nothing to send.
waiting_unmoved :
    (advance_existing_clarification_delivery_review_job_due_now 150 7 5 waiting).0 ≡ missing
unfolding advance_existing_clarification_delivery_review_job_due_now list_beq
waiting_unmoved = refl
