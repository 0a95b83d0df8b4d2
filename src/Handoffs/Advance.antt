-- ===== src/Handoffs/Advance.antt =====
-- app/db/repo/jobs.py::advance_existing_send_job_due_now and
-- advance_existing_clarification_delivery_review_job_due_now: an operator's review makes a waiting
-- delivery due now. Both want the caller's transaction, which a function on the tables is part of.
use payroll_agent.Prelude.{
  ℕ, ◌+◌, ◌≡◌, refl, inl, inr, Text, codes, list_eq, nat_eq, Bool, false, not, ◌&&◌, ltb, Option,
  none, some, ◌==◌, any, find, Bool-cases, Option-cases, if◌then◌else◌,
}
use payroll_agent.Outcome.{replay_window}
use payroll_agent.Jobs.{JobRow, is_pending, send_outbound, update_rows}
use payroll_agent.Jobs.Valid.{IsCoherent, IsValid, update-IsValid}
use payroll_agent.Runs.{needs_operator, is_run}
use payroll_agent.Store.{Db, Snapshot}
use payroll_agent.Settlement.{same_kind, same_id}
use payroll_agent.Handoffs.{is_clarification, reserved_slot, has_status}

pub data AdvanceSendJobOutcome : Type 0 where
  advanced missing expired not_pending : AdvanceSendJobOutcome

-- `kind = 'send_outbound' AND run_id = .. AND email_id = ..`
unfoldable pub is_delivery_of : ℕ → ℕ → JobRow → Bool
unfolding same_kind same_id
is_delivery_of run_id email_id r =
    same_kind r.kind send_outbound
    && (same_id r.run_id (some run_id) && same_id r.email_id (some email_id))

-- `id = .. AND state = 'pending'`
unfoldable pub is_pending_job : ℕ → JobRow → Bool
unfolding is_pending
is_pending_job i r = r.id == i && is_pending r.state

unfoldable pub set_due : ℕ → JobRow → JobRow
set_due now r = record r { available_at = now; updated_at = now }

unfoldable pub make_due : ℕ → JobRow → Db → AdvanceSendJobOutcome × Db
unfolding is_pending_job set_due update_rows
make_due now job db = (
  if any (is_pending_job job.id) db.jobs then advanced else not_pending,
  record db { jobs = update_rows (is_pending_job job.id) (set_due now) db.jobs },
)

abbrev is_text : Text → Option Text → Bool
is_text reason none = false
is_text reason (some t) = t == reason

-- The run waits for an operator, for this reason.
unfoldable pub in_review : ℕ → Text → Db → Bool
unfolding has_status
in_review run_id reason db = elim (find (is_run run_id) db.runs) [
  | none ↦ false
  | some run ↦ has_status run (some needs_operator) && is_text reason run.error_reason
]

-- `snapshot.reserved_at + interval '20 hours' > now()`
unfoldable pub in_window : ℕ → Snapshot → Bool
unfolding replay_window
in_window now s = ltb now (s.reserved_at + replay_window)

-- The two queries after the lock of the pending job, of a confirmation and of a clarification.
unfoldable pub advance_confirmation : ℕ → ℕ → ℕ → JobRow → Db → AdvanceSendJobOutcome × Db
unfolding reserved_slot in_window in_review make_due
advance_confirmation now run_id email_id job db = elim (reserved_slot run_id email_id db) [
  | none ↦ (missing, db)
  | some (m, s) ↦
      if not (m.purpose == codes "confirmation" && m.send_state == codes "reserved")
      then (missing, db)
      else if not (in_window now s)
      then (expired, db)
      else if not (in_review run_id (codes "DeliveryReview") db)
      then (missing, db)
      else make_due now job db
]

unfoldable pub advance_clarification : ℕ → ℕ → ℕ → JobRow → Db → AdvanceSendJobOutcome × Db
unfolding reserved_slot in_window is_clarification in_review make_due
advance_clarification now run_id email_id job db = elim (reserved_slot run_id email_id db) [
  | none ↦ (missing, db)
  | some (m, s) ↦
      if not (in_window now s)
      then (expired, db)
      else if not (is_clarification m.purpose && m.send_state == codes "reserved")
      then (missing, db)
      else if not (in_review run_id (codes "ClarificationDeliveryReview") db)
      then (missing, db)
      else make_due now job db
]

-- The lock of the job, before either.
unfoldable pub when_pending :
    (JobRow → Db → AdvanceSendJobOutcome × Db) → ℕ → ℕ → Db → AdvanceSendJobOutcome × Db
unfolding is_delivery_of is_pending
when_pending rest run_id email_id db = elim (find (is_delivery_of run_id email_id) db.jobs) [
  | none ↦ (missing, db)
  | some job ↦ if not (is_pending job.state) then (not_pending, db) else rest job db
]

unfoldable pub advance_existing_send_job_due_now : ℕ → ℕ → ℕ → Db → AdvanceSendJobOutcome × Db
unfolding when_pending advance_confirmation
advance_existing_send_job_due_now now run_id email_id =
    when_pending (advance_confirmation now run_id email_id) run_id email_id

unfoldable pub advance_existing_clarification_delivery_review_job_due_now :
    ℕ → ℕ → ℕ → Db → AdvanceSendJobOutcome × Db
unfolding when_pending advance_clarification
advance_existing_clarification_delivery_review_job_due_now now run_id email_id =
    when_pending (advance_clarification now run_id email_id) run_id email_id

-- What holds of the tables, and of the tables with one job made due, holds of the result.
module _ (now run_id email_id : ℕ) (db : Db) (P : Db → Type 0) (same : P db)
    (due : (job : JobRow) → P (make_due now job db).1) where
  advance_confirmation-cases :
      (job : JobRow) → P (advance_confirmation now run_id email_id job db).1
  unfolding advance_confirmation
  advance_confirmation-cases job = elim (Option-cases (reserved_slot run_id email_id db)) [
    | inl e ↦ rw (e, advance_confirmation) same
    | inr ((m, s), e) ↦
        elim (Bool-cases (m.purpose == codes "confirmation" && m.send_state == codes "reserved")) [
          | inr f ↦ rw (e, advance_confirmation) (rw f same)
          | inl t ↦ elim (Bool-cases (in_window now s)) [
            | inr f ↦ rw (e, advance_confirmation) (rw t (rw f same))
            | inl w ↦ elim (Bool-cases (in_review run_id (codes "DeliveryReview") db)) [
              | inr f ↦ rw (e, advance_confirmation) (rw t (rw w (rw f same)))
              | inl r ↦ rw (e, advance_confirmation) (rw t (rw w (rw r (due job))))
            ]
          ]
        ]
  ]

  advance_clarification-cases :
      (job : JobRow) → P (advance_clarification now run_id email_id job db).1
  unfolding advance_clarification
  advance_clarification-cases job = elim (Option-cases (reserved_slot run_id email_id db)) [
    | inl e ↦ rw (e, advance_clarification) same
    | inr ((m, s), e) ↦ elim (Bool-cases (in_window now s)) [
      | inr f ↦ rw (e, advance_clarification) (rw f same)
      | inl w ↦ elim (Bool-cases (is_clarification m.purpose && m.send_state == codes "reserved")) [
        | inr f ↦ rw (e, advance_clarification) (rw w (rw f same))
        | inl t ↦ elim (Bool-cases (in_review run_id (codes "ClarificationDeliveryReview") db)) [
          | inr f ↦ rw (e, advance_clarification) (rw w (rw t (rw f same)))
          | inl r ↦ rw (e, advance_clarification) (rw w (rw t (rw r (due job))))
        ]
      ]
    ]
  ]

  when_pending-cases :
      (rest : JobRow → Db → AdvanceSendJobOutcome × Db)
      → ((job : JobRow) → P (rest job db).1)
      → P (when_pending rest run_id email_id db).1
  unfolding when_pending
  when_pending-cases rest each =
      elim (Option-cases (find (is_delivery_of run_id email_id) db.jobs)) [
        | inl e ↦ rw (e, when_pending) same
        | inr (job, e) ↦ elim (Bool-cases (is_pending job.state)) [
          | inr f ↦ rw (e, when_pending) (rw f same)
          | inl t ↦ rw (e, when_pending) (rw t (each job))
        ]
      ]

  pub advance_existing_send-cases : P (advance_existing_send_job_due_now now run_id email_id db).1
  unfolding advance_existing_send_job_due_now
  advance_existing_send-cases =
      when_pending-cases (advance_confirmation now run_id email_id) advance_confirmation-cases

  pub advance_existing_clarification-cases :
      P (advance_existing_clarification_delivery_review_job_due_now now run_id email_id db).1
  unfolding advance_existing_clarification_delivery_review_job_due_now
  advance_existing_clarification-cases =
      when_pending-cases (advance_clarification now run_id email_id) advance_clarification-cases

set_due-IsCoherent : (now : ℕ) (r : JobRow) → IsCoherent r → IsCoherent (set_due now r)
unfolding set_due
set_due-IsCoherent now r c = record {
  token_when_leased = c.token_when_leased;
  deadline_when_leased = c.deadline_when_leased;
  bounded = c.bounded;
}

pub make_due-IsValid :
    (now : ℕ) (job : JobRow) (db : Db) → IsValid db.jobs → IsValid (make_due now job db).1.jobs
unfolding make_due set_due
make_due-IsValid now job db v =
    update-IsValid (is_pending_job job.id) (set_due now) db.jobs (λ r. refl) (λ r. refl)
      (λ r m t c. set_due-IsCoherent now r c) v

pub make_due-handoffs :
    (now : ℕ) (job : JobRow) (db : Db) → (make_due now job db).1.handoffs ≡ db.handoffs
unfolding make_due
make_due-handoffs now job db = refl
