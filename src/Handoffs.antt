-- ===== src/Handoffs.antt =====
-- app/db/repo/outbound_handoffs.py: the fence that lets one leased delivery job at a time call the
-- mail provider for a run. One function is one transaction on the tables of Store.antt; a new
-- handoff's id is an argument. An authorization carries no envelope: the frozen text of the message
-- is in no modelled table.
pub mod Active
pub mod Review
pub mod Refused
pub mod Granted
pub mod Exclusive
pub mod Handler
pub mod Advance
mod Tests
use payroll_agent.Prelude.{
  ℕ, ◌+◌, Text, codes, list_eq, nat_eq, Bool, true, false, not, ◌&&◌, ◌||◌, ltb, Option, none, some,
  List, [], ◌∷◌, ◌++◌, ◌==◌, any, find, is_none, map, if◌then◌else◌, Result, ok, err,
}
use payroll_agent.Outcome.{delivery_replay_allowed, replay_window}
use payroll_agent.Jobs.{Job, JobRow, send_outbound}
use payroll_agent.Runs.{RunStatus, approved, awaiting_reply, status_value, RunRow, is_run}
use payroll_agent.Store.{Db, Message, Snapshot, Handoff, RuntimeError, runtime_error}
use payroll_agent.Settlement.{locked_job, same_kind, same_id}

pub data Refusal : Type 0 where
  invalid_context replay_window_closed foreign_active_handoff : Refusal
  active_handoff_unexpired : Refusal

pub record Authorization : Type 0 where
  pub handoff_id : ℕ
  pub run_id : ℕ
  pub email_id : ℕ
  pub snapshot_id : ℕ
  pub job_id : ℕ
  pub lease_token : ℕ
  pub epoch : ℕ
  pub not_after : ℕ

pub data HandoffOutcome : Type 0 where
  authorized : Authorization → HandoffOutcome
  record_only : ℕ → HandoffOutcome
  refused : Refusal → HandoffOutcome

-- The run and the message of a delivery job whose row and whose claim agree.
unfoldable pub delivery_ids : JobRow → Job → Option (ℕ × ℕ)
unfolding same_kind same_id
delivery_ids r job =
    if same_kind r.kind send_outbound && same_kind job.kind send_outbound
    then elim r.run_id [
      | none ↦ none
      | some i ↦ elim r.email_id [
        | none ↦ none
        | some e ↦
            if same_id (some i) job.run_id && same_id (some e) job.email_id
            then some (i, e)
            else none
      ]
    ]
    else none

-- `message.id = email_id AND message.run_id = run_id`
unfoldable pub is_message : ℕ → ℕ → Message → Bool
unfolding same_id
is_message run_id email_id m = m.id == email_id && same_id m.run_id (some run_id)

-- The snapshot that is joined to its message.
unfoldable pub reserved_slot : ℕ → ℕ → Db → Option (Message × Snapshot)
unfolding is_message
reserved_slot run_id email_id db = elim (find (is_message run_id email_id) db.messages) [
  | none ↦ none
  | some m ↦ elim (find (λ (s : Snapshot). s.email_id == m.id) db.snapshots) [
    | none ↦ none
    | some s ↦ some (m, s)
  ]
]

unfoldable pub is_clarification : Text → Bool
is_clarification purpose =
    purpose == codes "clarification" || purpose == codes "clarification_field_regression"

unfoldable pub expected_run_status : Text → Option RunStatus
unfolding is_clarification
expected_run_status purpose =
    if purpose == codes "confirmation"
    then some approved
    else if is_clarification purpose
    then some awaiting_reply
    else none

unfoldable pub has_status : RunRow → Option RunStatus → Bool
unfolding status_value
has_status run none = false
has_status run (some s) = status_value run.status == status_value s

-- `run_id = .. AND released_at IS NULL`
unfoldable pub is_active : ℕ → Handoff → Bool
is_active run_id h = h.run_id == run_id && is_none h.released_at

unfoldable pub active_handoff : ℕ → Db → Option Handoff
unfolding is_active
active_handoff run_id db = find (is_active run_id) db.handoffs

unfoldable pub authorization : ℕ → ℕ → ℕ → Job → Message → Snapshot → ℕ → Authorization
authorization handoff_id run_id email_id job m s not_after = record {
  handoff_id = handoff_id;
  run_id = run_id;
  email_id = email_id;
  snapshot_id = s.id;
  job_id = job.id;
  lease_token = job.lease_token;
  epoch = m.epoch;
  not_after = not_after;
}

unfoldable pub new_handoff : ℕ → ℕ → Job → ℕ → ℕ → ℕ → ℕ → Snapshot → Handoff
unfolding replay_window
new_handoff now new_id job until run_id email_id epoch s = record {
  id = new_id;
  run_id = run_id;
  email_id = email_id;
  snapshot_id = s.id;
  job_id = job.id;
  epoch = epoch;
  lease_token = job.lease_token;
  owner_leased_until = until;
  authorized_at = now;
  not_after = s.reserved_at + replay_window;
  released_at = none;
  release_reason = none;
}

-- The handoff that is active is one for this job's delivery.
unfoldable pub same_delivery : Handoff → Job → ℕ → ℕ → ℕ → Snapshot → Bool
same_delivery h job run_id email_id epoch s =
    h.run_id == run_id
    && (h.email_id == email_id
        && (h.snapshot_id == s.id && (h.job_id == job.id && h.epoch == epoch)))

-- The `WHERE` of the adoption: the row of `h`, still active and past its owner's lease.
unfoldable pub is_row_of : Handoff → Handoff → Bool
is_row_of h x =
    x.id == h.id
    && (x.run_id == h.run_id
        && (x.email_id == h.email_id
            && (x.snapshot_id == h.snapshot_id
                && (x.job_id == h.job_id
                    && (x.epoch == h.epoch
                        && (x.lease_token == h.lease_token && is_none x.released_at))))))

unfoldable pub adopt : Job → ℕ → Handoff → Handoff
adopt job until h = record h { lease_token = job.lease_token; owner_leased_until = until }

unfoldable pub update_handoffs : (Handoff → Bool) → (Handoff → Handoff) → Db → Db
update_handoffs test set db = record db {
  handoffs = map (λ h. if test h then set h else h) db.handoffs;
}

unfoldable pub can_adopt : ℕ → Handoff → Handoff → Bool
unfolding is_row_of
can_adopt now h x = is_row_of h x && ltb x.owner_leased_until now

unfoldable pub authorize_active :
    ℕ → Job → ℕ → ℕ → ℕ → RunRow → Message → Snapshot → Handoff → Db → HandoffOutcome × Db
unfolding same_delivery can_adopt adopt update_handoffs authorization
authorize_active now job until run_id email_id run m s h db =
    if not (same_delivery h job run_id email_id run.reply_epoch s)
    then (refused foreign_active_handoff, db)
    else if h.lease_token == job.lease_token
    then (authorized (authorization h.id run_id email_id job m s h.not_after), db)
    else if not (ltb h.owner_leased_until now)
    then (refused active_handoff_unexpired, db)
    else if any (can_adopt now h) db.handoffs
    then (
      authorized (authorization h.id run_id email_id job m s h.not_after),
      update_handoffs (can_adopt now h) (adopt job until) db,
    )
    else (refused active_handoff_unexpired, db)

unfoldable pub authorize_current :
    ℕ → ℕ → Job → ℕ → ℕ → ℕ → RunRow → Message → Snapshot → Db → HandoffOutcome × Db
unfolding active_handoff authorize_active new_handoff authorization
authorize_current now new_id job until run_id email_id run m s db =
    elim (active_handoff run_id db) [
      | some h ↦ authorize_active now job until run_id email_id run m s h db
      | none ↦
          let h = new_handoff now new_id job until run_id email_id run.reply_epoch s in
          (
            authorized (authorization h.id run_id email_id job m s h.not_after),
            record db { handoffs = db.handoffs ++ (h ∷ []) },
          )
    ]

unfoldable pub authorize_slot :
    ℕ → ℕ → Job → ℕ → ℕ → ℕ → RunRow → Message → Snapshot → Db → HandoffOutcome × Db
unfolding expected_run_status has_status delivery_replay_allowed authorize_current
authorize_slot now new_id job until run_id email_id run m s db =
    if run.record_only
    then (record_only run_id, db)
    else if not (has_status run (expected_run_status m.purpose) && m.epoch == run.reply_epoch)
    then (refused invalid_context, db)
    else if not (delivery_replay_allowed s.reserved_at now)
    then (refused replay_window_closed, db)
    else authorize_current now new_id job until run_id email_id run m s db

unfoldable pub authorize_ids : ℕ → ℕ → Job → ℕ → ℕ → ℕ → Db → HandoffOutcome × Db
unfolding reserved_slot authorize_slot
authorize_ids now new_id job until run_id email_id db = elim (reserved_slot run_id email_id db) [
  | none ↦ (refused invalid_context, db)
  | some (m, s) ↦
      if not (m.send_state == codes "reserved")
      then (refused invalid_context, db)
      else elim (find (is_run run_id) db.runs) [
        | none ↦ (refused invalid_context, db)
        | some run ↦ authorize_slot now new_id job until run_id email_id run m s db
      ]
]

unfoldable pub authorize_outbound_provider_handoff :
    ℕ → ℕ → Job → Db → Result RuntimeError (HandoffOutcome × Db)
unfolding locked_job delivery_ids authorize_ids
authorize_outbound_provider_handoff now new_id job db = elim (locked_job job db.jobs) [
  | none ↦ ok (refused invalid_context, db)
  | some r ↦ elim r.leased_until [
    | none ↦ err (runtime_error (codes "locked outbound job has no lease expiry"))
    | some until ↦ elim (delivery_ids r job) [
      | none ↦ ok (refused invalid_context, db)
      | some (run_id, email_id) ↦ ok (authorize_ids now new_id job until run_id email_id db)
    ]
  ]
]

-- `_release_exact_handoff`
unfoldable pub is_exact : Authorization → Handoff → Bool
is_exact a x =
    x.id == a.handoff_id
    && (x.run_id == a.run_id
        && (x.email_id == a.email_id
            && (x.snapshot_id == a.snapshot_id
                && (x.job_id == a.job_id
                    && (x.epoch == a.epoch
                        && (x.lease_token == a.lease_token && is_none x.released_at))))))

unfoldable pub release_handoff : ℕ → Text → Handoff → Handoff
release_handoff now reason h = record h { released_at = some now; release_reason = some reason }

unfoldable pub release_exact_handoff : ℕ → Text → Authorization → Db → Bool × Db
unfolding is_exact release_handoff update_handoffs
release_exact_handoff now reason a db =
    (any (is_exact a) db.handoffs, update_handoffs (is_exact a) (release_handoff now reason) db)
