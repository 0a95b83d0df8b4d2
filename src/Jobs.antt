-- ===== src/Jobs.antt =====
-- app/models/job.py and app/db/repo/jobs.py: the durable job queue. The table `jobs` is the list of
-- its rows; UUIDs and times are numbers (`now` is the database's clock, in microseconds). The ids
-- and lease tokens that `gen_random_uuid()` draws, the text of a UUID and the conversion of seconds
-- to an interval are arguments. One function is one SQL statement, which runs on the whole table.
pub mod Enqueue
pub mod Rows
pub mod Valid
pub mod Claim
pub mod Fence
pub mod Dedup
pub mod Progress
mod Tests
use payroll_agent.Prelude.{
  ℕ, ◌+◌, Text, codes, list_eq, nat_eq, Bool, true, false, not, ◌&&◌, ◌||◌, ltb, leb, eqb, Option,
  none, some, List, [], ◌∷◌, map, ◌==◌, any, keep, find, contains, is_empty, is_some, is_none,
  length, if◌then◌else◌,
}

pub data JobKind : Type 0 where
  run_pipeline resume_reply operator_resume ingest send_outbound : JobKind

pub data JobState : Type 0 where
  pending leased done dead : JobState

-- What the claim returns.
pub record Job : Type 0 where
  pub id : ℕ
  pub kind : JobKind
  pub run_id : Option ℕ
  pub email_id : Option ℕ
  pub operator_resolution_id : Option ℕ
  pub event_id : Option ℕ
  pub attempts : ℕ
  pub max_attempts : ℕ
  pub lease_token : ℕ

-- A row of the table.
pub record JobRow : Type 0 where
  pub id : ℕ
  pub kind : JobKind
  pub dedup_key : Text
  pub run_id : Option ℕ
  pub email_id : Option ℕ
  pub operator_resolution_id : Option ℕ
  pub event_id : Option ℕ
  pub business_id : Option ℕ
  pub priority : ℕ
  pub state : JobState
  pub attempts : ℕ
  pub max_attempts : ℕ
  pub available_at : ℕ
  pub lease_token : Option ℕ
  pub leased_until : Option ℕ
  pub last_error : Option Text
  pub created_at : ℕ
  pub updated_at : ℕ

abbrev pub Jobs : Type 0
Jobs = List JobRow

unfoldable pub is_pending : JobState → Bool
is_pending pending = true
is_pending leased = false
is_pending done = false
is_pending dead = false

unfoldable pub is_leased : JobState → Bool
is_leased leased = true
is_leased pending = false
is_leased done = false
is_leased dead = false

-- `leased_until < now()`, which is not true of a NULL
unfoldable pub lease_expired : ℕ → Option ℕ → Bool
lease_expired now none = false
lease_expired now (some t) = ltb t now

-- `lease_token = token`, which is not true of a NULL
unfoldable pub holds_token : ℕ → Option ℕ → Bool
holds_token token none = false
holds_token token (some t) = t == token

-- The WHERE of the claim's subquery.
unfoldable pub claimable : ℕ → JobRow → Bool
unfolding is_pending is_leased lease_expired
claimable now r =
    ltb r.attempts r.max_attempts
    && ((is_pending r.state && leb r.available_at now)
        || (is_leased r.state && lease_expired now r.leased_until))

-- `ORDER BY priority, available_at`
unfoldable pub runs_before : JobRow → JobRow → Bool
runs_before a b =
    ltb a.priority b.priority || (eqb a.priority b.priority && ltb a.available_at b.available_at)

-- The claimable row that comes first and that no other transaction has locked (SKIP LOCKED). SQL
-- leaves the choice among rows of one priority and due time open; here it is the first of them.
unfoldable pub better : JobRow → Option JobRow → JobRow
unfolding runs_before
better r none = r
better r (some b) = if runs_before b r then b else r

unfoldable pub select_job : ℕ → List ℕ → Jobs → Option JobRow
unfolding claimable better
select_job now locked [] = none
select_job now locked (r ∷ rows) =
    let rest = select_job now locked rows in
    if claimable now r && not (contains r.id locked) then some (better r rest) else rest

-- `UPDATE jobs SET ... WHERE test`
unfoldable pub update_rows : (JobRow → Bool) → (JobRow → JobRow) → Jobs → Jobs
update_rows test set = map (λ r. if test r then set r else r)

abbrev pub has_id : ℕ → JobRow → Bool
has_id i r = r.id == i

unfoldable pub lease : ℕ → ℕ → ℕ → JobRow → JobRow
lease now token lease_time r = record r {
  state = leased;
  lease_token = some token;
  leased_until = some (now + lease_time);
  attempts = r.attempts + 1;
  updated_at = now;
}

-- `RETURNING`
unfoldable pub returned_job : ℕ → JobRow → Job
returned_job token r = record {
  id = r.id;
  kind = r.kind;
  run_id = r.run_id;
  email_id = r.email_id;
  operator_resolution_id = r.operator_resolution_id;
  event_id = r.event_id;
  attempts = r.attempts + 1;
  max_attempts = r.max_attempts;
  lease_token = token;
}

unfoldable pub claim_job : ℕ → List ℕ → ℕ → ℕ → Jobs → Option Job × Jobs
unfolding select_job update_rows lease returned_job
claim_job now locked token lease_time db = elim (select_job now locked db) [
  | none ↦ (none, db)
  | some r ↦
      (some (returned_job token r), update_rows (has_id r.id) (lease now token lease_time) db)
]

-- `WHERE id = job_id AND state = 'leased' AND lease_token = token`
unfoldable pub fenced : ℕ → ℕ → JobRow → Bool
unfolding is_leased holds_token
fenced job_id token r = r.id == job_id && (is_leased r.state && holds_token token r.lease_token)

unfoldable pub complete : ℕ → JobRow → JobRow
complete now r = record r {
  state = done;
  lease_token = none;
  leased_until = none;
  updated_at = now;
}

unfoldable pub complete_job : ℕ → ℕ → ℕ → Jobs → Bool × Jobs
unfolding fenced complete update_rows
complete_job now job_id token db =
    (any (fenced job_id token) db, update_rows (fenced job_id token) (complete now) db)

-- The `CASE` of `fail_job`.
unfoldable pub failed_state : JobRow → JobState
failed_state r = if leb r.max_attempts r.attempts then dead else pending

unfoldable pub fail : ℕ → ℕ → Text → JobRow → JobRow
unfolding failed_state
fail now backoff detail r = record r {
  state = failed_state r;
  available_at = now + backoff;
  last_error = some detail;
  lease_token = none;
  leased_until = none;
  updated_at = now;
}

unfoldable pub fail_job : ℕ → ℕ → ℕ → ℕ → Text → Jobs → Option JobState × Jobs
unfolding fenced fail failed_state update_rows
fail_job now job_id token backoff detail db = (
  elim (find (fenced job_id token) db) [ none ↦ none | some r ↦ some (failed_state r) ],
  update_rows (fenced job_id token) (fail now backoff detail) db,
)

-- `lease_token = ANY(tokens) AND state = 'leased'`
unfoldable pub releasable : List ℕ → JobRow → Bool
unfolding is_leased
releasable tokens r =
    is_leased r.state && elim r.lease_token [ none ↦ false | some t ↦ contains t tokens ]

unfoldable pub release : ℕ → JobRow → JobRow
release now r = record r {
  state = pending;
  available_at = now;
  lease_token = none;
  leased_until = none;
  updated_at = now;
}

unfoldable pub release_leases : ℕ → List ℕ → Jobs → ℕ × Jobs
unfolding releasable release update_rows
release_leases now tokens db =
    if is_empty tokens
    then (0, db)
    else (length (keep (releasable tokens) db), update_rows (releasable tokens) (release now) db)

unfoldable pub get_job : ℕ → Jobs → Option JobRow
get_job job_id = find (has_id job_id)

unfoldable pub is_open : JobRow → Bool
unfolding is_pending is_leased
is_open r = is_pending r.state || is_leased r.state

unfoldable pub count_open_jobs : Jobs → ℕ
unfolding is_open
count_open_jobs db = length (keep is_open db)

-- The pending and the leased rows of the dictionary that is returned.
unfoldable pub count_jobs_by_state : Jobs → ℕ × ℕ
unfolding is_pending is_leased
count_jobs_by_state db = (
  length (keep (λ (r : JobRow). is_pending r.state) db),
  length (keep (λ (r : JobRow). is_leased r.state) db),
)

pub data QueueLabel : Type 0 where
  running queued retry_queued : QueueLabel

unfoldable pub of_run : ℕ → JobRow → Bool
of_run run_id r = elim r.run_id [ none ↦ false | some i ↦ i == run_id ]

unfoldable pub get_run_queue_label : ℕ → ℕ → Jobs → Option QueueLabel
unfolding is_pending is_leased of_run is_open
get_run_queue_label now run_id db =
    let rows = keep (λ r. of_run run_id r && is_open r) db in
    if any (λ (r : JobRow). is_leased r.state) rows
    then some running
    else if any (λ (r : JobRow). is_pending r.state && leb r.available_at now) rows
    then some queued
    else if any (λ (r : JobRow). is_pending r.state) rows
    then some retry_queued
    else none
