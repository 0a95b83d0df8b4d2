-- ===== src/Jobs/Enqueue.antt =====
-- app/db/repo/jobs.py::enqueue_job: the checks of a request, and the insertion that is idempotent
-- on the dedup key; the enumerations of app/pipeline/result.py that its diagnostic code names. A
-- finite float or int is the decimal of its value; an infinity, a NaN, a bool and a value of another
-- type are `not_finite`.
use payroll_agent.Prelude.{
  ℕ, ◌+◌, Text, codes, list_eq, nat_eq, Bool, true, false, not, ◌&&◌, eqb, Option, none, some, List,
  [], ◌∷◌, ◌++◌, ◌==◌, any, contains, is_some, is_none, if◌then◌else◌, get_or_else, Result, ok, err,
  ◌>>=◌,
}
use payroll_agent.Decimal.{Decimal, dec, lt_dec}
use payroll_agent.Jobs.{
  JobKind, run_pipeline, resume_reply, operator_resume, ingest, send_outbound, pending, JobRow,
  Jobs,
}

pub data Delay : Type 0 where
  finite : Decimal → Delay
  not_finite : Delay

pub data EnqueueError : Type 0 where
  bad_context bad_delay bad_diagnostic bad_ladder : EnqueueError

pub record Request : Type 0 where
  pub kind : JobKind
  pub dedup_key : Text
  pub run_id : Option ℕ
  pub email_id : Option ℕ
  pub operator_resolution_id : Option ℕ
  pub event_id : Option ℕ
  pub business_id : Option ℕ
  pub max_attempts : Option ℕ
  pub available_in_seconds : Delay
  pub safe_last_error : Option Text

abbrev pub send_outbound_max_attempts : ℕ
send_outbound_max_attempts = 8

-- The values of `PipelineStage` and `PipelineReason`.
unfoldable pub stages : List Text
stages =
    codes "unknown"
    ∷ codes "load"
    ∷ codes "extract"
    ∷ codes "persist"
    ∷ codes "clarification"
    ∷ codes "compute"
    ∷ codes "delivery"
    ∷ []

unfoldable pub reasons : List Text
reasons =
    codes "unclassified"
    ∷ codes "provider_connection_failure"
    ∷ codes "provider_timeout"
    ∷ codes "provider_rate_limit"
    ∷ codes "provider_server_failure"
    ∷ codes "schema_or_parse_failure"
    ∷ codes "client_request_failure"
    ∷ codes "ambiguous_send_failure"
    ∷ codes "invalid_operator_override_context"
    ∷ codes "delivery_timeout"
    ∷ codes "delivery_connection_failure"
    ∷ codes "delivery_rate_limit"
    ∷ codes "delivery_server_failure"
    ∷ codes "delivery_idempotency_payload_mismatch"
    ∷ codes "delivery_quota_exhausted"
    ∷ codes "delivery_validation_failure"
    ∷ codes "delivery_authentication_failure"
    ∷ codes "delivery_authorization_failure"
    ∷ codes "delivery_configuration_failure"
    ∷ codes "delivery_provider_failure"
    ∷ codes "delivery_record_only"
    ∷ codes "delivery_authorization_expired"
    ∷ []

-- `text.split(":")`: the first part and the others.
unfoldable pub split_colon : Text → Text × List Text
split_colon [] = ([], [])
split_colon (c ∷ s) = let (w, ws) = split_colon s in if eqb c 58 then ([], w ∷ ws) else (c ∷ w, ws)

unfoldable pub is_diagnostic : Text → Bool
unfolding split_colon stages reasons
is_diagnostic code =
    let (stage, rest) = split_colon code in
    elim rest [
      | [] ↦ false
      | reason ∷ more ↦ elim more [
        | [] ↦ contains stage stages && contains reason reasons
        | _ ∷ _ ↦ false
      ]
    ]

unfoldable pub delay_ok : Delay → Bool
delay_ok not_finite = false
delay_ok (finite d) = not (lt_dec d (dec 0 0)) && not (lt_dec (dec 300 0) d)

unfoldable pub diagnostic_ok : Option Text → Bool
unfolding is_diagnostic
diagnostic_ok none = true
diagnostic_ok (some code) = is_diagnostic code

-- The ceiling of the attempts, from the settings' default when none is given.
unfoldable pub attempt_ceiling : ℕ → JobKind → Option ℕ → Result EnqueueError ℕ
attempt_ceiling default send_outbound requested =
    if get_or_else requested send_outbound_max_attempts == send_outbound_max_attempts
    then ok send_outbound_max_attempts
    else err bad_ladder
attempt_ceiling default run_pipeline requested = ok (get_or_else requested default)
attempt_ceiling default resume_reply requested = ok (get_or_else requested default)
attempt_ceiling default operator_resume requested = ok (get_or_else requested default)
attempt_ceiling default ingest requested = ok (get_or_else requested default)

-- `now() + (seconds || ' seconds')::interval`
unfoldable pub due_time : (Decimal → ℕ) → ℕ → Delay → ℕ
due_time to_interval now not_finite = now
due_time to_interval now (finite d) = now + to_interval d

unfoldable pub new_row : (Decimal → ℕ) → ℕ → ℕ → ℕ → Request → JobRow
unfolding due_time
new_row to_interval now new_id max_attempts q = record {
  id = new_id;
  kind = q.kind;
  dedup_key = q.dedup_key;
  run_id = q.run_id;
  email_id = q.email_id;
  operator_resolution_id = q.operator_resolution_id;
  event_id = q.event_id;
  business_id = q.business_id;
  priority = 100;
  state = pending;
  attempts = 0;
  max_attempts = max_attempts;
  available_at = due_time to_interval now q.available_in_seconds;
  lease_token = none;
  leased_until = none;
  last_error = q.safe_last_error;
  created_at = now;
  updated_at = now;
}

-- `INSERT ... ON CONFLICT (dedup_key) DO NOTHING RETURNING id`
unfoldable pub insert_row : JobRow → Jobs → Option ℕ × Jobs
insert_row row db =
    if any (λ (r : JobRow). r.dedup_key == row.dedup_key) db
    then (none, db)
    else (some row.id, db ++ (row ∷ []))

module _ (show_uuid : ℕ → Text) where
  -- `f"send_outbound:{email_id}"`, and the key of an ingest job
  unfoldable pub send_outbound_dedup_key : ℕ → Text
  send_outbound_dedup_key email_id = codes "send_outbound:" ++ show_uuid email_id

  unfoldable pub ingest_dedup_key : ℕ → Text
  ingest_dedup_key event_id = codes "ingest:" ++ show_uuid event_id

  abbrev pub keyed_by : Text → (ℕ → Text) → Option ℕ → Bool
  keyed_by dedup_key key none = false
  keyed_by dedup_key key (some i) = dedup_key == key i

  -- Each kind owns a subset of the identifiers.
  unfoldable pub context_ok : Request → Bool
  unfolding send_outbound_dedup_key ingest_dedup_key
  context_ok q = elim q.kind [
    | ingest ↦
        keyed_by q.dedup_key ingest_dedup_key q.event_id
        && (is_none q.run_id
            && (is_none q.email_id && (is_none q.operator_resolution_id && is_none q.business_id)))
    | run_pipeline ↦
        is_some q.run_id
        && (is_none q.email_id && (is_none q.operator_resolution_id && is_none q.event_id))
    | resume_reply ↦
        is_some q.run_id
        && (is_some q.email_id && (is_none q.operator_resolution_id && is_none q.event_id))
    | operator_resume ↦
        is_some q.run_id
        && (is_some q.operator_resolution_id && (is_none q.email_id && is_none q.event_id))
    | send_outbound ↦
        is_some q.run_id
        && (keyed_by q.dedup_key send_outbound_dedup_key q.email_id
            && (is_none q.operator_resolution_id && (is_none q.event_id && is_none q.business_id)))
  ]

  unfoldable pub check_request : ℕ → Request → Result EnqueueError ℕ
  unfolding context_ok delay_ok diagnostic_ok attempt_ceiling
  check_request default q =
      if not (context_ok q)
      then err bad_context
      else if not (delay_ok q.available_in_seconds)
      then err bad_delay
      else if not (diagnostic_ok q.safe_last_error)
      then err bad_diagnostic
      else attempt_ceiling default q.kind q.max_attempts

  unfoldable pub enqueue_job :
      (Decimal → ℕ) → ℕ → ℕ → ℕ → Request → Jobs → Result EnqueueError (Option ℕ × Jobs)
  unfolding check_request new_row insert_row
  enqueue_job to_interval default now new_id q db = do
    max_attempts ← check_request default q
    ok (insert_row (new_row to_interval now new_id max_attempts q) db)
