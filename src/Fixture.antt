-- ===== src/Fixture.antt =====
-- A database of two leased jobs and their runs, which the tests of the settlement, the handoffs and
-- the drain share.
use payroll_agent.Prelude.{
  ℕ, refl, inl, inr, In, Text, codes, list_eq, nat_eq, false, Option, none, some, [], ◌∷◌, arith,
}
use payroll_agent.Outcome.{
  PipelineOutcome, retryable, extract, PipelineReason, provider_timeout, PipelineResult, delivery,
  delivery_timeout,
}
use payroll_agent.Jobs.{Job, JobRow, JobKind, run_pipeline, send_outbound, leased, is_leased}
use payroll_agent.Runs.{RunStatus, extracting, approved, RunRow}
use payroll_agent.System.Invariant.{IsSound}
use payroll_agent.Store.{Db, Message, Snapshot}

abbrev pub leased_row : ℕ → JobKind → Text → ℕ → Option ℕ → ℕ → JobRow
leased_row id kind dedup_key run_id email_id token = record {
  id = id;
  kind = kind;
  dedup_key = dedup_key;
  run_id = some run_id;
  email_id = email_id;
  operator_resolution_id = none;
  event_id = none;
  business_id = none;
  priority = 100;
  state = leased;
  attempts = 1;
  max_attempts = 8;
  available_at = 100;
  lease_token = some token;
  leased_until = some 200;
  last_error = none;
  created_at = 100;
  updated_at = 100;
}

abbrev pub delivery_row : JobRow
delivery_row = leased_row 1 send_outbound (codes "send:7:5") 7 (some 5) 11

abbrev pub pipeline_row : JobRow
pipeline_row = leased_row 2 run_pipeline (codes "run:8") 8 none 12

abbrev pub held_job : JobRow → ℕ → Job
held_job r token = record {
  id = r.id;
  kind = r.kind;
  run_id = r.run_id;
  email_id = r.email_id;
  operator_resolution_id = none;
  event_id = none;
  attempts = 1;
  max_attempts = 8;
  lease_token = token;
}

abbrev pub delivery_job : Job
delivery_job = held_job delivery_row 11

abbrev pub pipeline_job : Job
pipeline_job = held_job pipeline_row 12

abbrev pub run_row : ℕ → RunStatus → RunRow
run_row id status = record {
  id = id;
  status = status;
  reply_epoch = 0;
  record_only = false;
  clarification_round = 0;
  business_id = 3;
  error_reason = none;
  error_detail = none;
  updated_at = 100;
}

abbrev pub confirmation : Message
confirmation = record {
  id = 5;
  run_id = some 7;
  purpose = codes "confirmation";
  epoch = 0;
  send_state = codes "reserved";
}

abbrev pub frozen : Snapshot
frozen = record { id = 50; email_id = 5; reserved_at = 100 }

abbrev pub database : Db
database = record {
  jobs = delivery_row ∷ pipeline_row ∷ [];
  runs = run_row 7 approved ∷ run_row 8 extracting ∷ [];
  messages = confirmation ∷ [];
  snapshots = frozen ∷ [];
  handoffs = [];
  delivery_attempts = [];
}

abbrev pub provider_failed : PipelineResult
provider_failed = record { outcome = retryable; stage = extract; reason = provider_timeout }

abbrev pub delivery_failed : PipelineResult
delivery_failed = record { outcome = retryable; stage = delivery; reason = delivery_timeout }

abbrev pub delivered : PipelineResult
delivered = record {
  outcome = PipelineOutcome.ok;
  stage = delivery;
  reason = PipelineReason.unclassified;
}

other_id : ¬ In delivery_row.id (pipeline_row.id ∷ [])
other_id (inl q) = omega (arith, q)
other_id (inr m) = m

other_key : ¬ In delivery_row.dedup_key (pipeline_row.dedup_key ∷ [])
other_key (inl q) = cc q
other_key (inr m) = m

pub database-IsSound : IsSound database
unfolding is_leased
database-IsSound = record {
  jobs = record {
    coherent = (
      record { token_when_leased = refl; deadline_when_leased = refl; bounded = omega arith },
      (record { token_when_leased = refl; deadline_when_leased = refl; bounded = omega arith }, tt),
    );
    own_ids = (other_id, ((λ m. m), tt));
    own_keys = (other_key, ((λ m. m), tt));
  };
  handoffs = λ run_id. omega arith;
}
