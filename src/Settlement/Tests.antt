-- ===== src/Settlement/Tests.antt =====
-- Runs of app/db/repo/job_settlement.py.
use payroll_agent.Prelude.{
  ◌≡◌, ◌≢◌, refl, sym, ap, ◌∙◌, inl, inr, codes, nat_eq, list_eq, list_beq, true, Option, none,
  some, List, [], ◌∷◌, In, ok, err, map, arith,
}
use payroll_agent.Jobs.{Job, JobState, JobRow, is_leased, claim_job, release_leases}
use payroll_agent.Jobs.Valid.{IsValid}
use payroll_agent.Outcome.{PipelineResult}
use payroll_agent.Store.{Db, Handoff, SettlementOutcome, Settled}
use payroll_agent.Settlement.{locked_job, settle_pipeline_job, set_leased, settle_row}
use payroll_agent.Settlement.Lease.{Released, settle_pipeline_job-Released}
use payroll_agent.Settlement.Alarm.Accounted.{Quiet, settle_pipeline_job-Quiet}
use payroll_agent.Settlement.Delivery.{settle_outbound_delivery_job}
use payroll_agent.Settlement.Delivery.Total.{Ends, settle_outbound_delivery_job-Ends}
use payroll_agent.Settlement.Delivery.Stranded.{settle_outbound-stranded}
use payroll_agent.Settlement.Reaper.{reap_expired_final_attempt}
use payroll_agent.Settlement.Reaper.Reaps.{Reaps, reap_expired_final_attempt-Reaps}
use payroll_agent.Handoffs.{
  Authorization, HandoffOutcome, authorize_outbound_provider_handoff, is_active,
}
use payroll_agent.Handoffs.Refused.{Held}
use payroll_agent.Handoffs.Handler.{result_of}
use payroll_agent.Samples.{show_digit}
use payroll_agent.Fixture.{
  database, delivery_job, pipeline_job, delivery_row, pipeline_row, provider_failed, delivered,
}

-- What a settlement that does not raise says, and the job statuses that it commits.
abbrev outcome_of : Settled → Option (SettlementOutcome × List JobState)
outcome_of (ok (o, after)) = some (o, map (λ (r : JobRow). r.state) after.jobs)
outcome_of (err e) = none

retry_returns_the_job :
    outcome_of (settle_pipeline_job show_digit 150 160 pipeline_job provider_failed database)
    ≡ some (SettlementOutcome.retried, JobState.leased ∷ JobState.pending ∷ [])
unfolding settle_pipeline_job list_beq
retry_returns_the_job = refl

settle_pipeline_job-Released_example :
    Released pipeline_job database
      (settle_pipeline_job show_digit 150 160 pipeline_job provider_failed database)
settle_pipeline_job-Released_example =
    settle_pipeline_job-Released show_digit 150 160 pipeline_job provider_failed database

settle_pipeline_job-Quiet_example :
    Quiet database (settle_pipeline_job show_digit 150 160 pipeline_job provider_failed database)
settle_pipeline_job-Quiet_example =
    settle_pipeline_job-Quiet show_digit 150 160 pipeline_job provider_failed database

-- The handoff that the first lease of the delivery opens at 120.
abbrev handoff : Handoff
handoff = record {
  id = 9;
  run_id = 7;
  email_id = 5;
  snapshot_id = 50;
  job_id = 1;
  epoch = 0;
  lease_token = 11;
  owner_leased_until = 200;
  authorized_at = 120;
  not_after = 72000000100;
  released_at = none;
  release_reason = none;
}

abbrev authorized_database : Db
authorized_database = record database { handoffs = handoff ∷ [] }

opens_the_handoff :
    (a : Authorization) × (authorize_outbound_provider_handoff 120 9 delivery_job database
      ≡ ok (HandoffOutcome.authorized a, authorized_database))
unfolding authorize_outbound_provider_handoff list_beq
opens_the_handoff = (_, refl)

delivery_is_done :
    outcome_of (settle_outbound_delivery_job 150 delivery_job delivered authorized_database)
    ≡ some (SettlementOutcome.done, JobState.done ∷ JobState.leased ∷ [])
unfolding settle_outbound_delivery_job list_beq payroll_agent.Settlement.Outbound.complete_run
delivery_is_done = refl

settle_outbound_delivery_job-Ends_example :
    Ends delivery_job delivered authorized_database
      (settle_outbound_delivery_job 150 delivery_job delivered authorized_database)
settle_outbound_delivery_job-Ends_example =
    settle_outbound_delivery_job-Ends 150 delivery_job delivered authorized_database

-- A shutdown put the delivery back, and another worker claimed it at 160 with the token 13.
abbrev second_row : JobRow
second_row = record delivery_row { attempts = 2; lease_token = some 13; leased_until = some 260 }

abbrev second_job : Job
second_job = record delivery_job { attempts = 2; lease_token = 13 }

abbrev reclaimed : Db
reclaimed = record authorized_database { jobs = second_row ∷ pipeline_row ∷ [] }

claimed_again :
    (claim_job 160 [] 13 100 (release_leases 150 (11 ∷ []) authorized_database.jobs).1).0
    ≡ some second_job
unfolding claim_job release_leases
claimed_again = refl

foreign :
    (y : Handoff)
    → In y reclaimed.handoffs
    → is_active 7 y ≡ true
    → y.lease_token ≢ second_job.lease_token
foreign y (inl q) t e =
    let p : 11 ≡ 13 = ap (λ (h : Handoff). h.lease_token) (sym q) ∙ e in absurd (omega (arith, p))
foreign y (inr m) t e = absurd m

abbrev always : Authorization → PipelineResult
always a = delivered

settle_outbound-stranded_example :
    (o : HandoffOutcome) × Held o
    × (authorize_outbound_provider_handoff 170 10 second_job reclaimed ≡ ok (o, reclaimed))
    × (settle_outbound_delivery_job 170 second_job (result_of always second_job o) reclaimed
        ≡ ok (
          SettlementOutcome.invalid_context,
          set_leased second_job
              (settle_row 170 JobState.done (codes "delivery:invalid_context"))
              reclaimed,
        ))
unfolding locked_job payroll_agent.Handoffs.delivery_ids list_beq
    payroll_agent.Settlement.Outbound.delivery_context payroll_agent.Outcome.delivery_replay_allowed
    payroll_agent.Handoffs.active_handoff
settle_outbound-stranded_example =
    settle_outbound-stranded 170 10 second_job always reclaimed second_row 260 7 5 _ handoff refl
      refl refl refl refl refl refl foreign (omega arith)

abbrev final_database : Db
final_database = record database { jobs = (record pipeline_row { attempts = 8 }) ∷ [] }

reap_buries_the_job :
    (after : Db) × (reap_expired_final_attempt show_digit 300 [] final_database
      ≡ ok (some SettlementOutcome.reaped_final_lease, after))
    × (map (λ (r : JobRow). r.state) after.jobs ≡ JobState.dead ∷ [])
unfolding reap_expired_final_attempt list_beq
reap_buries_the_job = (_, refl, refl)

final_database-IsValid : IsValid final_database.jobs
unfolding is_leased
final_database-IsValid = record {
  coherent =
      (record { token_when_leased = refl; deadline_when_leased = refl; bounded = omega arith }, tt);
  own_ids = (λ m. m, tt);
  own_keys = (λ m. m, tt);
}

reap_expired_final_attempt-Reaps_example :
    Reaps 300 [] final_database (reap_expired_final_attempt show_digit 300 [] final_database)
reap_expired_final_attempt-Reaps_example =
    reap_expired_final_attempt-Reaps show_digit 300 [] final_database final_database-IsValid
