-- ===== src/System/Tests.antt =====
-- A delivery that is claimed, authorized and put back by a shutdown, as transactions.
use payroll_agent.Prelude.{ℕ, refl, nat_eq, list_eq, list_beq, none, [], ◌∷◌}
use payroll_agent.Decimal.{Decimal}
use payroll_agent.Jobs.{release_leases}
use payroll_agent.Jobs.Valid.{Step}
use payroll_agent.Store.{Db, Handoff}
use payroll_agent.Handoffs.{authorized, authorize_outbound_provider_handoff}
use payroll_agent.System.{Transaction, Reachable}
use payroll_agent.System.Invariant.{IsSound, Reachable-IsSound}
use payroll_agent.Samples.{show_digit}
use payroll_agent.Fixture.{database, database-IsSound, delivery_job}

abbrev no_delay : Decimal → ℕ
no_delay d = 0

abbrev handoff : Handoff
handoff = record {
  id = 9;
  run_id = 7;
  email_id = 5;
  snapshot_id = 50;
  job_id = 1;
  epoch = 0;
  lease_token = 11;
  owner_leased_until = 200;
  authorized_at = 120;
  not_after = 72000000100;
  released_at = none;
  release_reason = none;
}

abbrev authorized_database : Db
authorized_database = record database { handoffs = handoff ∷ [] }

abbrev put_back : Db
put_back = record authorized_database {
  jobs = (release_leases 150 (11 ∷ []) authorized_database.jobs).1;
}

reach_authorized : Reachable show_digit show_digit no_delay 5 IsSound authorized_database
unfolding authorize_outbound_provider_handoff list_beq
reach_authorized =
    Reachable.then_step (Reachable.starts database database-IsSound)
      (Transaction.authorizes 120 9 delivery_job (authorized _) authorized_database refl)

reach_put_back : Reachable show_digit show_digit no_delay 5 IsSound put_back
reach_put_back =
    Reachable.then_step reach_authorized
      (Transaction.queues put_back.jobs (Step.released 150 (11 ∷ [])))

Reachable-IsSound_example : IsSound put_back
Reachable-IsSound_example = Reachable-IsSound show_digit show_digit no_delay 5 reach_put_back
