-- ===== src/Drain/Tests.antt =====
-- Runs of app/queue/drain.py.
use payroll_agent.Prelude.{
  Option, map, codes, ℕ, ◌≡◌, ◌≢◌, refl, inl, inr, In, nat_eq, list_eq, list_beq, true, some, List,
  [], ◌∷◌, ok,
}
use payroll_agent.Outcome.{PipelineOutcome, PipelineResult, extract, provider_timeout, terminal}
use payroll_agent.Runs.{RunRow, status_value, rejected}
use payroll_agent.Store.{Db, SettlementOutcome, Message}
use payroll_agent.Settlement.{settle_pipeline_job, has_lease, run_in}
use payroll_agent.Drain.{
  DrainOutcome, is_idle, Phase, idle, claiming, granted, working, Workers, Step, Reachable,
  held_tokens, lease_is_settled,
}
use payroll_agent.Drain.Tokens.{Snapshot, held_tokens-Snapshot}
use payroll_agent.Drain.Forgotten.{fenced_forgets}
use payroll_agent.Jobs.{Job}
use payroll_agent.Drain.Once.{Drained, drain_once}
use payroll_agent.Drain.Once.Drains.{Drains, drain_once-Drains}
use payroll_agent.System.Invariant.{handle_send_outbound-IsSound}
use payroll_agent.Handoffs.{Authorization}
use payroll_agent.Handoffs.Handler.{handle_send_outbound}
use payroll_agent.Samples.{show_digit}
use payroll_agent.Fixture.{
  database, database-IsSound, delivered, pipeline_job, pipeline_row, run_row,
}

abbrev workers : List Phase → List ℕ → ℕ → List ℕ → Workers
workers phases held in_flight leases = record {
  phases = phases;
  held = held;
  in_flight = in_flight;
  leases = leases;
  forgotten = [];
}

-- One thread of two claims a job between the first poll and the second.
abbrev at_start : Workers
at_start = workers (idle ∷ idle ∷ []) [] 0 []

abbrev in_claim : Workers
in_claim = workers (claiming ∷ idle ∷ []) [] 1 []

abbrev at_grant : Workers
at_grant = workers (granted 4 ∷ idle ∷ []) [] 1 (4 ∷ [])

abbrev at_work : Workers
at_work = workers (working 4 ∷ idle ∷ []) (4 ∷ []) 0 (4 ∷ [])

reach_start : Reachable at_start
unfolding is_idle
reach_start = Reachable.starts at_start (refl, (refl, tt)) refl refl refl refl

reach_claim : Reachable in_claim
reach_claim = Reachable.then_step reach_start (Step.begins [] (idle ∷ []) refl)

no_token : ¬ In (Phase.settled 4) in_claim.phases
no_token (inl q) = cc q
no_token (inr (inl q)) = cc q
no_token (inr (inr m)) = absurd m

reach_grant : Reachable at_grant
reach_grant = Reachable.then_step reach_claim (Step.is_granted [] (idle ∷ []) 4 refl no_token)

reach_work : Reachable at_work
reach_work = Reachable.then_step reach_grant (Step.records [] (idle ∷ []) 4 refl)

held_at_work : held_tokens 50 ((10, at_grant) ∷ (20, at_work) ∷ []) ≡ some (4 ∷ [])
unfolding held_tokens
held_at_work = refl

held_tokens-Snapshot_example : Snapshot 50 ((10, at_grant) ∷ (20, at_work) ∷ []) (4 ∷ [])
held_tokens-Snapshot_example =
    held_tokens-Snapshot 50 ((10, at_grant) ∷ (20, at_work) ∷ []) (4 ∷ [])
      (reach_grant, (reach_work, tt)) held_at_work

-- The operator rejected the run while its pipeline job ran.
abbrev moved_on : Db
moved_on = record database { runs = run_row 8 rejected ∷ [] }

abbrev failed : PipelineResult
failed = record { outcome = terminal; stage = extract; reason = provider_timeout }

is_failure : failed.outcome ≢ PipelineOutcome.ok
is_failure q = cc q

fenced_forgets_example :
    (settle_pipeline_job show_digit 150 160 pipeline_job failed moved_on
      ≡ ok (SettlementOutcome.fenced, moved_on))
    × (lease_is_settled pipeline_job.kind SettlementOutcome.fenced ≡ true)
    × (has_lease pipeline_job moved_on ≡ true)
unfolding payroll_agent.Settlement.locked_job payroll_agent.Settlement.same_kind list_beq run_in
fenced_forgets_example =
    fenced_forgets show_digit 150 160 pipeline_job failed moved_on pipeline_row 8 refl refl refl
      refl refl refl is_failure refl

-- At 300 both leases are over; the delivery is claimed again with the token 21 and delivered.
abbrev accept : Authorization → PipelineResult
accept a = delivered

abbrev deliver : Job → Db → Option PipelineResult × Db
deliver = handle_send_outbound 301 9 accept

abbrev drained : Drained
drained = drain_once show_digit (λ n. 5) deliver 300 302 [] 21 100 database

drain_is_done :
    (after : Db) × (drained ≡ ok (DrainOutcome.done, true, after))
    × (map (λ (m : Message). m.send_state) after.messages ≡ codes "sent" ∷ [])
    × (map (λ (r : RunRow). status_value r.status) after.runs
        ≡ codes "reconciled" ∷ codes "extracting" ∷ [])
unfolding drain_once handle_send_outbound list_beq payroll_agent.Settlement.Outbound.complete_run
drain_is_done = (_, refl, refl, refl)

drain_once-Drains_example : Drains 300 302 [] 21 100 database drained
drain_once-Drains_example =
    drain_once-Drains show_digit (λ n. 5) deliver (handle_send_outbound-IsSound 301 9 accept) 300
      302 [] 21 100 database database-IsSound
