-- ===== src/Handlers/Tests.antt =====
-- Runs of app/queue/handlers/pipeline.py.
use payroll_agent.Prelude.{ℕ, ◌≡◌, refl, list_eq, list_beq, nat_eq, some, [], ◌∷◌, map, codes}
use payroll_agent.Jobs.{Job}
use payroll_agent.Runs.{RunRow, sent, rejected, status_value}
use payroll_agent.Store.{Db}
use payroll_agent.Handoffs.Handler.{bounded_noop}
use payroll_agent.Handlers.{Handled, handle_run_pipeline}
use payroll_agent.Handlers.Starts.{Starts, handle_run_pipeline-Starts}
use payroll_agent.Fixture.{database, pipeline_job, provider_failed, run_row}

-- Stages that fail at the provider and leave the tables.
abbrev stages : ℕ → Db → Handled
stages run_id db = (some provider_failed, db)

abbrev second_attempt : Job
second_attempt = record pipeline_job { attempts = 2 }

abbrev crashed : Db
crashed = record database { runs = run_row 8 sent ∷ [] }

abbrev turned_down : Db
turned_down = record database { runs = run_row 8 rejected ∷ [] }

crashed_run_restarts :
    map
      (λ (r : RunRow). status_value r.status)
      (handle_run_pipeline 170 stages second_attempt crashed).1.runs
    ≡ codes "extracting" ∷ []
unfolding handle_run_pipeline list_beq
crashed_run_restarts = refl

rejected_run_is_left :
    handle_run_pipeline 170 stages second_attempt turned_down ≡ (some bounded_noop, turned_down)
unfolding handle_run_pipeline list_beq
rejected_run_is_left = refl

handle_run_pipeline-Starts_example :
    Starts stages 2 8 crashed (handle_run_pipeline 170 stages second_attempt crashed)
handle_run_pipeline-Starts_example =
    handle_run_pipeline-Starts 170 stages second_attempt 8 crashed refl
