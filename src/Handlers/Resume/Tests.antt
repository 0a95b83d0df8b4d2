-- ===== src/Handlers/Resume/Tests.antt =====
-- Runs of app/queue/handlers/resume_reply.py.
use payroll_agent.Prelude.{
  ℕ, ◌≡◌, refl, list_eq, list_beq, nat_eq, Bool, true, Option, none, some, List, [], ◌∷◌, map,
  codes, Text, ◌==◌, if◌then◌else◌,
}
use payroll_agent.Jobs.{Job, resume_reply}
use payroll_agent.Runs.{RunRow, awaiting_reply, status_value}
use payroll_agent.Store.{Db}
use payroll_agent.Handoffs.Handler.{bounded_noop}
use payroll_agent.Handlers.{Handled}
use payroll_agent.Handlers.Resume.{InboundEmail, handle_resume_reply}
use payroll_agent.Handlers.Resume.Authentic.{Resumes, handle_resume_reply-Resumes}
use payroll_agent.Fixture.{database, pipeline_job, provider_failed, run_row}

abbrev reply : Text → InboundEmail
reply from_addr = record { id = 6; run_id = some 8; from_addr = some from_addr }

abbrev contacts : Text → Option ℕ
contacts from_addr = if from_addr == codes "pat@acme" then some 3 else none

abbrev converts : InboundEmail → Bool
converts row = true

abbrev stages : ℕ → InboundEmail → Db → Handled
stages run_id row db = (some provider_failed, db)

abbrev waiting : Db
waiting = record database { runs = run_row 8 awaiting_reply ∷ [] }

abbrev job : Job
job = record pipeline_job { kind = resume_reply; email_id = some 6 }

abbrev resumed : List InboundEmail → Handled
resumed emails = handle_resume_reply contacts converts stages 170 emails job waiting

a_contact_resumes :
    map (λ (r : RunRow). status_value r.status) (resumed (reply (codes "pat@acme") ∷ [])).1.runs
    ≡ codes "received" ∷ []
unfolding handle_resume_reply list_beq
a_contact_resumes = refl

a_stranger_does_not : resumed (reply (codes "eve@evil") ∷ []) ≡ (some bounded_noop, waiting)
unfolding handle_resume_reply list_beq
a_stranger_does_not = refl

handle_resume_reply-Resumes_example :
    Resumes contacts converts stages 8 6
      (reply (codes "pat@acme") ∷ [])
      waiting
      (handle_resume_reply contacts converts stages 170 (reply (codes "pat@acme") ∷ []) job waiting)
handle_resume_reply-Resumes_example =
    handle_resume_reply-Resumes contacts converts stages 170 (reply (codes "pat@acme") ∷ []) job
      waiting 8 6 refl refl
