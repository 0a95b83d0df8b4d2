-- ===== src/Backfill/Tests.antt =====
-- Runs of app/pipeline/orchestrator.py::backfill_extracted.
use payroll_agent.Prelude.{
  ◌≡◌, refl, codes, list_eq, list_beq, nat_eq, Option, none, some, List, [], ◌∷◌, Pointwise,
}
use payroll_agent.Prelude.Dict.{lookup, insert}
use payroll_agent.Decimal.{dec}
use payroll_agent.Roster.{NameMatchResult}
use payroll_agent.Contracts.{Extracted, ExtractedEmployee, overtime}
use payroll_agent.Rounds.{name_to_id, id_keyed}
use payroll_agent.Backfill.{backfill_extracted}
use payroll_agent.Backfill.Filled.{IsBackfilled, backfill_extracted-IsBackfilled}
use payroll_agent.Samples.{mia_extracted, hours, extracted, matched}

-- Maria says 40 hours, under her full name, and is silent on the overtime.
abbrev reply : Extracted
reply = extracted (hours (codes "maria chen") (some (dec 40 0)) none ∷ [])

abbrev before : List NameMatchResult
before = matched (codes "mia") 1 ∷ []

abbrev after : List NameMatchResult
after = matched (codes "maria chen") 1 ∷ []

carried_forward :
    (backfill_extracted reply (some mia_extracted) before after []).employees
    ≡ hours (codes "maria chen") (some (dec 40 0)) (some (dec 4 0)) ∷ []
unfolding backfill_extracted lookup insert list_beq payroll_agent.Contracts.get_hours
    payroll_agent.Decimal.lt_dec payroll_agent.Prelude.Int.◌*ℤ◌
carried_forward = refl

confirmed_dropped :
    (backfill_extracted reply (some mia_extracted) before after ((1, overtime) ∷ [])).employees
    ≡ hours (codes "maria chen") (some (dec 40 0)) none ∷ []
unfolding backfill_extracted lookup insert list_beq payroll_agent.Contracts.get_hours
    payroll_agent.Decimal.lt_dec payroll_agent.Prelude.Int.◌*ℤ◌
confirmed_dropped = refl

backfill_extracted-IsBackfilled_example :
    Pointwise
      (IsBackfilled [] (name_to_id after) (id_keyed mia_extracted before))
      reply.employees
      (backfill_extracted reply (some mia_extracted) before after []).employees
backfill_extracted-IsBackfilled_example =
    backfill_extracted-IsBackfilled [] reply mia_extracted before after
