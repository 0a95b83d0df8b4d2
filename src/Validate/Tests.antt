-- ===== src/Validate/Tests.antt =====
-- Runs of app/pipeline/validate.py in front of app/pipeline/decide.py.
use payroll_agent.Prelude.{
  ℕ, ◌≡◌, refl, inl, inr, Text, codes, list_eq, list_beq, nat_eq, sorted, text_le, Option, none,
  some, List, [], ◌∷◌, In, true, false,
}
use payroll_agent.Prelude.Dict.{lookup}
use payroll_agent.Decimal.{dec, lt_dec}
use payroll_agent.Roster.{NameMatchResult, hourly}
use payroll_agent.Contracts.{overtime, get_hours, RawFieldDrop, process, request_clarification}
use payroll_agent.Rounds.{is_paid}
use payroll_agent.Rounds.Entries.{Names}
use payroll_agent.Decide.{decide}
use payroll_agent.Validate.{DropKey, employee_pay_type, employee_pay_periods_per_year, validate}
use payroll_agent.Validate.Issues.{processed-overtime, processed-drops}
use payroll_agent.Samples.{roster, mia_extracted, mia_hours, matched, hours, extracted}

abbrev matches : List NameMatchResult
matches = matched (codes "mia") 1 ∷ []

-- A drop of four overtime hours, and the pair that says it is answered.
abbrev drop : RawFieldDrop
drop = record {
  submitted_name = codes "mia";
  field = overtime;
  original_value = dec 4 0;
  resumed_value = none;
}

abbrev answered : List DropKey
answered = (1, overtime) ∷ []

processed :
    (decide mia_extracted matches
      (validate mia_extracted roster matches answered (drop ∷ []))).final_action
    ≡ process
unfolding decide validate payroll_agent.Decide.gate_reasons payroll_agent.Decide.extraction_reasons
    list_beq sorted payroll_agent.Decide.unresolved_reasons payroll_agent.Decide.missing_fields
    lookup payroll_agent.Prelude.Dict.insert get_hours lt_dec payroll_agent.Prelude.Int.◌*ℤ◌
    payroll_agent.Decide.regressions payroll_agent.Decide.check_one_to_one
    payroll_agent.Decide.collision_reasons payroll_agent.Decide.by_employee
    payroll_agent.Decide.duplicate_reasons
processed = refl

-- 44 regular hours in a week and no overtime: the gate asks.
lumped :
    let x = extracted (hours (codes "mia") (some (dec 44 0)) none ∷ []) in
    (decide x matches (validate x roster matches [] [])).final_action ≡ request_clarification
unfolding decide validate payroll_agent.Decide.gate_reasons payroll_agent.Decide.extraction_reasons
    list_beq sorted payroll_agent.Decide.unresolved_reasons payroll_agent.Decide.missing_fields
    get_hours lt_dec payroll_agent.Prelude.Int.◌*ℤ◌ payroll_agent.Roster.is_missing
lumped = refl

pay_type-mia : employee_pay_type (codes "mia") matches roster ≡ some hourly
unfolding employee_pay_type list_beq
pay_type-mia = refl

pay_periods-mia : employee_pay_periods_per_year (codes "mia") matches roster ≡ some 52
unfolding employee_pay_periods_per_year list_beq
pay_periods-mia = refl

above_limit : lt_dec (dec 40 0) (dec 44 0) ≡ true
unfolding lt_dec payroll_agent.Prelude.Int.◌*ℤ◌
above_limit = refl

processed-overtime_example : is_paid (some (dec 4 0)) ≡ true
processed-overtime_example =
    processed-overtime mia_extracted roster matches answered (drop ∷ []) processed mia_hours 52 40
      (dec 44 0) (inl refl) (inl (refl, refl)) pay_periods-mia refl above_limit

mia_named : Names matches (codes "mia") 1
mia_named = ([], [], _, refl, refl, (refl, refl), λ m k. absurd k)

processed-drops_example : In (1, overtime) answered
processed-drops_example =
    processed-drops mia_extracted roster matches answered (drop ∷ []) processed drop 1 (inl refl)
      mia_named
