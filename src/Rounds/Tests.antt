-- ===== src/Rounds/Tests.antt =====
-- Runs of the detectors of app/pipeline/validate.py.
use payroll_agent.Prelude.{
  ℕ, ◌≡◌, ◌↔◌, refl, inl, inr, Text, codes, list_eq, list_beq, nat_eq, sorted, Option, none, some,
  List, [], ◌∷◌, In, true, false,
}
use payroll_agent.Prelude.Dict.{lookup}
use payroll_agent.Decimal.{dec, lt_dec, eq_dec}
use payroll_agent.Roster.{NameMatchResult}
use payroll_agent.Contracts.{
  Extracted, ExtractedEmployee, regular, overtime, get_hours, RawFieldDrop, HoursChange,
}
use payroll_agent.Rounds.{
  is_paid, pair_by_employee_id, detect_field_regression, detect_hours_changes,
}
use payroll_agent.Rounds.Entries.{LastFor}
use payroll_agent.Rounds.Detectors.{Seen, paid_hours-Seen}
use payroll_agent.Samples.{mia_extracted, mia_hours, matched, hours, extracted}

-- The reply names Maria in full, says 40 instead of 44 hours, and no overtime.
abbrev reply_hours : ExtractedEmployee
reply_hours = hours (codes "maria chen") (some (dec 40 0)) none

abbrev reply : Extracted
reply = extracted (reply_hours ∷ [])

abbrev before : List NameMatchResult
before = matched (codes "mia") 1 ∷ []

abbrev after : List NameMatchResult
after = matched (codes "maria chen") 1 ∷ []

abbrev dropped : RawFieldDrop
dropped = record {
  submitted_name = codes "maria chen";
  field = overtime;
  original_value = dec 4 0;
  resumed_value = none;
}

abbrev changed : HoursChange
changed = record {
  submitted_name = codes "maria chen";
  field = regular;
  original_value = dec 44 0;
  resumed_value = dec 40 0;
}

drops_found : detect_field_regression mia_extracted reply (some before) after ≡ dropped ∷ []
unfolding detect_field_regression lookup payroll_agent.Prelude.Dict.insert list_beq get_hours lt_dec
    payroll_agent.Prelude.Int.◌*ℤ◌
drops_found = refl

changes_found : detect_hours_changes mia_extracted reply (some before) after ≡ changed ∷ []
unfolding detect_hours_changes lookup payroll_agent.Prelude.Dict.insert list_beq get_hours lt_dec
    payroll_agent.Prelude.Int.◌*ℤ◌ eq_dec
changes_found = refl

paired : In (mia_hours, reply_hours) (pair_by_employee_id mia_extracted reply before after)
unfolding pair_by_employee_id lookup payroll_agent.Prelude.Dict.insert list_beq
paired = inl refl

dropped_in : In dropped (detect_field_regression mia_extracted reply (some before) after)
dropped_in = rw drops_found (inl refl)

changed_in : In changed (detect_hours_changes mia_extracted reply (some before) after)
changed_in = rw changes_found (inl refl)

overtime_paid : is_paid (some (dec 4 0)) ≡ true
unfolding is_paid lt_dec payroll_agent.Prelude.Int.◌*ℤ◌
overtime_paid = refl

mia_last : LastFor before 1 mia_extracted.employees mia_hours
mia_last = ([], [], refl, ([], [], _, refl, refl, (refl, refl), λ m k. absurd k), λ x k. absurd k)

reply_last : LastFor after 1 reply.employees reply_hours
reply_last = ([], [], refl, ([], [], _, refl, refl, (refl, refl), λ m k. absurd k), λ x k. absurd k)

paid_hours-Seen_example :
    Seen mia_extracted reply before after (codes "maria chen") overtime (dec 4 0) none
unfolding get_hours
paid_hours-Seen_example =
    paid_hours-Seen mia_extracted reply before after 1 mia_hours reply_hours overtime (dec 4 0)
      mia_last reply_last refl overtime_paid
