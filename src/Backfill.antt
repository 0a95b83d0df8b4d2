-- ===== src/Backfill.antt =====
-- app/pipeline/orchestrator.py::backfill_extracted: the fields that a reply leaves out are filled
-- from the snapshot of the round before. `str(employee_id)` is only compared, so a key holds the id.
pub mod Filled
mod Tests
use payroll_agent.Prelude.{
  ℕ, list_eq, nat_eq, Text, Bool, true, false, not, ◌&&◌, Option, none, some, List, [], ◌∷◌, map,
  is_empty, if◌then◌else◌, get_or_else,
}
use payroll_agent.Prelude.Dict.{Dict, lookup}
use payroll_agent.Decimal.{Decimal}
use payroll_agent.Roster.{NameMatchResult}
use payroll_agent.Contracts.{
  Extracted, ExtractedEmployee, HoursField, regular, overtime, vacation, sick, holiday, get_hours,
}
use payroll_agent.Rounds.{is_paid, name_to_id, id_keyed}
use payroll_agent.Validate.{DropKey, is_resolved_drop}

-- One field: the snapshot's value where the reply pays nothing and the client did not settle it.
unfoldable pub fill_field :
    List DropKey → ℕ → HoursField → Option Decimal → Option Decimal → Option Decimal
unfolding is_paid is_resolved_drop
fill_field drops i field current_val snap_val =
    if not (is_paid current_val) && (is_paid snap_val && not (is_resolved_drop i field drops))
    then snap_val
    else current_val

-- `ExtractedEmployee(**emp_dict)` after the loop over the hours fields.
unfoldable pub fill : List DropKey → ℕ → ExtractedEmployee → ExtractedEmployee → ExtractedEmployee
unfolding fill_field
fill drops i snap emp =
    let filled : HoursField → Option Decimal =
      λ f. fill_field drops i f (get_hours emp f) (get_hours snap f) in
    record emp {
      hours_regular = filled regular;
      hours_overtime = filled overtime;
      hours_vacation = filled vacation;
      hours_sick = filled sick;
      hours_holiday = filled holiday;
    }

-- The id of the employee in the current round, and the snapshot's entry of that id.
unfoldable pub snapshot_entry :
    Dict Text ℕ → Dict ℕ ExtractedEmployee → Text → Option (ℕ × ExtractedEmployee)
snapshot_entry name_to_id_current id_to_snapshot_emp name = elim (lookup name name_to_id_current) [
  | none ↦ none
  | some i ↦ elim (lookup i id_to_snapshot_emp) [ none ↦ none | some snap_emp ↦ some (i, snap_emp) ]
]

unfoldable pub backfill_employee :
    Dict Text ℕ → Dict ℕ ExtractedEmployee → List DropKey → ExtractedEmployee → ExtractedEmployee
unfolding snapshot_entry fill
backfill_employee name_to_id_current id_to_snapshot_emp drops emp =
    elim (snapshot_entry name_to_id_current id_to_snapshot_emp emp.submitted_name) [
      | none ↦ emp
      | some found ↦ fill drops found.0 found.1 emp
    ]

-- An absent list of matches or of settled drops is the empty one.
unfoldable pub backfill_extracted :
    Extracted
    → Option Extracted
    → List NameMatchResult
    → List NameMatchResult
    → List DropKey
    → Extracted
unfolding id_keyed name_to_id backfill_employee
backfill_extracted extracted none prior_matches matches drops = extracted
backfill_extracted extracted (some snapshot) prior_matches matches drops =
    let id_to_snapshot_emp = id_keyed snapshot prior_matches in
    if is_empty id_to_snapshot_emp then extracted else record extracted {
      employees =
          map (backfill_employee (name_to_id matches) id_to_snapshot_emp drops) extracted.employees;
    }
