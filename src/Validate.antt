-- ===== src/Validate.antt =====
-- app/pipeline/validate.py: the issues that make a run clarify, over the records of
-- the resolver. `str(employee_id)` is only compared, so a key of a resolved drop holds the id.
pub mod Settled
pub mod Issues
mod Tests
use payroll_agent.Prelude.{
  ℕ, ◌++◌, Text, codes, sorted, list_eq, nat_eq, leb, eqb, Bool, true, false, not, ◌&&◌, ◌||◌,
  Option, none, some, List, [], ◌∷◌, map, ◌==◌, any, keep, find, contains, is_none, if◌then◌else◌,
}
use payroll_agent.Prelude.Dict.{lookup}
use payroll_agent.Decimal.{Decimal, dec, lt_dec}
use payroll_agent.Rounds.{is_paid, name_to_id}
use payroll_agent.Roster.{
  Employee, PayType, hourly, salary, Roster, NameMatchResult, ValidationIssue, IssueMessage,
  missing, field_regression, regression, no_hours, weekly_no_overtime, biweekly_no_overtime,
}
use payroll_agent.Contracts.{
  Extracted, ExtractedEmployee, HoursField, regular, overtime, hours_fields, field_name, get_hours,
  RawFieldDrop,
}

-- The employee of one match, when the match is for the name.
unfoldable pub matched_employee : Text → NameMatchResult → Roster → Option Employee
matched_employee name m roster =
    if m.submitted_name == name
    then elim m.matched_employee_id [
      | none ↦ none
      | some i ↦ find (λ (e : Employee). e.id == i) roster.employees
    ]
    else none

abbrev or_else {ℓ} : {A : Type ℓ} → Option A → Option A → Option A
or_else none b = b
or_else (some a) b = some a

-- The lookup that `_employee_pay_type` and `_employee_pay_periods_per_year` share.
unfoldable pub employee_of : Text → List NameMatchResult → Roster → Option Employee
unfolding matched_employee
employee_of name [] roster = none
employee_of name (m ∷ ms) roster =
    or_else (matched_employee name m roster) (employee_of name ms roster)

unfoldable pub employee_pay_type : Text → List NameMatchResult → Roster → Option PayType
unfolding employee_of
employee_pay_type name ms roster = elim (employee_of name ms roster) [
  | none ↦ none
  | some e ↦ some e.pay_type
]

unfoldable pub employee_pay_periods_per_year : Text → List NameMatchResult → Roster → Option ℕ
unfolding employee_of
employee_pay_periods_per_year name ms roster = elim (employee_of name ms roster) [
  | none ↦ none
  | some e ↦ some e.pay_periods_per_year
]

abbrev pub dot : Text
dot = codes "."

-- `f"{name}.{field}"`
unfoldable pub issue_field : Text → HoursField → Text
unfolding field_name
issue_field name f = name ++ (dot ++ field_name f)

-- A resolved drop: the employee and the field. The orchestrator passes the pairs of every answered
-- round here: dropped, supplied or carried forward.
abbrev pub DropKey : Type 0
DropKey = ℕ × HoursField

unfoldable pub field_beq : HoursField → HoursField → Bool
unfolding field_name
field_beq f g = field_name f == field_name g

unfoldable pub is_resolved_drop : ℕ → HoursField → List DropKey → Bool
unfolding field_beq
is_resolved_drop i f drops = any (λ (d : DropKey). d.0 == i && field_beq d.1 f) drops

unfoldable pub regression_issue : RawFieldDrop → ValidationIssue
unfolding issue_field
regression_issue d = record {
  field = issue_field d.submitted_name d.field;
  issue_type = field_regression;
  message = regression (field_name d.field) d.original_value d.resumed_value;
}

-- The issue of one drop, unless its name is not resolved or its pair is among `resolved_drops`.
unfoldable pub drop_issue :
    List NameMatchResult → List DropKey → RawFieldDrop → List ValidationIssue
unfolding name_to_id is_resolved_drop regression_issue
drop_issue matches resolved_drops d = elim (lookup d.submitted_name (name_to_id matches)) [
  | none ↦ []
  | some i ↦ if is_resolved_drop i d.field resolved_drops then [] else regression_issue d ∷ []
]

unfoldable pub drop_issues :
    List NameMatchResult → List DropKey → List RawFieldDrop → List ValidationIssue
unfolding drop_issue
drop_issues matches resolved_drops [] = []
drop_issues matches resolved_drops (d ∷ ds) =
    drop_issue matches resolved_drops d ++ drop_issues matches resolved_drops ds

unfoldable pub any_hours : ExtractedEmployee → Bool
unfolding is_paid
any_hours e = any (λ f. is_paid (get_hours e f)) hours_fields

unfoldable pub missing_issue : Text → HoursField → IssueMessage → ValidationIssue
unfolding issue_field
missing_issue name f message = record {
  field = issue_field name f;
  issue_type = missing;
  message = message;
}

-- An hourly employee with no hours of any kind.
unfoldable pub hours_issue :
    List NameMatchResult → Roster → ExtractedEmployee → List ValidationIssue
unfolding any_hours employee_pay_type missing_issue
hours_issue matches roster e =
    if any_hours e then [] else elim (employee_pay_type e.submitted_name matches roster) [
      | some hourly ↦ missing_issue e.submitted_name regular (no_hours e.submitted_name) ∷ []
      | _ ↦ []
    ]

-- More regular hours than `limit`, and no paid overtime.
unfoldable pub lumped_hours : ExtractedEmployee → ℕ → Option Decimal
unfolding is_paid
lumped_hours e limit = elim e.hours_regular [
  | none ↦ none
  | some h ↦ if lt_dec (dec limit 0) h && not (is_paid e.hours_overtime) then some h else none
]

unfoldable pub overtime_issue :
    List NameMatchResult → Roster → ExtractedEmployee → List ValidationIssue
unfolding employee_pay_periods_per_year lumped_hours missing_issue
overtime_issue matches roster e =
    elim (employee_pay_periods_per_year e.submitted_name matches roster) [
      | none ↦ []
      | some ppy ↦
          if eqb ppy 52
          then elim (lumped_hours e 40) [
            | none ↦ []
            | some h ↦
                missing_issue e.submitted_name overtime (weekly_no_overtime e.submitted_name h) ∷ []
          ]
          else if eqb ppy 26
          then elim (lumped_hours e 80) [
            | none ↦ []
            | some h ↦
                missing_issue e.submitted_name overtime (biweekly_no_overtime e.submitted_name h)
                ∷ []
          ]
          else []
    ]

-- `[issue for e in employees for issue in rule(e)]`
module _ (rule : ExtractedEmployee → List ValidationIssue) where
  unfoldable pub each_issue : List ExtractedEmployee → List ValidationIssue
  each_issue [] = []
  each_issue (e ∷ es) = rule e ++ each_issue es

-- An absent `raw_field_drops` or `resolved_drops` is the empty list.
unfoldable pub validate :
    Extracted
    → Roster
    → List NameMatchResult
    → List DropKey
    → List RawFieldDrop
    → List ValidationIssue
unfolding drop_issues hours_issue overtime_issue each_issue
validate extracted roster matches resolved_drops raw_field_drops =
    drop_issues matches resolved_drops raw_field_drops
    ++ (each_issue (hours_issue matches roster) extracted.employees
        ++ each_issue (overtime_issue matches roster) extracted.employees)
