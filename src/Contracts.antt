-- ===== src/Contracts.antt =====
-- app/models/contracts.py: what the stages hand to one another. Dates are day numbers.
use payroll_agent.Prelude.{ℕ, Text, codes, Bool, Option, List, [], ◌∷◌}
use payroll_agent.Decimal.{Decimal}
use payroll_agent.Roster.{NameMatchResult}

pub record ExtractedEmployee : Type 0 where
  pub submitted_name : Text
  pub hours_regular : Option Decimal
  pub hours_overtime : Option Decimal
  pub hours_vacation : Option Decimal
  pub hours_sick : Option Decimal
  pub hours_holiday : Option Decimal
  pub contribution_401k_override : Option Decimal

-- `HOURS_FIELDS`: the fields that the stages visit with `getattr`.
pub data HoursField : Type 0 where
  regular overtime vacation sick holiday : HoursField

abbrev pub hours_fields : List HoursField
hours_fields = regular ∷ overtime ∷ vacation ∷ sick ∷ holiday ∷ []

unfoldable pub field_name : HoursField → Text
field_name regular = codes "hours_regular"
field_name overtime = codes "hours_overtime"
field_name vacation = codes "hours_vacation"
field_name sick = codes "hours_sick"
field_name holiday = codes "hours_holiday"

-- `getattr(emp, field)`
unfoldable pub get_hours : ExtractedEmployee → HoursField → Option Decimal
get_hours e regular = e.hours_regular
get_hours e overtime = e.hours_overtime
get_hours e vacation = e.hours_vacation
get_hours e sick = e.hours_sick
get_hours e holiday = e.hours_holiday

pub record Extracted : Type 0 where
  pub run_id : ℕ
  pub employees : List ExtractedEmployee
  pub pay_period_start : Option ℕ
  pub pay_period_end : Option ℕ

pub record RawFieldDrop : Type 0 where
  pub submitted_name : Text
  pub field : HoursField
  pub original_value : Decimal
  pub resumed_value : Option Decimal

pub record HoursChange : Type 0 where
  pub submitted_name : Text
  pub field : HoursField
  pub original_value : Decimal
  pub resumed_value : Decimal

pub data FinalAction : Type 0 where
  process request_clarification : FinalAction

pub record Decision : Type 0 where
  pub final_action : FinalAction
  pub gate_reasons : List Text
  pub unresolved_names : List Text
  pub missing_fields : List Text
  pub resolutions : List NameMatchResult

pub record PaystubLineItem : Type 0 where
  pub employee_id : Option ℕ
  pub submitted_name : Text
  pub hours_regular : Decimal
  pub hours_overtime : Decimal
  pub hours_vacation : Decimal
  pub hours_sick : Decimal
  pub hours_holiday : Decimal
  pub gross_pay : Decimal
  pub pretax_401k : Decimal
  pub fica_ss : Decimal
  pub fica_medicare : Decimal
  pub federal_withholding : Decimal
  pub state_withholding : Option Decimal
  pub net_pay : Decimal
  pub additional_medicare_not_modeled : Bool
