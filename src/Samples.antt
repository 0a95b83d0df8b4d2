-- ===== src/Samples.antt =====
-- Employees, extracted hours and parameters that the tests share.
use payroll_agent.Prelude.{
  ℕ, ◌+◌, ◌-◌, Text, codes, leb, Bool, true, false, ◌&&◌, if◌then◌else◌, Option, none, some, List,
  [], ◌∷◌, map,
}
use payroll_agent.Decimal.{Decimal, dec}
use payroll_agent.Roster.{
  Employee, Roster, FilingStatus, single, hourly, salary, NameMatchResult, exact,
}
use payroll_agent.Contracts.{Extracted, ExtractedEmployee}

-- `str.casefold` on ASCII letters, and UUIDs of one digit.
abbrev pub fold_ascii : Text → Text
fold_ascii = map (λ c. if leb 65 c && leb c 90 then c + 32 else c)

abbrev pub parse_digit : Text → Option ℕ
parse_digit [] = none
parse_digit (c ∷ []) = if leb 48 c && leb c 57 then some (c - 48) else none
parse_digit (c ∷ d ∷ s) = none

abbrev pub show_digit : ℕ → Text
show_digit n = (48 + n) ∷ []

abbrev pub maria_aliases : List Text → Employee
maria_aliases aliases = record {
  id = 1;
  business_id = 1;
  full_name = codes "Maria Chen";
  known_aliases = aliases;
  pay_type = hourly;
  hourly_rate = some (dec 2000 2);
  annual_salary = none;
  retirement_contribution_pct = dec 5 2;
  filing_status = single;
  step_2_checkbox = false;
  step_3_dependents = dec 0 0;
  step_4a_other_income = dec 0 0;
  step_4b_deductions = dec 0 0;
  ytd_ss_wages = dec 0 0;
  pay_periods_per_year = 52;
}

abbrev pub maria : Employee
maria = maria_aliases (codes "Mia" ∷ [])

abbrev pub filer : FilingStatus → Bool → ℕ → Employee
filer status checkbox p = record {
  id = 2;
  business_id = 1;
  full_name = codes "David Reyes";
  known_aliases = [];
  pay_type = salary;
  hourly_rate = none;
  annual_salary = some (dec 52000 0);
  retirement_contribution_pct = dec 0 0;
  filing_status = status;
  step_2_checkbox = checkbox;
  step_3_dependents = dec 0 0;
  step_4a_other_income = dec 0 0;
  step_4b_deductions = dec 0 0;
  ytd_ss_wages = dec 0 0;
  pay_periods_per_year = p;
}

abbrev pub david : Employee
david = filer single false 26

abbrev pub roster : Roster
roster = record { business_id = 1; employees = maria ∷ david ∷ [] }

abbrev pub hours : Text → Option Decimal → Option Decimal → ExtractedEmployee
hours name regular overtime = record {
  submitted_name = name;
  hours_regular = regular;
  hours_overtime = overtime;
  hours_vacation = none;
  hours_sick = none;
  hours_holiday = none;
  contribution_401k_override = none;
}

abbrev pub extracted : List ExtractedEmployee → Extracted
extracted employees = record {
  run_id = 1;
  employees = employees;
  pay_period_start = none;
  pay_period_end = none;
}

abbrev pub matched : Text → ℕ → NameMatchResult
matched name i = record {
  submitted_name = name;
  matched_employee_id = some i;
  source = exact;
  resolved = true;
  reason = codes "exact match";
}

abbrev pub mia_hours : ExtractedEmployee
mia_hours = hours (codes "mia") (some (dec 44 0)) (some (dec 4 0))

abbrev pub mia_extracted : Extracted
mia_extracted = extracted (mia_hours ∷ [])
