-- ===== src/Roster.antt =====
-- app/models/roster.py: the roster and the shapes that the judgment stages pass on. A Pydantic
-- model is a record with the test that its construction makes; a UUID is the number it stands for.
use payroll_agent.Prelude.{
  ℕ, Text, list_eq, nat_eq, Bool, true, false, not, ◌&&◌, ◌||◌, Option, none, some, List, map, ◌==◌,
  length, is_some, is_none, contains, [], ◌∷◌,
}
use payroll_agent.Prelude.Dict.{distinct}
use payroll_agent.Decimal.{Decimal, dec, lt_dec}

pub data PayType : Type 0 where
  hourly salary : PayType

pub data FilingStatus : Type 0 where
  single married_jointly married_separately : FilingStatus

pub record Employee : Type 0 where
  pub id : ℕ
  pub business_id : ℕ
  pub full_name : Text
  pub known_aliases : List Text
  pub pay_type : PayType
  pub hourly_rate : Option Decimal
  pub annual_salary : Option Decimal
  pub retirement_contribution_pct : Decimal
  pub filing_status : FilingStatus
  pub step_2_checkbox : Bool
  pub step_3_dependents : Decimal
  pub step_4a_other_income : Decimal
  pub step_4b_deductions : Decimal
  pub ytd_ss_wages : Decimal
  pub pay_periods_per_year : ℕ

-- `Field(ge=0)`, and `Field(default=None, ge=0)` on an optional field
unfoldable pub ge_zero : Decimal → Bool
ge_zero d = not (lt_dec d (dec 0 0))

unfoldable pub optional_ge_zero : Option Decimal → Bool
unfolding ge_zero
optional_ge_zero none = true
optional_ge_zero (some d) = ge_zero d

-- `Field(ge=0, le=1)`
unfoldable pub is_fraction : Decimal → Bool
unfolding ge_zero
is_fraction d = ge_zero d && not (lt_dec (dec 1 0) d)

-- `Employee._require_compensation_field`: the compensation field of the pay type, and no other.
unfoldable pub require_compensation_field : Employee → Bool
require_compensation_field e = elim e.pay_type [
  | hourly ↦ is_some e.hourly_rate && is_none e.annual_salary
  | salary ↦ is_some e.annual_salary && is_none e.hourly_rate
]

-- The construction of an `Employee` succeeds.
unfoldable pub employee_ok : Employee → Bool
unfolding optional_ge_zero is_fraction require_compensation_field
employee_ok e =
    optional_ge_zero e.hourly_rate
    && optional_ge_zero e.annual_salary
    && is_fraction e.retirement_contribution_pct
    && ge_zero e.step_3_dependents
    && ge_zero e.step_4a_other_income
    && ge_zero e.step_4b_deductions
    && ge_zero e.ytd_ss_wages
    && contains e.pay_periods_per_year (12 ∷ 24 ∷ 26 ∷ 52 ∷ [])
    && require_compensation_field e

pub record Roster : Type 0 where
  pub business_id : ℕ
  pub employees : List Employee

-- `Roster._check_unique_employee_ids`
unfoldable pub check_unique_employee_ids : Roster → Bool
unfolding distinct
check_unique_employee_ids r =
    let ids = map (λ (e : Employee). e.id) r.employees in length ids == length (distinct ids)

pub data Source : Type 0 where
  exact alias none_found operator : Source

pub record NameMatchResult : Type 0 where
  pub submitted_name : Text
  pub matched_employee_id : Option ℕ
  pub source : Source
  pub resolved : Bool
  pub reason : Text

-- `NameMatchResult._check_resolution_invariant`
unfoldable pub check_resolution_invariant : NameMatchResult → Bool
check_resolution_invariant m = elim m.source [
  | none_found ↦ not (m.resolved || is_some m.matched_employee_id)
  | _ ↦ not (not m.resolved || is_none m.matched_employee_id)
]

pub data IssueType : Type 0 where
  missing out_of_bounds non_numeric field_regression : IssueType

-- What a message says, with the values that it interpolates.
pub data IssueMessage : Type 0 where
  regression : Text → Decimal → Option Decimal → IssueMessage
  no_hours : Text → IssueMessage
  weekly_no_overtime : Text → Decimal → IssueMessage
  biweekly_no_overtime : Text → Decimal → IssueMessage

pub record ValidationIssue : Type 0 where
  pub field : Text
  pub issue_type : IssueType
  pub message : IssueMessage

unfoldable pub is_missing : ValidationIssue → Bool
is_missing i = elim i.issue_type [ missing ↦ true | _ ↦ false ]

unfoldable pub is_field_regression : ValidationIssue → Bool
is_field_regression i = elim i.issue_type [ field_regression ↦ true | _ ↦ false ]
