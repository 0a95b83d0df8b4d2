-- ===== src/Withholding.antt =====
-- app/pipeline/federal_withholding.py: Worksheet 1A of IRS Pub 15-T (2026), line by line. The guard
-- on the filing status is the type of the status.
pub mod Bounds
mod Tests
use mathlib.Core.List.{reverse}
use payroll_agent.Prelude.{ℕ, Bool, not, Option, none, some, List, [], ◌∷◌, find, if◌then◌else◌}
use payroll_agent.Decimal.{Decimal, dec, ◌+ᴰ◌, ◌-ᴰ◌, ◌*ᴰ◌, ◌/ᴰ◌, lt_dec, max_dec, money}
use payroll_agent.Roster.{Employee}
use payroll_agent.TaxTables.{BracketRow, row, brackets, step1_standard}

-- `annual_wage >= row.lower`
unfoldable pub reaches : Decimal → BracketRow → Bool
reaches annual_wage r = not (lt_dec annual_wage r.lower)

-- `brackets[0]`; every table has a first row.
unfoldable pub first_row : List BracketRow → BracketRow
first_row [] = row (dec 0 0) none (dec 0 0) (dec 0 0)
first_row (r ∷ rs) = r

unfoldable pub find_bracket : Decimal → List BracketRow → BracketRow
unfolding reaches first_row
find_bracket annual_wage rows = elim (find (reaches annual_wage) (reverse rows)) [
  | some r ↦ r
  | none ↦ first_row rows
]

-- Step 1: the adjusted annual wage, line 1i.
unfoldable pub adjusted_annual_wage : Decimal → Employee → Decimal
adjusted_annual_wage taxable e =
    let p = dec e.pay_periods_per_year 0 in
    let line_1c = money (taxable *ᴰ p) in
    let line_1e = money (line_1c +ᴰ e.step_4a_other_income) in
    let line_1g = if e.step_2_checkbox then dec 0 0 else step1_standard e.filing_status in
    let line_1h = money (e.step_4b_deductions +ᴰ line_1g) in
    max_dec (dec 0 0) (money (line_1e -ᴰ line_1h))

-- Step 2: the tentative withholding of the year, line 2g.
unfoldable pub annual_tentative : Decimal → List BracketRow → Decimal
unfolding find_bracket
annual_tentative line_1i rows =
    let r = find_bracket line_1i rows in
    let line_2e = money (line_1i -ᴰ r.lower) in
    let line_2f = money (line_2e *ᴰ r.rate) in money (r.base +ᴰ line_2f)

unfoldable pub federal_withholding_2026 : Decimal → Employee → Decimal
unfolding adjusted_annual_wage annual_tentative
federal_withholding_2026 taxable e =
    let line_1i = adjusted_annual_wage taxable e in
    let line_2g = annual_tentative line_1i (brackets e.filing_status e.step_2_checkbox) in
    let line_2h = money (line_2g /ᴰ e.pay_periods_per_year) in
    let line_3b = money (e.step_3_dependents /ᴰ e.pay_periods_per_year) in
    max_dec (dec 0 0) (money (line_2h -ᴰ line_3b))
