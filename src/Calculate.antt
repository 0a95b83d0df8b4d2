-- ===== src/Calculate.antt =====
-- app/pipeline/calculate.py: gross, FICA, federal withholding and net of one employee. The ids and
-- the time that a paystub is stamped with are not modelled. `Decimal(text)` is the parameter
-- `parse_decimal`, over the finite decimals.
pub mod Payload
pub mod Net
pub mod SocialSecurity
mod Tests
use payroll_agent.Prelude.{
  ℕ, Text, codes, list_eq, nat_eq, Bool, true, false, not, ◌&&◌, Option, none, some, List, [], ◌∷◌,
  map, ◌==◌, any, contains, if◌then◌else◌, get_or_else, Result, ok, err, ◌>>=◌,
}
use payroll_agent.Prelude.Dict.{Dict, lookup}
use payroll_agent.Prelude.Int.{ℤ}
use payroll_agent.Decimal.{Decimal, dec, ◌+ᴰ◌, ◌-ᴰ◌, ◌*ᴰ◌, ◌/ᴰ◌, lt_dec, eq_dec, min_dec, money}
use payroll_agent.Roster.{
  Employee, hourly, salary, FilingStatus, single, married_jointly, married_separately,
}
use payroll_agent.Contracts.{
  HoursField, regular, overtime, vacation, sick, holiday, hours_fields, field_name, PaystubLineItem,
}
use payroll_agent.TaxTables.{ss_rate, ss_wage_base, medicare_rate}
use payroll_agent.Withholding.{federal_withholding_2026}

-- A value of the raw hours dictionary.
pub data PyValue : Type 0 where
  none_value float_value : PyValue
  bool_value : Bool → PyValue
  int_value : ℤ → PyValue
  text_value : Text → PyValue
  decimal_value : Decimal → PyValue

pub data CalcError : Type 0 where
  unknown_keys is_bool is_float not_a_number negative_hours reconciliation_drift : CalcError

pub record Hours : Type 0 where
  pub hours_regular : Decimal
  pub hours_overtime : Decimal
  pub hours_vacation : Decimal
  pub hours_sick : Decimal
  pub hours_holiday : Decimal

unfoldable pub non_negative : Decimal → Result CalcError Decimal
non_negative d = if lt_dec d (dec 0 0) then err negative_hours else ok d

unfoldable pub has_unknown_key : Dict Text PyValue → Bool
unfolding field_name
has_unknown_key resolved =
    any (λ (e : Text × PyValue). not (contains e.0 (map field_name hours_fields))) resolved

module _ (parse_decimal : Text → Option Decimal) where
  -- `Decimal(text)`
  unfoldable pub from_text : Text → Result CalcError Decimal
  from_text t = elim (parse_decimal t) [ none ↦ err not_a_number | some d ↦ ok d ]

  unfoldable pub to_decimal : PyValue → Result CalcError Decimal
  unfolding non_negative from_text
  to_decimal none_value = ok (dec 0 0)
  to_decimal float_value = err is_float
  to_decimal (bool_value b) = err is_bool
  to_decimal (int_value n) = non_negative (record { coeff = n; scale = 0 })
  to_decimal (text_value t) = if t == [] then ok (dec 0 0) else (do d ← from_text t; non_negative d)
  to_decimal (decimal_value d) = non_negative d

  -- `_to_decimal(resolved.get(f))`
  unfoldable pub hours_value : Dict Text PyValue → HoursField → Result CalcError Decimal
  unfolding to_decimal field_name
  hours_value resolved f = to_decimal (get_or_else (lookup (field_name f) resolved) none_value)

  unfoldable pub resolved_hours : Dict Text PyValue → Result CalcError Hours
  unfolding hours_value has_unknown_key
  resolved_hours resolved = if has_unknown_key resolved then err unknown_keys else (do
    r ← hours_value resolved regular
    o ← hours_value resolved overtime
    v ← hours_value resolved vacation
    s ← hours_value resolved sick
    h ← hours_value resolved holiday
    ok (record {
      hours_regular = r;
      hours_overtime = o;
      hours_vacation = v;
      hours_sick = s;
      hours_holiday = h;
    }))

unfoldable pub hourly_gross : Decimal → Hours → Decimal
hourly_gross rate h =
    let straight = h.hours_regular +ᴰ h.hours_vacation +ᴰ h.hours_sick +ᴰ h.hours_holiday in
    money (rate *ᴰ straight +ᴰ rate *ᴰ dec 15 1 *ᴰ h.hours_overtime)

unfoldable pub salary_gross : Decimal → ℕ → Hours → Decimal
salary_gross annual p h =
    let period_salary = money (annual /ᴰ p) in
    let leave_hours = h.hours_vacation +ᴰ h.hours_sick +ᴰ h.hours_holiday in
    let leave_pay = money ((annual /ᴰ 2080) *ᴰ leave_hours) in money (period_salary +ᴰ leave_pay)

unfoldable pub gross_pay : Hours → Employee → Decimal
unfolding hourly_gross salary_gross
gross_pay h e = elim e.pay_type [
  | hourly ↦ hourly_gross (get_or_else e.hourly_rate (dec 0 0)) h
  | salary ↦ salary_gross (get_or_else e.annual_salary (dec 0 0)) e.pay_periods_per_year h
]

unfoldable pub pretax_401k : Decimal → Employee → Option Decimal → Decimal
pretax_401k gross e override = money (gross *ᴰ get_or_else override e.retirement_contribution_pct)

-- What is left of the Social Security wage base, and the part of the gross that it taxes.
unfoldable pub remaining_cap : Employee → Decimal
remaining_cap e =
    let cap = ss_wage_base -ᴰ e.ytd_ss_wages in if lt_dec cap (dec 0 0) then dec 0 0 else cap

unfoldable pub ss_taxable : Decimal → Employee → Decimal
unfolding remaining_cap
ss_taxable gross e = min_dec gross (remaining_cap e)

unfoldable pub fica_ss : Decimal → Employee → Decimal
unfolding ss_taxable
fica_ss gross e = money (ss_taxable gross e *ᴰ ss_rate)

unfoldable pub fica_medicare : Decimal → Decimal
fica_medicare gross = money (gross *ᴰ medicare_rate)

unfoldable pub additional_medicare_threshold : FilingStatus → Decimal
additional_medicare_threshold single = dec 200000 0
additional_medicare_threshold married_jointly = dec 250000 0
additional_medicare_threshold married_separately = dec 125000 0

-- `_raise_if_reconciliation_drift` passes.
unfoldable pub reconciles : Decimal → Decimal → Decimal → Decimal → Decimal → Decimal → Bool
reconciles gross k ss med fed net = eq_dec (money (net +ᴰ k +ᴰ ss +ᴰ med +ᴰ fed +ᴰ dec 0 0)) gross

unfoldable pub net_pay : Decimal → Decimal → Decimal → Decimal → Decimal → Decimal
net_pay gross k ss med fed = money (gross -ᴰ k -ᴰ ss -ᴰ med -ᴰ fed)

unfoldable pub paystub : Hours → Employee → Option Decimal → Result CalcError PaystubLineItem
unfolding gross_pay pretax_401k fica_ss fica_medicare net_pay reconciles
paystub h e override =
    let gross = gross_pay h e in
    let k = pretax_401k gross e override in
    let ss = fica_ss gross e in
    let med = fica_medicare gross in
    let fed = federal_withholding_2026 (money (gross -ᴰ k)) e in
    let net = net_pay gross k ss med fed in
    if reconciles gross k ss med fed net
    then ok (record {
      employee_id = some e.id;
      submitted_name = e.full_name;
      hours_regular = h.hours_regular;
      hours_overtime = h.hours_overtime;
      hours_vacation = h.hours_vacation;
      hours_sick = h.hours_sick;
      hours_holiday = h.hours_holiday;
      gross_pay = gross;
      pretax_401k = k;
      fica_ss = ss;
      fica_medicare = med;
      federal_withholding = fed;
      state_withholding = none;
      net_pay = net;
      additional_medicare_not_modeled =
          lt_dec (additional_medicare_threshold e.filing_status) (e.ytd_ss_wages +ᴰ gross);
    })
    else err reconciliation_drift

unfoldable pub calculate :
    (Text → Option Decimal)
    → Dict Text PyValue
    → Employee
    → Option Decimal
    → Result CalcError PaystubLineItem
unfolding resolved_hours paystub
calculate parse_decimal resolved e override = do
  h ← resolved_hours parse_decimal resolved
  paystub h e override
