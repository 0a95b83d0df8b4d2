-- ===== src/Calculate/Tests.antt =====
-- Runs of app/pipeline/calculate.py.
use payroll_agent.Prelude.{
  ◌≡◌, ◌⊎◌, refl, Text, codes, list_eq, list_beq, nat_eq, Option, none, some, List, [], ◌∷◌, true,
  false, ok, ◌<◌, ◌≤◌, ◌+◌, ◌*◌, arith,
}
use payroll_agent.Prelude.Int.{ℤ, pos, mag}
use payroll_agent.Prelude.Dict.{Dict}
use payroll_agent.Decimal.{Decimal, dec, cents, lt_dec, money, money_cents, ◌-ᴰ◌, precision_limit}
use payroll_agent.Decimal.Cents.{in_cents}
use payroll_agent.Decimal.Rounding.{money_cents-nearest}
use payroll_agent.Contracts.{HoursField, PaystubLineItem}
use payroll_agent.Withholding.{federal_withholding_2026}
use payroll_agent.Calculate.{
  PyValue, int_value, Hours, resolved_hours, hours_value, has_unknown_key, gross_pay, pretax_401k,
  fica_ss, fica_medicare, paystub, remaining_cap, ss_taxable,
}
use payroll_agent.Calculate.Payload.{hours_of, value_at, IsHours, resolved_hours_sound}
use payroll_agent.Calculate.SocialSecurity.{ss_taxable-bounds}
use payroll_agent.Calculate.Net.{paystub-net}
use payroll_agent.Samples.{maria}

abbrev week : Hours
week = record {
  hours_regular = dec 44 0;
  hours_overtime = dec 4 0;
  hours_vacation = dec 0 0;
  hours_sick = dec 0 0;
  hours_holiday = dec 0 0;
}

abbrev parse_none : Text → Option Decimal
parse_none t = none

abbrev payload : Dict Text PyValue
payload =
    (codes "hours_regular", int_value (pos 44)) ∷ (codes "hours_overtime", int_value (pos 4)) ∷ []

payload_read : resolved_hours parse_none payload ≡ ok week
unfolding resolved_hours list_beq payroll_agent.Prelude.Dict.lookup lt_dec
    payroll_agent.Prelude.Int.◌*ℤ◌
payload_read = refl

gross : gross_pay week maria ≡ cents (pos 100000)
unfolding gross_pay money payroll_agent.Decimal.◌+ᴰ◌ payroll_agent.Prelude.Int.◌+ℤ◌
    payroll_agent.Prelude.Int.◌*ℤ◌ payroll_agent.Decimal.◌*ᴰ◌
gross = refl

retirement : pretax_401k (gross_pay week maria) maria none ≡ cents (pos 5000)
unfolding pretax_401k gross_pay money payroll_agent.Decimal.◌*ᴰ◌ payroll_agent.Prelude.Int.◌*ℤ◌
    payroll_agent.Decimal.◌+ᴰ◌ payroll_agent.Prelude.Int.◌+ℤ◌
retirement = refl

social_security : fica_ss (gross_pay week maria) maria ≡ cents (pos 6200)
unfolding fica_ss gross_pay money payroll_agent.Decimal.◌*ᴰ◌ payroll_agent.Prelude.Int.◌*ℤ◌
    payroll_agent.Decimal.min_dec lt_dec ◌-ᴰ◌ payroll_agent.Prelude.Int.◌-ℤ◌
    payroll_agent.Decimal.◌+ᴰ◌ payroll_agent.Prelude.Int.◌+ℤ◌
social_security = refl

medicare : fica_medicare (gross_pay week maria) ≡ cents (pos 1450)
unfolding fica_medicare gross_pay money payroll_agent.Decimal.◌*ᴰ◌ payroll_agent.Prelude.Int.◌*ℤ◌
    payroll_agent.Decimal.◌+ᴰ◌ payroll_agent.Prelude.Int.◌+ℤ◌
medicare = refl

federal :
    federal_withholding_2026
      (money (gross_pay week maria -ᴰ pretax_401k (gross_pay week maria) maria none))
      maria
    ≡ cents (pos 7208)
unfolding federal_withholding_2026 gross_pay pretax_401k payroll_agent.Decimal.max_dec lt_dec
    payroll_agent.Prelude.Int.◌*ℤ◌ money ◌-ᴰ◌ payroll_agent.Prelude.Int.◌-ℤ◌
    payroll_agent.Decimal.◌/ᴰ◌ payroll_agent.Decimal.◌+ᴰ◌ payroll_agent.Prelude.Int.◌+ℤ◌
    payroll_agent.TaxTables.brackets payroll_agent.Decimal.◌*ᴰ◌
    payroll_agent.TaxTables.step1_standard
federal = refl

wages_nonneg : lt_dec (dec 100000 2) (dec 0 0) ≡ false
unfolding lt_dec payroll_agent.Prelude.Int.◌*ℤ◌
wages_nonneg = refl

resolved_hours_sound_example :
    (has_unknown_key payload ≡ false)
    × ((f : HoursField)
        → (hours_value parse_none payload f ≡ ok (hours_of week f))
          × IsHours (value_at payload f) (hours_of week f))
resolved_hours_sound_example = resolved_hours_sound parse_none payload week payload_read

ss_taxable-bounds_example :
    (lt_dec (dec 100000 2) (ss_taxable (dec 100000 2) maria) ≡ false)
    × (lt_dec (remaining_cap maria) (ss_taxable (dec 100000 2) maria) ≡ false)
    × (lt_dec (ss_taxable (dec 100000 2) maria) (dec 0 0) ≡ false)
    × ((ss_taxable (dec 100000 2) maria ≡ dec 100000 2)
        ⊎ (ss_taxable (dec 100000 2) maria ≡ remaining_cap maria))
ss_taxable-bounds_example = ss_taxable-bounds (dec 100000 2) maria wages_nonneg

paystub-net_example :
    (item : PaystubLineItem) × (paystub week maria none ≡ ok item)
    × (item.net_pay ≡ cents (pos 80142))
unfolding payroll_agent.Prelude.Int.◌-ℤ◌
paystub-net_example =
    paystub-net week maria none (pos 100000) (pos 5000) (pos 6200) (pos 1450) (pos 7208) gross
      retirement social_security medicare (in_cents federal) (omega arith)

money_cents-nearest_example :
    let c = mag (money_cents (dec 12345 3)) in (20 * c ≤ 24690 + 10) × (24690 + 10 < 20 * (c + 1))
money_cents-nearest_example = money_cents-nearest (dec 12345 3) (omega arith)
