-- ===== src/Withholding/Tests.antt =====
-- Runs of app/pipeline/federal_withholding.py against the tables that the IRS prints.
use payroll_agent.Prelude.{◌≡◌, refl, ℕ, Bool, true, false, In}
use payroll_agent.Decimal.{Decimal, dec, lt_dec}
use payroll_agent.Roster.{single}
use payroll_agent.TaxTables.{brackets}
use payroll_agent.Withholding.{federal_withholding_2026, find_bracket}
use payroll_agent.Withholding.Bounds.{Covers, find_bracket-Covers}
use payroll_agent.TaxTables.Brackets.{IsTable, brackets-IsTable}
use payroll_agent.Samples.{filer}

weekly_single : federal_withholding_2026 (dec 630 0) (filer single false 52) ≡ dec 3368 2
unfolding federal_withholding_2026 payroll_agent.Decimal.max_dec lt_dec
    payroll_agent.Prelude.Int.◌*ℤ◌ payroll_agent.Decimal.money payroll_agent.Decimal.◌-ᴰ◌
    payroll_agent.Prelude.Int.◌-ℤ◌ payroll_agent.Decimal.◌/ᴰ◌ payroll_agent.Decimal.◌+ᴰ◌
    payroll_agent.Prelude.Int.◌+ℤ◌ brackets payroll_agent.Decimal.◌*ᴰ◌
    payroll_agent.TaxTables.step1_standard
weekly_single = refl

biweekly_single : federal_withholding_2026 (dec 200750 2) (filer single false 26) ≡ dec 15705 2
unfolding federal_withholding_2026 payroll_agent.Decimal.max_dec lt_dec
    payroll_agent.Prelude.Int.◌*ℤ◌ payroll_agent.Decimal.money payroll_agent.Decimal.◌-ᴰ◌
    payroll_agent.Prelude.Int.◌-ℤ◌ payroll_agent.Decimal.◌/ᴰ◌ payroll_agent.Decimal.◌+ᴰ◌
    payroll_agent.Prelude.Int.◌+ℤ◌ brackets payroll_agent.Decimal.◌*ᴰ◌
    payroll_agent.TaxTables.step1_standard
biweekly_single = refl

wage_nonneg : lt_dec (dec 32760 0) (dec 0 0) ≡ false
unfolding lt_dec payroll_agent.Prelude.Int.◌*ℤ◌
wage_nonneg = refl

brackets-IsTable_example : IsTable (brackets single false)
brackets-IsTable_example = brackets-IsTable single false

find_bracket-Covers_example :
    let r = find_bracket (dec 32760 0) (brackets single false) in
    In r (brackets single false) × Covers (dec 32760 0) r
find_bracket-Covers_example = find_bracket-Covers (dec 32760 0) single false wage_nonneg
