-- ===== src/Calculate/SocialSecurity.antt =====
-- app/pipeline/calculate.py::calculate: the Social Security wage-base cap.
use payroll_agent.Prelude.{◌≡◌, ◌⊎◌, refl, false, Bool-cases, inl, inr}
use payroll_agent.Decimal.{Decimal, dec, ◌-ᴰ◌, lt_dec, min_dec}
use payroll_agent.Decimal.Order.{lt_dec_irrefl, lt_dec_asym}
use payroll_agent.Roster.{Employee}
use payroll_agent.TaxTables.{ss_wage_base}
use payroll_agent.Calculate.{remaining_cap, ss_taxable}

remaining_cap-nonneg : (e : Employee) → lt_dec (remaining_cap e) (dec 0 0) ≡ false
unfolding remaining_cap
remaining_cap-nonneg e = elim (Bool-cases (lt_dec (ss_wage_base -ᴰ e.ytd_ss_wages) (dec 0 0))) [
  | inl t ↦ rw t (lt_dec_irrefl (dec 0 0))
  | inr f ↦ rw f f
]

-- For a gross pay that is not below zero, the wages that Social Security taxes are not above it, not
-- above what the year's wages leave of the wage base, not below zero, and are one of these two
-- amounts.
pub ss_taxable-bounds :
    (gross : Decimal) (e : Employee)
    → lt_dec gross (dec 0 0) ≡ false
    → (lt_dec gross (ss_taxable gross e) ≡ false)
      × (lt_dec (remaining_cap e) (ss_taxable gross e) ≡ false)
      × (lt_dec (ss_taxable gross e) (dec 0 0) ≡ false)
      × ((ss_taxable gross e ≡ gross) ⊎ (ss_taxable gross e ≡ remaining_cap e))
unfolding ss_taxable min_dec
ss_taxable-bounds gross e nonneg = elim (Bool-cases (lt_dec (remaining_cap e) gross)) [
  | inl t ↦ rw t (
    lt_dec_asym (remaining_cap e) gross t,
    lt_dec_irrefl (remaining_cap e),
    remaining_cap-nonneg e,
    inr refl,
  )
  | inr f ↦ rw f (lt_dec_irrefl gross, f, nonneg, inl refl)
]
