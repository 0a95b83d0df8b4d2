-- ===== src/Calculate/Net.antt =====
-- app/pipeline/calculate.py::calculate: how the amounts of a paystub add up.
use payroll_agent.Prelude.{◌+◌, ◌<◌, ◌≤◌, ◌≡◌, refl, ◌∙◌, true, Option, arith, ok}
use payroll_agent.Prelude.Int.{ℤ, pos, ◌+ℤ◌, ◌-ℤ◌, leb_ℤ, mag, int_laws, mag-sub_le}
use payroll_agent.Decimal.{Decimal, dec, cents, money, ◌-ᴰ◌, eq_dec, precision_limit}
use payroll_agent.Decimal.Cents.{
  IsAmount, literal_zero, plus_zero, amount-add, amount-sub, cents-add, cents-sub, money-cents,
}
use payroll_agent.Roster.{Employee}
use payroll_agent.Contracts.{PaystubLineItem}
use payroll_agent.Withholding.{federal_withholding_2026}
use payroll_agent.Calculate.{
  Hours, gross_pay, pretax_401k, fica_ss, fica_medicare, reconciles, net_pay, paystub,
}

leb_ℤ_refl : (a : ℤ) → leb_ℤ a a ≡ true
leb_ℤ_refl a = ground arith

eq_dec_refl : (a : Decimal) → eq_dec a a ≡ true
unfolding eq_dec
eq_dec_refl a = rw leb_ℤ_refl refl

-- The sums that the check adds up, one term at a time.
add_back_k : (g k s m f : ℤ) → g -ℤ k -ℤ s -ℤ m -ℤ f +ℤ k ≡ g -ℤ s -ℤ m -ℤ f
add_back_k g k s m f = omega int_laws

add_back_s : (g s m f : ℤ) → g -ℤ s -ℤ m -ℤ f +ℤ s ≡ g -ℤ m -ℤ f
add_back_s g s m f = omega int_laws

add_back_m : (g m f : ℤ) → g -ℤ m -ℤ f +ℤ m ≡ g -ℤ f
add_back_m g m f = omega int_laws

add_back_f : (g f : ℤ) → g -ℤ f +ℤ f ≡ g
add_back_f g f = omega int_laws

mag-le : (g s m f : ℤ) → mag (g -ℤ s -ℤ m -ℤ f) ≤ mag g + mag s + mag m + mag f
mag-le g s m f =
    let a = mag-sub_le g s in
    let b = mag-sub_le (g -ℤ s) m in let c = mag-sub_le (g -ℤ s -ℤ m) f in omega arith

module _ (g k s m f : ℤ) (fed : Decimal) (amount : IsAmount fed f)
    (small : mag g + mag k + mag s + mag m + mag f < precision_limit) where
  net_pay-cents :
      net_pay (cents g) (cents k) (cents s) (cents m) fed ≡ cents (g -ℤ k -ℤ s -ℤ m -ℤ f)
  unfolding net_pay
  net_pay-cents =
      let a = mag-sub_le g k in
      let b = mag-sub_le (g -ℤ k) s in
      let c = mag-sub_le (g -ℤ k -ℤ s) m in
      let d = mag-sub_le (g -ℤ k -ℤ s -ℤ m) f in
      rw
        (
          cents-sub g k (omega arith),
          cents-sub (g -ℤ k) s (omega arith),
          cents-sub (g -ℤ k -ℤ s) m (omega arith),
          amount-sub (g -ℤ k -ℤ s -ℤ m) fed f amount (omega arith),
        )
        (money-cents (g -ℤ k -ℤ s -ℤ m -ℤ f))

  reconciles-net_pay :
      reconciles (cents g) (cents k) (cents s) (cents m) fed (cents (g -ℤ k -ℤ s -ℤ m -ℤ f)) ≡ true
  unfolding reconciles
  reconciles-net_pay =
      let n = g -ℤ k -ℤ s -ℤ m -ℤ f in
      let a = mag-le g s m f in
      let b = mag-sub_le (g -ℤ m) f in
      let c = mag-sub_le g m in
      let d = mag-sub_le g f in
      rw
        (
          cents-add n k (rw add_back_k (omega arith)),
          add_back_k g k s m f,
          cents-add (g -ℤ s -ℤ m -ℤ f) s (rw add_back_s (omega arith)),
          add_back_s g s m f,
          cents-add (g -ℤ m -ℤ f) m (rw add_back_m (omega arith)),
          add_back_m g m f,
          amount-add (g -ℤ f) fed f amount (rw add_back_f (omega arith)),
          add_back_f g f,
          amount-add g (dec 0 0) (pos 0) (literal_zero refl refl) (rw plus_zero (omega arith)),
          plus_zero g,
          money-cents g,
        )
        (eq_dec_refl (cents g))

-- `paystub` returns an item whenever its amounts pass the check.
paystub-of_reconciles :
    (h : Hours) (e : Employee) (o : Option Decimal)
    → let gross = gross_pay h e in
      let k = pretax_401k gross e o in
      let s = fica_ss gross e in
      let m = fica_medicare gross in
      let fed = federal_withholding_2026 (money (gross -ᴰ k)) e in
      reconciles gross k s m fed (net_pay gross k s m fed) ≡ true
      → (item : PaystubLineItem) × (paystub h e o ≡ ok item)
        × (item.net_pay ≡ net_pay gross k s m fed)
unfolding paystub
paystub-of_reconciles h e o t = rw t (_, refl, refl)

-- On amounts that the decimal context holds exactly (gross, 401(k), Social Security and Medicare
-- of g, k, s and m cents, federal withholding an amount of f cents, together below 10^28 cents),
-- `paystub` never raises the reconciliation error, and the net pay of the item that it returns is
-- g - k - s - m - f cents, to the cent.
pub paystub-net :
    (h : Hours) (e : Employee) (o : Option Decimal) (g k s m f : ℤ)
    → gross_pay h e ≡ cents g
    → pretax_401k (gross_pay h e) e o ≡ cents k
    → fica_ss (gross_pay h e) e ≡ cents s
    → fica_medicare (gross_pay h e) ≡ cents m
    → IsAmount
        (federal_withholding_2026 (money (gross_pay h e -ᴰ pretax_401k (gross_pay h e) e o)) e)
        f
    → mag g + mag k + mag s + mag m + mag f < precision_limit
    → (item : PaystubLineItem) × (paystub h e o ≡ ok item)
      × (item.net_pay ≡ cents (g -ℤ k -ℤ s -ℤ m -ℤ f))
paystub-net h e o g k s m f eg ek es em amount small =
    let gross = gross_pay h e in
    let fed = federal_withholding_2026 (money (gross -ᴰ pretax_401k gross e o)) e in
    let a : IsAmount (federal_withholding_2026 (money (cents g -ᴰ cents k)) e) f =
      rw (ek, eg) at amount in
    let fed_net = federal_withholding_2026 (money (cents g -ᴰ cents k)) e in
    let q : net_pay gross (pretax_401k gross e o) (fica_ss gross e) (fica_medicare gross) fed
        ≡ cents (g -ℤ k -ℤ s -ℤ m -ℤ f) =
      rw (ek, es, em, eg) (net_pay-cents g k s m f fed_net a small) in
    let (item, is_ok, net) =
      paystub-of_reconciles h e o
        (rw q (rw (ek, es, em, eg) (reconciles-net_pay g k s m f fed_net a small))) in
    (item, is_ok, net ∙ q)
