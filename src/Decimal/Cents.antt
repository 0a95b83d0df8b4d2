-- ===== src/Decimal/Cents.antt =====
-- Sums and differences of whole cents in the decimal context.
use payroll_agent.Prelude.{◌<◌, ◌≡◌, refl, arith}
use payroll_agent.Prelude.Int.{ℤ, pos, negsuc, ◌+ℤ◌, ◌-ℤ◌, ◌*ℤ◌, mag, int_laws}
use payroll_agent.Decimal.{Decimal, dec, cents, money, ◌+ᴰ◌, ◌-ᴰ◌, fit, align, precision_limit}

*ℤ-one : (a : ℤ) → a *ℤ pos 1 ≡ a
unfolding ◌*ℤ◌
*ℤ-one (pos n) = ground arith
*ℤ-one (negsuc n) = ground arith

pub fit-eq_of_lt : (d : Decimal) → mag d.coeff < precision_limit → fit d ≡ d
unfolding fit
fit-eq_of_lt d h = ground arith

pub cents-add : (a b : ℤ) → mag (a +ℤ b) < precision_limit → cents a +ᴰ cents b ≡ cents (a +ℤ b)
unfolding ◌+ᴰ◌ align
cents-add a b h = rw (*ℤ-one a, *ℤ-one b) (fit-eq_of_lt (cents (a +ℤ b)) h)

pub cents-sub : (a b : ℤ) → mag (a -ℤ b) < precision_limit → cents a -ᴰ cents b ≡ cents (a -ℤ b)
unfolding ◌-ᴰ◌ align
cents-sub a b h = rw (*ℤ-one a, *ℤ-one b) (fit-eq_of_lt (cents (a -ℤ b)) h)

pub money-cents : (a : ℤ) → money (cents a) ≡ cents a
unfolding money
money-cents a = rw (*ℤ-one a)

zero-align : pos 0 *ℤ pos 100 ≡ pos 0
unfolding ◌*ℤ◌
zero-align = refl

-- An amount of `c` cents, as the code has it: in cents, or the literal zero.
pub data IsAmount (d : Decimal) (c : ℤ) : Type 0 where
  in_cents : d ≡ cents c → IsAmount d c
  literal_zero : d ≡ dec 0 0 → c ≡ pos 0 → IsAmount d c

pub plus_zero : (a : ℤ) → a +ℤ pos 0 ≡ a
plus_zero a = omega int_laws

minus_zero : (a : ℤ) → a -ℤ pos 0 ≡ a
minus_zero a = omega int_laws

pub amount-add :
    (a : ℤ) (d : Decimal) (c : ℤ)
    → IsAmount d c
    → mag (a +ℤ c) < precision_limit
    → cents a +ᴰ d ≡ cents (a +ℤ c)
unfolding ◌+ᴰ◌ align
amount-add a d c (in_cents e) h = rw e (cents-add a c h)
amount-add a d c (literal_zero e z) h =
    rw (e, z, *ℤ-one a, zero-align, plus_zero a) (fit-eq_of_lt (cents a) (rw (z, plus_zero a) at h))

pub amount-sub :
    (a : ℤ) (d : Decimal) (c : ℤ)
    → IsAmount d c
    → mag (a -ℤ c) < precision_limit
    → cents a -ᴰ d ≡ cents (a -ℤ c)
unfolding ◌-ᴰ◌ align
amount-sub a d c (in_cents e) h = rw e (cents-sub a c h)
amount-sub a d c (literal_zero e z) h =
    rw (e, z, *ℤ-one a, zero-align, minus_zero a)
      (fit-eq_of_lt (cents a) (rw (z, minus_zero a) at h))
