-- ===== src/Decimal/Rounding.antt =====
-- The rounding of app/pipeline/calculate.py::_money.
use payroll_agent.Prelude.{ℕ, zero, suc, ◌+◌, ◌-◌, ◌*◌, ◌^◌, ◌≤◌, ◌<◌, ◌≡◌, leb, arith, false}
use payroll_agent.Prelude.Int.{ℤ, pos, negsuc, mag, signed}
use payroll_agent.Decimal.{Decimal, half_up, money_cents}

half_up_lower : (n d : ℕ) → 0 < d → 2 * d * half_up n d ≤ 2 * n + d
unfolding half_up
half_up_lower n d h = grind arith

half_up_upper : (n d : ℕ) → 0 < d → 2 * n + d < 2 * d * (half_up n d + 1)
unfolding half_up
half_up_upper n d h = grind arith

mag-signed : (a : ℤ) (n : ℕ) → mag (signed a n) ≡ n
mag-signed (pos m) n = omega arith
mag-signed (negsuc m) n = ground arith

power_pos : (n : ℕ) → 0 < 10 ^ n
power_pos zero = omega arith
power_pos (suc n) = let ih = power_pos n in omega arith

-- Rounding an amount with more than two decimals gives the nearest number of cents in magnitude,
-- a tie away from zero: with a cent of u units, the cents c satisfy 2uc - u <= 2n < 2uc + u for an
-- amount of n units.
pub money_cents-nearest :
    (d : Decimal)
    → 2 < d.scale
    → let u = 10 ^ (d.scale - 2) in
      let c = mag (money_cents d) in
      (2 * u * c ≤ 2 * mag d.coeff + u) × (2 * mag d.coeff + u < 2 * u * (c + 1))
unfolding money_cents
money_cents-nearest d h =
    let u = 10 ^ (d.scale - 2) in
    let f : leb d.scale 2 ≡ false = ground arith in
    rw (f, mag-signed d.coeff (half_up (mag d.coeff) u))
      (
        half_up_lower (mag d.coeff) u (power_pos (d.scale - 2)),
        half_up_upper (mag d.coeff) u (power_pos (d.scale - 2)),
      )
