-- ===== src/Decimal.antt =====
-- Python's `decimal.Decimal` under the default context (28 digits, ROUND_HALF_EVEN), as the code
-- of app/pipeline/calculate.py and app/pipeline/federal_withholding.py uses it.
-- A value is `coeff / 10 ^ scale`; two representations of one value compare as equal.
-- Magnitudes past the context's exponent limits (10^999999) are not modelled.
pub mod Rounding
pub mod Cents
pub mod Order
use payroll_agent.Prelude.{
  ℕ, zero, suc, ◌+◌, ◌-◌, ◌*◌, ◌/◌, ◌%◌, ◌^◌, Bool, ◌&&◌, ltb, leb, eqb, if◌then◌else◌,
}
use payroll_agent.Prelude.Int.{
  ℤ, pos, negsuc, ◌+ℤ◌, ◌-ℤ◌, ◌*ℤ◌, pos_part, neg_part, ltb_ℤ, leb_ℤ, mag, signed,
}

pub record Decimal : Type 0 where
  pub coeff : ℤ
  pub scale : ℕ

-- `Decimal("12.34")` is `dec 1234 2`.
abbrev pub dec : ℕ → ℕ → Decimal
dec n s = record { coeff = pos n; scale = s }

abbrev pub precision_limit : ℕ
precision_limit = 10 ^ 28

-- `n / d` to the nearest integer, a tie to the even one (ROUND_HALF_EVEN).
unfoldable pub half_even : ℕ → ℕ → ℕ
half_even n d =
    let q = n / d in
    let r = n % d in
    if ltb (2 * r) d then q else if ltb d (2 * r) then q + 1 else if eqb (q % 2) 0 then q else q + 1

-- `n / d` to the nearest integer, a tie away from zero (ROUND_HALF_UP on a magnitude).
unfoldable pub half_up : ℕ → ℕ → ℕ
half_up n d = (2 * n + d) / (2 * d)

-- The number of decimal digits, by fuel; `n + 1` rounds are enough.
digits_from : ℕ → ℕ → ℕ
digits_from zero n = 1
digits_from (suc f) n = let rest = digits_from f (n / 10) in if ltb n 10 then 1 else rest + 1

unfoldable pub digits : ℕ → ℕ
unfolding digits_from
digits n = digits_from (n + 1) n

-- The value `c / 10 ^ (up - down)`.
unfoldable pub at_scale : ℤ → ℕ → ℕ → Decimal
at_scale c up down =
    if leb down up
    then record { coeff = c; scale = up - down }
    else record { coeff = c *ℤ pos (10 ^ (down - up)); scale = 0 }

-- Every result is rounded to the context's 28 digits.
unfoldable pub fit : Decimal → Decimal
unfolding half_even digits at_scale
fit d =
    let n = mag d.coeff in
    let excess = digits n - 28 in
    if ltb n precision_limit
    then d
    else at_scale (signed d.coeff (half_even n (10 ^ excess))) d.scale excess

-- The coefficients of two values at their larger scale.
unfoldable pub align : Decimal → ℕ → ℤ
align d s = d.coeff *ℤ pos (10 ^ (s - d.scale))

abbrev pub common_scale : Decimal → Decimal → ℕ
common_scale a b = if leb a.scale b.scale then b.scale else a.scale

infixl 65 ◌+ᴰ◌ ◌-ᴰ◌
infixl 70 ◌*ᴰ◌ ◌/ᴰ◌
unfoldable pub ◌+ᴰ◌ : Decimal → Decimal → Decimal
unfolding fit align
a +ᴰ b = let s = common_scale a b in fit (record { coeff = align a s +ℤ align b s; scale = s })

unfoldable pub ◌-ᴰ◌ : Decimal → Decimal → Decimal
unfolding fit align
a -ᴰ b = let s = common_scale a b in fit (record { coeff = align a s -ℤ align b s; scale = s })

unfoldable pub ◌*ᴰ◌ : Decimal → Decimal → Decimal
unfolding fit
a *ᴰ b = fit (record { coeff = a.coeff *ℤ b.coeff; scale = a.scale + b.scale })

-- Division by a positive integer, the only divisors of the code (pay periods, 2080 hours). As in
-- the decimal specification the quotient is taken to at least 29 digits, its last digit made
-- sticky when a remainder is left, and then rounded.
unfoldable pub ◌/ᴰ◌ : Decimal → ℕ → Decimal
unfolding fit digits at_scale
a /ᴰ n =
    let m = mag a.coeff in
    let up = digits n + 29 in
    let num = m * 10 ^ (up - digits m) in
    let den = n * 10 ^ (digits m - up) in
    let q = num / den in
    let sticky = if eqb (num % den) 0 then q else if eqb (q % 5) 0 then q + 1 else q in
    if eqb m 0
    then dec 0 0
    else fit (at_scale (signed a.coeff sticky) (a.scale + (up - digits m)) (digits m - up))

-- Comparisons are exact.
unfoldable pub lt_dec : Decimal → Decimal → Bool
unfolding align
lt_dec a b = let s = common_scale a b in ltb_ℤ (align a s) (align b s)

unfoldable pub eq_dec : Decimal → Decimal → Bool
unfolding align
eq_dec a b =
    let s = common_scale a b in leb_ℤ (align a s) (align b s) && leb_ℤ (align b s) (align a s)

-- Python's `min` and `max` of two values keep the first one on a tie.
unfoldable pub min_dec : Decimal → Decimal → Decimal
min_dec a b = if lt_dec b a then b else a

unfoldable pub max_dec : Decimal → Decimal → Decimal
max_dec a b = if lt_dec a b then b else a

-- An amount of whole cents.
abbrev pub cents : ℤ → Decimal
cents c = record { coeff = c; scale = 2 }

-- The cents of `value.quantize(Decimal("0.01"), rounding=ROUND_HALF_UP)`. From 10^26 on Python
-- raises InvalidOperation; the model does not.
unfoldable pub money_cents : Decimal → ℤ
unfolding half_up
money_cents d =
    if leb d.scale 2
    then d.coeff *ℤ pos (10 ^ (2 - d.scale))
    else signed d.coeff (half_up (mag d.coeff) (10 ^ (d.scale - 2)))

-- `_money(value)`
unfoldable pub money : Decimal → Decimal
unfolding money_cents
money d = cents (money_cents d)
