-- ===== src/Decimal/Order.antt =====
-- The order of decimals, and `min` and `max` of two of them.
use payroll_agent.Prelude.{
  ℕ, ◌+◌, ◌-◌, ◌*◌, ◌^◌, ◌≤◌, ◌≡◌, true, false, ltb, arith, Bool-cases, inl, inr,
}
use payroll_agent.Prelude.Int.{ℤ, pos, ◌*ℤ◌, pos_part, neg_part}
use payroll_agent.Decimal.{Decimal, dec, lt_dec, align, common_scale, min_dec, max_dec}

common_scale_comm : (a b : Decimal) → common_scale a b ≡ common_scale b a
common_scale_comm a b = ground arith

ltb_ℤ_asym :
    (x y : ℤ)
    → ltb (pos_part x + neg_part y) (pos_part y + neg_part x) ≡ true
    → ltb (pos_part y + neg_part x) (pos_part x + neg_part y) ≡ false
ltb_ℤ_asym x y h = ground arith

pub lt_dec_asym : (a b : Decimal) → lt_dec a b ≡ true → lt_dec b a ≡ false
unfolding lt_dec
lt_dec_asym a b h =
    rw (common_scale_comm b a)
      (ltb_ℤ_asym (align a (common_scale a b)) (align b (common_scale a b)) h)

pub lt_dec_irrefl : (a : Decimal) → lt_dec a a ≡ false
lt_dec_irrefl a = elim (Bool-cases (lt_dec a a)) [ inl t ↦ lt_dec_asym a a t | inr f ↦ f ]

-- The smaller of two values is above neither.
pub min_dec_le :
    (a b : Decimal) → (lt_dec a (min_dec a b) ≡ false) × (lt_dec b (min_dec a b) ≡ false)
unfolding min_dec
min_dec_le a b = elim (Bool-cases (lt_dec b a)) [
  | inl t ↦ rw t (lt_dec_asym b a t, lt_dec_irrefl b)
  | inr f ↦ rw f (lt_dec_irrefl a, f)
]

-- The larger of two values is below neither.
pub max_dec_ge :
    (a b : Decimal) → (lt_dec (max_dec a b) a ≡ false) × (lt_dec (max_dec a b) b ≡ false)
unfolding max_dec
max_dec_ge a b = elim (Bool-cases (lt_dec a b)) [
  | inl t ↦ rw t (lt_dec_asym a b t, lt_dec_irrefl b)
  | inr f ↦ rw f (lt_dec_irrefl a, f)
]

pos_times : (n k : ℕ) → pos n *ℤ pos k ≡ pos (n * k)
unfolding ◌*ℤ◌
pos_times n k = ground arith

times_mono : (n m k : ℕ) → n ≤ m → n * k ≤ m * k
times_mono n m k h = grind arith

ltb_ℤ_mono :
    (x : ℤ) (a b : ℕ)
    → a ≤ b
    → ltb (pos_part x + 0) (a + neg_part x) ≡ true
    → ltb (pos_part x + 0) (b + neg_part x) ≡ true
ltb_ℤ_mono x a b le h = ground arith

-- Below a whole number is below each larger one.
pub lt_dec-whole_mono :
    (w : Decimal) (n m : ℕ) → n ≤ m → lt_dec w (dec n 0) ≡ true → lt_dec w (dec m 0) ≡ true
unfolding lt_dec align
lt_dec-whole_mono w n m le h =
    let s = common_scale w (dec n 0) in
    let k = 10 ^ (s - 0) in
    rw pos_times (ltb_ℤ_mono (align w s) (n * k) (m * k) (times_mono n m k le) (rw pos_times at h))
