-- ===== src/Calculate/Payload.antt =====
-- app/pipeline/calculate.py::_to_decimal and _resolved_hours: what an accepted payload holds.
use payroll_agent.Prelude.{
  ◌≡◌, ◌≢◌, Bool, false, Bool-cases, inl, inr, list_eq, nat_eq, Option, Result, ok, err, ◌>>=◌,
  >>=-eq_ok, Text, get_or_else, ◌==◌, [],
}
use mathlib.Core.Path.{subst}
use payroll_agent.Prelude.Dict.{Dict, lookup}
use payroll_agent.Decimal.{Decimal, dec, lt_dec}
use payroll_agent.Decimal.Order.{lt_dec_irrefl}
use payroll_agent.Contracts.{HoursField, regular, overtime, vacation, sick, holiday, field_name}
use payroll_agent.Calculate.{
  PyValue, none_value, float_value, bool_value, int_value, text_value, decimal_value, Hours,
  CalcError, non_negative, from_text, to_decimal, hours_value, has_unknown_key, resolved_hours,
}

abbrev pub hours_of : Hours → HoursField → Decimal
hours_of h regular = h.hours_regular
hours_of h overtime = h.hours_overtime
hours_of h vacation = h.hours_vacation
hours_of h sick = h.hours_sick
hours_of h holiday = h.hours_holiday

-- The value under a key, or None.
abbrev pub value_at : Dict Text PyValue → HoursField → PyValue
unfolding field_name
value_at resolved f = get_or_else (lookup (field_name f) resolved) none_value

-- `d` is a number of hours that was read from the raw value `v`.
abbrev pub IsHours : PyValue → Decimal → Type 0
IsHours v d = (v ≢ float_value) × ((b : Bool) → v ≢ bool_value b) × (lt_dec d (dec 0 0) ≡ false)

non_negative-ok : (c d : Decimal) → non_negative c ≡ ok d → lt_dec d (dec 0 0) ≡ false
unfolding non_negative
non_negative-ok c d h = elim (Bool-cases (lt_dec c (dec 0 0))) [
  | inl t ↦ cc (rw t at h)
  | inr f ↦ let q : c ≡ d = cc (rw f at h) in subst (λ x. lt_dec x (dec 0 0) ≡ false) q f
]

zero-ok :
    (d : Decimal)
    → Path (Result CalcError Decimal) (ok (dec 0 0)) (ok d)
    → lt_dec d (dec 0 0) ≡ false
zero-ok d h =
    let q : dec 0 0 ≡ d = cc h in
    subst (λ x. lt_dec x (dec 0 0) ≡ false) q (lt_dec_irrefl (dec 0 0))

-- A chain of five readings that succeeds.
readings-ok :
    (a b c d e : Result CalcError Decimal) (h : Hours)
    → Path
        (Result CalcError Hours)
        (do
          r ← a
          o ← b
          v ← c
          s ← d
          l ← e
          ok (record {
            hours_regular = r;
            hours_overtime = o;
            hours_vacation = v;
            hours_sick = s;
            hours_holiday = l;
          }))
        (ok h)
    → (a ≡ ok h.hours_regular)
      × (b ≡ ok h.hours_overtime)
      × (c ≡ ok h.hours_vacation)
      × (d ≡ ok h.hours_sick)
      × (e ≡ ok h.hours_holiday)
readings-ok (ok r) (ok o) (ok v) (ok s) (ok l) h q = (cc, cc, cc, cc, cc)
readings-ok (err x) b c d e h q = cc q
readings-ok (ok r) (err x) c d e h q = cc q
readings-ok (ok r) (ok o) (err x) d e h q = cc q
readings-ok (ok r) (ok o) (ok v) (err x) e h q = cc q
readings-ok (ok r) (ok o) (ok v) (ok s) (err x) h q = cc q

module _ (parse_decimal : Text → Option Decimal) where
  to_decimal-IsHours : (v : PyValue) (d : Decimal) → to_decimal parse_decimal v ≡ ok d → IsHours v d
  unfolding to_decimal
  to_decimal-IsHours none_value d h = (λ q. cc q, λ b q. cc q, zero-ok d h)
  to_decimal-IsHours float_value d h = cc h
  to_decimal-IsHours (bool_value b) d h = cc h
  to_decimal-IsHours (int_value n) d h = (λ q. cc q, λ b q. cc q, non_negative-ok _ d h)
  to_decimal-IsHours (decimal_value c) d h = (λ q. cc q, λ b q. cc q, non_negative-ok c d h)
  to_decimal-IsHours (text_value t) d h = elim (Bool-cases (t == [])) [
    | inl u ↦ (λ q. cc q, λ b q. cc q, zero-ok d (rw u at h))
    | inr f ↦
        let (c, _, e) = >>=-eq_ok (from_text parse_decimal t) non_negative (rw f at h) in
        (λ q. cc q, λ b q. cc q, non_negative-ok c d e)
  ]

  -- A payload that is accepted has no key outside the five hours fields, no value of a field that is
  -- a float or a bool, and each of the five numbers read from it is not below zero.
  pub resolved_hours_sound :
      (resolved : Dict Text PyValue) (h : Hours)
      → resolved_hours parse_decimal resolved ≡ ok h
      → (has_unknown_key resolved ≡ false)
        × ((f : HoursField)
            → (hours_value parse_decimal resolved f ≡ ok (hours_of h f))
              × IsHours (value_at resolved f) (hours_of h f))
  unfolding resolved_hours hours_value
  resolved_hours_sound resolved h e = elim (Bool-cases (has_unknown_key resolved)) [
    | inl t ↦ cc (rw t at e)
    | inr f ↦
        let (r, o, v, s, l) = readings-ok _ _ _ _ _ h (rw f at e) in
        let read : (k : HoursField) → hours_value parse_decimal resolved k ≡ ok (hours_of h k) =
          λ k. elim k as (λ k. hours_value parse_decimal resolved k ≡ ok (hours_of h k)) [
            | regular ↦ r
            | overtime ↦ o
            | vacation ↦ v
            | sick ↦ s
            | holiday ↦ l
          ] in
        (f, λ k. (read k, to_decimal-IsHours (value_at resolved k) (hours_of h k) (read k)))
  ]
