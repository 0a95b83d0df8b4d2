-- ===== src/Withholding/Bounds.antt =====
-- app/pipeline/federal_withholding.py: the bracket that is found, and the floor at zero.
use mathlib.Core.List.{reverse, reverse-append}
use mathlib.Core.Path.{subst}
use payroll_agent.Prelude.{
  ◌++◌, ◌≡◌, refl, sym, ◌∙◌, ap, Bool, true, false, Option, none, some, List, [], ◌∷◌, find, In,
  inl, inr, arith, Bool-cases, if◌then◌else◌,
}
use payroll_agent.Decimal.{Decimal, dec, lt_dec}
use payroll_agent.Decimal.Order.{max_dec_ge, lt_dec-whole_mono}
use payroll_agent.Roster.{Employee, FilingStatus}
use payroll_agent.TaxTables.{BracketRow, brackets}
use payroll_agent.TaxTables.Brackets.{IsChained, IsTable, dollars, brackets-IsTable}
use payroll_agent.Withholding.{reaches, find_bracket, federal_withholding_2026}

-- The withholding of a period is never negative.
pub federal_withholding_nonneg :
    (taxable : Decimal) (e : Employee)
    → lt_dec (federal_withholding_2026 taxable e) (dec 0 0) ≡ false
unfolding federal_withholding_2026
federal_withholding_nonneg taxable e = (max_dec_ge (dec 0 0) _).0

abbrev or_else : Option BracketRow → Option BracketRow → Option BracketRow
or_else none b = b
or_else (some a) b = some a

-- The last row that satisfies a test, scanning forward.
last_row : (BracketRow → Bool) → List BracketRow → Option BracketRow
last_row p [] = none
last_row p (r ∷ rows) = or_else (last_row p rows) (if p r then some r else none)

find-append :
    (p : BracketRow → Bool) (xs ys : List BracketRow)
    → find p (xs ++ ys) ≡ or_else (find p xs) (find p ys)
find-append p [] ys = refl
find-append p (x ∷ xs) ys = elim (Bool-cases (p x)) [
  | inl t ↦ rw t
  | inr f ↦ rw f (find-append p xs ys)
]

find-reverse :
    (p : BracketRow → Bool) (rows : List BracketRow) → find p (reverse rows) ≡ last_row p rows
unfolding last_row
find-reverse p [] = refl
find-reverse p (r ∷ rows) =
    ap (find p) (reverse-append (r ∷ []) rows)
    ∙ (find-append p (reverse rows) (r ∷ [])
        ∙ ap (λ o. or_else o (if p r then some r else none)) (find-reverse p rows))

-- The row covers the wage: it is at least the lower end, and below the upper end if there is one.
abbrev pub Covers : Decimal → BracketRow → Type 0
Covers wage r =
    (lt_dec wage r.lower ≡ false) × ((u : Decimal) → r.upper ≡ some u → lt_dec wage u ≡ true)

whole_lower :
    (r : BracketRow) (rows : List BracketRow) → IsChained (r ∷ rows) → r.lower ≡ dec (dollars r) 0
whole_lower r [] c = c.0
whole_lower r (s ∷ rows) c = c.0

below_next :
    (wage : Decimal) (r s : BracketRow) (rows : List BracketRow)
    → IsChained (r ∷ s ∷ rows)
    → lt_dec wage r.lower ≡ true
    → lt_dec wage s.lower ≡ true
below_next wage r s rows c h =
    subst (λ d. lt_dec wage d ≡ true) (sym (whole_lower s rows c.3))
      (lt_dec-whole_mono wage (dollars r) (dollars s) (omega (arith, c.2))
        (subst (λ d. lt_dec wage d ≡ true) c.0 h))

-- A wage below the lower end of the first row reaches no row.
last_row-below :
    (wage : Decimal) (r : BracketRow) (rows : List BracketRow)
    → IsChained (r ∷ rows)
    → lt_dec wage r.lower ≡ true
    → last_row (reaches wage) (r ∷ rows) ≡ none
unfolding last_row reaches
last_row-below wage r [] c h = rw h
last_row-below wage r (s ∷ rows) c h =
    rw (last_row-below wage s rows c.3 (below_next wage r s rows c h), reaches, h)

-- The last row that the wage reaches covers it.
last_row-Covers :
    (wage : Decimal) (r : BracketRow) (rows : List BracketRow)
    → IsChained (r ∷ rows)
    → lt_dec wage r.lower ≡ false
    → (s : BracketRow) × (last_row (reaches wage) (r ∷ rows) ≡ some s)
      × In s (r ∷ rows)
      × Covers wage s
unfolding last_row reaches
last_row-Covers wage r [] c h = (r, rw h refl, inl refl, (h, λ u q. absurd (cc (c.1))))
last_row-Covers wage r (s ∷ rows) c h = elim (Bool-cases (lt_dec wage s.lower)) [
  | inr f ↦ let (t, e, m, k) = last_row-Covers wage s rows c.3 f in (t, rw (e, last_row), inr m, k)
  | inl b ↦ (
    r,
    rw (last_row-below wage s rows c.3 b, reaches, h),
    inl refl,
    (h, λ u q. subst (λ d. lt_dec wage d ≡ true) (some_inj (sym c.1 ∙ q)) b),
  )
]
  where
    some_inj : {a b : Decimal} → some a ≡ some b → a ≡ b
    some_inj e = cc

-- For every table of 2026 and every wage that is not negative, the bracket that is found is a row
-- of the table that covers the wage.
pub find_bracket-Covers :
    (wage : Decimal) (status : FilingStatus) (checkbox : Bool)
    → lt_dec wage (dec 0 0) ≡ false
    → let r = find_bracket wage (brackets status checkbox) in
      In r (brackets status checkbox) × Covers wage r
unfolding find_bracket
find_bracket-Covers wage status checkbox h =
    found (brackets status checkbox) (brackets-IsTable status checkbox)
  where
    by_scan :
        (rows : List BracketRow) (s : BracketRow)
        → last_row (reaches wage) rows ≡ some s
        → find_bracket wage rows ≡ s
    by_scan rows s e = rw (find-reverse (reaches wage) rows ∙ e, find_bracket)

    found :
        (rows : List BracketRow)
        → IsTable rows
        → In (find_bracket wage rows) rows × Covers wage (find_bracket wage rows)
    found [] t = absurd t
    found (r ∷ rows) t =
        let (s, e, m, k) =
          last_row-Covers wage r rows t.1 (subst (λ d. lt_dec wage d ≡ false) (sym t.0) h) in
        subst (λ z. In z (r ∷ rows) × Covers wage z) (sym (by_scan (r ∷ rows) s e)) (m, k)
