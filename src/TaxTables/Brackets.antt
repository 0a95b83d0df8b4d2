-- ===== src/TaxTables/Brackets.antt =====
-- app/pipeline/tax_tables_2026.py: the shape of the tables.
use payroll_agent.Prelude.{ℕ, ◌<◌, arith, ◌≡◌, Bool, true, false, none, some, List, [], ◌∷◌}
use payroll_agent.Decimal.{dec}
use payroll_agent.Prelude.Int.{pos_part}
use payroll_agent.Roster.{FilingStatus, single, married_jointly, married_separately}
use payroll_agent.TaxTables.{BracketRow, brackets}

-- The whole dollars of a row's lower end.
abbrev pub dollars : BracketRow → ℕ
dollars r = pos_part r.lower.coeff

abbrev pub IsChained : List BracketRow → Type 0
IsChained [] = Unit
IsChained (r ∷ []) = (r.lower ≡ dec (dollars r) 0) × (r.upper ≡ none)
IsChained (r ∷ s ∷ rows) =
    (r.lower ≡ dec (dollars r) 0)
    × (r.upper ≡ some s.lower)
    × (dollars r < dollars s)
    × IsChained (s ∷ rows)

-- A table whose rows cover every wage from zero on, without a gap or an overlap.
abbrev pub IsTable : List BracketRow → Type 0
IsTable [] = ⊥
IsTable (r ∷ rows) = (r.lower ≡ dec 0 0) × IsChained (r ∷ rows)

-- The table of each filing status and W-4 step 2 answer begins at zero, its rows rise strictly in
-- whole dollars, each row ends where the next one begins, and the last row has no end.
pub brackets-IsTable :
    (status : FilingStatus) (checkbox : Bool) → IsTable (brackets status checkbox)
unfolding brackets
brackets-IsTable single true = ground arith
brackets-IsTable single false = ground arith
brackets-IsTable married_jointly true = ground arith
brackets-IsTable married_jointly false = ground arith
brackets-IsTable married_separately true = ground arith
brackets-IsTable married_separately false = ground arith
