-- ===== src/TaxTables.antt =====
-- app/pipeline/tax_tables_2026.py: the IRS Pub 15-T percentage-method tables and the FICA
-- constants of 2026. The head-of-household rows are left out: no filing status reaches them.
pub mod Brackets
use payroll_agent.Prelude.{Option, none, some, List, [], ◌∷◌, Bool, if◌then◌else◌}
use payroll_agent.Decimal.{Decimal, dec}
use payroll_agent.Roster.{FilingStatus, single, married_jointly, married_separately}

pub record BracketRow : Type 0 where
  pub lower : Decimal
  pub upper : Option Decimal
  pub base : Decimal
  pub rate : Decimal

abbrev pub row : Decimal → Option Decimal → Decimal → Decimal → BracketRow
row l u b r = record { lower = l; upper = u; base = b; rate = r }

unfoldable pub mfj_standard : List BracketRow
mfj_standard =
    row (dec 0 0) (some (dec 19300 0)) (dec 0 2) (dec 0 2)
    ∷ row (dec 19300 0) (some (dec 44100 0)) (dec 0 2) (dec 10 2)
    ∷ row (dec 44100 0) (some (dec 120100 0)) (dec 248000 2) (dec 12 2)
    ∷ row (dec 120100 0) (some (dec 230700 0)) (dec 1160000 2) (dec 22 2)
    ∷ row (dec 230700 0) (some (dec 422850 0)) (dec 3593200 2) (dec 24 2)
    ∷ row (dec 422850 0) (some (dec 531750 0)) (dec 8204800 2) (dec 32 2)
    ∷ row (dec 531750 0) (some (dec 788000 0)) (dec 11689600 2) (dec 35 2)
    ∷ row (dec 788000 0) none (dec 20658350 2) (dec 37 2)
    ∷ []

unfoldable pub single_standard : List BracketRow
single_standard =
    row (dec 0 0) (some (dec 7500 0)) (dec 0 2) (dec 0 2)
    ∷ row (dec 7500 0) (some (dec 19900 0)) (dec 0 2) (dec 10 2)
    ∷ row (dec 19900 0) (some (dec 57900 0)) (dec 124000 2) (dec 12 2)
    ∷ row (dec 57900 0) (some (dec 113200 0)) (dec 580000 2) (dec 22 2)
    ∷ row (dec 113200 0) (some (dec 209275 0)) (dec 1796600 2) (dec 24 2)
    ∷ row (dec 209275 0) (some (dec 263725 0)) (dec 4102400 2) (dec 32 2)
    ∷ row (dec 263725 0) (some (dec 648100 0)) (dec 5844800 2) (dec 35 2)
    ∷ row (dec 648100 0) none (dec 19297925 2) (dec 37 2)
    ∷ []

unfoldable pub mfj_step2 : List BracketRow
mfj_step2 =
    row (dec 0 0) (some (dec 16100 0)) (dec 0 2) (dec 0 2)
    ∷ row (dec 16100 0) (some (dec 28500 0)) (dec 0 2) (dec 10 2)
    ∷ row (dec 28500 0) (some (dec 66500 0)) (dec 124000 2) (dec 12 2)
    ∷ row (dec 66500 0) (some (dec 121800 0)) (dec 580000 2) (dec 22 2)
    ∷ row (dec 121800 0) (some (dec 217875 0)) (dec 1796600 2) (dec 24 2)
    ∷ row (dec 217875 0) (some (dec 272325 0)) (dec 4102400 2) (dec 32 2)
    ∷ row (dec 272325 0) (some (dec 400450 0)) (dec 5844800 2) (dec 35 2)
    ∷ row (dec 400450 0) none (dec 10329175 2) (dec 37 2)
    ∷ []

unfoldable pub single_step2 : List BracketRow
single_step2 =
    row (dec 0 0) (some (dec 8050 0)) (dec 0 2) (dec 0 2)
    ∷ row (dec 8050 0) (some (dec 14250 0)) (dec 0 2) (dec 10 2)
    ∷ row (dec 14250 0) (some (dec 33250 0)) (dec 62000 2) (dec 12 2)
    ∷ row (dec 33250 0) (some (dec 60900 0)) (dec 290000 2) (dec 22 2)
    ∷ row (dec 60900 0) (some (dec 108938 0)) (dec 898300 2) (dec 24 2)
    ∷ row (dec 108938 0) (some (dec 136163 0)) (dec 2051200 2) (dec 32 2)
    ∷ row (dec 136163 0) (some (dec 328350 0)) (dec 2922400 2) (dec 35 2)
    ∷ row (dec 328350 0) none (dec 9648963 2) (dec 37 2)
    ∷ []

-- `STANDARD_BRACKETS[status]`; single and married-separately share one table.
unfoldable pub standard_brackets : FilingStatus → List BracketRow
unfolding mfj_standard single_standard
standard_brackets married_jointly = mfj_standard
standard_brackets single = single_standard
standard_brackets married_separately = single_standard

-- `STEP2_BRACKETS[status]`
unfoldable pub step2_brackets : FilingStatus → List BracketRow
unfolding mfj_step2 single_step2
step2_brackets married_jointly = mfj_step2
step2_brackets single = single_step2
step2_brackets married_separately = single_step2

-- `STEP2_BRACKETS[status] if checkbox else STANDARD_BRACKETS[status]`
unfoldable pub brackets : FilingStatus → Bool → List BracketRow
unfolding standard_brackets step2_brackets
brackets status checkbox = if checkbox then step2_brackets status else standard_brackets status

-- `STEP1_STANDARD[status]`
unfoldable pub step1_standard : FilingStatus → Decimal
step1_standard married_jointly = dec 12900 0
step1_standard single = dec 8600 0
step1_standard married_separately = dec 8600 0

abbrev pub ss_rate : Decimal
ss_rate = dec 62 3

abbrev pub ss_wage_base : Decimal
ss_wage_base = dec 184500 0

abbrev pub medicare_rate : Decimal
medicare_rate = dec 145 4
