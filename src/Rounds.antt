-- ===== src/Rounds.antt =====
-- app/pipeline/validate.py: the two detectors of hours that changed between clarification rounds,
-- over one pairing by employee id. `str(employee_id)` is only compared and sorted, and the text of
-- a UUID sorts as its number, so a key holds the number.
pub mod Entries
pub mod Pairing
pub mod Detectors
mod Tests
use payroll_agent.Prelude.{
  ℕ, ◌++◌, Text, sorted, list_eq, nat_eq, leb, Bool, true, false, not, ◌&&◌, Option, none, some,
  List, [], ◌∷◌, map, ◌==◌, keep, contains, if◌then◌else◌,
}
use payroll_agent.Prelude.Dict.{Dict, lookup, insert, distinct}
use payroll_agent.Decimal.{Decimal, dec, lt_dec, eq_dec}
use payroll_agent.Roster.{NameMatchResult}
use payroll_agent.Contracts.{
  Extracted, ExtractedEmployee, HoursField, hours_fields, get_hours, RawFieldDrop, HoursChange,
}

unfoldable pub is_paid : Option Decimal → Bool
is_paid none = false
is_paid (some v) = lt_dec (dec 0 0) v

-- The id of a match that is resolved to an employee.
unfoldable pub resolved_match : NameMatchResult → Option ℕ
resolved_match m = if m.resolved then m.matched_employee_id else none

abbrev add_resolved : Option ℕ → Text → Dict Text ℕ → Dict Text ℕ
add_resolved none n d = d
add_resolved (some i) n d = insert n i d

-- `{m.submitted_name: m.matched_employee_id for m in matches if ...}`: the last entry wins.
unfoldable pub name_to_id_from : Dict Text ℕ → List NameMatchResult → Dict Text ℕ
unfolding resolved_match
name_to_id_from d [] = d
name_to_id_from d (m ∷ ms) = name_to_id_from (add_resolved (resolved_match m) m.submitted_name d) ms

unfoldable pub name_to_id : List NameMatchResult → Dict Text ℕ
unfolding name_to_id_from
name_to_id = name_to_id_from []

abbrev add_employee :
    Option ℕ → ExtractedEmployee → Dict ℕ ExtractedEmployee → Dict ℕ ExtractedEmployee
add_employee none e d = d
add_employee (some i) e d = insert i e d

unfoldable pub id_keyed_from :
    Dict Text ℕ → Dict ℕ ExtractedEmployee → List ExtractedEmployee → Dict ℕ ExtractedEmployee
id_keyed_from ids d [] = d
id_keyed_from ids d (e ∷ es) = id_keyed_from ids (add_employee (lookup e.submitted_name ids) e d) es

unfoldable pub id_keyed : Extracted → List NameMatchResult → Dict ℕ ExtractedEmployee
unfolding name_to_id id_keyed_from
id_keyed extracted matches = id_keyed_from (name_to_id matches) [] extracted.employees

abbrev pub key : ℕ × ExtractedEmployee → ℕ
key e = e.0

-- `[(a[i], b[i]) for i in ids]`
abbrev pair_at :
    Option ExtractedEmployee
    → Option ExtractedEmployee
    → List (ExtractedEmployee × ExtractedEmployee)
    → List (ExtractedEmployee × ExtractedEmployee)
pair_at (some a) (some b) rest = (a, b) ∷ rest
pair_at (some a) none rest = rest
pair_at none b rest = rest

unfoldable pub pairs_at :
    Dict ℕ ExtractedEmployee
    → Dict ℕ ExtractedEmployee
    → List ℕ
    → List (ExtractedEmployee × ExtractedEmployee)
pairs_at a b [] = []
pairs_at a b (i ∷ ids) = pair_at (lookup i a) (lookup i b) (pairs_at a b ids)

-- The ids that both dictionaries have; a UUID's text sorts as its number.
unfoldable pub common_ids : Dict ℕ ExtractedEmployee → Dict ℕ ExtractedEmployee → List ℕ
unfolding distinct sorted
common_ids a b = sorted leb (keep (λ i. contains i (map key b)) (distinct (map key a)))

unfoldable pub pair_by_employee_id :
    Extracted
    → Extracted
    → List NameMatchResult
    → List NameMatchResult
    → List (ExtractedEmployee × ExtractedEmployee)
unfolding id_keyed common_ids pairs_at
pair_by_employee_id original resumed prior_matches current_matches =
    let a = id_keyed original prior_matches in
    let b = id_keyed resumed current_matches in pairs_at a b (common_ids a b)

-- A paid value that is gone, or explicitly zero, in the reply.
unfoldable pub field_drop : Text → HoursField → Option Decimal → Option Decimal → List RawFieldDrop
unfolding is_paid
field_drop name field none resumed_val = []
field_drop name field (some original) resumed_val =
    if is_paid (some original) && not (is_paid resumed_val)
    then record {
      submitted_name = name;
      field = field;
      original_value = original;
      resumed_value = resumed_val;
    }
      ∷ []
    else []

-- A paid value that the reply states differently.
unfoldable pub field_change : Text → HoursField → Option Decimal → Option Decimal → List HoursChange
unfolding is_paid
field_change name field (some original) (some resumed) =
    if is_paid (some original) && (is_paid (some resumed) && not (eq_dec original resumed))
    then record {
      submitted_name = name;
      field = field;
      original_value = original;
      resumed_value = resumed;
    }
      ∷ []
    else []
field_change name field (some original) none = []
field_change name field none resumed_val = []

-- The loops over the pairs, and over the hours fields of each.
module _ {A : Type 0} (event : Text → HoursField → Option Decimal → Option Decimal → List A) where
  unfoldable pub over_fields : ExtractedEmployee → ExtractedEmployee → List HoursField → List A
  over_fields orig resumed [] = []
  over_fields orig resumed (f ∷ fs) =
      event resumed.submitted_name f (get_hours orig f) (get_hours resumed f)
      ++ over_fields orig resumed fs

  unfoldable pub over_pairs : List (ExtractedEmployee × ExtractedEmployee) → List A
  unfolding over_fields
  over_pairs [] = []
  over_pairs ((orig, resumed) ∷ rest) = over_fields orig resumed hours_fields ++ over_pairs rest

  -- `prior_matches is None` is an honest no-op.
  unfoldable pub detect :
      Extracted → Extracted → Option (List NameMatchResult) → List NameMatchResult → List A
  unfolding over_pairs pair_by_employee_id
  detect original resumed none current_matches = []
  detect original resumed (some prior_matches) current_matches =
      over_pairs (pair_by_employee_id original resumed prior_matches current_matches)

unfoldable pub detect_field_regression :
    Extracted → Extracted → Option (List NameMatchResult) → List NameMatchResult → List RawFieldDrop
unfolding detect field_drop
detect_field_regression = detect field_drop

unfoldable pub detect_hours_changes :
    Extracted → Extracted → Option (List NameMatchResult) → List NameMatchResult → List HoursChange
unfolding detect field_change
detect_hours_changes = detect field_change
