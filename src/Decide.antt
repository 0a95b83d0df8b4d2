-- ===== src/Decide.antt =====
-- app/pipeline/decide.py: whether a run is processed or the client is asked.
pub mod Gate
mod Duplicates
mod Entries
pub mod Collisions
pub mod NoGuess
mod Tests
use payroll_agent.Prelude.{
  ℕ, ◌++◌, Text, codes, text_le, sorted, nat_eq, Bool, true, false, not, ◌&&◌, ◌||◌, list_eq,
  Option, none, some, List, [], ◌∷◌, map, ◌==◌, ltb, keep, contains, length, is_empty, get_or_else,
  if◌then◌else◌,
}
use payroll_agent.Prelude.Dict.{Dict, lookup, insert}
use payroll_agent.Roster.{NameMatchResult, ValidationIssue, is_missing, is_field_regression}
use payroll_agent.Contracts.{
  Extracted, ExtractedEmployee, Decision, FinalAction, process, request_clarification,
}

abbrev pub submitted : NameMatchResult → Text
submitted m = m.submitted_name

abbrev pub extracted_name : ExtractedEmployee → Text
extracted_name e = e.submitted_name

-- `" + ".join(names)`
abbrev join_plus : List Text → Text
join_plus [] = []
join_plus (n ∷ []) = n
join_plus (n ∷ m ∷ ns) = n ++ (codes " + " ++ join_plus (m ∷ ns))

-- The client-facing reasons.
unfoldable pub collision_reason : List Text → Text
unfolding sorted
collision_reason names =
    codes "two submitted names resolve to one employee: " ++ join_plus (sorted text_le names)

unfoldable pub duplicate_reason : Text → Text
duplicate_reason name = codes "duplicate submitted name: " ++ name

unfoldable pub unresolved_reason : Text → Text
unresolved_reason name = name ++ codes ": unresolved (no roster match)"

unfoldable pub missing_reason : Text → Text
missing_reason field = codes "missing required field: " ++ field

unfoldable pub regression_reason : Text → Text
regression_reason field = codes "field regression: " ++ field

unfoldable pub no_employees_reason : Text
no_employees_reason = codes "no employees could be extracted from the email"

unfoldable pub one_for_one_reason : Text
one_for_one_reason = codes "resolution records do not match the extracted employees one-for-one"

-- The body of the first loop of `check_one_to_one`: `dict` from an employee id to the distinct
-- names submitted for it.
abbrev pub names_at : ℕ → Dict ℕ (List Text) → List Text
names_at i d = get_or_else (lookup i d) []

unfoldable pub add_name : Text → List Text → List Text
add_name n names = if contains n names then names else names ++ (n ∷ [])

abbrev add_for : Option ℕ → Text → Dict ℕ (List Text) → Dict ℕ (List Text)
add_for none n acc = acc
add_for (some i) n acc = insert i (add_name n (names_at i acc)) acc

unfoldable pub by_employee : Dict ℕ (List Text) → List NameMatchResult → Dict ℕ (List Text)
unfolding add_name
by_employee acc [] = acc
by_employee acc (m ∷ ms) = by_employee (add_for m.matched_employee_id m.submitted_name acc) ms

unfoldable pub collision_reasons : Dict ℕ (List Text) → List Text
collision_reasons [] = []
collision_reasons ((i, names) ∷ d) =
    if ltb 1 (length names)
    then collision_reason names ∷ collision_reasons d
    else collision_reasons d

-- The second loop: a name that was seen before is reported once.
unfoldable pub duplicate_reasons : List Text → List Text → List NameMatchResult → List Text
duplicate_reasons seen flagged [] = []
duplicate_reasons seen flagged (m ∷ ms) =
    let name = m.submitted_name in
    let again = contains name seen && not (contains name flagged) in
    (if again then duplicate_reason name ∷ [] else [])
    ++ duplicate_reasons (name ∷ seen) (if again then name ∷ flagged else flagged) ms

unfoldable pub check_one_to_one : List NameMatchResult → List Text
check_one_to_one matches =
    collision_reasons (by_employee [] matches) ++ duplicate_reasons [] [] matches

-- Rule 0 and Rule 0b.
unfoldable pub extraction_reasons : Extracted → List NameMatchResult → List Text
extraction_reasons extracted matches =
    (if is_empty extracted.employees then no_employees_reason ∷ [] else [])
    ++ (if not (is_empty extracted.employees)
          && not (
              sorted text_le (map extracted_name extracted.employees)
              == sorted text_le (map submitted matches))
        then one_for_one_reason ∷ []
        else [])

-- Rule 1.
unfoldable pub unresolved_reasons : List NameMatchResult → List Text
unresolved_reasons [] = []
unresolved_reasons (m ∷ ms) =
    if m.resolved
    then unresolved_reasons ms
    else unresolved_reason m.submitted_name ∷ unresolved_reasons ms

unfoldable pub unresolved_names : List Text → List NameMatchResult → List Text
unresolved_names acc [] = acc
unresolved_names acc (m ∷ ms) =
    unresolved_names
      (if m.resolved || contains m.submitted_name acc then acc else acc ++ (m.submitted_name ∷ []))
      ms

-- Rules 2 and 2b read the issues of one type.
unfoldable pub missing_fields : List ValidationIssue → List Text
missing_fields issues = map (λ (i : ValidationIssue). i.field) (keep is_missing issues)

unfoldable pub regressions : List ValidationIssue → List Text
regressions issues = map (λ (i : ValidationIssue). i.field) (keep is_field_regression issues)

unfoldable pub gate_reasons : Extracted → List NameMatchResult → List ValidationIssue → List Text
gate_reasons extracted matches issues =
    extraction_reasons extracted matches
    ++ (unresolved_reasons matches
        ++ (map missing_reason (missing_fields issues)
            ++ (map regression_reason (regressions issues) ++ check_one_to_one matches)))

unfoldable pub decide : Extracted → List NameMatchResult → List ValidationIssue → Decision
decide extracted matches issues =
    let reasons = gate_reasons extracted matches issues in
    record {
      final_action = if is_empty reasons then process else request_clarification;
      gate_reasons = reasons;
      unresolved_names = unresolved_names [] matches;
      missing_fields = missing_fields issues;
      resolutions = matches;
    }
