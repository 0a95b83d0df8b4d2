-- ===== src/AliasLearning.antt =====
-- app/pipeline/alias_learning.py, with app/db/repo/pipeline_state.py::update_known_alias and
-- app/db/repo/roster.py::load_roster_for_business, which it writes and reads the roster by. The
-- table `employees` is a list of its rows. Reading and writing a UUID as text are the parameters
-- `parse_uuid` and `show_uuid`.
pub mod Carriers
pub mod Guard
pub mod Batch
pub mod Bridge
pub mod Evidence
mod Tests
use payroll_agent.Prelude.{
  ℕ, Text, codes, list_eq, nat_eq, Bool, true, false, not, ◌&&◌, ◌||◌, Option, none, some, List, [],
  ◌∷◌, ◌++◌, map, ◌==◌, any, keep, find, contains, is_empty, if◌then◌else◌,
}
use payroll_agent.Prelude.Dict.{Dict, distinct}
use payroll_agent.Roster.{Employee, Roster, NameMatchResult, alias}
use payroll_agent.Reconcile.{normalize_name, deterministic_match, employee_id}

-- A value of the `alias_candidates` column: null, the older flat id, or the nested record.
pub record Candidate : Type 0 where
  pub suggested : Option Text
  pub bound : Option Text

pub data CandidateValue : Type 0 where
  null : CandidateValue
  flat : Text → CandidateValue
  nested : Candidate → CandidateValue

unfoldable pub normalize_candidate : CandidateValue → Candidate
normalize_candidate null = record { suggested = none; bound = none }
normalize_candidate (nested c) = c
normalize_candidate (flat value) = record { suggested = none; bound = some value }

-- `next((e for e in employees if e.id == i), None)`
unfoldable pub employee_by_id : ℕ → List Employee → Option Employee
employee_by_id i = find (λ (e : Employee). e.id == i)

-- `emp.model_copy(update={"known_aliases": ...})` on the one employee of an id.
unfoldable pub update_aliases : (List Text → List Text) → ℕ → Employee → Employee
update_aliases f i e = if e.id == i then record e { known_aliases = f e.known_aliases } else e

abbrev pub append_token : Text → List Text → List Text
append_token token aliases = aliases ++ (token ∷ [])

-- The throwaway roster of `safe_to_learn_alias`.
unfoldable pub synthetic_roster : Text → ℕ → Roster → Roster
unfolding update_aliases
synthetic_roster token target r = record {
  business_id = r.business_id;
  employees = map (update_aliases (append_token token) target) r.employees;
}

unfoldable pub matches_id : Option NameMatchResult → ℕ → Bool
matches_id none i = false
matches_id (some m) i = elim m.matched_employee_id [ none ↦ false | some j ↦ j == i ]

-- The table, and `SELECT ... WHERE business_id = %s`.
abbrev pub Employees : Type 0
Employees = List Employee

unfoldable pub load_roster_for_business : ℕ → Employees → Roster
load_roster_for_business b db = record {
  business_id = b;
  employees = keep (λ (e : Employee). e.business_id == b) db;
}

-- `UPDATE employees SET known_aliases = array(SELECT DISTINCT unnest(known_aliases || alias))
-- WHERE id = ... AND NOT (alias = ANY(known_aliases))`; SQL leaves the order of the array open.
unfoldable pub add_distinct : Text → List Text → List Text
unfolding distinct
add_distinct new_alias aliases =
    if contains new_alias aliases then aliases else distinct (append_token new_alias aliases)

unfoldable pub update_known_alias : ℕ → Text → Employees → Bool × Employees
unfolding update_aliases add_distinct
update_known_alias i new_alias db = (
  any (λ (e : Employee). e.id == i && not (contains new_alias e.known_aliases)) db,
  map (update_aliases (add_distinct new_alias) i) db,
)

-- The roster that the loop validates against, and the table.
pub record Learning : Type 0 where
  pub current_roster : Roster
  pub table : Employees

-- `uuid.UUID(text)`, when there is a text and it parses.
unfoldable pub parse_id : (Text → Option ℕ) → Option Text → Option ℕ
parse_id parse_uuid none = none
parse_id parse_uuid (some s) = parse_uuid s

-- `str(entry.get("matched_employee_id"))`
unfoldable pub show_matched : (ℕ → Text) → Option ℕ → Text
show_matched show_uuid none = codes "None"
show_matched show_uuid (some i) = show_uuid i

unfoldable pub bridged_match : Text → ℕ → NameMatchResult
bridged_match token target = record {
  submitted_name = token;
  matched_employee_id = some target;
  source = alias;
  resolved = true;
  reason = codes "confirmed at clarification reply";
}

-- A record of the prior round that was resolved to an employee, and its id.
unfoldable pub mapped_id : NameMatchResult → List ℕ
mapped_id m = elim m.matched_employee_id [ none ↦ [] | some i ↦ if m.resolved then i ∷ [] else [] ]

unfoldable pub already_mapped_ids : List NameMatchResult → List ℕ
unfolding mapped_id
already_mapped_ids [] = []
already_mapped_ids (m ∷ ms) = mapped_id m ++ already_mapped_ids ms

unfoldable pub already_mapped_names : List NameMatchResult → List Text
unfolding mapped_id
already_mapped_names [] = []
already_mapped_names (m ∷ ms) =
    if is_empty (mapped_id m)
    then already_mapped_names ms
    else m.submitted_name ∷ already_mapped_names ms

module _ (fold : Text → Text) where
  unfoldable pub safe_to_learn_alias : Text → ℕ → Roster → Bool
  unfolding synthetic_roster matches_id
  safe_to_learn_alias token target r =
      matches_id (deterministic_match fold token (synthetic_roster token target r)) target

  -- The write of one token that is bound to an employee of the current roster.
  unfoldable pub learn_bound : ℕ → Text → ℕ → Learning → Learning
  unfolding safe_to_learn_alias update_known_alias load_roster_for_business employee_by_id
  learn_bound b token i s = elim (employee_by_id i s.current_roster.employees) [
    | none ↦ s
    | some target_employee ↦
        if safe_to_learn_alias token target_employee.id s.current_roster
        then (let (written, table) = update_known_alias i token s.table in
            if written
            then record { current_roster = load_roster_for_business b table; table = table }
            else s)
        else s
  ]

  module _ (parse_uuid : Text → Option ℕ) where
    unfoldable pub learn_candidate : ℕ → Text → CandidateValue → Learning → Learning
    unfolding normalize_candidate parse_id learn_bound
    learn_candidate b token value s = elim (parse_id parse_uuid (normalize_candidate value).bound) [
      | none ↦ s
      | some i ↦ learn_bound b token i s
    ]

    -- The loop over `alias_candidates`, which the run of business `b` holds.
    unfoldable pub write_aliases_if_safe : ℕ → Dict Text CandidateValue → Learning → Learning
    unfolding learn_candidate
    write_aliases_if_safe b [] s = s
    write_aliases_if_safe b ((token, value) ∷ candidates) s =
        write_aliases_if_safe b candidates (learn_candidate b token value s)

module _ (fold : Text → Text) (show_uuid : ℕ → Text) where
  unfoldable pub match_names : Text → Option Text → List Text
  unfolding normalize_name
  match_names token none = normalize_name fold token ∷ []
  match_names token (some full_name) =
      normalize_name fold token ∷ normalize_name fold full_name ∷ []

  -- The test that one reconciliation record must pass.
  unfoldable pub is_evidence : List Text → Text → NameMatchResult → Bool
  unfolding show_matched
  is_evidence names suggested_id m =
      contains (normalize_name fold m.submitted_name) names
      && (m.resolved && show_matched show_uuid m.matched_employee_id == suggested_id)

  unfoldable pub bind_evidence_for_token : Text → Text → Option Text → List NameMatchResult → Bool
  unfolding match_names is_evidence
  bind_evidence_for_token token suggested_id suggested_full_name post_reconciliation =
      any (is_evidence (match_names token suggested_full_name) suggested_id) post_reconciliation

  -- The full name of the employee whose id is written as `target_str`.
  unfoldable pub suggested_full_name : Text → List Employee → Option Text
  suggested_full_name target_str employees =
      elim (find (λ (e : Employee). show_uuid e.id == target_str) employees) [
        | none ↦ none
        | some e ↦ some e.full_name
      ]

  -- The id that a candidate stands for: bound before, or suggested and confirmed by the reply.
  unfoldable pub confirmed_target : Text → Candidate → List NameMatchResult → Roster → Option Text
  unfolding bind_evidence_for_token suggested_full_name
  confirmed_target token cand current_matches r = elim cand.bound [
    | some bound ↦ some bound
    | none ↦ elim cand.suggested [
      | none ↦ none
      | some suggested ↦
          if bind_evidence_for_token token suggested (suggested_full_name suggested r.employees)
            current_matches
          then some suggested
          else none
    ]
  ]

  module _ (parse_uuid : Text → Option ℕ) (r : Roster)
      (current_matches : List NameMatchResult) where
    -- The guards of one round of the loop; the id that it seeds, if they pass.
    unfoldable pub seeded : List ℕ → List Text → Text → CandidateValue → Option ℕ
    unfolding normalize_candidate confirmed_target parse_id
    seeded ids names token value =
        elim (parse_id parse_uuid
          (confirmed_target token (normalize_candidate value) current_matches r)) [
            | none ↦ none
            | some target ↦
                if not (contains target (map employee_id r.employees))
                  || (contains target ids || contains token names)
                then none
                else some target
          ]

    unfoldable pub bridge : List ℕ → List Text → Dict Text CandidateValue → List NameMatchResult
    unfolding seeded bridged_match
    bridge ids names [] = []
    bridge ids names ((token, value) ∷ candidates) = elim (seeded ids names token value) [
      | none ↦ bridge ids names candidates
      | some target ↦ bridged_match token target ∷ bridge (target ∷ ids) (token ∷ names) candidates
    ]

    -- An absent `alias_candidates` is the empty dictionary.
    unfoldable pub confirmed_prior_matches :
        Option (List NameMatchResult) → Dict Text CandidateValue → Option (List NameMatchResult)
    unfolding bridge already_mapped_ids already_mapped_names
    confirmed_prior_matches none candidates = none
    confirmed_prior_matches (some prior) candidates =
        some (prior ++ bridge (already_mapped_ids prior) (already_mapped_names prior) candidates)
