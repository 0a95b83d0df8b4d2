-- ===== src/AliasLearning/Tests.antt =====
-- Runs of app/pipeline/alias_learning.py.
use payroll_agent.Prelude.{
  ℕ, ◌≡◌, ◌↔◌, refl, Text, codes, list_eq, list_beq, nat_eq, Option, none, some, List, [], ◌∷◌, In,
  NoRepeat, map, true,
}
use payroll_agent.Prelude.Dict.{Dict}
use payroll_agent.Roster.{Employee, NameMatchResult}
use payroll_agent.Reconcile.{normalize_name, deterministic_match, candidate_ids, employee_id}
use payroll_agent.Reconcile.Unique.{Carries, resolved_id}
use payroll_agent.AliasLearning.{
  CandidateValue, flat, nested, Learning, Employees, safe_to_learn_alias, load_roster_for_business,
  write_aliases_if_safe, show_matched, bind_evidence_for_token, already_mapped_ids,
  confirmed_prior_matches,
}
use payroll_agent.AliasLearning.Guard.{safe_to_learn_alias_iff}
use payroll_agent.AliasLearning.Batch.{write_aliases_if_safe_keeps}
use payroll_agent.AliasLearning.Evidence.{Restates, bind_evidence_for_token_iff}
use payroll_agent.AliasLearning.Bridge.{confirmed_prior_matches_fresh}
use payroll_agent.Samples.{roster, fold_ascii, parse_digit, show_digit, matched, maria, david}

abbrev table : Employees
table = maria ∷ david ∷ []

abbrev start : Learning
start = record { current_roster = load_roster_for_business 1 table; table = table }

-- "Dave" is bound to David; "Mia" is bound to David too, and is Maria's.
abbrev candidates : Dict Text CandidateValue
candidates = (codes "Dave", flat (codes "2")) ∷ (codes "Mia", flat (codes "2")) ∷ []

dave_learned :
    let t = write_aliases_if_safe fold_ascii parse_digit 1 candidates start in
    resolved_id (deterministic_match fold_ascii (codes "dave") (load_roster_for_business 1 t.table))
    ≡ some 2
unfolding write_aliases_if_safe deterministic_match candidate_ids list_beq normalize_name
dave_learned = refl

mia_before :
    resolved_id (deterministic_match fold_ascii (codes "mia") (load_roster_for_business 1 table))
    ≡ some 1
unfolding deterministic_match load_roster_for_business candidate_ids list_beq normalize_name
mia_before = refl

safe_to_learn_alias_iff_example :
    (safe_to_learn_alias fold_ascii (codes "Dave") 2 roster ≡ true) ↔ (
      ((e : Employee) × In e roster.employees × (e.id ≡ 2))
      × ((e : Employee)
          → In e roster.employees
          → Carries fold_ascii (normalize_name fold_ascii (codes "Dave")) e
          → e.id ≡ 2))
safe_to_learn_alias_iff_example = safe_to_learn_alias_iff fold_ascii (codes "Dave") 2 roster

write_aliases_if_safe_keeps_example :
    let t = write_aliases_if_safe fold_ascii parse_digit 1 candidates start in
    resolved_id (deterministic_match fold_ascii (codes "mia") (load_roster_for_business 1 t.table))
    ≡ some 1
write_aliases_if_safe_keeps_example =
    write_aliases_if_safe_keeps fold_ascii parse_digit 1 candidates start refl (codes "mia") 1
      mia_before

bind_evidence_for_token_iff_example :
    (bind_evidence_for_token fold_ascii show_digit
        (codes "Dave")
        (codes "2")
        (some (codes "David Reyes"))
        (matched (codes "david reyes") 2 ∷ [])
      ≡ true)
    ↔ ((m : NameMatchResult) × In m (matched (codes "david reyes") 2 ∷ [])
        × Restates fold_ascii show_digit (codes "Dave") (some (codes "David Reyes")) m
        × (m.resolved ≡ true)
        × (show_matched show_digit m.matched_employee_id ≡ codes "2"))
bind_evidence_for_token_iff_example =
    bind_evidence_for_token_iff fold_ascii show_digit (codes "Dave") (codes "2")
      (some (codes "David Reyes")) (matched (codes "david reyes") 2 ∷ [])

abbrev suggested_dave : Dict Text CandidateValue
suggested_dave = (codes "Dave", nested (record { suggested = some (codes "2"); bound = none })) ∷ []

abbrev resolved_ids : Option (List NameMatchResult) → List ℕ
unfolding already_mapped_ids
resolved_ids none = []
resolved_ids (some ms) = already_mapped_ids ms

bridged_dave :
    resolved_ids (
      confirmed_prior_matches fold_ascii show_digit parse_digit roster
        (matched (codes "david reyes") 2 ∷ [])
        (some (matched (codes "mia") 1 ∷ []))
        suggested_dave)
    ≡ 1 ∷ 2 ∷ []
unfolding confirmed_prior_matches already_mapped_ids list_beq
bridged_dave = refl

confirmed_prior_matches_fresh_example :
    (new : List NameMatchResult) × (confirmed_prior_matches fold_ascii show_digit parse_digit roster
        (matched (codes "david reyes") 2 ∷ [])
        (some (matched (codes "mia") 1 ∷ []))
        suggested_dave
      ≡ some (matched (codes "mia") 1 ∷ new))
    × NoRepeat (already_mapped_ids new)
    × ((j : ℕ)
        → In j (already_mapped_ids new)
        → In j (map employee_id roster.employees)
          × (¬ In j (already_mapped_ids (matched (codes "mia") 1 ∷ []))))
confirmed_prior_matches_fresh_example =
    confirmed_prior_matches_fresh fold_ascii show_digit parse_digit roster
      (matched (codes "david reyes") 2 ∷ []) (matched (codes "mia") 1 ∷ []) suggested_dave
