-- ===== src/Decide/Tests.antt =====
-- Runs of app/pipeline/decide.py.
use payroll_agent.Prelude.{
  ℕ, ◌≡◌, ◌↔◌, refl, inl, codes, list_eq, list_beq, nat_eq, sorted, text_le, List, [], ◌∷◌, In, map,
}
use payroll_agent.Prelude.Dict.{lookup, insert}
use payroll_agent.Roster.{NameMatchResult}
use payroll_agent.Contracts.{ExtractedEmployee, process, request_clarification}
use payroll_agent.Reconcile.{normalize_name, reconcile_names, candidate_ids}
use payroll_agent.Decide.{check_one_to_one, gate_reasons, decide, extracted_name}
use payroll_agent.Decide.Collisions.{OneToOne, check_one_to_one_iff}
use payroll_agent.Decide.Gate.{IsSafe, decide-process_iff}
use payroll_agent.Decide.NoGuess.{Grounds, Grounded, process-Grounds}
use payroll_agent.Samples.{roster, fold_ascii, parse_digit, mia_extracted, mia_hours, matched}

abbrev mia_match : List NameMatchResult
mia_match = matched (codes "mia") 1 ∷ []

-- Two names for one employee: the gate asks.
decide-collision :
    (decide mia_extracted
      (matched (codes "mia") 1 ∷ matched (codes "maria chen") 1 ∷ [])
      []).final_action
    ≡ request_clarification
unfolding decide gate_reasons payroll_agent.Decide.extraction_reasons list_beq sorted text_le
decide-collision = refl

mia_process :
    (decide mia_extracted
      (reconcile_names fold_ascii parse_digit
        (map extracted_name mia_extracted.employees)
        roster
        [])
      []).final_action
    ≡ process
unfolding decide reconcile_names gate_reasons payroll_agent.Decide.extraction_reasons list_beq
    sorted lookup candidate_ids normalize_name payroll_agent.Decide.unresolved_reasons
    payroll_agent.Decide.missing_fields payroll_agent.Decide.regressions check_one_to_one
    payroll_agent.Decide.collision_reasons payroll_agent.Decide.by_employee insert
    payroll_agent.Decide.duplicate_reasons
mia_process = refl

check_one_to_one_iff_example : (check_one_to_one mia_match ≡ []) ↔ OneToOne mia_match
check_one_to_one_iff_example = check_one_to_one_iff mia_match

decide-process_iff_example :
    ((decide mia_extracted mia_match []).final_action ≡ process) ↔ IsSafe mia_extracted mia_match []
decide-process_iff_example = decide-process_iff mia_extracted mia_match []

process-Grounds_example :
    (i : ℕ) × Grounds fold_ascii parse_digit roster [] (codes "mia") i
    × ((e' : ExtractedEmployee)
        → In e' (mia_hours ∷ [])
        → Grounded fold_ascii parse_digit roster [] e'.submitted_name i
        → e'.submitted_name ≡ codes "mia")
process-Grounds_example =
    process-Grounds fold_ascii parse_digit roster [] mia_extracted [] mia_process mia_hours
      (inl refl)
