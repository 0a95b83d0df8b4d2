-- ===== src/Reconcile/Tests.antt =====
-- Runs of app/pipeline/reconcile_names.py.
use payroll_agent.Prelude.{
  ◌≡◌, ◌↔◌, refl, Text, codes, list_eq, list_beq, nat_eq, some, [], ◌∷◌, Pointwise,
}
use payroll_agent.Prelude.Dict.{Dict, lookup}
use payroll_agent.Reconcile.{normalize_name, deterministic_match, candidate_ids, reconcile_names}
use payroll_agent.Reconcile.Unique.{UniquelyCarried, resolved_id, deterministic_match_iff}
use payroll_agent.Reconcile.Resolution.{IsResolution, reconcile_names-IsResolution}
use payroll_agent.Samples.{roster, fold_ascii, parse_digit}

abbrev overrides : Dict Text Text
overrides = (codes "mia", codes "2") ∷ (codes "bob", codes "9") ∷ []

normalize_name-mia : normalize_name fold_ascii (codes "  MARIA   chen ") ≡ codes "maria chen"
unfolding normalize_name
normalize_name-mia = refl

deterministic_match-mia : resolved_id (deterministic_match fold_ascii (codes "MIA") roster) ≡ some 1
unfolding deterministic_match normalize_name candidate_ids list_beq
deterministic_match-mia = refl

deterministic_match_iff_example :
    (resolved_id (deterministic_match fold_ascii (codes "MIA") roster) ≡ some 1)
    ↔ UniquelyCarried fold_ascii (normalize_name fold_ascii (codes "MIA")) roster 1
deterministic_match_iff_example = deterministic_match_iff fold_ascii (codes "MIA") roster 1

reconcile_names-IsResolution_example :
    Pointwise
      (IsResolution roster)
      (codes "mia" ∷ codes "bob" ∷ [])
      (reconcile_names fold_ascii parse_digit (codes "mia" ∷ codes "bob" ∷ []) roster overrides)
reconcile_names-IsResolution_example =
    reconcile_names-IsResolution fold_ascii parse_digit (codes "mia" ∷ codes "bob" ∷ []) roster
      overrides

lookup-mia : lookup (codes "mia") overrides ≡ some (codes "2")
unfolding lookup list_beq
lookup-mia = refl

lookup-bob : lookup (codes "bob") overrides ≡ some (codes "9")
unfolding lookup list_beq
lookup-bob = refl
