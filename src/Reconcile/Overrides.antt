-- ===== src/Reconcile/Overrides.antt =====
-- app/pipeline/reconcile_names.py::reconcile_names: what a human operator's override does.
use payroll_agent.Prelude.{
  ℕ, ◌≡◌, refl, inl, inr, Text, list_eq, nat_eq, true, Option, none, some, [], map, contains, In,
  In-contains, contains-In, Bool-cases,
}
use payroll_agent.Prelude.Dict.{Dict, lookup}
use payroll_agent.Roster.{Roster, operator}
use payroll_agent.Reconcile.{employee_id, valid_override, on_roster, reconcile_name}

on_roster-member :
    (r : Roster) (i : ℕ) → In i (map employee_id r.employees) → on_roster r (some i) ≡ some i
unfolding on_roster
on_roster-member r i m = rw (In-contains i (map employee_id r.employees) m)

on_roster-none :
    (r : Roster) (o : Option ℕ)
    → ((i : ℕ) → o ≡ some i → ¬ In i (map employee_id r.employees))
    → on_roster r o ≡ none
unfolding on_roster
on_roster-none r none off = refl
on_roster-none r (some i) off = elim (Bool-cases (contains i (map employee_id r.employees))) [
  | inl t ↦ absurd (off i refl (contains-In i (map employee_id r.employees) t))
  | inr f ↦ rw f
]

module _ (fold : Text → Text) (parse_uuid : Text → Option ℕ) where
  -- An override whose id parses to an employee of the roster decides the name, before its full
  -- name and aliases are looked at.
  pub override_wins :
      (name : Text) (r : Roster) (overrides : Dict Text Text) (s : Text) (i : ℕ)
      → lookup name overrides ≡ some s
      → parse_uuid s ≡ some i
      → In i (map employee_id r.employees)
      → let m = reconcile_name fold parse_uuid name r overrides in
        (m.matched_employee_id ≡ some i) × (m.source ≡ operator) × (m.resolved ≡ true)
  unfolding reconcile_name
  override_wins name r overrides s i e p m = rw (stated, reconcile_name) (refl, refl, refl)
    where
      stated : valid_override parse_uuid name r overrides ≡ some i
      stated = rw (e, valid_override) (rw p (on_roster-member r i m))

  -- An override that does not parse, or whose id is no employee of the roster, changes nothing.
  pub override_ignored :
      (name : Text) (r : Roster) (overrides : Dict Text Text) (s : Text)
      → lookup name overrides ≡ some s
      → ((i : ℕ) → parse_uuid s ≡ some i → ¬ In i (map employee_id r.employees))
      → reconcile_name fold parse_uuid name r overrides ≡ reconcile_name fold parse_uuid name r []
  unfolding reconcile_name lookup
  override_ignored name r overrides s e off = rw (ignored, reconcile_name)
    where
      ignored : valid_override parse_uuid name r overrides ≡ none
      ignored = rw (e, valid_override) (on_roster-none r (parse_uuid s) off)
