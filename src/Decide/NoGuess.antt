-- ===== src/Decide/NoGuess.antt =====
-- app/pipeline/reconcile_names.py and app/pipeline/decide.py together: on what grounds a name is
-- paid.
use payroll_agent.Prelude.{
  ℕ, ◌≡◌, refl, sym, ◌∙◌, ◌⊎◌, inl, inr, Text, list_eq, nat_eq, true, Option, none, some, List, map,
  In, In-map, All-In, arith, Option-cases, get_or_else,
}
use payroll_agent.Prelude.Dict.{Dict}
use payroll_agent.Roster.{Roster, NameMatchResult, ValidationIssue, check_resolution_invariant}
use payroll_agent.Contracts.{Extracted, ExtractedEmployee, process}
use payroll_agent.Reconcile.{
  normalize_name, deterministic_match, unresolved, valid_override, reconcile_name, reconcile_names,
}
use payroll_agent.Reconcile.Unique.{UniquelyCarried, deterministic_match_iff}
use payroll_agent.Reconcile.Resolution.{reconcile_name-IsResolution}
use payroll_agent.Decide.{extracted_name, decide}
use payroll_agent.Decide.Gate.{decide-process_iff}

invariant-some :
    (m : NameMatchResult)
    → check_resolution_invariant m ≡ true
    → m.resolved ≡ true
    → (i : ℕ) × (m.matched_employee_id ≡ some i)
unfolding check_resolution_invariant
invariant-some m h k = ground arith

module _ (fold : Text → Text) (parse_uuid : Text → Option ℕ) (roster : Roster)
    (overrides : Dict Text Text) where
  -- Why a name stands for an employee: an operator stated it, or the roster has nobody else of
  -- that name.
  abbrev pub Grounds : Text → ℕ → Type 0
  Grounds name i =
      (valid_override parse_uuid name roster overrides ≡ some i)
      ⊎ UniquelyCarried fold (normalize_name fold name) roster i

  -- The resolver's own record names the employee.
  abbrev pub Grounded : Text → ℕ → Type 0
  Grounded name i =
      (reconcile_name fold parse_uuid name roster overrides).matched_employee_id ≡ some i

  reconcile_name-about :
      (name : Text) → (reconcile_name fold parse_uuid name roster overrides).submitted_name ≡ name
  reconcile_name-about name =
      (reconcile_name-IsResolution fold parse_uuid name roster overrides).about

  fallback-Grounds :
      (name : Text) (i : ℕ) (found : Option NameMatchResult)
      → deterministic_match fold name roster ≡ found
      → (get_or_else found (unresolved name)).matched_employee_id ≡ some i
      → Grounds name i
  unfolding unresolved
  fallback-Grounds name i none e h = cc
  fallback-Grounds name i (some m) e h =
      inr ((deterministic_match_iff fold name roster i).0 (rw e h))

  reconcile_name-Grounds :
      (name : Text) (i : ℕ)
      → (reconcile_name fold parse_uuid name roster overrides).matched_employee_id ≡ some i
      → Grounds name i
  unfolding reconcile_name
  reconcile_name-Grounds name i h =
      elim (Option-cases (valid_override parse_uuid name roster overrides)) [
        | inr (j, e) ↦ inl (e ∙ rw (e, reconcile_name) at h)
        | inl e ↦
            fallback-Grounds name i (deterministic_match fold name roster) refl
              (rw (e, reconcile_name) at h)
      ]

  -- The record of a name that is resolved names an employee.
  resolved-some :
      (name : Text)
      → (reconcile_name fold parse_uuid name roster overrides).resolved ≡ true
      → (i : ℕ) × ((reconcile_name fold parse_uuid name roster overrides).matched_employee_id
          ≡ some i)
  resolved-some name h =
      invariant-some (reconcile_name fold parse_uuid name roster overrides)
        (reconcile_name-IsResolution fold parse_uuid name roster overrides).sound h

  record-In :
      (x : Extracted) (e : ExtractedEmployee)
      → In e x.employees
      → In
          (reconcile_name fold parse_uuid e.submitted_name roster overrides)
          (reconcile_names fold parse_uuid (map extracted_name x.employees) roster overrides)
  unfolding reconcile_names
  record-In x e k =
      In-map (λ n. reconcile_name fold parse_uuid n roster overrides) e.submitted_name
        (map extracted_name x.employees) (In-map extracted_name e x.employees k)

  -- If `decide` lets a run be processed on the records that `reconcile_names` gave for the names
  -- of the extracted employees, then every extracted employee stands for one employee of the
  -- roster: an operator stated it, or nobody else on the roster carries the name, and
  -- two of them that stand for one employee were submitted under one name.
  pub process-Grounds :
      (x : Extracted) (issues : List ValidationIssue)
      → (decide x
          (reconcile_names fold parse_uuid (map extracted_name x.employees) roster overrides)
          issues).final_action
        ≡ process
      → (e : ExtractedEmployee) → In e x.employees
      → (i : ℕ) × Grounds e.submitted_name i
        × ((e' : ExtractedEmployee)
            → In e' x.employees
            → Grounded e'.submitted_name i
            → e'.submitted_name ≡ e.submitted_name)
  process-Grounds x issues h e k =
      let safe =
        (decide-process_iff x
            (reconcile_names fold parse_uuid (map extracted_name x.employees) roster overrides)
            issues).0
          h in
      let rec = reconcile_name fold parse_uuid e.submitted_name roster overrides in
      let (i, q) = resolved-some e.submitted_name (
        All-In (λ (m : NameMatchResult). m.resolved ≡ true) rec
          (reconcile_names fold parse_uuid (map extracted_name x.employees) roster overrides)
          safe.all_resolved (record-In x e k)) in
      (
        i,
        reconcile_name-Grounds e.submitted_name i q,
        λ e' k' q'.
            sym (reconcile_name-about e'.submitted_name)
            ∙ (safe.one_to_one.same_name i
                  (reconcile_name fold parse_uuid e'.submitted_name roster overrides) rec
                  (record-In x e' k') (record-In x e k) q' q
                ∙ reconcile_name-about e.submitted_name),
      )
