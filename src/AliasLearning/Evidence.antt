-- ===== src/AliasLearning/Evidence.antt =====
-- app/pipeline/alias_learning.py::bind_evidence_for_token: the same-record evidence.
use payroll_agent.Prelude.{
  ℕ, ◌≡◌, ◌↔◌, ◌⊎◌, refl, inl, inr, Text, nat_eq, list_eq, true, Option, none, some, List, In,
  any-In, any-elim, contains, contains-In, In-contains, ◌==◌, ==→eq, ==-self, arith,
}
use payroll_agent.Roster.{NameMatchResult}
use payroll_agent.Reconcile.{normalize_name}
use payroll_agent.AliasLearning.{match_names, is_evidence, show_matched, bind_evidence_for_token}

module _ (fold : Text → Text) (show_uuid : ℕ → Text) where
  -- The record restates the token, or the full name of the suggested employee.
  abbrev pub Restates : Text → Option Text → NameMatchResult → Type 0
  Restates token full_name m =
      (normalize_name fold m.submitted_name ≡ normalize_name fold token)
      ⊎ ((n : Text) × (full_name ≡ some n)
          × (normalize_name fold m.submitted_name ≡ normalize_name fold n))

  match_names_iff :
      (token : Text) (full_name : Option Text) (m : NameMatchResult)
      → In (normalize_name fold m.submitted_name) (match_names fold show_uuid token full_name)
        ↔ Restates token full_name m
  unfolding match_names
  match_names_iff token none m = (
    λ k. elim k [ inl q ↦ inl q | inr e ↦ absurd e ],
    λ r. elim r [ inl q ↦ inl q | inr (n, e, q) ↦ cc ],
  )
  match_names_iff token (some full) m = (
    λ k. elim k [
      | inl q ↦ inl q
      | inr j ↦ elim j [ inl q ↦ inr (full, refl, q) | inr e ↦ absurd e ]
    ],
    λ r. elim r [ inl q ↦ inl q | inr (n, e, q) ↦ inr (inl cc) ],
  )

  -- A reply confirms that a token stands for an employee exactly when one record of the
  -- reconciliation restates the token or that employee's full name, is resolved, and is resolved
  -- to that employee.
  pub bind_evidence_for_token_iff :
      (token suggested_id : Text) (full_name : Option Text) (post : List NameMatchResult)
      → (bind_evidence_for_token fold show_uuid token suggested_id full_name post ≡ true) ↔ (
          (m : NameMatchResult) × In m post
          × Restates token full_name m
          × (m.resolved ≡ true)
          × (show_matched show_uuid m.matched_employee_id ≡ suggested_id))
  unfolding bind_evidence_for_token is_evidence
  bind_evidence_for_token_iff token suggested_id full_name post =
      let names = match_names fold show_uuid token full_name in
      let test = is_evidence fold show_uuid names suggested_id in
      (
        λ h.
            let (m, k, t) = any-elim test post h in
            let (c, r, q) = parts m t in
            (
              m,
              k,
              (match_names_iff token full_name m).0
                  (contains-In (normalize_name fold m.submitted_name) names c),
              r,
              ==→eq (show_matched show_uuid m.matched_employee_id) suggested_id q,
            ),
        λ (m, k, r, s, q). any-In test m post k (
            whole m
              (In-contains (normalize_name fold m.submitted_name) names
                ((match_names_iff token full_name m).1 r))
              s q),
      )
    where
      parts :
          (m : NameMatchResult)
          → is_evidence fold show_uuid (match_names fold show_uuid token full_name) suggested_id m
            ≡ true
          → (contains
                (normalize_name fold m.submitted_name)
                (match_names fold show_uuid token full_name)
              ≡ true)
            × (m.resolved ≡ true)
            × ((show_matched show_uuid m.matched_employee_id == suggested_id) ≡ true)
      parts m t = ground (arith, t)

      whole :
          (m : NameMatchResult)
          → contains
              (normalize_name fold m.submitted_name)
              (match_names fold show_uuid token full_name)
            ≡ true
          → m.resolved ≡ true
          → show_matched show_uuid m.matched_employee_id ≡ suggested_id
          → is_evidence fold show_uuid (match_names fold show_uuid token full_name) suggested_id m
            ≡ true
      whole m c r q = rw (c, r, q) (==-self suggested_id)
