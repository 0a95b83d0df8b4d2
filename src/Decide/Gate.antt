-- ===== src/Decide/Gate.antt =====
-- app/pipeline/decide.py::decide, against the description of a run that is safe to process.
use payroll_agent.Prelude.{
  ◌++◌, ◌≡◌, ◌≢◌, ◌↔◌, refl, Text, text_le, sorted, sorted_iff, count, list_eq, nat_eq, Bool, true,
  false, not, ◌&&◌, List, [], ◌∷◌, map, ◌==◌, keep, All, append-eq_nil, arith, Bool-cases, is_empty,
  if◌then◌else◌, inl, inr, ==→eq, ==-self,
}
use payroll_agent.Roster.{NameMatchResult, ValidationIssue, is_missing, is_field_regression}
use payroll_agent.Contracts.{Extracted, ExtractedEmployee, process, request_clarification}
use payroll_agent.Decide.{
  submitted, extracted_name, extraction_reasons, unresolved_reasons, missing_fields, regressions,
  gate_reasons, decide, missing_reason, regression_reason, no_employees_reason, one_for_one_reason,
}
use payroll_agent.Decide.Collisions.{OneToOne, check_one_to_one_iff}

-- What must hold of a run that is processed.
pub record IsSafe (x : Extracted) (ms : List NameMatchResult) (is : List ValidationIssue)
    : Type 0 where
  -- somebody was extracted
  pub somebody : x.employees ≢ []
  -- the records are those of the extracted employees, each as often
  pub one_for_one :
      (n : Text) → count n (map extracted_name x.employees) ≡ count n (map submitted ms)
  pub all_resolved : All (λ m. m.resolved ≡ true) ms
  pub none_missing : All (λ i. is_missing i ≡ false) is
  pub none_regressed : All (λ i. is_field_regression i ≡ false) is
  pub one_to_one : OneToOne ms

unresolved_reasons_iff :
    (ms : List NameMatchResult) → (unresolved_reasons ms ≡ []) ↔ All (λ m. m.resolved ≡ true) ms
unfolding unresolved_reasons
unresolved_reasons_iff [] = (λ h. tt, λ h. refl)
unresolved_reasons_iff (m ∷ ms) =
    (λ h. ground (arith, unresolved_reasons_iff ms), λ h. ground (arith, unresolved_reasons_iff ms))

-- The fields of the issues of one kind, as the gate lists them.
module _ (p : ValidationIssue → Bool) (f : Text → Text) where
  kept_nil_iff :
      (is : List ValidationIssue)
      → (map f (map (λ (i : ValidationIssue). i.field) (keep p is)) ≡ [])
        ↔ All (λ i. p i ≡ false) is
  kept_nil_iff [] = (λ h. tt, λ h. refl)
  kept_nil_iff (i ∷ is) = elim (Bool-cases (p i)) [
    | inl t ↦ (λ h. absurd (cc (rw t at h)), λ h. cc (h.0))
    | inr n ↦ (λ h. (n, (kept_nil_iff is).0 (rw n at h)), λ h. rw n ((kept_nil_iff is).1 h.1))
  ]

extraction_tests :
    (es : List ExtractedEmployee) (b : Bool) (r q : Text)
    → (((if is_empty es then r ∷ [] else []) ++ (if not (is_empty es) && not b then q ∷ [] else []))
        ≡ [])
      ↔ ((es ≢ []) × (b ≡ true))
extraction_tests [] b r q = (λ h. absurd (cc h), λ h. absurd (h.0 refl))
extraction_tests (e ∷ es) true r q = (λ h. (λ k. cc, refl), λ h. refl)
extraction_tests (e ∷ es) false r q = (λ h. absurd (cc h), λ h. cc (h.1))

extraction_reasons_iff :
    (x : Extracted) (ms : List NameMatchResult)
    → (extraction_reasons x ms ≡ []) ↔ (
        (x.employees ≢ [])
        × ((n : Text) → count n (map extracted_name x.employees) ≡ count n (map submitted ms)))
unfolding extraction_reasons
extraction_reasons_iff x ms =
    let xs = map extracted_name x.employees in
    let ys = map submitted ms in
    let sxs = sorted text_le xs in
    let sys = sorted text_le ys in
    let tests = extraction_tests x.employees (sxs == sys) no_employees_reason one_for_one_reason in
    (
      λ h. let (a, b) = tests.0 h in (a, (sorted_iff xs ys).0 (==→eq sxs sys b)),
      λ h. tests.1 (h.0, rw ((sorted_iff xs ys).1 h.1) (==-self sys)),
    )

gate_reasons_iff :
    (x : Extracted) (ms : List NameMatchResult) (is : List ValidationIssue)
    → (gate_reasons x ms is ≡ []) ↔ IsSafe x ms is
unfolding gate_reasons missing_fields regressions
gate_reasons_iff x ms is = (
  λ h.
      let (a, h1) = append-eq_nil (extraction_reasons x ms) _ h in
      let (b, h2) = append-eq_nil (unresolved_reasons ms) _ h1 in
      let (c, h3) = append-eq_nil (map missing_reason (missing_fields is)) _ h2 in
      let (d, e) = append-eq_nil (map regression_reason (regressions is)) _ h3 in
      let (some_one, same) = (extraction_reasons_iff x ms).0 a in
      record {
        somebody = some_one;
        one_for_one = same;
        all_resolved = (unresolved_reasons_iff ms).0 b;
        none_missing = (kept_nil_iff is_missing missing_reason is).0 c;
        none_regressed = (kept_nil_iff is_field_regression regression_reason is).0 d;
        one_to_one = (check_one_to_one_iff ms).0 e;
      },
  λ s. rw (
    (extraction_reasons_iff x ms).1 (s.somebody, s.one_for_one),
    (unresolved_reasons_iff ms).1 s.all_resolved,
    (kept_nil_iff is_missing missing_reason is).1 s.none_missing,
    (kept_nil_iff is_field_regression regression_reason is).1 s.none_regressed,
    (check_one_to_one_iff ms).1 s.one_to_one,
  ),
)

action_iff :
    (reasons : List Text)
    → ((if is_empty reasons then process else request_clarification) ≡ process) ↔ (reasons ≡ [])
action_iff [] = (λ h. refl, λ h. refl)
action_iff (r ∷ rs) = (λ h. absurd (cc h), λ h. absurd (cc h))

-- `decide` processes a run exactly when some employee was extracted, the resolution records are
-- those of the extracted employees, every name is resolved, no required field is missing or has
-- regressed, no name is submitted twice, and no two names resolve to one employee.
pub decide-process_iff :
    (x : Extracted) (ms : List NameMatchResult) (is : List ValidationIssue)
    → ((decide x ms is).final_action ≡ process) ↔ IsSafe x ms is
unfolding decide
decide-process_iff x ms is =
    let reasons = gate_reasons x ms is in
    (
      λ h. (gate_reasons_iff x ms is).0 ((action_iff reasons).0 h),
      λ s. (action_iff reasons).1 ((gate_reasons_iff x ms is).1 s),
    )
