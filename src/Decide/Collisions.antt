-- ===== src/Decide/Collisions.antt =====
-- app/pipeline/decide.py::check_one_to_one, against the description of a one-to-one mapping from
-- submitted names to employees.
use payroll_agent.Prelude.{
  ℕ, ◌≡◌, ◌≤◌, refl, sym, ◌∙◌, ◌↔◌, Text, list_eq, nat_eq, some, List, [], ◌∷◌, map, In, All,
  All-intro, NoRepeat, length-NoRepeat, length, eq_of_short, append-eq_nil, arith,
}
use payroll_agent.Prelude.Dict.{Dict, lookup}
use payroll_agent.Roster.{NameMatchResult}
use payroll_agent.Decide.{
  submitted, names_at, by_employee, collision_reasons, duplicate_reasons, check_one_to_one,
}
use payroll_agent.Decide.Duplicates.{no_duplicate, no_duplicate_back}
use payroll_agent.Decide.Entries.{Entry, by_employee-In, by_employee-Entry}

-- The mapping from submitted names to employees is one-to-one: no name is submitted twice, and
-- two names that resolve to one employee are one name.
pub record OneToOne (ms : List NameMatchResult) : Type 0 where
  pub apart : NoRepeat (map submitted ms)
  pub same_name :
      (i : ℕ) (m n : NameMatchResult)
      → In m ms
      → In n ms
      → m.matched_employee_id ≡ some i
      → n.matched_employee_id ≡ some i
      → m.submitted_name ≡ n.submitted_name

no_collision-short :
    (i : ℕ) (d : Dict ℕ (List Text)) → collision_reasons d ≡ [] → length (names_at i d) ≤ 1
unfolding collision_reasons lookup
no_collision-short i [] h = omega arith
no_collision-short i ((j, names) ∷ d) h = ground (arith, no_collision-short i d)

no_collision_back :
    (ms : List NameMatchResult) (d : Dict ℕ (List Text))
    → OneToOne ms
    → All (Entry ms) d
    → collision_reasons d ≡ []
unfolding collision_reasons
no_collision_back ms [] u h = refl
no_collision_back ms ((i, names) ∷ d) u h =
    let short : length names ≤ 1 = length-NoRepeat names h.0.0 (λ a b k o.
      let (m, km, em, qm) = h.0.1 a k in
      let (n, kn, en, qn) = h.0.1 b o in sym qm ∙ (u.same_name i m n km kn em en ∙ qn)) in
    ground (arith, no_collision_back ms d u h.1)

-- `check_one_to_one` has no reason to give exactly when no name is submitted twice and no two
-- different names resolve to one employee.
pub check_one_to_one_iff : (ms : List NameMatchResult) → (check_one_to_one ms ≡ []) ↔ OneToOne ms
unfolding check_one_to_one
check_one_to_one_iff ms = (
  λ h.
      let (a, b) =
        append-eq_nil (collision_reasons (by_employee [] ms)) (duplicate_reasons [] [] ms) h in
      record {
        apart = (no_duplicate [] ms b).1;
        same_name = λ i m n km kn em en.
            eq_of_short m.submitted_name n.submitted_name (names_at i (by_employee [] ms))
              (no_collision-short i (by_employee [] ms) a) (by_employee-In i m [] ms km em)
              (by_employee-In i n [] ms kn en);
      },
  λ u. rw (no_collision_back ms (by_employee [] ms) u (by_employee-Entry ms ms [] (λ m k. k) tt)) (
      no_duplicate_back [] ms (All-intro (λ n. ¬ In n []) (map submitted ms) (λ n k o. absurd o))
        u.apart),
)
