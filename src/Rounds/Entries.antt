-- ===== src/Rounds/Entries.antt =====
-- app/pipeline/validate.py::_pair_by_employee_id: the entry that a round has for an employee, by the
-- order of its matches and entries, and the two dictionaries that look it up.
use payroll_agent.Prelude.{
  ℕ, ◌++◌, ◌≡◌, ◌≢◌, ◌⊎◌, ◌↔◌, refl, sym, ◌∙◌, ap, inl, inr, Text, list_eq, nat_eq, true, none,
  some, List, [], ◌∷◌, In, ==-self, ==-cases, Bool-cases, Option-cases,
}
use mathlib.Core.Path.{subst}
use payroll_agent.Prelude.Dict.{Dict, lookup, insert, lookup-insert, lookup-nil}
use payroll_agent.Roster.{NameMatchResult}
use payroll_agent.Contracts.{Extracted, ExtractedEmployee}
use payroll_agent.Rounds.{
  resolved_match, add_resolved, name_to_id_from, name_to_id, add_employee, id_keyed_from, id_keyed,
}

abbrev pub Resolves : NameMatchResult → ℕ → Type 0
Resolves m i = (m.resolved ≡ true) × (m.matched_employee_id ≡ some i)

-- No record of the list resolves the name.
abbrev pub IsSilent : Text → List NameMatchResult → Type 0
IsSilent n ms = (m : NameMatchResult) → In m ms → m.submitted_name ≡ n → (j : ℕ) → ¬ Resolves m j

-- The last record that resolves the name resolves it to this id.
abbrev pub Names : List NameMatchResult → Text → ℕ → Type 0
Names ms n i =
    (before after : List NameMatchResult) × (m : NameMatchResult) × (ms ≡ before ++ (m ∷ after))
    × (m.submitted_name ≡ n)
    × Resolves m i
    × IsSilent n after

-- The last entry of a round whose name is this employee's.
abbrev pub LastFor : List NameMatchResult → ℕ → List ExtractedEmployee → ExtractedEmployee → Type 0
LastFor ms i es e =
    (before after : List ExtractedEmployee) × (es ≡ before ++ (e ∷ after))
    × Names ms e.submitted_name i
    × ((x : ExtractedEmployee) → In x after → ¬ Names ms x.submitted_name i)

resolved_match_iff : (m : NameMatchResult) (i : ℕ) → (resolved_match m ≡ some i) ↔ Resolves m i
unfolding resolved_match
resolved_match_iff m i = elim (Bool-cases m.resolved) [
  | inl t ↦ (λ h. (t, rw t at h), λ (q, h). rw t h)
  | inr f ↦ (λ h. cc (rw f at h), λ (q, h). cc)
]

insert-other : (n k : Text) (i : ℕ) (d : Dict Text ℕ) → n ≢ k → lookup k (insert n i d) ≡ lookup k d
insert-other n k i d ne = elim (==-cases n k) [
  | inl q ↦ absurd (ne q)
  | inr f ↦ lookup-insert n k i d ∙ rw f refl
]

insert-same : (n : Text) (i : ℕ) (d : Dict Text ℕ) → lookup n (insert n i d) ≡ some i
insert-same n i d = lookup-insert n n i d ∙ rw (==-self n) refl

silent-lookup :
    (n : Text) (ms : List NameMatchResult) (d : Dict Text ℕ)
    → IsSilent n ms
    → lookup n (name_to_id_from d ms) ≡ lookup n d
unfolding name_to_id_from
silent-lookup n [] d silent = refl
silent-lookup n (m ∷ ms) d silent =
    silent-lookup n ms (add_resolved (resolved_match m) m.submitted_name d)
      (λ x k. silent x (inr k))
    ∙ elim (Option-cases (resolved_match m)) [
      | inl e ↦ rw e refl
      | inr (j, e) ↦ rw e (
          insert-other m.submitted_name n j d
            (λ q. silent m (inl refl) q j ((resolved_match_iff m j).0 e)))
    ]

lookup-Names :
    (n : Text) (i : ℕ) (before : List NameMatchResult) (m : NameMatchResult)
    (after : List NameMatchResult) (d : Dict Text ℕ)
    → m.submitted_name ≡ n
    → Resolves m i
    → IsSilent n after
    → lookup n (name_to_id_from d (before ++ (m ∷ after))) ≡ some i
unfolding name_to_id_from
lookup-Names n i [] m after d q r silent =
    silent-lookup n after (add_resolved (resolved_match m) m.submitted_name d) silent
    ∙ rw ((resolved_match_iff m i).1 r, q) (insert-same n i d)
lookup-Names n i (x ∷ before) m after d q r silent =
    lookup-Names n i before m after (add_resolved (resolved_match x) x.submitted_name d) q r silent

-- What a lookup finds was there before, or the last record of the name put it there.
Names-from :
    (n : Text) (i : ℕ) (ms : List NameMatchResult) (d : Dict Text ℕ)
    → lookup n (name_to_id_from d ms) ≡ some i
    → Names ms n i ⊎ ((lookup n d ≡ some i) × IsSilent n ms)
unfolding name_to_id_from
Names-from n i [] d h = inr (h, λ m k. absurd k)
Names-from n i (m ∷ ms) d h =
    elim (Names-from n i ms (add_resolved (resolved_match m) m.submitted_name d) h) [
      | inl (before, after, x, e, q, r, later) ↦
          inl (m ∷ before, after, x, ap (λ xs. m ∷ xs) e, q, r, later)
      | inr (g, silent) ↦ elim (Option-cases (resolved_match m)) [
        | inl e ↦ inr (rw e at g, unresolved e silent)
        | inr (j, e) ↦ elim (==-cases m.submitted_name n) [
          | inl q ↦
              let f : some j ≡ some i = sym (insert-same n j d) ∙ (rw (e, q) at g) in
              inl ([], ms, m, refl, q, (resolved_match_iff m i).0 (e ∙ f), silent)
          | inr f ↦
              let ne : m.submitted_name ≢ n = λ q. cc (==-self n, rw q at f) in
              inr (sym (insert-other m.submitted_name n j d ne) ∙ (rw e at g), other ne silent)
        ]
      ]
    ]
  where
    unresolved : resolved_match m ≡ none → IsSilent n ms → IsSilent n (m ∷ ms)
    unresolved e silent x (inl q) s j r =
        cc (e, (resolved_match_iff m j).1 (subst (λ y. Resolves y j) q r))
    unresolved e silent x (inr k) s j r = silent x k s j r

    other : m.submitted_name ≢ n → IsSilent n ms → IsSilent n (m ∷ ms)
    other ne silent x (inl q) s j r =
        ne (ap (λ (y : NameMatchResult). y.submitted_name) (sym q) ∙ s)
    other ne silent x (inr k) s j r = silent x k s j r

-- The dictionary of names has the id of the last record that resolves the name.
pub name_to_id_iff :
    (ms : List NameMatchResult) (n : Text) (i : ℕ)
    → (lookup n (name_to_id ms) ≡ some i) ↔ Names ms n i
unfolding name_to_id
name_to_id_iff ms n i = (
  λ h. elim (Names-from n i ms [] h) [ inl k ↦ k | inr (g, silent) ↦ cc (g, lookup-nil n) ],
  λ (before, after, m, e, q, r, silent).
      subst (λ xs. lookup n (name_to_id_from [] xs) ≡ some i) (sym e)
        (lookup-Names n i before m after [] q r silent),
)

module _ (ids : Dict Text ℕ) (i : ℕ) where
  later-lookup :
      (es : List ExtractedEmployee) (d : Dict ℕ ExtractedEmployee)
      → ((x : ExtractedEmployee) → In x es → lookup x.submitted_name ids ≢ some i)
      → lookup i (id_keyed_from ids d es) ≡ lookup i d
  unfolding id_keyed_from
  later-lookup [] d none_later = refl
  later-lookup (x ∷ es) d none_later =
      later-lookup es (add_employee (lookup x.submitted_name ids) x d) (λ y k. none_later y (inr k))
      ∙ elim (Option-cases (lookup x.submitted_name ids)) [
        | inl e ↦ rw e refl
        | inr (j, e) ↦ elim (==-cases j i) [
          | inl q ↦ absurd (none_later x (inl refl) (e ∙ ap some q))
          | inr f ↦ rw e (lookup-insert j i x d ∙ rw f refl)
        ]
      ]

  last-lookup :
      (before : List ExtractedEmployee) (e : ExtractedEmployee) (after : List ExtractedEmployee)
      (d : Dict ℕ ExtractedEmployee)
      → lookup e.submitted_name ids ≡ some i
      → ((x : ExtractedEmployee) → In x after → lookup x.submitted_name ids ≢ some i)
      → lookup i (id_keyed_from ids d (before ++ (e ∷ after))) ≡ some e
  unfolding id_keyed_from
  last-lookup [] e after d h none_later =
      later-lookup after (add_employee (lookup e.submitted_name ids) e d) none_later
      ∙ rw h (lookup-insert i i e d ∙ rw (==-self i) refl)
  last-lookup (x ∷ before) e after d h none_later =
      last-lookup before e after (add_employee (lookup x.submitted_name ids) x d) h none_later

pub LastFor-id_keyed :
    (x : Extracted) (ms : List NameMatchResult) (i : ℕ) (e : ExtractedEmployee)
    → LastFor ms i x.employees e
    → lookup i (id_keyed x ms) ≡ some e
unfolding id_keyed
LastFor-id_keyed x ms i e (before, after, q, named, later) =
    subst (λ es. lookup i (id_keyed_from (name_to_id ms) [] es) ≡ some e) (sym q)
      (last-lookup (name_to_id ms) i before e after []
        ((name_to_id_iff ms e.submitted_name i).1 named)
        (λ y k h. later y k ((name_to_id_iff ms y.submitted_name i).0 h)))
