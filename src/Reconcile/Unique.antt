-- ===== src/Reconcile/Unique.antt =====
-- app/pipeline/reconcile_names.py::deterministic_match, against its description: the one employee
-- whose full name or alias has the normal form of the submitted name.
use payroll_agent.Prelude.{
  ℕ, ◌++◌, ◌≡◌, refl, sym, ◌∙◌, ◌⊎◌, ◌↔◌, inl, inr, Text, list_eq, nat_eq, Bool, true, Option, none,
  some, List, [], ◌∷◌, map, ◌==◌, keep, In, In-map, map-In, In-keep, keep-In, any-In, any-elim,
  ==→eq, ==-self, In-append_left, In-append-cases, In-append_right, arith,
}
use payroll_agent.Prelude.Dict.{distinct-In, In-distinct, distinct-singleton}
use payroll_agent.Roster.{Employee, Roster, NameMatchResult}
use payroll_agent.Reconcile.{
  normalize_name, employee_id, has_full_name, has_alias, exact_ids, alias_ids, candidate_ids,
  deterministic_match, unique_match,
}

abbrev pub resolved_id : Option NameMatchResult → Option ℕ
resolved_id none = none
resolved_id (some m) = m.matched_employee_id

unique_match-ids :
    (name : Text) (xs ids : List ℕ) (i : ℕ)
    → resolved_id (unique_match name xs ids) ≡ some i
    → ids ≡ i ∷ []
unfolding unique_match
unique_match-ids name xs [] i h = cc
unique_match-ids name xs (a ∷ []) i h = ground arith
unique_match-ids name xs (a ∷ b ∷ rest) i h = cc

unique_match-one :
    (name : Text) (xs : List ℕ) (i : ℕ) → resolved_id (unique_match name xs (i ∷ [])) ≡ some i
unfolding unique_match
unique_match-one name xs i = ground arith

module _ (fold : Text → Text) where
  -- The employee is known by the name, as the full name or as an alias, up to normalisation.
  abbrev pub Carries : Text → Employee → Type 0
  Carries norm e =
      (normalize_name fold e.full_name ≡ norm)
      ⊎ ((a : Text) × In a e.known_aliases × (normalize_name fold a ≡ norm))

  In-ids :
      (p : Employee → Bool) (e : Employee) (es : List Employee)
      → In e es
      → p e ≡ true
      → In e.id (map employee_id (keep p es))
  In-ids p e es m h = In-map employee_id e (keep p es) (keep-In p e es m h)

  has_alias-intro :
      (norm a : Text) (e : Employee)
      → In a e.known_aliases
      → normalize_name fold a ≡ norm
      → has_alias fold norm e ≡ true
  has_alias-intro norm a e k q =
      any-In (λ b. normalize_name fold b == norm) a e.known_aliases k (rw q (==-self norm))

  -- Whoever carries the name is a candidate.
  Carries-candidate :
      (norm : Text) (r : Roster) (e : Employee)
      → In e r.employees
      → Carries norm e
      → In e.id (exact_ids fold norm r ++ alias_ids fold norm r)
  unfolding exact_ids alias_ids
  Carries-candidate norm r e m (inl q) =
      In-append_left e.id (exact_ids fold norm r) (alias_ids fold norm r)
        (In-ids (has_full_name fold norm) e r.employees m (rw q (==-self norm)))
  Carries-candidate norm r e m (inr (a, k, q)) =
      In-append_right e.id (exact_ids fold norm r) (alias_ids fold norm r)
        (In-ids (has_alias fold norm) e r.employees m (has_alias-intro norm a e k q))

  -- The employee of the roster with this id carries the name.
  abbrev pub CarriedBy : Text → Roster → ℕ → Type 0
  CarriedBy norm r i = (e : Employee) × In e r.employees × Carries norm e × (e.id ≡ i)

  exact-CarriedBy :
      (norm : Text) (r : Roster) (i : ℕ) → In i (exact_ids fold norm r) → CarriedBy norm r i
  unfolding exact_ids
  exact-CarriedBy norm r i m =
      let (e, k, q) = map-In employee_id i (keep (has_full_name fold norm) r.employees) m in
      let (n, t) = In-keep (has_full_name fold norm) e r.employees k in
      (e, n, inl (==→eq (normalize_name fold e.full_name) norm t), sym q)

  alias-CarriedBy :
      (norm : Text) (r : Roster) (i : ℕ) → In i (alias_ids fold norm r) → CarriedBy norm r i
  unfolding alias_ids
  alias-CarriedBy norm r i m =
      let (e, k, q) = map-In employee_id i (keep (has_alias fold norm) r.employees) m in
      let (n, t) = In-keep (has_alias fold norm) e r.employees k in
      let (a, k', t') = any-elim (λ b. normalize_name fold b == norm) e.known_aliases t in
      (e, n, inr (a, k', ==→eq (normalize_name fold a) norm t'), sym q)

  candidate-CarriedBy :
      (norm : Text) (r : Roster) (i : ℕ) → In i (candidate_ids fold norm r) → CarriedBy norm r i
  unfolding candidate_ids
  candidate-CarriedBy norm r i m =
      elim (In-append-cases i (exact_ids fold norm r) (alias_ids fold norm r)
        (distinct-In i (exact_ids fold norm r ++ alias_ids fold norm r) m)) [
          | inl k ↦ exact-CarriedBy norm r i k
          | inr k ↦ alias-CarriedBy norm r i k
        ]

  -- Among the employees of the roster, one id alone carries the name.
  abbrev pub UniquelyCarried : Text → Roster → ℕ → Type 0
  UniquelyCarried norm r i =
      CarriedBy norm r i × ((e : Employee) → In e r.employees → Carries norm e → e.id ≡ i)

  unique-candidate :
      (norm : Text) (r : Roster) (i : ℕ)
      → UniquelyCarried norm r i
      → candidate_ids fold norm r ≡ i ∷ []
  unfolding candidate_ids
  unique-candidate norm r i ((e, m, c, q), all) =
      distinct-singleton i (exact_ids fold norm r ++ alias_ids fold norm r)
        (rw q at (Carries-candidate norm r e m c))
        (λ b k. only b (In-distinct b (exact_ids fold norm r ++ alias_ids fold norm r) k))
    where
      only : (b : ℕ) → In b (candidate_ids fold norm r) → b ≡ i
      only b k = let (x, n, d, p) = candidate-CarriedBy norm r b k in sym p ∙ all x n d

  candidate_unique :
      (norm : Text) (r : Roster) (i : ℕ)
      → candidate_ids fold norm r ≡ i ∷ []
      → UniquelyCarried norm r i
  unfolding candidate_ids
  candidate_unique norm r i h = (
    candidate-CarriedBy norm r i (rw h (inl refl)),
    λ e m c. just (
        rw h at (
          In-distinct e.id (exact_ids fold norm r ++ alias_ids fold norm r)
            (Carries-candidate norm r e m c))),
  )
    where
      just : {j : ℕ} → In j (i ∷ []) → j ≡ i
      just (inl q) = q
      just (inr k) = absurd k

  -- A name resolves to an employee exactly when that employee's id is the only one on the roster
  -- that carries the name, as a full name or as an alias.
  pub deterministic_match_iff :
      (name : Text) (r : Roster) (i : ℕ)
      → (resolved_id (deterministic_match fold name r) ≡ some i)
        ↔ UniquelyCarried (normalize_name fold name) r i
  unfolding deterministic_match
  deterministic_match_iff name r i =
      let norm = normalize_name fold name in
      (
        λ h. candidate_unique norm r i (unique_match-ids name (exact_ids fold norm r) _ i h),
        λ u. rw (unique-candidate norm r i u) (unique_match-one name (exact_ids fold norm r) i),
      )
