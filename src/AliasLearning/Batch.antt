-- ===== src/AliasLearning/Batch.antt =====
-- app/pipeline/alias_learning.py::write_aliases_if_safe: what a batch of aliases does to the names
-- of a roster.
use payroll_agent.Prelude.{
  ℕ, ◌≡◌, refl, sym, ◌∙◌, inl, inr, Text, nat_eq, list_eq, true, Option, some, List, [], ◌∷◌,
  Bool-cases, Option-cases, find-elim, ==→eq, ◌==◌,
}
use payroll_agent.Prelude.Dict.{Dict}
use mathlib.Core.Path.{subst}
use payroll_agent.Roster.{Employee, Roster}
use payroll_agent.Reconcile.{normalize_name, deterministic_match}
use payroll_agent.Reconcile.Unique.{
  resolved_id, CarriedBy, UniquelyCarried, deterministic_match_iff,
}
use payroll_agent.AliasLearning.{
  CandidateValue, Learning, add_distinct, synthetic_roster, safe_to_learn_alias, update_known_alias,
  load_roster_for_business, employee_by_id, learn_bound, parse_id, normalize_candidate,
  learn_candidate, write_aliases_if_safe,
}
use payroll_agent.AliasLearning.Carriers.{
  updated, load-update, add_distinct-Keeps, add_distinct-AddsOnly, CarriedBy-updated,
  updated-CarriedBy,
}
use payroll_agent.AliasLearning.Guard.{safe_to_learn_alias_iff}

employee_by_id-id :
    (i : ℕ) (e : Employee) (es : List Employee) → employee_by_id i es ≡ some e → e.id ≡ i
unfolding employee_by_id
employee_by_id-id i e es h = ==→eq e.id i (find-elim (λ (x : Employee). x.id == i) e es h).1

module _ (fold : Text → Text) where
  -- Whoever carries the token's name on the roster is the guard's target.
  guarded :
      (token : Text) (i j : ℕ) (r : Roster)
      → safe_to_learn_alias fold token i r ≡ true
      → CarriedBy fold (normalize_name fold token) r j
      → j ≡ i
  unfolding synthetic_roster
  guarded token i j r safe c =
      let (e, m, d, q) = c in sym q ∙ ((safe_to_learn_alias_iff fold token i r).0 safe).1 e m d

  updated-UniquelyCarried :
      (token norm : Text) (i j : ℕ) (r : Roster)
      → safe_to_learn_alias fold token i r ≡ true
      → UniquelyCarried fold norm r j
      → UniquelyCarried fold norm (updated (add_distinct token) i r) j
  updated-UniquelyCarried token norm i j r safe (c, all) = (
    CarriedBy-updated fold (add_distinct token) i norm r j (add_distinct-Keeps token) c,
    λ e m d.
        elim (updated-CarriedBy fold (add_distinct token) i token norm r e.id
          (add_distinct-AddsOnly token) (e, m, d, refl)) [
            | inl (e', m', d', q) ↦ sym q ∙ all e' m' d'
            | inr (w, n) ↦ w ∙ sym (guarded token i j r safe (rw n c))
          ],
  )

  -- The roster that the loop validates against is the table's.
  abbrev pub IsLoaded : ℕ → Learning → Type 0
  IsLoaded b s = s.current_roster ≡ load_roster_for_business b s.table

  abbrev Kept : ℕ → Learning → Learning → Type 0
  Kept b s t =
      IsLoaded b t
      × ((norm : Text) (j : ℕ)
          → UniquelyCarried fold norm (load_roster_for_business b s.table) j
          → UniquelyCarried fold norm (load_roster_for_business b t.table) j)

  Kept-refl : (b : ℕ) (s : Learning) → IsLoaded b s → Kept b s s
  Kept-refl b s l = (l, λ norm j u. u)

  write-Kept :
      (b i : ℕ) (token : Text) (s : Learning)
      → IsLoaded b s
      → safe_to_learn_alias fold token i s.current_roster ≡ true
      → let table = (update_known_alias i token s.table).1 in
        Kept b s (record { current_roster = load_roster_for_business b table; table = table })
  unfolding update_known_alias
  write-Kept b i token s l safe = (
    refl,
    λ norm j u. rw (load-update (add_distinct token) i b s.table) (
        updated-UniquelyCarried token norm i j (load_roster_for_business b s.table) (rw l at safe)
          u),
  )

  learn_bound-Kept :
      (b i : ℕ) (token : Text) (s : Learning)
      → IsLoaded b s
      → Kept b s (learn_bound fold b token i s)
  unfolding learn_bound
  learn_bound-Kept b i token s l =
      elim (Option-cases (employee_by_id i s.current_roster.employees)) [
        | inl e ↦ rw (e, learn_bound) (Kept-refl b s l)
        | inr (target, e) ↦
            elim (Bool-cases (safe_to_learn_alias fold token target.id s.current_roster)) [
              | inr f ↦ rw (e, learn_bound, f) (Kept-refl b s l)
              | inl t ↦ elim (Bool-cases (update_known_alias i token s.table).0) [
                | inr f ↦ rw (e, learn_bound, t, f) (Kept-refl b s l)
                | inl w ↦
                    rw (e, learn_bound, t, w)
                      (write-Kept b i token s l (
                        subst (λ j. safe_to_learn_alias fold token j s.current_roster ≡ true)
                          (employee_by_id-id i target s.current_roster.employees e) t))
              ]
            ]
      ]

  module _ (parse_uuid : Text → Option ℕ) (b : ℕ) where
    learn_candidate-Kept :
        (token : Text) (value : CandidateValue) (s : Learning)
        → IsLoaded b s
        → Kept b s (learn_candidate fold parse_uuid b token value s)
    unfolding learn_candidate
    learn_candidate-Kept token value s l =
        elim (Option-cases (parse_id parse_uuid (normalize_candidate value).bound)) [
          | inl e ↦ rw (e, learn_candidate) (Kept-refl b s l)
          | inr (i, e) ↦ rw (e, learn_candidate) (learn_bound-Kept b i token s l)
        ]

    write_aliases-Kept :
        (candidates : Dict Text CandidateValue) (s : Learning)
        → IsLoaded b s
        → Kept b s (write_aliases_if_safe fold parse_uuid b candidates s)
    unfolding write_aliases_if_safe
    write_aliases-Kept [] s l = Kept-refl b s l
    write_aliases-Kept ((token, value) ∷ candidates) s l =
        let (m, first) = learn_candidate-Kept token value s l in
        let (n, rest) =
          write_aliases-Kept candidates (learn_candidate fold parse_uuid b token value s) m in
        (n, λ norm j u. rest norm j (first norm j u))

    -- When the loop starts from the roster that the table holds for the business, a name that
    -- resolves to an employee before a batch of aliases is written resolves to the same employee
    -- after it, whatever tokens and ids the batch holds and in whatever order.
    pub write_aliases_if_safe_keeps :
        (candidates : Dict Text CandidateValue) (s : Learning)
        → IsLoaded b s
        → (name : Text) (j : ℕ)
        → resolved_id (deterministic_match fold name (load_roster_for_business b s.table)) ≡ some j
        → let t = write_aliases_if_safe fold parse_uuid b candidates s in
          resolved_id (deterministic_match fold name (load_roster_for_business b t.table)) ≡ some j
    write_aliases_if_safe_keeps candidates s l name j h =
        let t = write_aliases_if_safe fold parse_uuid b candidates s in
        (deterministic_match_iff fold name (load_roster_for_business b t.table) j).1 (
          (write_aliases-Kept candidates s l).1 (normalize_name fold name) j
            ((deterministic_match_iff fold name (load_roster_for_business b s.table) j).0 h))
