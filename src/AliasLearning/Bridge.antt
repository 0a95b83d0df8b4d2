-- ===== src/AliasLearning/Bridge.antt =====
-- app/pipeline/alias_learning.py::confirmed_prior_matches: what the bridge adds to the prior round.
use payroll_agent.Prelude.{
  ℕ, ◌≡◌, refl, inl, inr, Text, nat_eq, list_eq, true, false, not, ◌||◌, Option, none, some, List,
  [], ◌∷◌, ◌++◌, In, NoRepeat, map, contains, contains-In, In-contains, Option-cases, arith,
  if◌then◌else◌,
}
use payroll_agent.Prelude.Dict.{Dict}
use payroll_agent.Roster.{Roster, NameMatchResult}
use payroll_agent.Reconcile.{employee_id}
use payroll_agent.AliasLearning.{
  CandidateValue, seeded, bridge, already_mapped_ids, already_mapped_names, confirmed_prior_matches,
}

guard-elim :
    (ids ids' : List ℕ) (names : List Text) (token : Text) (t : ℕ) (o : Option ℕ)
    → (elim o [
      | none ↦ none
      | some target ↦
          if not (contains target ids') || (contains target ids || contains token names)
          then none
          else some target
    ])
      ≡ some t
    → (contains t ids' ≡ true) × (contains t ids ≡ false)
guard-elim ids ids' names token t none h = cc
guard-elim ids ids' names token t (some u) h = ground (arith, h)

module _ (fold : Text → Text) (show_uuid : ℕ → Text) (parse_uuid : Text → Option ℕ) (r : Roster)
    (current_matches : List NameMatchResult) where
  abbrev ids_of : List NameMatchResult → List ℕ
  ids_of = already_mapped_ids

  seeded-fresh :
      (ids : List ℕ) (names : List Text) (token : Text) (value : CandidateValue) (t : ℕ)
      → seeded fold show_uuid parse_uuid r current_matches ids names token value ≡ some t
      → In t (map employee_id r.employees) × (¬ In t ids)
  unfolding seeded
  seeded-fresh ids names token value t h =
      let (on, off) = guard-elim ids (map employee_id r.employees) names token t _ h in
      (contains-In t (map employee_id r.employees) on, λ m. cc (off, In-contains t ids m))

  -- The ids that a stretch of the loop seeds: on the roster, not mapped before, and distinct.
  abbrev Fresh : List ℕ → List NameMatchResult → Type 0
  Fresh ids new =
      NoRepeat (ids_of new)
      × ((j : ℕ) → In j (ids_of new) → In j (map employee_id r.employees) × (¬ In j ids))

  bridge-Fresh :
      (ids : List ℕ) (names : List Text) (candidates : Dict Text CandidateValue)
      → Fresh ids (bridge fold show_uuid parse_uuid r current_matches ids names candidates)
  unfolding bridge already_mapped_ids
  bridge-Fresh ids names [] = (tt, λ j m. absurd m)
  bridge-Fresh ids names ((token, value) ∷ candidates) =
      elim (Option-cases
        (seeded fold show_uuid parse_uuid r current_matches ids names token value)) [
          | inl e ↦ rw (e, bridge) (bridge-Fresh ids names candidates)
          | inr (t, e) ↦
              let (apart, fresh) = bridge-Fresh (t ∷ ids) (token ∷ names) candidates in
              rw (e, bridge)
                (
                  (λ m. (fresh t m).1 (inl refl), apart),
                  λ j m. elim m [
                    | inl q ↦ rw q (seeded-fresh ids names token value t e)
                    | inr k ↦ let (on, off) = fresh j k in (on, λ n. off (inr n))
                  ],
                )
        ]

  -- The bridge only appends to the records of the prior round. The employees that it appends are
  -- on the roster, none of them has a record of the prior round that is resolved to it, and no two
  -- of the appended records are for one employee.
  pub confirmed_prior_matches_fresh :
      (prior : List NameMatchResult) (candidates : Dict Text CandidateValue)
      → (new : List NameMatchResult) × (confirmed_prior_matches fold show_uuid parse_uuid r
            current_matches
            (some prior)
            candidates
          ≡ some (prior ++ new))
        × NoRepeat (already_mapped_ids new)
        × ((j : ℕ)
            → In j (already_mapped_ids new)
            → In j (map employee_id r.employees) × (¬ In j (already_mapped_ids prior)))
  unfolding confirmed_prior_matches
  confirmed_prior_matches_fresh prior candidates =
      let ids = already_mapped_ids prior in
      let names = already_mapped_names prior in
      let (apart, fresh) = bridge-Fresh ids names candidates in
      (bridge fold show_uuid parse_uuid r current_matches ids names candidates, refl, apart, fresh)
