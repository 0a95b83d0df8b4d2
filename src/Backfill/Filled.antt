-- ===== src/Backfill/Filled.antt =====
-- app/pipeline/orchestrator.py::backfill_extracted: what becomes of each employee's hours.
use payroll_agent.Prelude.{
  ℕ, ◌≡◌, ◌⊎◌, ◌∙◌, refl, sym, inl, inr, list_eq, nat_eq, Text, true, not, ◌&&◌, Option, none, some,
  List, [], ◌∷◌, map, Pointwise, Bool-cases, Option-cases, arith, is_empty, if◌then◌else◌,
}
use mathlib.Core.Path.{subst}
use payroll_agent.Prelude.Dict.{Dict, lookup}
use payroll_agent.Decimal.{Decimal}
use payroll_agent.Roster.{NameMatchResult}
use payroll_agent.Contracts.{
  Extracted, ExtractedEmployee, HoursField, regular, overtime, vacation, sick, holiday, get_hours,
}
use payroll_agent.Rounds.{is_paid, name_to_id, id_keyed}
use payroll_agent.Validate.{DropKey, is_resolved_drop}
use payroll_agent.Backfill.{fill_field, fill, snapshot_entry, backfill_employee, backfill_extracted}

module _ (drops : List DropKey) where
  fill_field-paid :
      (i : ℕ) (f : HoursField) (now snap : Option Decimal)
      → is_paid now ≡ true
      → fill_field drops i f now snap ≡ now
  unfolding fill_field
  fill_field-paid i f now snap t = rw t

  fill_field-settled :
      (i : ℕ) (f : HoursField) (now snap : Option Decimal)
      → is_resolved_drop i f drops ≡ true
      → fill_field drops i f now snap ≡ now
  unfolding fill_field
  fill_field-settled i f now snap t = ground (arith, t)

  fill_field-kept :
      (i : ℕ) (f : HoursField) (now snap : Option Decimal)
      → is_paid snap ≡ true
      → (is_paid (fill_field drops i f now snap) ≡ true) ⊎ (is_resolved_drop i f drops ≡ true)
  unfolding fill_field
  fill_field-kept i f now snap t = elim (Bool-cases (is_resolved_drop i f drops)) [
    | inl d ↦ inr d
    | inr d ↦ elim (Bool-cases (is_paid now)) [
      | inl p ↦ inl (rw p p)
      | inr p ↦ inl (rw (p, t, d) t)
    ]
  ]

  fill_field-from :
      (i : ℕ) (f : HoursField) (now snap : Option Decimal)
      → (fill_field drops i f now snap ≡ now) ⊎ (fill_field drops i f now snap ≡ snap)
  unfolding fill_field
  fill_field-from i f now snap =
      elim (Bool-cases (not (is_paid now) && (is_paid snap && not (is_resolved_drop i f drops)))) [
        | inl t ↦ inr (rw t)
        | inr n ↦ inl (rw n)
      ]

  get_hours-fill :
      (i : ℕ) (snap e : ExtractedEmployee) (f : HoursField)
      → get_hours (fill drops i snap e) f ≡ fill_field drops i f (get_hours e f) (get_hours snap f)
  unfolding fill get_hours
  get_hours-fill i snap e regular = refl
  get_hours-fill i snap e overtime = refl
  get_hours-fill i snap e vacation = refl
  get_hours-fill i snap e sick = refl
  get_hours-fill i snap e holiday = refl

  module _ (ids : Dict Text ℕ) (snaps : Dict ℕ ExtractedEmployee) where
    -- The current round resolves the entry's name to `i`, whose entry in the snapshot is `s`.
    abbrev pub Known : ExtractedEmployee → ℕ → ExtractedEmployee → Type 0
    Known e i s = (lookup e.submitted_name ids ≡ some i) × (lookup i snaps ≡ some s)

    -- What an entry becomes.
    pub record IsBackfilled (e after : ExtractedEmployee) : Type 0 where
      pub same_name : after.submitted_name ≡ e.submitted_name
      pub paid_kept :
          (f : HoursField) → is_paid (get_hours e f) ≡ true → get_hours after f ≡ get_hours e f
      pub settled_kept :
          (i : ℕ) (s : ExtractedEmployee) (f : HoursField)
          → Known e i s
          → is_resolved_drop i f drops ≡ true
          → get_hours after f ≡ get_hours e f
      pub never_lost :
          (i : ℕ) (s : ExtractedEmployee) (f : HoursField)
          → Known e i s
          → is_paid (get_hours s f) ≡ true
          → (is_paid (get_hours after f) ≡ true) ⊎ (is_resolved_drop i f drops ≡ true)
      pub nothing_new :
          (f : HoursField)
          → (get_hours after f ≡ get_hours e f)
            ⊎ ((i : ℕ) × (s : ExtractedEmployee) × Known e i s
                × (get_hours after f ≡ get_hours s f))

    unknown-IsBackfilled :
        (e : ExtractedEmployee)
        → ((i : ℕ) (s : ExtractedEmployee) → ¬ Known e i s)
        → IsBackfilled e e
    unknown-IsBackfilled e nobody = record {
      same_name = refl;
      paid_kept = λ f p. refl;
      settled_kept = λ i s f k d. refl;
      never_lost = λ i s f k p. absurd (nobody i s k);
      nothing_new = λ f. inl refl;
    }

    Known-unique :
        (e : ExtractedEmployee) (i j : ℕ) (s t : ExtractedEmployee)
        → Known e i s
        → Known e j t
        → (j ≡ i) × (t ≡ s)
    Known-unique e i j s t (a, b) (c, d) =
        let q : j ≡ i = cc (a, c) in
        let d' : lookup i snaps ≡ some t = subst (λ x. lookup x snaps ≡ some t) q d in
        (q, cc (b, d'))

    fill-kept :
        (i : ℕ) (s e : ExtractedEmployee) (f : HoursField)
        → is_paid (get_hours s f) ≡ true
        → (is_paid (get_hours (fill drops i s e) f) ≡ true) ⊎ (is_resolved_drop i f drops ≡ true)
    fill-kept i s e f p =
        subst (λ v. (is_paid v ≡ true) ⊎ (is_resolved_drop i f drops ≡ true))
          (sym (get_hours-fill i s e f)) (fill_field-kept i f (get_hours e f) (get_hours s f) p)

    Known-IsBackfilled :
        (e : ExtractedEmployee) (i : ℕ) (s : ExtractedEmployee)
        → Known e i s
        → IsBackfilled e (fill drops i s e)
    unfolding fill
    Known-IsBackfilled e i s k = record {
      same_name = refl;
      paid_kept =
          λ f p. get_hours-fill i s e f ∙ fill_field-paid i f (get_hours e f) (get_hours s f) p;
      settled_kept = λ j t f k' d.
          get_hours-fill i s e f
          ∙ fill_field-settled i f (get_hours e f) (get_hours s f)
              (subst (λ x. is_resolved_drop x f drops ≡ true) (Known-unique e i j s t k k').0 d);
      never_lost = λ j t f k' p.
          let (q, r) = Known-unique e i j s t k k' in
          subst
            (λ x.
              (is_paid (get_hours (fill drops i s e) f) ≡ true)
              ⊎ (is_resolved_drop x f drops ≡ true))
            (sym q) (fill-kept i s e f (subst (λ x. is_paid (get_hours x f) ≡ true) r p));
      nothing_new = λ f. elim (fill_field-from i f (get_hours e f) (get_hours s f)) [
        | inl q ↦ inl (get_hours-fill i s e f ∙ q)
        | inr q ↦ inr (i, s, k, get_hours-fill i s e f ∙ q)
      ];
    }

    backfill_employee-IsBackfilled :
        (e : ExtractedEmployee) → IsBackfilled e (backfill_employee ids snaps drops e)
    unfolding backfill_employee snapshot_entry
    backfill_employee-IsBackfilled e = elim (Option-cases (lookup e.submitted_name ids)) [
      | inl n ↦ rw (n, backfill_employee) (unknown-IsBackfilled e (λ i s k. cc (n, k.0)))
      | inr (i, q) ↦ elim (Option-cases (lookup i snaps)) [
        | inl n ↦
            rw (q, backfill_employee, n) (unknown-IsBackfilled e (λ j s k. absent e i j s q n k))
        | inr (s, r) ↦ rw (q, backfill_employee, r) (Known-IsBackfilled e i s (q, r))
      ]
    ]
      where
        absent :
            (e : ExtractedEmployee) (i j : ℕ) (s : ExtractedEmployee)
            → lookup e.submitted_name ids ≡ some i
            → lookup i snaps ≡ none
            → Known e j s
            → ⊥
        absent e i j s q n (a, b) =
            let same : j ≡ i = cc (q, a) in
            let b' : lookup i snaps ≡ some s = subst (λ x. lookup x snaps ≡ some s) same b in
            cc (n, b')

    map-IsBackfilled :
        (es : List ExtractedEmployee)
        → Pointwise IsBackfilled es (map (backfill_employee ids snaps drops) es)
    map-IsBackfilled [] = tt
    map-IsBackfilled (e ∷ es) = (backfill_employee-IsBackfilled e, map-IsBackfilled es)

  unchanged-IsBackfilled :
      (ids : Dict Text ℕ) (es : List ExtractedEmployee) → Pointwise (IsBackfilled ids []) es es
  unfolding lookup
  unchanged-IsBackfilled ids [] = tt
  unchanged-IsBackfilled ids (e ∷ es) =
      (unknown-IsBackfilled ids [] e (λ i s k. cc (k.1)), unchanged-IsBackfilled ids es)

  -- Backfilling from a snapshot keeps the entries, their order and their names. An hours value that
  -- the reply pays stays. Where both rounds know the employee, a value that the client settled stays
  -- as the reply has it, and a value that the snapshot paid is paid afterwards or was settled. Every
  -- value afterwards is the reply's or, where both rounds know the employee, the snapshot's.
  pub backfill_extracted-IsBackfilled :
      (x snapshot : Extracted) (prior_matches matches : List NameMatchResult)
      → Pointwise
          (IsBackfilled (name_to_id matches) (id_keyed snapshot prior_matches))
          x.employees
          (backfill_extracted x (some snapshot) prior_matches matches drops).employees
  unfolding backfill_extracted
  backfill_extracted-IsBackfilled x snapshot prior_matches matches =
      from (id_keyed snapshot prior_matches)
    where
      from :
          (snaps : Dict ℕ ExtractedEmployee)
          → Pointwise
              (IsBackfilled (name_to_id matches) snaps)
              x.employees
              (if is_empty snaps then x else record x {
                employees = map (backfill_employee (name_to_id matches) snaps drops) x.employees;
              }).employees
      from [] = unchanged-IsBackfilled (name_to_id matches) x.employees
      from (s ∷ snaps) = map-IsBackfilled (name_to_id matches) (s ∷ snaps) x.employees
