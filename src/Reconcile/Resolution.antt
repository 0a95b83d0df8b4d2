-- ===== src/Reconcile/Resolution.antt =====
-- app/pipeline/reconcile_names.py::reconcile_names: the records that it returns.
use payroll_agent.Prelude.{
  ℕ, ◌≡◌, refl, ◌∙◌, inl, inr, Text, list_eq, nat_eq, true, Option, none, some, List, [], ◌∷◌, map,
  contains, In, arith, Bool-cases, Option-cases, Pointwise, get_or_else, In-map, contains-In,
}
use payroll_agent.Prelude.Dict.{Dict, lookup}
use mathlib.Core.Path.{subst}
use payroll_agent.Roster.{Roster, NameMatchResult, check_resolution_invariant}
use payroll_agent.Reconcile.{
  employee_id, deterministic_match, unique_match, unresolved, valid_override, reconcile_name,
  reconcile_names, on_roster,
}
use payroll_agent.Reconcile.Unique.{resolved_id, deterministic_match_iff}

-- A record about `name` that `NameMatchResult` accepts, and whose employee is on the roster.
pub record IsResolution (r : Roster) (name : Text) (m : NameMatchResult) : Type 0 where
  pub about : m.submitted_name ≡ name
  pub sound : check_resolution_invariant m ≡ true
  pub on_roster : (i : ℕ) → m.matched_employee_id ≡ some i → In i (map employee_id r.employees)

unique_match-form :
    (name : Text) (xs ids : List ℕ) (m : NameMatchResult)
    → unique_match name xs ids ≡ some m
    → (m.submitted_name ≡ name) × (check_resolution_invariant m ≡ true)
unfolding unique_match check_resolution_invariant
unique_match-form name xs [] m h = cc
unique_match-form name xs (a ∷ []) m h = ground arith
unique_match-form name xs (a ∷ b ∷ rest) m h = cc

none-some : {i : ℕ} → ◌≡◌ {A = Option ℕ} none (some i) → ⊥
none-some h = cc

on_roster-In :
    (r : Roster) (o : Option ℕ) (i : ℕ)
    → on_roster r o ≡ some i
    → In i (map employee_id r.employees)
unfolding on_roster
on_roster-In r none i h = cc
on_roster-In r (some j) i h = elim (Bool-cases (contains j (map employee_id r.employees))) [
  | inl t ↦
      let q : j ≡ i = ground arith in
      subst (λ k. In k (map employee_id r.employees)) q
        (contains-In j (map employee_id r.employees) t)
  | inr f ↦ absurd (none-some (rw (f, on_roster) at h))
]

valid_override-on_roster :
    (parse_uuid : Text → Option ℕ) (name : Text) (r : Roster) (overrides : Dict Text Text) (i : ℕ)
    → valid_override parse_uuid name r overrides ≡ some i
    → In i (map employee_id r.employees)
unfolding valid_override
valid_override-on_roster parse_uuid name r overrides i h =
    on_roster-In r (elim (lookup name overrides) [ none ↦ none | some s ↦ parse_uuid s ]) i h

module _ (fold : Text → Text) where
  match-on_roster :
      (name : Text) (r : Roster) (i : ℕ)
      → resolved_id (deterministic_match fold name r) ≡ some i
      → In i (map employee_id r.employees)
  match-on_roster name r i h =
      let ((e, m, c, q), all) = (deterministic_match_iff fold name r i).0 h in
      rw (← q) (In-map employee_id e r.employees m)

  deterministic_match-IsResolution :
      (name : Text) (r : Roster) (m : NameMatchResult)
      → deterministic_match fold name r ≡ some m
      → IsResolution r name m
  deterministic_match-IsResolution name r m h =
      let f : (m.submitted_name ≡ name) × (check_resolution_invariant m ≡ true) =
        unfold deterministic_match in unique_match-form name _ _ m h in
      record { about = f.0; sound = f.1; on_roster = λ i q. match-on_roster name r i (rw h q) }

  unresolved-IsResolution : (name : Text) (r : Roster) → IsResolution r name (unresolved name)
  unfolding unresolved check_resolution_invariant
  unresolved-IsResolution name r = record { about = refl; sound = refl; on_roster = λ i q. cc }

  module _ (parse_uuid : Text → Option ℕ) where
    pub reconcile_name-IsResolution :
        (name : Text) (r : Roster) (overrides : Dict Text Text)
        → IsResolution r name (reconcile_name fold parse_uuid name r overrides)
    unfolding reconcile_name check_resolution_invariant
    reconcile_name-IsResolution name r overrides =
        elim (Option-cases (valid_override parse_uuid name r overrides)) [
          | inr (i, e) ↦
              rw (e, reconcile_name)
                (record {
                  about = refl;
                  sound = refl;
                  on_roster = λ j q. valid_override-on_roster parse_uuid name r overrides j (e ∙ q);
                })
          | inl e ↦ rw (e, reconcile_name) (fall_through (deterministic_match fold name r) refl)
        ]
      where
        fall_through :
            (found : Option NameMatchResult)
            → deterministic_match fold name r ≡ found
            → IsResolution r name (get_or_else found (unresolved name))
        fall_through none e = unresolved-IsResolution name r
        fall_through (some m) e = deterministic_match-IsResolution name r m e

    -- Each submitted name has one record, in the order of submission; the record is one that
    -- `NameMatchResult` accepts, and an employee that it names is on the roster, whatever the
    -- operator's overrides say.
    pub reconcile_names-IsResolution :
        (names : List Text) (r : Roster) (overrides : Dict Text Text)
        → Pointwise (IsResolution r) names (reconcile_names fold parse_uuid names r overrides)
    unfolding reconcile_names
    reconcile_names-IsResolution [] r overrides = tt
    reconcile_names-IsResolution (n ∷ names) r overrides =
        (reconcile_name-IsResolution n r overrides, reconcile_names-IsResolution names r overrides)
