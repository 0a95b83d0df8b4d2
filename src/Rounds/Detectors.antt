-- ===== src/Rounds/Detectors.antt =====
-- app/pipeline/validate.py::detect_field_regression and detect_hours_changes: what each reports.
use payroll_agent.Prelude.{
  ℕ, ◌≡◌, ◌⊎◌, refl, inl, inr, Text, true, false, not, ◌&&◌, Option, none, some, List, [], ◌∷◌, In,
  In-append_left, In-append_right, In-append-cases, In-unit_if, arith, Bool-cases,
}
use mathlib.Core.Path.{subst}
use payroll_agent.Decimal.{Decimal, eq_dec}
use payroll_agent.Roster.{NameMatchResult}
use payroll_agent.Contracts.{
  Extracted, ExtractedEmployee, HoursField, regular, overtime, vacation, sick, holiday,
  hours_fields, get_hours, RawFieldDrop, HoursChange,
}
use payroll_agent.Rounds.Entries.{LastFor, LastFor-id_keyed}
use payroll_agent.Rounds.Pairing.{pair_by_employee_id_iff}
use payroll_agent.Rounds.{
  is_paid, field_drop, field_change, over_fields, over_pairs, detect_field_regression,
  detect_hours_changes, pair_by_employee_id,
}

is_paid-none : is_paid none ≡ false
unfolding is_paid
is_paid-none = refl

all_fields : (f : HoursField) → In f hours_fields
all_fields regular = inl refl
all_fields overtime = inr (inl refl)
all_fields vacation = inr (inr (inl refl))
all_fields sick = inr (inr (inr (inl refl)))
all_fields holiday = inr (inr (inr (inr (inl refl))))

module _ {A : Type 0} (event : Text → HoursField → Option Decimal → Option Decimal → List A) where
  -- What the event reports of one field of a pair.
  abbrev pub at_field : ExtractedEmployee → ExtractedEmployee → HoursField → List A
  at_field o r f = event r.submitted_name f (get_hours o f) (get_hours r f)

  over_fields-In :
      (a : A) (o r : ExtractedEmployee) (f : HoursField) (fs : List HoursField)
      → In f fs
      → In a (at_field o r f)
      → In a (over_fields event o r fs)
  unfolding over_fields
  over_fields-In a o r f [] k h = absurd k
  over_fields-In a o r f (g ∷ fs) (inl q) h =
      In-append_left a (at_field o r g) (over_fields event o r fs)
        (subst (λ x. In a (at_field o r x)) q h)
  over_fields-In a o r f (g ∷ fs) (inr k) h =
      In-append_right a (at_field o r g) (over_fields event o r fs) (over_fields-In a o r f fs k h)

  over_fields-elim :
      (a : A) (o r : ExtractedEmployee) (fs : List HoursField)
      → In a (over_fields event o r fs)
      → (f : HoursField) × In a (at_field o r f)
  unfolding over_fields
  over_fields-elim a o r [] h = absurd h
  over_fields-elim a o r (g ∷ fs) h =
      elim (In-append-cases a (at_field o r g) (over_fields event o r fs) h) [
        | inl k ↦ (g, k)
        | inr k ↦ over_fields-elim a o r fs k
      ]

  over_pairs-In :
      (a : A) (o r : ExtractedEmployee) (f : HoursField)
      (ps : List (ExtractedEmployee × ExtractedEmployee))
      → In (o, r) ps
      → In a (at_field o r f)
      → In a (over_pairs event ps)
  unfolding over_pairs
  over_pairs-In a o r f [] k h = absurd k
  over_pairs-In a o r f ((o', r') ∷ ps) (inl q) h =
      In-append_left a (over_fields event o' r' hours_fields) (over_pairs event ps) (
        over_fields-In a o' r' f hours_fields (all_fields f)
          (subst (λ (p : ExtractedEmployee × ExtractedEmployee). In a (at_field p.0 p.1 f)) q h))
  over_pairs-In a o r f ((o', r') ∷ ps) (inr k) h =
      In-append_right a (over_fields event o' r' hours_fields) (over_pairs event ps)
        (over_pairs-In a o r f ps k h)

  over_pairs-elim :
      (a : A) (ps : List (ExtractedEmployee × ExtractedEmployee))
      → In a (over_pairs event ps)
      → (o : ExtractedEmployee) × (r : ExtractedEmployee) × (f : HoursField) × In (o, r) ps
        × In a (at_field o r f)
  unfolding over_pairs
  over_pairs-elim a [] h = absurd h
  over_pairs-elim a ((o, r) ∷ ps) h =
      elim (In-append-cases a (over_fields event o r hours_fields) (over_pairs event ps) h) [
        | inl k ↦ let (f, m) = over_fields-elim a o r hours_fields k in (o, r, f, inl refl, m)
        | inr k ↦ let (o', r', f, m, n) = over_pairs-elim a ps k in (o', r', f, inr m, n)
      ]

-- The values of one field that make a drop, and those that make a change.
abbrev pub IsDrop : Option Decimal → Option Decimal → Type 0
IsDrop before after = (is_paid before ≡ true) × (is_paid after ≡ false)

abbrev pub IsChange : Option Decimal → Option Decimal → Type 0
IsChange (some b) (some a) =
    (is_paid (some b) ≡ true) × (is_paid (some a) ≡ true) × (eq_dec b a ≡ false)
IsChange (some b) none = ⊥
IsChange none a = ⊥

field_drop-elim :
    (n : Text) (f : HoursField) (b a : Option Decimal) (d : RawFieldDrop)
    → In d (field_drop n f b a)
    → IsDrop b a
      × (d.submitted_name ≡ n)
      × (d.field ≡ f)
      × (some d.original_value ≡ b)
      × (d.resumed_value ≡ a)
unfolding field_drop
field_drop-elim n f none a d m = absurd m
field_drop-elim n f (some b) a d m =
    let (t, q) = In-unit_if (is_paid (some b) && not (is_paid a)) _ d m in ground (arith, t, q)

field_change-elim :
    (n : Text) (f : HoursField) (b a : Option Decimal) (c : HoursChange)
    → In c (field_change n f b a)
    → IsChange b a
      × (c.submitted_name ≡ n)
      × (c.field ≡ f)
      × (some c.original_value ≡ b)
      × (some c.resumed_value ≡ a)
unfolding field_change
field_change-elim n f none a c m = absurd m
field_change-elim n f (some b) none c m = absurd m
field_change-elim n f (some b) (some a) c m =
    let (t, q) = In-unit_if (is_paid (some b) && (is_paid (some a) && not (eq_dec b a))) _ c m in
    ground (arith, t, q)

field_drop-In :
    (n : Text) (f : HoursField) (b : Decimal) (a : Option Decimal)
    → IsDrop (some b) a
    → In
        (record { submitted_name = n; field = f; original_value = b; resumed_value = a })
        (field_drop n f (some b) a)
unfolding field_drop
field_drop-In n f b a h = rw (h.0, h.1) (inl refl)

field_change-In :
    (n : Text) (f : HoursField) (b a : Decimal)
    → IsChange (some b) (some a)
    → In
        (record { submitted_name = n; field = f; original_value = b; resumed_value = a })
        (field_change n f (some b) (some a))
unfolding field_change
field_change-In n f b a h = rw (h.0, h.1, h.2) (inl refl)

module _ (original resumed : Extracted) (pm cm : List NameMatchResult) where
  abbrev drops : List RawFieldDrop
  drops = detect_field_regression original resumed (some pm) cm

  abbrev changes : List HoursChange
  changes = detect_hours_changes original resumed (some pm) cm

  -- The two entries of one employee, and the field, that a record speaks of.
  abbrev pub SpeaksOf :
      ExtractedEmployee
      → ExtractedEmployee
      → HoursField
      → Text
      → HoursField
      → Option Decimal
      → Option Decimal
      → Type 0
  SpeaksOf o r f name field before after =
      In (o, r) (pair_by_employee_id original resumed pm cm)
      × (name ≡ r.submitted_name)
      × (field ≡ f)
      × (before ≡ get_hours o f)
      × (after ≡ get_hours r f)

  -- Every drop that is reported is an hours value of one employee that was paid in the earlier
  -- round and is not paid in the reply.
  pub detect_field_regression_sound :
      (d : RawFieldDrop)
      → In d (detect_field_regression original resumed (some pm) cm)
      → (o : ExtractedEmployee) × (r : ExtractedEmployee) × (f : HoursField) × SpeaksOf o r f
          d.submitted_name d.field
          (some d.original_value)
          d.resumed_value
        × IsDrop (get_hours o f) (get_hours r f)
  unfolding detect_field_regression
  detect_field_regression_sound d m =
      let (o, r, f, k, n) =
        over_pairs-elim field_drop d (pair_by_employee_id original resumed pm cm) m in
      let (i, e1, e2, e3, e4) =
        field_drop-elim r.submitted_name f (get_hours o f) (get_hours r f) d n in
      (o, r, f, (k, e1, e2, e3, e4), i)

  -- Every change that is reported is an hours value of one employee that is paid in both rounds
  -- and differs.
  pub detect_hours_changes_sound :
      (c : HoursChange)
      → In c (detect_hours_changes original resumed (some pm) cm)
      → (o : ExtractedEmployee) × (r : ExtractedEmployee) × (f : HoursField) × SpeaksOf o r f
          c.submitted_name c.field
          (some c.original_value)
          (some c.resumed_value)
        × IsChange (get_hours o f) (get_hours r f)
  unfolding detect_hours_changes
  detect_hours_changes_sound c m =
      let (o, r, f, k, n) =
        over_pairs-elim field_change c (pair_by_employee_id original resumed pm cm) m in
      let (i, e1, e2, e3, e4) =
        field_change-elim r.submitted_name f (get_hours o f) (get_hours r f) c n in
      (o, r, f, (k, e1, e2, e3, e4), i)

  -- What becomes of an hours value that was paid in the earlier round.
  abbrev pub Seen : Text → HoursField → Decimal → Option Decimal → Type 0
  Seen name f before after =
      ((is_paid after ≡ false)
        × In
            (record {
              submitted_name = name;
              field = f;
              original_value = before;
              resumed_value = after;
            })
            (detect_field_regression original resumed (some pm) cm))
      ⊎ ((a : Decimal) × (after ≡ some a)
          × (is_paid after ≡ true)
          × ((eq_dec before a ≡ true)
              ⊎ In
                  (record {
                    submitted_name = name;
                    field = f;
                    original_value = before;
                    resumed_value = a;
                  })
                  (detect_hours_changes original resumed (some pm) cm)))

  -- For an employee that both rounds name, no paid hours value of the last entry that the earlier
  -- round has for the employee changes unseen in the last entry that the reply has: if that entry
  -- does not pay it a drop is reported, and if it pays another value a change is reported.
  pub paid_hours-Seen :
      (i : ℕ) (o r : ExtractedEmployee) (f : HoursField) (before : Decimal)
      → LastFor pm i original.employees o
      → LastFor cm i resumed.employees r
      → get_hours o f ≡ some before
      → is_paid (some before) ≡ true
      → Seen r.submitted_name f before (get_hours r f)
  unfolding detect_field_regression detect_hours_changes
  paid_hours-Seen i o r f before first second e p = from (get_hours r f) refl
    where
      k : In (o, r) (pair_by_employee_id original resumed pm cm)
      k =
          (pair_by_employee_id_iff original resumed pm cm o r).1
            (i, LastFor-id_keyed original pm i o first, LastFor-id_keyed resumed cm i r second)

      changed :
          (a : Decimal)
          → get_hours r f ≡ some a
          → is_paid (some a) ≡ true
          → (eq_dec before a ≡ true)
            ⊎ In
                (record {
                  submitted_name = r.submitted_name;
                  field = f;
                  original_value = before;
                  resumed_value = a;
                })
                changes
      changed a q t = elim (Bool-cases (eq_dec before a)) [
        | inl same ↦ inl same
        | inr other ↦ inr (
            over_pairs-In field_change _ o r f (pair_by_employee_id original resumed pm cm) k
              (rw (e, q) (field_change-In r.submitted_name f before a (p, t, other))))
      ]

      dropped :
          (after : Option Decimal)
          → get_hours r f ≡ after
          → is_paid after ≡ false
          → Seen r.submitted_name f before after
      dropped after q t = inl (
        t,
        over_pairs-In field_drop _ o r f (pair_by_employee_id original resumed pm cm) k
            (rw (e, q) (field_drop-In r.submitted_name f before after (p, t))),
      )

      from : (after : Option Decimal) → get_hours r f ≡ after → Seen r.submitted_name f before after
      from none q = dropped none q is_paid-none
      from (some a) q = elim (Bool-cases (is_paid (some a))) [
        | inl t ↦ inr (a, refl, t, changed a q t)
        | inr t ↦ dropped (some a) q t
      ]
