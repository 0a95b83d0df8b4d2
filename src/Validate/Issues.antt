-- ===== src/Validate/Issues.antt =====
-- app/pipeline/validate.py::validate in front of app/pipeline/decide.py::decide: what is known of
-- the hours of a run that is processed.
use payroll_agent.Prelude.{
  ℕ, ◌≡◌, ◌⊎◌, refl, ◌∙◌, ap, inl, inr, Text, list_eq, nat_eq, true, false, Option, none, some,
  List, [], ◌∷◌, In, All-In, any-elim, In-append_left, In-append_right, Bool-cases,
}
use mathlib.Core.Path.{subst}
use payroll_agent.Prelude.Dict.{lookup}
use payroll_agent.Decimal.{Decimal, dec, lt_dec}
use payroll_agent.Roster.{
  Roster, NameMatchResult, ValidationIssue, hourly, is_missing, is_field_regression, no_hours,
  IssueMessage, weekly_no_overtime, biweekly_no_overtime,
}
use payroll_agent.Contracts.{
  Extracted, ExtractedEmployee, HoursField, regular, overtime, hours_fields, get_hours,
  RawFieldDrop, process,
}
use payroll_agent.Rounds.{is_paid, name_to_id}
use payroll_agent.Rounds.Entries.{Names, name_to_id_iff}
use payroll_agent.Decide.{decide}
use payroll_agent.Decide.Gate.{IsSafe, decide-process_iff}
use payroll_agent.Validate.Settled.{is_resolved_drop-In}
use payroll_agent.Validate.{
  DropKey, is_resolved_drop, regression_issue, drop_issue, drop_issues, any_hours, missing_issue,
  hours_issue, overtime_issue, lumped_hours, employee_pay_type, employee_pay_periods_per_year,
  each_issue, validate,
}

each_issue-In :
    (rule : ExtractedEmployee → List ValidationIssue) (i : ValidationIssue) (e : ExtractedEmployee)
    (es : List ExtractedEmployee)
    → In e es
    → In i (rule e)
    → In i (each_issue rule es)
unfolding each_issue
each_issue-In rule i e [] k m = absurd k
each_issue-In rule i e (x ∷ es) (inl q) m =
    In-append_left i (rule x) (each_issue rule es) (subst (λ y. In i (rule y)) q m)
each_issue-In rule i e (x ∷ es) (inr k) m =
    In-append_right i (rule x) (each_issue rule es) (each_issue-In rule i e es k m)

missing_issue-is_missing :
    (n : Text) (f : HoursField) (w : IssueMessage) → is_missing (missing_issue n f w) ≡ true
unfolding missing_issue is_missing
missing_issue-is_missing n f w = refl

module _ (x : Extracted) (roster : Roster) (ms : List NameMatchResult) (drops : List DropKey)
    (raws : List RawFieldDrop)
    (processed : (decide x ms (validate x roster ms drops raws)).final_action ≡ process) where
  safe : IsSafe x ms (validate x roster ms drops raws)
  safe = (decide-process_iff x ms (validate x roster ms drops raws)).0 processed

  no_missing_issue :
      (i : ValidationIssue) → is_missing i ≡ true → ¬ In i (validate x roster ms drops raws)
  no_missing_issue i t m = cc (
    t,
    All-In (λ j. is_missing j ≡ false) i (validate x roster ms drops raws) safe.none_missing m,
  )

  no_hours_issue :
      (i : ValidationIssue) (e : ExtractedEmployee)
      → In e x.employees
      → is_missing i ≡ true
      → ¬ In i (hours_issue ms roster e)
  unfolding validate
  no_hours_issue i e k t m = no_missing_issue i t (
      In-append_right i (drop_issues ms drops raws) _ (
        In-append_left i (each_issue (hours_issue ms roster) x.employees) _
          (each_issue-In (hours_issue ms roster) i e x.employees k m)))

  no_overtime_issue :
      (i : ValidationIssue) (e : ExtractedEmployee)
      → In e x.employees
      → is_missing i ≡ true
      → ¬ In i (overtime_issue ms roster e)
  unfolding validate
  no_overtime_issue i e k t m = no_missing_issue i t (
      In-append_right i (drop_issues ms drops raws) _ (
        In-append_right i (each_issue (hours_issue ms roster) x.employees) _
          (each_issue-In (overtime_issue ms roster) i e x.employees k m)))

  -- In a run that is processed every hourly employee has an hours value that is paid.
  pub processed-hourly :
      (e : ExtractedEmployee)
      → In e x.employees
      → employee_pay_type e.submitted_name ms roster ≡ some hourly
      → (f : HoursField) × (is_paid (get_hours e f) ≡ true)
  unfolding hours_issue any_hours
  processed-hourly e k h = elim (Bool-cases (any_hours e)) [
    | inl t ↦ let (f, m, p) = any-elim (λ g. is_paid (get_hours e g)) hours_fields t in (f, p)
    | inr n ↦ absurd (
        no_hours_issue (missing_issue e.submitted_name regular (no_hours e.submitted_name)) e k
          (missing_issue-is_missing e.submitted_name regular (no_hours e.submitted_name))
          (rw (n, hours_issue) (rw h (inl refl))))
  ]

  lumped-paid :
      (e : ExtractedEmployee) (limit : ℕ) (h : Decimal)
      → lumped_hours e limit ≡ none
      → e.hours_regular ≡ some h
      → lt_dec (dec limit 0) h ≡ true
      → is_paid e.hours_overtime ≡ true
  unfolding lumped_hours
  lumped-paid e limit h n q t = elim (Bool-cases (is_paid e.hours_overtime)) [
    | inl p ↦ p
    | inr p ↦ absurd (cc (rw (q, lumped_hours, t, p) at n))
  ]

  not_lumped-weekly :
      (e : ExtractedEmployee) (o : Option Decimal)
      → In e x.employees
      → employee_pay_periods_per_year e.submitted_name ms roster ≡ some 52
      → lumped_hours e 40 ≡ o
      → o ≡ none
  unfolding overtime_issue
  not_lumped-weekly e none k y n = refl
  not_lumped-weekly e (some v) k y n = absurd (
      no_overtime_issue
        (missing_issue e.submitted_name overtime (weekly_no_overtime e.submitted_name v)) e k
        (missing_issue-is_missing e.submitted_name overtime (weekly_no_overtime e.submitted_name v))
        (rw (y, overtime_issue, n) (inl refl)))

  not_lumped-biweekly :
      (e : ExtractedEmployee) (o : Option Decimal)
      → In e x.employees
      → employee_pay_periods_per_year e.submitted_name ms roster ≡ some 26
      → lumped_hours e 80 ≡ o
      → o ≡ none
  unfolding overtime_issue
  not_lumped-biweekly e none k y n = refl
  not_lumped-biweekly e (some v) k y n = absurd (
      no_overtime_issue
        (missing_issue e.submitted_name overtime (biweekly_no_overtime e.submitted_name v)) e k
        (missing_issue-is_missing e.submitted_name overtime
          (biweekly_no_overtime e.submitted_name v))
        (rw (y, overtime_issue, n) (inl refl)))

  -- In a run that is processed a weekly employee with more than 40 regular hours, and a biweekly
  -- one with more than 80, has overtime that is paid.
  pub processed-overtime :
      (e : ExtractedEmployee) (ppy limit : ℕ) (h : Decimal)
      → In e x.employees
      → ((ppy ≡ 52) × (limit ≡ 40)) ⊎ ((ppy ≡ 26) × (limit ≡ 80))
      → employee_pay_periods_per_year e.submitted_name ms roster ≡ some ppy
      → e.hours_regular ≡ some h
      → lt_dec (dec limit 0) h ≡ true
      → is_paid e.hours_overtime ≡ true
  processed-overtime e ppy limit h k (inl (p, l)) y q t =
      lumped-paid e limit h (rw l (not_lumped-weekly e _ k (y ∙ ap some p) refl)) q t
  processed-overtime e ppy limit h k (inr (p, l)) y q t =
      lumped-paid e limit h (rw l (not_lumped-biweekly e _ k (y ∙ ap some p) refl)) q t

  unsettled-issue :
      (d : RawFieldDrop) (i : ℕ)
      → lookup d.submitted_name (name_to_id ms) ≡ some i
      → is_resolved_drop i d.field drops ≡ false
      → (j : ValidationIssue) × In j (drop_issue ms drops d) × (is_field_regression j ≡ true)
  unfolding drop_issue regression_issue is_field_regression
  unsettled-issue d i h n = (regression_issue d, rw (h, drop_issue, n) (inl refl), refl)

  drop_issues-In :
      (j : ValidationIssue) (d : RawFieldDrop) (ds : List RawFieldDrop)
      → In d ds
      → In j (drop_issue ms drops d)
      → In j (drop_issues ms drops ds)
  unfolding drop_issues
  drop_issues-In j d [] k m = absurd k
  drop_issues-In j d (y ∷ ds) (inl q) m =
      In-append_left j (drop_issue ms drops y) (drop_issues ms drops ds)
        (subst (λ z. In j (drop_issue ms drops z)) q m)
  drop_issues-In j d (y ∷ ds) (inr k) m =
      In-append_right j (drop_issue ms drops y) (drop_issues ms drops ds)
        (drop_issues-In j d ds k m)

  -- In a run that is processed, of every hours value that the reply dropped and whose name the
  -- records resolve, the last record of the name deciding, the employee and the field are a pair of
  -- the `resolved_drops` that `validate` was given.
  pub processed-drops :
      (d : RawFieldDrop) (i : ℕ) → In d raws → Names ms d.submitted_name i → In (i, d.field) drops
  unfolding validate
  processed-drops d i k named = elim (Bool-cases (is_resolved_drop i d.field drops)) [
    | inl t ↦ is_resolved_drop-In i d.field drops t
    | inr n ↦
        let (j, m, t) = unsettled-issue d i ((name_to_id_iff ms d.submitted_name i).1 named) n in
        absurd (
          cc (
            t,
            All-In (λ z. is_field_regression z ≡ false) j (validate x roster ms drops raws)
                safe.none_regressed
                (In-append_left j (drop_issues ms drops raws) _ (drop_issues-In j d raws k m)),
          ))
  ]
