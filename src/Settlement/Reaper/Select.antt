-- ===== src/Settlement/Reaper/Select.antt =====
-- app/db/repo/job_settlement.py::reap_expired_final_attempt: the row that its first statement finds.
use payroll_agent.Prelude.{
  ℕ, ◌≡◌, ◌⊎◌, refl, sym, ap, ◌∙◌, inl, inr, list_eq, nat_eq, Bool, true, false, not, ◌&&◌, Option,
  none, some, List, [], ◌∷◌, In, All, Bool-cases, contains,
}
use mathlib.Core.Path.{subst}
use payroll_agent.Jobs.{JobRow, Jobs}
use payroll_agent.Settlement.Reaper.{is_final_lease, select_final_lease, earlier, expires_before}

-- The rows that a reap may take.
abbrev pub can_reap : ℕ → List ℕ → JobRow → Bool
can_reap now locked r = is_final_lease now r && not (contains r.id locked)

pub select_final_lease-none :
    (now : ℕ) (locked : List ℕ) (jobs : Jobs)
    → select_final_lease now locked jobs ≡ none
    → All (λ r. can_reap now locked r ≡ false) jobs
unfolding select_final_lease
select_final_lease-none now locked [] e = tt
select_final_lease-none now locked (r ∷ rows) e = elim (Bool-cases (can_reap now locked r)) [
  | inl t ↦ cc (rw t at e)
  | inr f ↦ (f, select_final_lease-none now locked rows (rw f at e))
]

earlier-either : (r : JobRow) (o : Option JobRow) → (earlier r o ≡ r) ⊎ (o ≡ some (earlier r o))
unfolding earlier
earlier-either r none = inl refl
earlier-either r (some b) = elim (Bool-cases (expires_before b r)) [
  | inl t ↦ inr (rw t refl)
  | inr f ↦ inl (rw f refl)
]

pub select_final_lease-some :
    (now : ℕ) (locked : List ℕ) (jobs : Jobs) (r : JobRow)
    → select_final_lease now locked jobs ≡ some r
    → In r jobs × (can_reap now locked r ≡ true)
unfolding select_final_lease
select_final_lease-some now locked (y ∷ rows) r e = elim (Bool-cases (can_reap now locked y)) [
  | inr f ↦ let (m, t) = select_final_lease-some now locked rows r (rw f at e) in (inr m, t)
  | inl t ↦
      let q : some (earlier y (select_final_lease now locked rows)) ≡ some r = rw t at e in
      let p : earlier y (select_final_lease now locked rows) ≡ r = cc q in
      elim (earlier-either y (select_final_lease now locked rows)) [
        | inl own ↦
            let s : y ≡ r = sym own ∙ p in
            (inl (sym s), subst (λ j. can_reap now locked j ≡ true) s t)
        | inr rest ↦
            let (m, u) = select_final_lease-some now locked rows r (rest ∙ ap some p) in (inr m, u)
      ]
]
select_final_lease-some now locked [] r e = cc
