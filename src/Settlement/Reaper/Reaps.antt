-- ===== src/Settlement/Reaper/Reaps.antt =====
-- app/db/repo/job_settlement.py::reap_expired_final_attempt: what a reap leaves behind.
use payroll_agent.Prelude.{
  ℕ, ◌≡◌, ◌≢◌, ◌⊎◌, refl, inl, inr, Text, list_eq, nat_eq, true, false, none, some, List, In, All,
  All-In, Option-cases, arith, ok, err,
}
use payroll_agent.Jobs.{JobRow, is_leased}
use payroll_agent.Jobs.Valid.{IsValid, IsCoherent}
use payroll_agent.Store.{Db, SettlementOutcome}
use payroll_agent.Settlement.Reaper.{
  Reaping, is_final_lease, select_final_lease, reap_expired_final_attempt,
}
use payroll_agent.Settlement.Reaper.Row.{Buried, RowEnds, reap_row-Ends}
use payroll_agent.Settlement.Reaper.Select.{
  can_reap, select_final_lease-none, select_final_lease-some,
}

abbrev pub Reaps : ℕ → List ℕ → Db → Reaping → Type 0
Reaps now locked db (err e) = ⊥
Reaps now locked db (ok (none, after)) =
    (after ≡ db) × All (λ r. can_reap now locked r ≡ false) db.jobs
Reaps now locked db (ok (some o, after)) =
    (r : JobRow) × In r db.jobs
    × (can_reap now locked r ≡ true)
    × (after.messages ≡ db.messages)
    × (((o ≡ SettlementOutcome.fenced) × (after ≡ db))
        ⊎ ((o ≢ SettlementOutcome.fenced) × Buried r db after))

row-Reaps :
    (now : ℕ) (locked : List ℕ) (db : Db) (r : JobRow) (o : Reaping)
    → In r db.jobs
    → can_reap now locked r ≡ true
    → RowEnds r db o
    → Reaps now locked db o
row-Reaps now locked db r (ok (none, after)) m t e = absurd e
row-Reaps now locked db r (ok (some o, after)) m t (same, e) = (r, m, t, same, e)
row-Reaps now locked db r (err x) m t e = absurd e

-- On a valid table of jobs a reap never raises. It finds nothing exactly when no unlocked row is an
-- expired lease of a last attempt; otherwise it takes such a row, sends nothing, and either answers
-- `fenced` and leaves every table as it is, or the job is dead afterwards and the invariants of the
-- tables of jobs and handoffs are kept.
pub reap_expired_final_attempt-Reaps :
    (show_number : ℕ → Text) (now : ℕ) (locked : List ℕ) (db : Db)
    → IsValid db.jobs
    → Reaps now locked db (reap_expired_final_attempt show_number now locked db)
unfolding reap_expired_final_attempt is_final_lease
reap_expired_final_attempt-Reaps show_number now locked db valid =
    elim (Option-cases (select_final_lease now locked db.jobs)) [
      | inl e ↦
          rw (e, reap_expired_final_attempt) (refl, select_final_lease-none now locked db.jobs e)
      | inr (r, e) ↦
          let (m, t) = select_final_lease-some now locked db.jobs r e in
          let final : is_final_lease now r ≡ true = ground (arith, t) in
          let l : is_leased r.state ≡ true = ground (arith, final) in
          elim (Option-cases r.lease_token) [
            | inl f ↦
                let c = (All-In IsCoherent r db.jobs valid.coherent m).token_when_leased in
                cc (rw (f, l) at c)
            | inr (token, f) ↦
                rw (e, reap_expired_final_attempt)
                  (rw (f, reap_expired_final_attempt)
                    (row-Reaps now locked db r _ m t
                      (reap_row-Ends now db valid r token m final f show_number)))
          ]
    ]
