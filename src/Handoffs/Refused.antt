-- ===== src/Handoffs/Refused.antt =====
-- app/db/repo/outbound_handoffs.py::authorize_outbound_provider_handoff: the outcomes that give no
-- authority, and a run whose handoff another lease owns.
use payroll_agent.Prelude.{
  ℕ, ◌≡◌, ◌≢◌, ◌⊎◌, ◌≤◌, refl, inl, inr, list_eq, nat_eq, false, ltb, Bool-cases, arith, ne→==,
}
use payroll_agent.Jobs.{Job}
use payroll_agent.Runs.{RunRow}
use payroll_agent.Store.{Db, Message, Snapshot, Handoff}
use payroll_agent.Handoffs.{
  HandoffOutcome, authorized, record_only, refused, foreign_active_handoff,
  active_handoff_unexpired, same_delivery, authorize_active,
}

-- No authority is given.
abbrev pub Refuses : HandoffOutcome → Type 0
Refuses (authorized a) = ⊥
Refuses (record_only run_id) = Unit {0}
Refuses (refused why) = Unit {0}

-- The provider is not called: the authorization is refused for another reason than the window.
abbrev pub Held : HandoffOutcome → Type 0
Held o = (o ≡ refused foreign_active_handoff) ⊎ (o ≡ refused active_handoff_unexpired)

pub authorize_active-Held :
    (now : ℕ) (job : Job) (until run_id email_id : ℕ) (run : RunRow) (m : Message) (s : Snapshot)
    (h : Handoff) (db : Db)
    → h.lease_token ≢ job.lease_token
    → now ≤ h.owner_leased_until
    → Held (authorize_active now job until run_id email_id run m s h db).0
      × ((authorize_active now job until run_id email_id run m s h db).1 ≡ db)
unfolding authorize_active
authorize_active-Held now job until run_id email_id run m s h db ne le =
    elim (Bool-cases (same_delivery h job run_id email_id run.reply_epoch s)) [
      | inr f ↦ rw f (inl refl, refl)
      | inl t ↦
          let u : ltb h.owner_leased_until now ≡ false = ground arith in
          rw (t, ne→== h.lease_token job.lease_token ne, u) (inr refl, refl)
    ]

pub Held-Refuses : (o : HandoffOutcome) → Held o → Refuses o
Held-Refuses o (inl q) = rw q tt
Held-Refuses o (inr q) = rw q tt
