-- ===== src/Handlers/Resume/Authentic.antt =====
-- app/queue/handlers/resume_reply.py: which replies reach the stages.
use payroll_agent.Prelude.{
  ℕ, ◌≡◌, ◌⊎◌, refl, inl, inr, Text, list_eq, nat_eq, Bool, true, false, ltb, Option, none, some,
  List, In-map, any, any-In, any-elim, find, find-elim, ◌==◌, ==-self, Bool-cases, Option-cases,
  if◌then◌else◌, arith,
}
use mathlib.Core.Path.{subst}
use payroll_agent.Jobs.{Job}
use payroll_agent.Runs.{
  RunStatus, received, extracting, awaiting_reply, computed, awaiting_approval, approved, sent,
  reconciled, rejected, error, needs_operator, Runs, RunRow, is_run, in_status, status_value,
  move_status, update_runs, claim_status, can_rewind, rewind, rewind_for_reclaim,
}
use payroll_agent.Store.{Db}
use payroll_agent.Settlement.{same_id}
use payroll_agent.Handoffs.Handler.{bounded_noop}
use payroll_agent.Handlers.{Handled}
use payroll_agent.Handlers.Starts.{epochs, epochs-same, rewound_received}
use payroll_agent.Handlers.Resume.{
  InboundEmail, has_email_id, when_won, resume_gate, reply_sender_ok, resume_row, resume_email,
  handle_resume_reply,
}

-- The table of runs before the stages: the run is received, and no epoch has changed.
abbrev pub Opened : ℕ → Runs → Option Runs → Type 0
Opened run_id runs none = Unit
Opened run_id runs (some after) =
    (any (in_status run_id received) after ≡ true) × (epochs after ≡ epochs runs)

moved_received :
    (now run_id : ℕ) (r : RunRow)
    → in_status run_id awaiting_reply r ≡ true
    → in_status run_id received (move_status now received r) ≡ true
unfolding in_status move_status
moved_received now run_id r t =
    let i : (r.id == run_id) ≡ true = ground (arith, t) in rw i (==-self (status_value received))

status_held :
    (run_id : ℕ) (r : RunRow) (s : RunStatus)
    → is_run run_id r ≡ true
    → r.status ≡ s
    → in_status run_id s r ≡ true
unfolding in_status
status_held run_id r s t q =
    let same : (status_value r.status == status_value s) ≡ true =
      subst (λ x. (status_value r.status == status_value x) ≡ true) q
        (==-self (status_value r.status)) in
    rw t same

module _ (now attempts run_id : ℕ) (runs : Runs) where
  claimed-Opened :
      Opened run_id runs (when_won (claim_status now run_id awaiting_reply received runs))
  unfolding when_won claim_status move_status
  claimed-Opened = elim (Bool-cases (any (in_status run_id awaiting_reply) runs)) [
    | inr f ↦ rw f tt
    | inl t ↦
        let (r, m, u) = any-elim (in_status run_id awaiting_reply) runs t in
        let k = rw u at (
          In-map (λ y. if in_status run_id awaiting_reply y then move_status now received y else y)
            r runs m) in
        rw t (
          any-In (in_status run_id received) (move_status now received r) _ k
              (moved_received now run_id r u),
          epochs-same (in_status run_id awaiting_reply) (move_status now received) runs (λ y. refl),
        )
  ]

  rewound-Opened : Opened run_id runs (when_won (rewind_for_reclaim now run_id runs))
  unfolding when_won rewind_for_reclaim update_runs rewind
  rewound-Opened = elim (Bool-cases (any (can_rewind run_id) runs)) [
    | inr f ↦ rw f tt
    | inl t ↦
        let (r, m, u) = any-elim (can_rewind run_id) runs t in
        let k = rw u at (In-map (λ y. if can_rewind run_id y then rewind now y else y) r runs m) in
        rw t (
          any-In (in_status run_id received) (rewind now r) _ k (rewound_received now run_id r u),
          epochs-same (can_rewind run_id) (rewind now) runs (λ y. refl),
        )
  ]

  again-Opened :
      (o : Option Runs)
      → Opened run_id runs o
      → Opened run_id runs (if ltb 1 attempts then o else none)
  again-Opened o p = elim (Bool-cases (ltb 1 attempts)) [ inl t ↦ rw t p | inr f ↦ rw f tt ]

  resume_gate-Opened :
      (run : RunRow)
      → find (is_run run_id) runs ≡ some run
      → (s : RunStatus) → run.status ≡ s
      → Opened run_id runs (resume_gate now attempts run_id s runs)
  unfolding resume_gate
  resume_gate-Opened run e awaiting_reply q = claimed-Opened
  resume_gate-Opened run e received q =
      let (m, t) = find-elim (is_run run_id) run runs e in
      again-Opened (some runs)
        (any-In (in_status run_id received) run runs m (status_held run_id run received t q), refl)
  resume_gate-Opened run e extracting q = again-Opened _ rewound-Opened
  resume_gate-Opened run e computed q = again-Opened _ rewound-Opened
  resume_gate-Opened run e sent q = again-Opened _ rewound-Opened
  resume_gate-Opened run e awaiting_approval q = tt
  resume_gate-Opened run e approved q = tt
  resume_gate-Opened run e reconciled q = tt
  resume_gate-Opened run e rejected q = tt
  resume_gate-Opened run e error q = tt
  resume_gate-Opened run e needs_operator q = tt

module _ (find_business_by_sender : Text → Option ℕ) (row_to_inbound : InboundEmail → Bool)
    (resume_pipeline : ℕ → InboundEmail → Db → Handled) where
  -- What a resumption rests on: the stored reply belongs to the run, and its sender to the run's
  -- business.
  pub record IsAuthentic (run_id email_id : ℕ) (emails : List InboundEmail) (db : Db)
      (row : InboundEmail) : Type 0 where
    pub stored : find (has_email_id email_id) emails ≡ some row
    pub owned : same_id row.run_id (some run_id) ≡ true
    pub run : RunRow
    pub found : find (is_run run_id) db.runs ≡ some run
    pub sender : reply_sender_ok find_business_by_sender row run ≡ true

  -- Nothing happens, or an authentic reply is resumed from a received run.
  abbrev pub Resumes : ℕ → ℕ → List InboundEmail → Db → Handled → Type 0
  Resumes run_id email_id emails db h =
      (h ≡ (some bounded_noop, db))
      ⊎ ((row : InboundEmail) × IsAuthentic run_id email_id emails db row
          × (runs : Runs) × (any (in_status run_id received) runs ≡ true)
          × (epochs runs ≡ epochs db.runs)
          × ((h ≡ resume_pipeline run_id row (record db { runs = runs }))
              ⊎ ((row_to_inbound row ≡ false)
                  × (h ≡ (some bounded_noop, record db { runs = runs })))))

  resume_row-Resumes :
      (now attempts run_id email_id : ℕ) (emails : List InboundEmail) (row : InboundEmail) (db : Db)
      (a : IsAuthentic run_id email_id emails db row)
      → Resumes run_id email_id emails db (
          resume_row find_business_by_sender row_to_inbound resume_pipeline now attempts run_id row
            a.run db)
  unfolding resume_row
  resume_row-Resumes now attempts run_id email_id emails row db a =
      let opened = resume_gate-Opened now attempts run_id db.runs a.run a.found a.run.status refl in
      elim (Option-cases (resume_gate now attempts run_id a.run.status db.runs)) [
        | inl e ↦ inl (rw (e, resume_row) refl)
        | inr (runs, e) ↦
            let (got, same) : Opened run_id db.runs (some runs) = rw e at opened in
            elim (Bool-cases (row_to_inbound row)) [
              | inl t ↦ inr (row, a, runs, got, same, inl (rw (e, resume_row) (rw t refl)))
              | inr f ↦ inr (row, a, runs, got, same, inr (f, rw (e, resume_row) (rw f refl)))
            ]
      ]

  resume_email-Resumes :
      (now attempts run_id email_id : ℕ) (emails : List InboundEmail) (db : Db)
      → Resumes run_id email_id emails db (
          resume_email find_business_by_sender row_to_inbound resume_pipeline now attempts run_id
            email_id emails db)
  unfolding resume_email
  resume_email-Resumes now attempts run_id email_id emails db =
      elim (Option-cases (find (has_email_id email_id) emails)) [
        | inl e ↦ inl (rw (e, resume_email) refl)
        | inr (row, e) ↦ elim (Bool-cases (same_id row.run_id (some run_id))) [
          | inr f ↦ inl (rw (e, resume_email) (rw f refl))
          | inl t ↦ elim (Option-cases (find (is_run run_id) db.runs)) [
            | inl n ↦ inl (rw (e, resume_email) (rw t (rw (n, resume_email) refl)))
            | inr (run, g) ↦ elim (Bool-cases (reply_sender_ok find_business_by_sender row run)) [
              | inr f ↦ inl (rw (e, resume_email) (rw t (rw (g, resume_email) (rw f refl))))
              | inl s ↦
                  rw (e, resume_email)
                    (rw t (
                      rw (g, resume_email)
                        (rw s (
                          resume_row-Resumes now attempts run_id email_id emails row db
                            (record { stored = e; owned = t; run = run; found = g; sender = s })))))
            ]
          ]
        ]
      ]

  -- The handler of a reply does nothing unless the stored email is linked to the run and its sender
  -- belongs to the run's business; then the run is received, no reply epoch has changed, and the
  -- stages resume from there, but for a stored email that does not convert.
  pub handle_resume_reply-Resumes :
      (now : ℕ) (emails : List InboundEmail) (job : Job) (db : Db) (run_id email_id : ℕ)
      → job.run_id ≡ some run_id
      → job.email_id ≡ some email_id
      → Resumes run_id email_id emails db (
          handle_resume_reply find_business_by_sender row_to_inbound resume_pipeline now emails job
            db)
  unfolding handle_resume_reply
  handle_resume_reply-Resumes now emails job db run_id email_id i e =
      rw (i, e, handle_resume_reply)
        (resume_email-Resumes now job.attempts run_id email_id emails db)
