-- ===== src/Drain/Once/Drains.antt =====
-- app/queue/drain.py::drain_once: what one drain does, for any handler.
use payroll_agent.Prelude.{
  ℕ, ◌+◌, ◌≡◌, ◌≢◌, ◌⊎◌, refl, sym, ap, ◌∙◌, inl, inr, Text, false, Option, none, some, List, In,
  All, All-In, ok, err, Bool-cases, Option-cases,
}
use mathlib.Core.Path.{subst}
use payroll_agent.Outcome.{retryable, unknown, PipelineReason, PipelineResult}
use payroll_agent.Jobs.{Job, JobRow, send_outbound, claim_job}
use payroll_agent.Jobs.Claim.{Ready, Claimed, claim_job-Claimed}
use payroll_agent.Jobs.Valid.{claim_job-IsValid}
use payroll_agent.Jobs.Progress.{claim_job-total_left}
use payroll_agent.Store.{Db, SettlementOutcome, Settled}
use payroll_agent.Settlement.{locked_job, same_kind}
use payroll_agent.Settlement.Background.{settle_infrastructure_failure}
use payroll_agent.Settlement.Lease.{Released, settle_pipeline_job-Released}
use payroll_agent.Settlement.Delivery.Total.{Ends, settle_outbound_delivery_job-Ends}
use payroll_agent.Settlement.Reaper.{Reaping, reap_expired_final_attempt}
use payroll_agent.Settlement.Reaper.Reaps.{Reaps, reap_expired_final_attempt-Reaps}
use payroll_agent.Settlement.Reaper.Select.{can_reap}
use payroll_agent.System.Invariant.{
  IsSound, same-IsSound, Released-IsSound, Ends-IsSound, Reaps-IsSound,
}
use payroll_agent.Drain.{DrainOutcome, empty, map_settlement_outcome}
use payroll_agent.Drain.Once.{
  Drained, after_settlement, after_reap, crashed_delivery, settle_crashed, settle_dispatched,
  run_job, drain_once,
}

-- Nothing is due: no row to claim, and none to reap.
abbrev pub Idle : ℕ → ℕ → List ℕ → Db → Type 0
Idle now later locked db =
    ((x : JobRow) → In x db.jobs → ¬ Ready now locked x)
    × All (λ r. can_reap later locked r ≡ false) db.jobs

-- What a settlement of the job leaves.
abbrev pub Settles : Job → Db → Settled → Type 0
Settles job db (err e) = ⊥
Settles job db (ok (o, after)) =
    (IsSound db → IsSound after)
    × ((o ≡ SettlementOutcome.fenced) ⊎ (locked_job job after.jobs ≡ none))

Released-Settles : (job : Job) (db : Db) (s : Settled) → Released job db s → Settles job db s
Released-Settles job db (err e) r = r
Released-Settles job db (ok (o, after)) (inl (q, same)) = (λ v. same-IsSound db after same v, inl q)
Released-Settles job db (ok (o, after)) (inr (ne, (gone, kept))) =
    (λ v. Released-IsSound job db after o (inr (ne, (gone, kept))) v, inr gone)

Ends-Settles :
    (job : Job) (result : PipelineResult) (db : Db) (s : Settled)
    → Ends job result db s
    → Settles job db s
Ends-Settles job result db (err e) r = r
Ends-Settles job result db (ok (o, after)) (inl (q, same, e)) = (
  λ v. same-IsSound db after same v,
  inr (subst (λ (d : Db). locked_job job d.jobs ≡ none) (sym same) e),
)
Ends-Settles job result db (ok (o, after)) (inr ((gone, kept), sent)) =
    (λ v. Ends-IsSound job result db after o (inr ((gone, kept), sent)) v, inr gone)

map_settlement_outcome-empty : (o : SettlementOutcome) → map_settlement_outcome o ≢ empty
unfolding map_settlement_outcome
map_settlement_outcome-empty SettlementOutcome.done q = cc q
map_settlement_outcome-empty SettlementOutcome.retried q = cc q
map_settlement_outcome-empty SettlementOutcome.dead q = cc q
map_settlement_outcome-empty SettlementOutcome.fenced q = cc q
map_settlement_outcome-empty SettlementOutcome.lost_lease q = cc q
map_settlement_outcome-empty SettlementOutcome.invalid_context q = cc q
map_settlement_outcome-empty SettlementOutcome.reaped_final_lease q = cc q

map_settlement_outcome-fenced :
    (o : SettlementOutcome)
    → o ≡ SettlementOutcome.fenced
    → map_settlement_outcome o ≡ DrainOutcome.fenced
unfolding map_settlement_outcome
map_settlement_outcome-fenced o q = ap map_settlement_outcome q

-- What a drain that claimed the job leaves.
abbrev pub Ran : Job → Db → Drained → Type 0
Ran job db (err e) = ⊥
Ran job db (ok (o, forgotten, after)) =
    (IsSound db → IsSound after)
    × (o ≢ empty)
    × ((o ≡ DrainOutcome.fenced) ⊎ (locked_job job after.jobs ≡ none))

settled-Ran :
    (job : Job) (db : Db) (s : Settled) → Settles job db s → Ran job db (after_settlement job s)
unfolding after_settlement
settled-Ran job db (err e) r = r
settled-Ran job db (ok (o, after)) (sound, inl q) =
    (sound, map_settlement_outcome-empty o, inl (map_settlement_outcome-fenced o q))
settled-Ran job db (ok (o, after)) (sound, inr gone) =
    (sound, map_settlement_outcome-empty o, inr gone)

module _ (show_number : ℕ → Text) (backoff : ℕ → ℕ) where
  settle_crashed-Settles :
      (later : ℕ) (job : Job) (db : Db)
      → Settles job db (settle_crashed show_number backoff later job db)
  unfolding settle_crashed settle_infrastructure_failure
  settle_crashed-Settles later job db = elim (Bool-cases (same_kind job.kind send_outbound)) [
    | inl t ↦ rw t (
        Ends-Settles job crashed_delivery db _
          (settle_outbound_delivery_job-Ends later job crashed_delivery db))
    | inr f ↦ rw f (
        Released-Settles job db _ (
          settle_pipeline_job-Released show_number later (later + backoff job.attempts) job
            (record { outcome = retryable; stage = unknown; reason = PipelineReason.unclassified })
            db))
  ]

  settle_dispatched-Settles :
      (later : ℕ) (job : Job) (result : PipelineResult) (db : Db)
      → Settles job db (settle_dispatched show_number backoff later job result db)
  unfolding settle_dispatched
  settle_dispatched-Settles later job result db =
      elim (Bool-cases (same_kind job.kind send_outbound)) [
        | inl t ↦
            rw t
              (Ends-Settles job result db _ (settle_outbound_delivery_job-Ends later job result db))
        | inr f ↦ rw f (
            Released-Settles job db _ (
              settle_pipeline_job-Released show_number later (later + backoff job.attempts) job
                result db))
      ]

  module _ (dispatch : Job → Db → Option PipelineResult × Db)
      (sound : (job : Job) (db : Db) → IsSound db → IsSound (dispatch job db).1) where
    before-Ran : (job : Job) (db : Db) (d : Drained) → Ran job (dispatch job db).1 d → Ran job db d
    before-Ran job db (err e) r = r
    before-Ran job db (ok (o, forgotten, after)) (keeps, ne, gone) =
        (λ v. keeps (sound job db v), ne, gone)

    run_job-Ran :
        (later : ℕ) (job : Job) (db : Db)
        → Ran job db (run_job show_number backoff dispatch later job db)
    unfolding run_job
    run_job-Ran later job db = before-Ran job db _ (elim (Option-cases (dispatch job db).0) [
      | inl e ↦ rw (e, run_job) (settled-Ran job _ _ (settle_crashed-Settles later job _))
      | inr (result, e) ↦
          rw (e, run_job) (settled-Ran job _ _ (settle_dispatched-Settles later job result _))
    ])

-- What a drain does. With the outcome comes whether the worker forgot its token.
abbrev pub Drains : ℕ → ℕ → List ℕ → ℕ → ℕ → Db → Drained → Type 0
Drains now later locked token lease_time db (err e) = ⊥
Drains now later locked token lease_time db (ok (o, forgotten, after)) =
    IsSound after
    × (((o ≡ empty) × Idle now later locked db × (after ≡ db))
        ⊎ ((o ≢ empty) × ¬ Idle now later locked db))
    × ((job : Job)
        → (claim_job now locked token lease_time db.jobs).0 ≡ some job
        → (o ≡ DrainOutcome.fenced) ⊎ (locked_job job after.jobs ≡ none))

Reaps-Drains :
    (now later : ℕ) (locked : List ℕ) (token lease_time : ℕ) (db : Db) (d : Reaping)
    → IsSound db
    → (claim_job now locked token lease_time db.jobs).0 ≡ none
    → ((x : JobRow) → In x db.jobs → ¬ Ready now locked x)
    → Reaps later locked db d
    → Drains now later locked token lease_time db (after_reap d)
unfolding after_reap
Reaps-Drains now later locked token lease_time db (err e) v c unready r = r
Reaps-Drains now later locked token lease_time db (ok (none, after)) v c unready (same, quiet) =
    (same-IsSound db after same v, inl (refl, (unready, quiet), same), λ job e. cc)
Reaps-Drains now later locked token lease_time db (ok (some o, after)) v c unready
      (r, m, t, sent, rest) =
    (
      Reaps-IsSound later locked db after (some o) (r, m, t, sent, rest) v,
      inr (
        map_settlement_outcome-empty o,
        λ (u, quiet). let f = All-In (λ r. can_reap later locked r ≡ false) r db.jobs quiet m in cc,
      ),
      λ job e. cc,
    )

module _ (now later : ℕ) (locked : List ℕ) (token lease_time : ℕ) (db : Db) (v : IsSound db) where
  claimed-IsSound : IsSound (record db { jobs = (claim_job now locked token lease_time db.jobs).1 })
  claimed-IsSound = record {
    jobs = claim_job-IsValid now locked token lease_time db.jobs v.jobs;
    handoffs = v.handoffs;
  }

  unclaimed :
      (claim_job now locked token lease_time db.jobs).0 ≡ none
      → (record db { jobs = (claim_job now locked token lease_time db.jobs).1 }) ≡ db
  unclaimed e =
      let used = claim_job-total_left now locked token lease_time db.jobs v.jobs in
      let same : (claim_job now locked token lease_time db.jobs).1 ≡ db.jobs = rw e at used in
      ap (λ j. record db { jobs = j }) same

  Ran-Drains :
      (job : Job) (d : Drained)
      → (claim_job now locked token lease_time db.jobs).0 ≡ some job
      → Ran job (record db { jobs = (claim_job now locked token lease_time db.jobs).1 }) d
      → Drains now later locked token lease_time db d
  Ran-Drains job (err e) c r = r
  Ran-Drains job (ok (o, forgotten, after)) c (keeps, ne, gone) =
      let claims = claim_job-Claimed now locked token lease_time db.jobs in
      let (r, m, ready, first, q) : Claimed now locked token db.jobs (some job) = rw c at claims in
      (
        keeps claimed-IsSound,
        inr (ne, λ (unready, quiet). unready r m ready),
        λ job' c'.
            let p : some job ≡ some job' = sym c ∙ c' in
            let same : job ≡ job' = cc p in
            subst (λ j. (o ≡ DrainOutcome.fenced) ⊎ (locked_job j after.jobs ≡ none)) same gone,
      )

-- One drain, whatever its handler does that keeps the database sound: it never raises and leaves a
-- sound database; it answers `empty` exactly when no row is due to be claimed or reaped, and then
-- changes nothing; and a job that it claimed is no longer held by the token it was claimed with,
-- unless the answer is `fenced`.
pub drain_once-Drains :
    (show_number : ℕ → Text) (backoff : ℕ → ℕ) (dispatch : Job → Db → Option PipelineResult × Db)
    → ((job : Job) (db : Db) → IsSound db → IsSound (dispatch job db).1)
    → (now later : ℕ) (locked : List ℕ) (token lease_time : ℕ) (db : Db) → IsSound db
    → Drains now later locked token lease_time db
        (drain_once show_number backoff dispatch now later locked token lease_time db)
unfolding drain_once
drain_once-Drains show_number backoff dispatch sound now later locked token lease_time db v =
    let claims = claim_job-Claimed now locked token lease_time db.jobs in
    elim (Option-cases (claim_job now locked token lease_time db.jobs).0) [
      | inl e ↦
          let same = unclaimed now later locked token lease_time db v e in
          rw (e, drain_once)
            (Reaps-Drains now later locked token lease_time db _ v e (rw e at claims) (
              subst
                (λ x. Reaps later locked db (reap_expired_final_attempt show_number later locked x))
                (sym same) (reap_expired_final_attempt-Reaps show_number later locked db v.jobs)))
      | inr (job, e) ↦
          rw (e, drain_once)
            (Ran-Drains now later locked token lease_time db v job _ e
              (run_job-Ran show_number backoff dispatch sound later job _))
    ]
