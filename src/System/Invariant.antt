-- ===== src/System/Invariant.antt =====
-- The transactions of the queue: what holds after any number of them, in any order.
use payroll_agent.Prelude.{
  Bool-cases, ◌==◌, nat_eq, ◌&&◌, Option-cases, ℕ, ◌≡◌, refl, sym, inl, inr, Text, Option, none,
  some, List, Result, ok, err,
}
use mathlib.Core.Path.{subst}
use payroll_agent.Decimal.{Decimal}
use payroll_agent.Outcome.{PipelineResult}
use payroll_agent.Jobs.{Job, JobRow}
use payroll_agent.Jobs.Valid.{IsValid, Step-IsValid}
use payroll_agent.Store.{Db, SettlementOutcome, RuntimeError}
use payroll_agent.Settlement.Lease.{Released, settle_pipeline_job-Released}
use payroll_agent.Settlement.Delivery.Total.{Ends, settle_outbound_delivery_job-Ends}
use payroll_agent.Settlement.Reaper.Reaps.{Reaps, reap_expired_final_attempt-Reaps}
use payroll_agent.Handoffs.Handler.{check_delivery_job, answer, handle_send_outbound}
use payroll_agent.Handoffs.{Authorization, HandoffOutcome, authorize_outbound_provider_handoff}
use payroll_agent.Handoffs.Active.{
  OneActive, update_handoffs-OneActive, release_handoff-Ending, Fenced, authorize-Fenced,
}
use payroll_agent.Handoffs.Advance.{
  make_due, advance_existing_send-cases, advance_existing_clarification-cases, make_due-IsValid,
  make_due-handoffs,
}
use payroll_agent.Handoffs.Review.{
  Resolution, resolution_value, is_reviewed, resolve_outbound_provider_handoff_for_delivery_review,
}
use payroll_agent.Handoffs.{active_handoff, release_handoff, update_handoffs}
use payroll_agent.System.{
  Transaction, resolves, advances_confirmation, advances_clarification, writes_runs, queues,
  settles_pipeline, settles_delivery, authorizes, reaps, Reachable, starts, then_step,
}

-- The table of jobs is well formed, and no run has two handoffs in force.
pub record IsSound (db : Db) : Type 0 where
  pub jobs : IsValid db.jobs
  pub handoffs : OneActive db.handoffs

pub same-IsSound : (db after : Db) → after ≡ db → IsSound db → IsSound after
same-IsSound db after q v = subst IsSound (sym q) v

pub Released-IsSound :
    (job : Job) (db after : Db) (o : SettlementOutcome)
    → Released job db (ok (o, after))
    → IsSound db
    → IsSound after
Released-IsSound job db after o (inl (q, same)) v = same-IsSound db after same v
Released-IsSound job db after o (inr (ne, (gone, (jobs, one)))) v = record {
  jobs = jobs v.jobs;
  handoffs = one v.handoffs;
}

pub Ends-IsSound :
    (job : Job) (result : PipelineResult) (db after : Db) (o : SettlementOutcome)
    → Ends job result db (ok (o, after))
    → IsSound db
    → IsSound after
Ends-IsSound job result db after o (inl (q, same, e)) v = same-IsSound db after same v
Ends-IsSound job result db after o (inr ((gone, (jobs, one)), sent)) v = record {
  jobs = jobs v.jobs;
  handoffs = one v.handoffs;
}

pub Reaps-IsSound :
    (now : ℕ) (locked : List ℕ) (db after : Db) (o : Option SettlementOutcome)
    → Reaps now locked db (ok (o, after))
    → IsSound db
    → IsSound after
Reaps-IsSound now locked db after none (same, n) v = same-IsSound db after same v
Reaps-IsSound now locked db after (some o) (r, m, t, sent, inl (q, same)) v =
    same-IsSound db after same v
Reaps-IsSound now locked db after (some o) (r, m, t, sent, inr (ne, (dead, (jobs, one)))) v =
    record { jobs = jobs v.jobs; handoffs = one v.handoffs }

authorized-IsSound :
    (now new_id : ℕ) (job : Job) (db after : Db) (o : HandoffOutcome)
    → authorize_outbound_provider_handoff now new_id job db ≡ ok (o, after)
    → IsSound db
    → IsSound after
authorized-IsSound now new_id job db after o q v =
    let (same, one) = subst (Fenced db) q (authorize-Fenced now new_id job db) in
    record { jobs = subst IsValid (sym same) v.jobs; handoffs = one v.handoffs }

answer-IsSound :
    (now new_id : ℕ) (send : Authorization → PipelineResult) (job : Job) (db : Db)
    (a : Result RuntimeError (HandoffOutcome × Db))
    → authorize_outbound_provider_handoff now new_id job db ≡ a
    → IsSound db
    → IsSound (answer send job db a).1
unfolding answer
answer-IsSound now new_id send job db (ok (o, after)) q v =
    authorized-IsSound now new_id job db after o q v
answer-IsSound now new_id send job db (err e) q v = v

-- The handler of a delivery keeps the database sound.
pub handle_send_outbound-IsSound :
    (now new_id : ℕ) (send : Authorization → PipelineResult) (job : Job) (db : Db)
    → IsSound db
    → IsSound (handle_send_outbound now new_id send job db).1
unfolding handle_send_outbound
handle_send_outbound-IsSound now new_id send job db v =
    elim (Option-cases (check_delivery_job job)) [
      | inr (e, q) ↦ rw (q, handle_send_outbound) v
      | inl q ↦
          rw (q, handle_send_outbound)
            (answer-IsSound now new_id send job db
              (authorize_outbound_provider_handoff now new_id job db) refl v)
    ]

resolve-IsSound :
    (now run_id email_id snapshot_id : ℕ) (resolution : Resolution) (db : Db)
    → IsSound db
    → IsSound
        (resolve_outbound_provider_handoff_for_delivery_review now run_id email_id snapshot_id
          resolution db).1
unfolding resolve_outbound_provider_handoff_for_delivery_review update_handoffs
resolve-IsSound now run_id email_id snapshot_id resolution db v =
    elim (Option-cases (active_handoff run_id db)) [
      | inl e ↦ rw (e, resolve_outbound_provider_handoff_for_delivery_review) v
      | inr (h, e) ↦ elim (Bool-cases (h.email_id == email_id && h.snapshot_id == snapshot_id)) [
        | inr f ↦ rw (e, resolve_outbound_provider_handoff_for_delivery_review) (rw f v)
        | inl t ↦
            rw (e, resolve_outbound_provider_handoff_for_delivery_review)
              (rw t (record {
                jobs = v.jobs;
                handoffs =
                    update_handoffs-OneActive (is_reviewed run_id email_id snapshot_id h)
                      (release_handoff now (resolution_value resolution)) db
                      (release_handoff-Ending now (resolution_value resolution)) v.handoffs;
              }))
      ]
    ]

make_due-IsSound : (now : ℕ) (job : JobRow) (db : Db) → IsSound db → IsSound (make_due now job db).1
make_due-IsSound now job db v = record {
  jobs = make_due-IsValid now job db v.jobs;
  handoffs = subst OneActive (sym (make_due-handoffs now job db)) v.handoffs;
}

module _ (show_uuid show_number : ℕ → Text) (to_interval : Decimal → ℕ) (default : ℕ) where
  Transaction-IsSound :
      {db after : Db}
      → Transaction show_uuid show_number to_interval default db after
      → IsSound db
      → IsSound after
  Transaction-IsSound (queues jobs s) v = record {
    jobs = Step-IsValid show_uuid to_interval default s v.jobs;
    handoffs = v.handoffs;
  }
  Transaction-IsSound {db} (settles_pipeline now due job result o after q) v =
      Released-IsSound job db after o
        (subst (Released job db) q (settle_pipeline_job-Released show_number now due job result db))
        v
  Transaction-IsSound {db} (settles_delivery now job result o after q) v =
      Ends-IsSound job result db after o
        (subst (Ends job result db) q (settle_outbound_delivery_job-Ends now job result db)) v
  Transaction-IsSound {db} (authorizes now new_id job o after q) v =
      authorized-IsSound now new_id job db after o q v
  Transaction-IsSound {db} (reaps now locked o after q) v =
      Reaps-IsSound now locked db after o
        (subst (Reaps now locked db) q
          (reap_expired_final_attempt-Reaps show_number now locked db v.jobs))
        v
  Transaction-IsSound {db} (resolves now run_id email_id snapshot_id resolution) v =
      resolve-IsSound now run_id email_id snapshot_id resolution db v
  Transaction-IsSound {db} (advances_confirmation now run_id email_id) v =
      advance_existing_send-cases now run_id email_id db IsSound v
        (λ job. make_due-IsSound now job db v)
  Transaction-IsSound {db} (advances_clarification now run_id email_id) v =
      advance_existing_clarification-cases now run_id email_id db IsSound v
        (λ job. make_due-IsSound now job db v)
  Transaction-IsSound (writes_runs runs) v = record { jobs = v.jobs; handoffs = v.handoffs }

  -- Whatever the workers, the routes and a shutdown do, in any interleaving of their transactions
  -- from a sound database: a job is leased exactly when it has a token and a deadline, ids and dedup
  -- keys are unique, no job has more attempts than it is allowed, and no run has two provider
  -- handoffs in force.
  pub Reachable-IsSound :
      {db : Db} → Reachable show_uuid show_number to_interval default IsSound db → IsSound db
  Reachable-IsSound (starts db v) = v
  Reachable-IsSound (then_step r t) = Transaction-IsSound t (Reachable-IsSound r)
