-- ===== src/Settlement/Delivery/Context.antt =====
-- app/db/repo/job_settlement.py: what the locked rows of a delivery that is still due say.
use payroll_agent.Prelude.{
  ℕ, ◌≡◌, refl, inl, inr, codes, list_eq, nat_eq, true, ◌&&◌, some, find, Bool-cases, Option-cases,
  arith, ◌==◌,
}
use mathlib.Core.Path.{subst}
use payroll_agent.Runs.{RunStatus, RunRow, is_run}
use payroll_agent.Store.{Db, Message, Snapshot}
use payroll_agent.Handoffs.{reserved_slot, expected_run_status, has_status}
use payroll_agent.Settlement.Outbound.{DeliveryContext, delivery_context}

pub record IsConsistent (run_id email_id : ℕ) (db : Db) (x : DeliveryContext) : Type 0 where
  pub same_run : x.run_id ≡ run_id
  pub same_email : x.email_id ≡ email_id
  pub slot : reserved_slot run_id email_id db ≡ some (x.message, x.snapshot)
  pub reserved : (x.message.send_state == codes "reserved") ≡ true
  pub found : find (is_run run_id) db.runs ≡ some x.run
  pub due : expected_run_status x.message.purpose ≡ some x.expected
  pub epoch : (x.message.epoch == x.run.reply_epoch) ≡ true
  pub status : has_status x.run (some x.expected) ≡ true

module _ (run_id email_id : ℕ) (db : Db) (x : DeliveryContext)
    (e : delivery_context run_id email_id db ≡ some x) where
  at_run :
      (m : Message) (s : Snapshot) (expected : RunStatus) (run : RunRow)
      → reserved_slot run_id email_id db ≡ some (m, s)
      → expected_run_status m.purpose ≡ some expected
      → (m.send_state == codes "reserved") ≡ true
      → find (is_run run_id) db.runs ≡ some run
      → IsConsistent run_id email_id db x
  unfolding delivery_context
  at_run m s expected run a b c d =
      elim (Bool-cases (m.epoch == run.reply_epoch && has_status run (some expected))) [
        | inr f ↦ cc (rw (a, b, c, d, f, delivery_context) at e)
        | inl t ↦
            let y : DeliveryContext = record {
              run_id = run_id;
              email_id = email_id;
              message = m;
              snapshot = s;
              run = run;
              expected = expected;
            } in
            let q : some y ≡ some x = rw (a, b, c, d, t, delivery_context) at e in
            subst (IsConsistent run_id email_id db) (cc q) (record {
              same_run = refl;
              same_email = refl;
              slot = a;
              reserved = c;
              found = d;
              due = b;
              epoch = ground (arith, t);
              status = ground (arith, t);
            })
      ]

  at_slot :
      (m : Message) (s : Snapshot) (expected : RunStatus)
      → reserved_slot run_id email_id db ≡ some (m, s)
      → expected_run_status m.purpose ≡ some expected
      → IsConsistent run_id email_id db x
  unfolding delivery_context
  at_slot m s expected a b = elim (Bool-cases (m.send_state == codes "reserved")) [
    | inr f ↦ cc (rw (a, b, f, delivery_context) at e)
    | inl t ↦ elim (Option-cases (find (is_run run_id) db.runs)) [
      | inl d ↦ cc (rw (a, b, t, d, delivery_context) at e)
      | inr (run, d) ↦ at_run m s expected run a b t d
    ]
  ]

  pub delivery_context-IsConsistent : IsConsistent run_id email_id db x
  unfolding delivery_context
  delivery_context-IsConsistent = elim (Option-cases (reserved_slot run_id email_id db)) [
    | inl a ↦ cc (rw (a, delivery_context) at e)
    | inr ((m, s), a) ↦ elim (Option-cases (expected_run_status m.purpose)) [
      | inl b ↦ cc (rw (a, b, delivery_context) at e)
      | inr (expected, b) ↦ at_slot m s expected a b
    ]
  ]
