-- ===== src/Jobs/Progress.antt =====
-- app/db/repo/jobs.py::claim_job: the attempts that a table has left.
use payroll_agent.Prelude.{
  ℕ, ◌+◌, ◌-◌, ◌≡◌, refl, sym, inl, inr, nat_eq, true, false, Option, none, some, List, [], ◌∷◌, In,
  All, All-intro, In-map, NoRepeat, map, ==-self, ==→eq, Bool-cases, Option-cases, arith,
}
use mathlib.Core.Path.{subst}
use payroll_agent.Jobs.{
  Job, JobRow, Jobs, claimable, has_id, lease, select_job, update_rows, claim_job,
}
use payroll_agent.Jobs.Rows.{row_id, update_rows-none}
use payroll_agent.Jobs.Claim.{select_job-Ready}
use payroll_agent.Jobs.Valid.{IsValid}

-- The attempts that a row, and a table, has left.
abbrev pub attempts_left : JobRow → ℕ
attempts_left r = r.max_attempts - r.attempts

abbrev pub total_left : Jobs → ℕ
total_left [] = 0
total_left (r ∷ db) = attempts_left r + total_left db

-- What a claim does to the attempts that the table has left.
abbrev pub Used : Jobs → Option Job × Jobs → Type 0
Used db (none, after) = after ≡ db
Used db (some job, after) = total_left after + 1 ≡ total_left db

lease-attempts_left :
    (now token lease_time : ℕ) (r : JobRow)
    → claimable now r ≡ true
    → attempts_left (lease now token lease_time r) + 1 ≡ attempts_left r
unfolding lease claimable
lease-attempts_left now token lease_time r t = ground (arith, t)

other_ids : (i : ℕ) (db : Jobs) → ¬ In i (map row_id db) → All (λ r. has_id i r ≡ false) db
other_ids i db off =
    All-intro (λ r. has_id i r ≡ false) db
      (λ r m. elim (Bool-cases (has_id i r)) [
        | inl t ↦
            absurd (off (subst (λ j. In j (map row_id db)) (==→eq r.id i t) (In-map row_id r db m)))
        | inr f ↦ f
      ])

total_left-update :
    (set : JobRow → JobRow) (r : JobRow) (db : Jobs)
    → NoRepeat (map row_id db)
    → In r db
    → attempts_left (set r) + 1 ≡ attempts_left r
    → total_left (update_rows (has_id r.id) set db) + 1 ≡ total_left db
unfolding update_rows
total_left-update set r [] u m q = absurd m
total_left-update set r (x ∷ db) u (inl same) q =
    let t : has_id r.id x ≡ true = rw same (==-self x.id) in
    let rest = update_rows-none (has_id r.id) set db (other_ids r.id db (rw same u.0)) in
    let left = subst (λ y. attempts_left (set y) + 1 ≡ attempts_left y) same q in
    rw (t, rest) (omega (arith, left))
total_left-update set r (x ∷ db) u (inr m) q =
    let ih = total_left-update set r db u.1 m q in
    let f : has_id r.id x ≡ false = elim (Bool-cases (has_id r.id x)) [
      | inl t ↦
          absurd (
            u.0
              (subst (λ j. In j (map row_id db)) (sym (==→eq x.id r.id t)) (In-map row_id r db m)))
      | inr f ↦ f
    ] in
    rw f (omega (arith, ih))

total_left-lease :
    (now : ℕ) (locked : List ℕ) (token lease_time : ℕ) (db : Jobs) (r : JobRow)
    → IsValid db
    → select_job now locked db ≡ some r
    → total_left (update_rows (has_id r.id) (lease now token lease_time) db) + 1 ≡ total_left db
total_left-lease now locked token lease_time db r v e =
    let (m, ready) = select_job-Ready now locked db r e in
    total_left-update (lease now token lease_time) r db v.own_ids m
      (lease-attempts_left now token lease_time r ready.0)

-- In a table that satisfies the invariant, a claim that returns a job uses up exactly one of the
-- attempts that its rows have left; a claim that returns none leaves the table as it is.
pub claim_job-total_left :
    (now : ℕ) (locked : List ℕ) (token lease_time : ℕ) (db : Jobs)
    → IsValid db
    → Used db (claim_job now locked token lease_time db)
unfolding claim_job
claim_job-total_left now locked token lease_time db v =
    elim (Option-cases (select_job now locked db)) [
      | inl e ↦ rw (e, claim_job) refl
      | inr (r, e) ↦ rw (e, claim_job) (total_left-lease now locked token lease_time db r v e)
    ]
