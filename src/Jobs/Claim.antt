-- ===== src/Jobs/Claim.antt =====
-- app/db/repo/jobs.py::claim_job: which row a claim takes.
use payroll_agent.Prelude.{
  ℕ, ◌+◌, ◌≡◌, ◌≢◌, ◌≤◌, refl, sym, ◌∙◌, ap, inl, inr, nat_eq, true, false, not, ◌&&◌, Option, none,
  some, List, [], ◌∷◌, In, arith, Bool-cases, Option-cases, ==→ne, contains,
}
use mathlib.Core.Path.{subst}
use payroll_agent.Jobs.{
  Job, JobRow, Jobs, claimable, runs_before, better, has_id, lease, returned_job, select_job,
  update_rows, claim_job,
}
use payroll_agent.Jobs.Rows.{row_id, update_rows-In}

-- A row that the claim may take.
abbrev pub Ready : ℕ → List ℕ → JobRow → Type 0
Ready now locked r = (claimable now r ≡ true) × (contains r.id locked ≡ false)

-- No ready row of the table comes before the row.
abbrev pub First : ℕ → List ℕ → Jobs → JobRow → Type 0
First now locked db r = (x : JobRow) → In x db → Ready now locked x → runs_before x r ≡ false

runs_before_irrefl : (r : JobRow) → runs_before r r ≡ false
unfolding runs_before
runs_before_irrefl r = ground arith

runs_before_asym : (a b : JobRow) → runs_before a b ≡ true → runs_before b a ≡ false
unfolding runs_before
runs_before_asym a b h = ground (arith, h)

runs_before_cotrans :
    (a b c : JobRow) → runs_before a b ≡ false → runs_before b c ≡ false → runs_before a c ≡ false
unfolding runs_before
runs_before_cotrans a b c h k = ground (arith, h, k)

abbrev IsChoice : ℕ → List ℕ → Jobs → Option JobRow → Type 0
IsChoice now locked db none = (x : JobRow) → In x db → ¬ Ready now locked x
IsChoice now locked db (some r) = In r db × Ready now locked r × First now locked db r

better-first : (r b : JobRow) → runs_before b r ≡ true → better r (some b) ≡ b
unfolding better
better-first r b t = rw t

better-rest : (r b : JobRow) → runs_before b r ≡ false → better r (some b) ≡ r
unfolding better
better-rest r b f = rw f

better-none : (r : JobRow) → better r none ≡ r
unfolding better
better-none r = refl

not-Ready :
    (now : ℕ) (locked : List ℕ) (r : JobRow)
    → (claimable now r && not (contains r.id locked)) ≡ false
    → ¬ Ready now locked r
not-Ready now locked r f (a, b) = ground (arith, f, a, b)

returned_id :
    (token : ℕ) (r : JobRow) (job : Job)
    → Path (Option Job) (some (returned_job token r)) (some job)
    → r.id ≡ job.id
unfolding returned_job
returned_id token r job q = cc q

module _ (now : ℕ) (locked : List ℕ) where
  choose :
      (r : JobRow) (db : Jobs) (rest : Option JobRow)
      → Ready now locked r
      → IsChoice now locked db rest
      → IsChoice now locked (r ∷ db) (some (better r rest))
  choose r db none ready none_ready =
      subst (λ y. IsChoice now locked (r ∷ db) (some y)) (sym (better-none r))
        (
          inl refl,
          ready,
          λ x m x_ready. elim m [
            | inl q ↦ subst (λ y. runs_before y r ≡ false) (sym q) (runs_before_irrefl r)
            | inr k ↦ absurd (none_ready x k x_ready)
          ],
        )
  choose r db (some b) ready (m, b_ready, first) = elim (Bool-cases (runs_before b r)) [
    | inl t ↦
        subst (λ y. IsChoice now locked (r ∷ db) (some y)) (sym (better-first r b t))
          (
            inr m,
            b_ready,
            λ x k x_ready. elim k [
              | inl q ↦ subst (λ y. runs_before y b ≡ false) (sym q) (runs_before_asym b r t)
              | inr n ↦ first x n x_ready
            ],
          )
    | inr f ↦
        subst (λ y. IsChoice now locked (r ∷ db) (some y)) (sym (better-rest r b f))
          (
            inl refl,
            ready,
            λ x k x_ready. elim k [
              | inl q ↦ subst (λ y. runs_before y r ≡ false) (sym q) (runs_before_irrefl r)
              | inr n ↦ runs_before_cotrans x b r (first x n x_ready) f
            ],
          )
  ]

  skip :
      (r : JobRow) (db : Jobs) (rest : Option JobRow)
      → ¬ Ready now locked r
      → IsChoice now locked db rest
      → IsChoice now locked (r ∷ db) rest
  skip r db none not_ready none_ready = λ x m x_ready. elim m [
    | inl q ↦ not_ready (subst (Ready now locked) q x_ready)
    | inr k ↦ none_ready x k x_ready
  ]
  skip r db (some b) not_ready (m, b_ready, first) = (
    inr m,
    b_ready,
    λ x k x_ready. elim k [
      | inl q ↦ absurd (not_ready (subst (Ready now locked) q x_ready))
      | inr n ↦ first x n x_ready
    ],
  )

  select_job-IsChoice : (db : Jobs) → IsChoice now locked db (select_job now locked db)
  unfolding select_job
  select_job-IsChoice [] = λ x m r. absurd m
  select_job-IsChoice (r ∷ db) =
      let ih = select_job-IsChoice db in
      elim (Bool-cases (claimable now r && not (contains r.id locked))) [
        | inl t ↦ rw (t, select_job) (choose r db (select_job now locked db) (ground (arith, t)) ih)
        | inr f ↦
            rw (f, select_job) (skip r db (select_job now locked db) (not-Ready now locked r f) ih)
      ]

  pub select_job-Ready :
      (db : Jobs) (r : JobRow) → select_job now locked db ≡ some r → In r db × Ready now locked r
  select_job-Ready db r e =
      let (m, ready, _) = subst (IsChoice now locked db) e (select_job-IsChoice db) in (m, ready)

  -- What a claim may return: nothing when no row is ready, or the job of the first ready row.
  abbrev pub Claimed : ℕ → Jobs → Option Job → Type 0
  Claimed token db none = (x : JobRow) → In x db → ¬ Ready now locked x
  Claimed token db (some job) =
      (r : JobRow) × In r db
      × Ready now locked r
      × First now locked db r
      × (job ≡ returned_job token r)

  pub claim_job-Claimed :
      (token lease_time : ℕ) (db : Jobs)
      → Claimed token db (claim_job now locked token lease_time db).0
  unfolding claim_job
  claim_job-Claimed token lease_time db = elim (Option-cases (select_job now locked db)) [
    | inl e ↦ rw (e, claim_job) (subst (IsChoice now locked db) e (select_job-IsChoice db))
    | inr (r, e) ↦
        let (m, ready, first) = subst (IsChoice now locked db) e (select_job-IsChoice db) in
        rw (e, claim_job) (r, m, ready, first, refl)
  ]

lease-claimable :
    (now token lease_time now' : ℕ) (r : JobRow)
    → now' ≤ now + lease_time
    → claimable now' (lease now token lease_time r) ≡ false
unfolding claimable lease
lease-claimable now token lease_time now' r h = ground arith

claimed_row :
    (now : ℕ) (locked : List ℕ) (token lease_time : ℕ) (db : Jobs) (job : Job)
    → (claim_job now locked token lease_time db).0 ≡ some job
    → (claim_job now locked token lease_time db).1
      ≡ update_rows (has_id job.id) (lease now token lease_time) db
unfolding claim_job
claimed_row now locked token lease_time db job h = elim (Option-cases (select_job now locked db)) [
  | inl e ↦ cc (rw (e, claim_job) at h)
  | inr (r, e) ↦
      rw (e, claim_job)
        (ap (λ i. update_rows (has_id i) (lease now token lease_time) db)
          (returned_id token r job (rw (e, claim_job) at h)))
]

-- As long as the lease of a claimed job has not run out, no other claim returns that job, whatever
-- rows its transaction finds locked.
pub claim_job_exclusive :
    (now : ℕ) (locked : List ℕ) (token lease_time : ℕ) (db : Jobs) (job : Job)
    → (claim_job now locked token lease_time db).0 ≡ some job
    → (now' : ℕ) (locked' : List ℕ) (token' lease_time' : ℕ) (job' : Job) → now' ≤ now + lease_time
    → (claim_job now' locked' token' lease_time' (claim_job now locked token lease_time db).1).0
      ≡ some job'
    → job'.id ≢ job.id
claim_job_exclusive now locked token lease_time db job h now' locked' token' lease_time' job' le k
      same =
    let table = update_rows (has_id job.id) (lease now token lease_time) db in
    let (r, m, ready, first, q) =
      subst (Claimed now' locked' token' table)
        (rw (claimed_row now locked token lease_time db job h) at k)
        (claim_job-Claimed now' locked' token' lease_time' table) in
    let (r0, m0, c) = update_rows-In (has_id job.id) (lease now token lease_time) r db m in
    elim c [
      | inl (t, e) ↦ cc (
        subst (λ y. claimable now' y ≡ false) (sym e)
            (lease-claimable now token lease_time now' r0 le),
        ready.0,
      )
      | inr (f, e) ↦
          ==→ne r0.id job.id f
            (ap row_id (sym e) ∙ (returned_id token' r job' (ap some (sym q)) ∙ same))
    ]
