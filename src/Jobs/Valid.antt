-- ===== src/Jobs/Valid.antt =====
-- app/db/repo/jobs.py: the statements as steps of the table, and what holds of every table that
-- they reach from the empty one.
use payroll_agent.Prelude.{
  ℕ, ◌≡◌, ◌≤◌, refl, sym, ap, inl, inr, Text, nat_eq, list_eq, Bool, true, false, leb, Option, List,
  [], ◌∷◌, ◌++◌, In, All, All-In, All-intro, All-append, any, arith, Bool-cases, Option-cases, ◌==◌,
  ==-self, NoRepeat, NoRepeat-snoc, map, is_some, ok, >>=-eq_ok, map-In, any-false-In, ==→eq,
}
use mathlib.Core.Path.{subst}
use payroll_agent.Decimal.{Decimal}
use payroll_agent.Jobs.{
  JobRow, Jobs, is_leased, claimable, has_id, lease, select_job, update_rows, claim_job, fenced,
  complete, complete_job, failed_state, fail, fail_job, releasable, release, release_leases,
}
use payroll_agent.Jobs.Enqueue.{Request, check_request, new_row, insert_row, enqueue_job}
use payroll_agent.Jobs.Rows.{row_id, row_key, update_rows-In, update_rows-column, same_row}
use payroll_agent.Jobs.Claim.{select_job-Ready}

-- A row has a token and a deadline exactly when it is leased, and no more attempts than allowed.
pub record IsCoherent (r : JobRow) : Type 0 where
  pub token_when_leased : is_some r.lease_token ≡ is_leased r.state
  pub deadline_when_leased : is_some r.leased_until ≡ is_leased r.state
  pub bounded : r.attempts ≤ r.max_attempts

pub record IsValid (db : Jobs) : Type 0 where
  pub coherent : All IsCoherent db
  pub own_ids : NoRepeat (map row_id db)
  pub own_keys : NoRepeat (map row_key db)

-- A statement that keeps ids and keys, and makes coherent rows of those that it touches.
pub update-IsValid :
    (test : JobRow → Bool) (set : JobRow → JobRow) (db : Jobs)
    → ((r : JobRow) → row_id (set r) ≡ row_id r)
    → ((r : JobRow) → row_key (set r) ≡ row_key r)
    → ((r : JobRow) → In r db → test r ≡ true → IsCoherent r → IsCoherent (set r))
    → IsValid db
    → IsValid (update_rows test set db)
update-IsValid test set db ids keys coherent v = record {
  coherent = All-intro IsCoherent (update_rows test set db) (λ x m.
      let (r, k, c) = update_rows-In test set x db m in
      elim c [
        | inl (t, q) ↦
            subst IsCoherent (sym q) (coherent r k t (All-In IsCoherent r db v.coherent k))
        | inr (f, q) ↦ subst IsCoherent (sym q) (All-In IsCoherent r db v.coherent k)
      ]);
  own_ids = rw (update_rows-column row_id test set ids db) v.own_ids;
  own_keys = rw (update_rows-column row_key test set keys db) v.own_keys;
}

complete-IsCoherent : (now : ℕ) (r : JobRow) → IsCoherent r → IsCoherent (complete now r)
unfolding complete is_leased
complete-IsCoherent now r c = record {
  token_when_leased = refl;
  deadline_when_leased = refl;
  bounded = c.bounded;
}

release-IsCoherent : (now : ℕ) (r : JobRow) → IsCoherent r → IsCoherent (release now r)
unfolding release is_leased
release-IsCoherent now r c = record {
  token_when_leased = refl;
  deadline_when_leased = refl;
  bounded = c.bounded;
}

failed_state-is_leased : (r : JobRow) → is_leased (failed_state r) ≡ false
unfolding failed_state is_leased
failed_state-is_leased r = elim (Bool-cases (leb r.max_attempts r.attempts)) [
  | inl t ↦ rw t
  | inr f ↦ rw f
]

fail-IsCoherent :
    (now backoff : ℕ) (detail : Text) (r : JobRow)
    → IsCoherent r
    → IsCoherent (fail now backoff detail r)
unfolding fail
fail-IsCoherent now backoff detail r c = record {
  token_when_leased = sym (failed_state-is_leased r);
  deadline_when_leased = sym (failed_state-is_leased r);
  bounded = c.bounded;
}

lease-IsCoherent :
    (now token lease_time : ℕ) (r : JobRow)
    → claimable now r ≡ true
    → IsCoherent (lease now token lease_time r)
unfolding lease is_leased claimable
lease-IsCoherent now token lease_time r t = record {
  token_when_leased = refl;
  deadline_when_leased = refl;
  bounded = ground (arith, t);
}

complete_job-IsValid :
    (now job_id token : ℕ) (db : Jobs) → IsValid db → IsValid (complete_job now job_id token db).1
unfolding complete_job complete
complete_job-IsValid now job_id token db v =
    update-IsValid (fenced job_id token) (complete now) db (λ r. refl) (λ r. refl)
      (λ r m t c. complete-IsCoherent now r c) v

fail_job-IsValid :
    (now job_id token backoff : ℕ) (detail : Text) (db : Jobs)
    → IsValid db
    → IsValid (fail_job now job_id token backoff detail db).1
unfolding fail_job fail
fail_job-IsValid now job_id token backoff detail db v =
    update-IsValid (fenced job_id token) (fail now backoff detail) db (λ r. refl) (λ r. refl)
      (λ r m t c. fail-IsCoherent now backoff detail r c) v

release_leases-IsValid :
    (now : ℕ) (tokens : List ℕ) (db : Jobs) → IsValid db → IsValid (release_leases now tokens db).1
unfolding release_leases release
release_leases-IsValid now [] db v = v
release_leases-IsValid now (t ∷ tokens) db v =
    update-IsValid (releasable (t ∷ tokens)) (release now) db (λ r. refl) (λ r. refl)
      (λ r m h c. release-IsCoherent now r c) v

pub claim_job-IsValid :
    (now : ℕ) (locked : List ℕ) (token lease_time : ℕ) (db : Jobs)
    → IsValid db
    → IsValid (claim_job now locked token lease_time db).1
unfolding claim_job lease
claim_job-IsValid now locked token lease_time db v =
    elim (Option-cases (select_job now locked db)) [
      | inl e ↦ rw (e, claim_job) v
      | inr (r, e) ↦
          let (m, ready) = select_job-Ready now locked db r e in
          rw (e, claim_job)
            (update-IsValid (has_id r.id) (lease now token lease_time) db (λ x. refl) (λ x. refl)
              (λ x k t c.
                let same = same_row x r db v.own_ids k m (==→eq x.id r.id t) in
                lease-IsCoherent now token lease_time x
                  (subst (λ y. claimable now y ≡ true) (sym same) ready.0))
              v)
    ]

map-snoc :
    {A : Type 0} (column : JobRow → A) (db : Jobs) (r : JobRow)
    → map column (db ++ (r ∷ [])) ≡ map column db ++ (column r ∷ [])
map-snoc column [] r = refl
map-snoc column (x ∷ db) r = rw (map-snoc column db r)

new_key :
    (row : JobRow) (db : Jobs)
    → any (λ (r : JobRow). r.dedup_key == row.dedup_key) db ≡ false
    → ¬ In row.dedup_key (map row_key db)
new_key row db f m =
    let (r, k, q) = map-In row_key row.dedup_key db m in
    let n = any-false-In (λ (x : JobRow). x.dedup_key == row.dedup_key) r db f k in
    let t : (r.dedup_key == row.dedup_key) ≡ true = rw q (==-self r.dedup_key) in cc (n, t)

insert_row-IsValid :
    (row : JobRow) (db : Jobs)
    → IsCoherent row
    → ¬ In row.id (map row_id db)
    → IsValid db
    → IsValid (insert_row row db).1
unfolding insert_row
insert_row-IsValid row db c fresh v =
    elim (Bool-cases (any (λ (r : JobRow). r.dedup_key == row.dedup_key) db)) [
      | inl t ↦ rw t v
      | inr f ↦ rw f (record {
        coherent = All-append IsCoherent db (row ∷ []) v.coherent (c, tt);
        own_ids = rw map-snoc (NoRepeat-snoc row.id (map row_id db) v.own_ids fresh);
        own_keys =
            rw map-snoc
              (NoRepeat-snoc row.dedup_key (map row_key db) v.own_keys (new_key row db f));
      })
    ]

new_row-IsCoherent :
    (to_interval : Decimal → ℕ) (now new_id max_attempts : ℕ) (q : Request)
    → IsCoherent (new_row to_interval now new_id max_attempts q)
unfolding new_row is_leased
new_row-IsCoherent to_interval now new_id max_attempts q = record {
  token_when_leased = refl;
  deadline_when_leased = refl;
  bounded = ground arith;
}

enqueue_job-IsValid :
    (show_uuid : ℕ → Text) (to_interval : Decimal → ℕ) (default now new_id : ℕ) (q : Request)
    (db : Jobs) (o : Option ℕ) (db' : Jobs)
    → enqueue_job show_uuid to_interval default now new_id q db ≡ ok (o, db')
    → ¬ In new_id (map row_id db)
    → IsValid db
    → IsValid db'
unfolding enqueue_job new_row
enqueue_job-IsValid show_uuid to_interval default now new_id q db o db' h fresh v =
    let (m, _, e) = >>=-eq_ok (check_request show_uuid default q) _ h in
    let row = new_row to_interval now new_id m q in
    let same : insert_row row db ≡ (o, db') = cc e in
    rw (ap (λ (p : Option ℕ × Jobs). p.1) same) at
      (insert_row-IsValid row db (new_row-IsCoherent to_interval now new_id m q) fresh v)

module _ (show_uuid : ℕ → Text) (to_interval : Decimal → ℕ) (default : ℕ) where
  -- One statement of the queue; a new row's id is one that the table does not have.
  pub data Step (db : Jobs) : Jobs → Type 0 where
    enqueued :
        (now new_id : ℕ) (q : Request) (o : Option ℕ) (db' : Jobs)
        → enqueue_job show_uuid to_interval default now new_id q db ≡ ok (o, db')
        → ¬ In new_id (map row_id db)
        → Step db db'
    claimed :
        (now : ℕ) (locked : List ℕ) (token lease_time : ℕ)
        → Step db (claim_job now locked token lease_time db).1
    completed : (now job_id token : ℕ) → Step db (complete_job now job_id token db).1
    failed :
        (now job_id token backoff : ℕ) (detail : Text)
        → Step db (fail_job now job_id token backoff detail db).1
    released : (now : ℕ) (tokens : List ℕ) → Step db (release_leases now tokens db).1

  pub data Reachable : Jobs → Type 0 where
    empty : Reachable []
    then_step : {db db' : Jobs} → Reachable db → Step db db' → Reachable db'

  pub Step-IsValid : {db db' : Jobs} → Step db db' → IsValid db → IsValid db'
  Step-IsValid (enqueued now new_id q o db' h fresh) v =
      enqueue_job-IsValid show_uuid to_interval default now new_id q _ o db' h fresh v
  Step-IsValid (claimed now locked token lease_time) v =
      claim_job-IsValid now locked token lease_time _ v
  Step-IsValid (completed now job_id token) v = complete_job-IsValid now job_id token _ v
  Step-IsValid (failed now job_id token backoff detail) v =
      fail_job-IsValid now job_id token backoff detail _ v
  Step-IsValid (released now tokens) v = release_leases-IsValid now tokens _ v

  -- In every table that the statements reach from the empty one, in whatever order and with
  -- whatever arguments, a row has a lease token and a deadline exactly when it is leased, no row
  -- has more attempts than it is allowed, and no two rows share an id or a dedup key.
  pub Reachable-IsValid : {db : Jobs} → Reachable db → IsValid db
  Reachable-IsValid empty = record { coherent = tt; own_ids = tt; own_keys = tt }
  Reachable-IsValid (then_step r s) = Step-IsValid s (Reachable-IsValid r)
