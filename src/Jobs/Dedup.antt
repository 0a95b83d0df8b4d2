-- ===== src/Jobs/Dedup.antt =====
-- app/db/repo/jobs.py::enqueue_job: the dedup key.
use payroll_agent.Prelude.{
  ℕ, ◌≡◌, refl, ap, Text, nat_eq, list_eq, Bool, true, Option, none, [], ◌∷◌, ◌++◌, inl, inr, any,
  any-In, Bool-cases, ◌==◌, ==-self, ok, >>=-eq_ok, In-append_right,
}
use mathlib.Core.Path.{subst}
use payroll_agent.Decimal.{Decimal}
use payroll_agent.Jobs.{JobRow, Jobs}
use payroll_agent.Jobs.Enqueue.{Request, check_request, new_row, insert_row, enqueue_job}

abbrev has_key : Text → JobRow → Bool
has_key key r = r.dedup_key == key

inserted : (row : JobRow) (db : Jobs) → any (has_key row.dedup_key) (insert_row row db).1 ≡ true
unfolding insert_row
inserted row db = elim (Bool-cases (any (has_key row.dedup_key) db)) [
  | inl t ↦ rw (t, insert_row) t
  | inr f ↦
      rw (f, insert_row)
        (any-In (has_key row.dedup_key) row (db ++ (row ∷ []))
          (In-append_right row db (row ∷ []) (inl refl)) (==-self row.dedup_key))
]

insert_row-known :
    (row : JobRow) (db : Jobs)
    → any (has_key row.dedup_key) db ≡ true
    → insert_row row db ≡ (none, db)
unfolding insert_row
insert_row-known row db t = rw t

module _ (show_uuid : ℕ → Text) (to_interval : Decimal → ℕ) (default : ℕ) where
  -- After a request was enqueued, or was found to be enqueued already, each accepted request with
  -- the same dedup key is answered with None and leaves the table as it is.
  pub enqueue_job_once :
      (now new_id : ℕ) (q : Request) (db : Jobs) (o : Option ℕ) (db' : Jobs)
      → enqueue_job show_uuid to_interval default now new_id q db ≡ ok (o, db')
      → (now' new_id' m : ℕ) (q' : Request) → check_request show_uuid default q' ≡ ok m
      → q'.dedup_key ≡ q.dedup_key
      → enqueue_job show_uuid to_interval default now' new_id' q' db' ≡ ok (none, db')
  unfolding enqueue_job new_row
  enqueue_job_once now new_id q db o db' h now' new_id' m q' accepted same =
      let (k, _, e) = >>=-eq_ok (check_request show_uuid default q) _ h in
      let row = new_row to_interval now new_id k q in
      let result : insert_row row db ≡ (o, db') = cc e in
      let known : any (has_key q'.dedup_key) db' ≡ true = rw same (
        subst (λ (t : Jobs). any (has_key q.dedup_key) t ≡ true)
          (ap (λ (p : Option ℕ × Jobs). p.1) result) (inserted row db)) in
      rw (accepted, enqueue_job)
        (ap ok (insert_row-known (new_row to_interval now' new_id' m q') db' known))
