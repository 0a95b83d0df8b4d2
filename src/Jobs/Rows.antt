-- ===== src/Jobs/Rows.antt =====
-- Lemmas on the rows that a statement of app/db/repo/jobs.py touches.
use payroll_agent.Prelude.{
  ℕ, ◌≡◌, ◌⊎◌, refl, sym, ◌∙◌, ap, inl, inr, Text, nat_eq, list_eq, Bool, true, false, [], ◌∷◌, In,
  All, NoRepeat, map, any, find, In-map, map-In, Bool-cases, if◌then◌else◌, none,
}
use payroll_agent.Jobs.{JobRow, Jobs, update_rows}

abbrev pub row_id : JobRow → ℕ
row_id r = r.id

abbrev pub row_key : JobRow → Text
row_key r = r.dedup_key

pub update_rows-In :
    (test : JobRow → Bool) (set : JobRow → JobRow) (x : JobRow) (db : Jobs)
    → In x (update_rows test set db)
    → (r : JobRow) × In r db × (((test r ≡ true) × (x ≡ set r)) ⊎ ((test r ≡ false) × (x ≡ r)))
unfolding update_rows
update_rows-In test set x db m =
    let (r, k, q) = map-In (λ r. if test r then set r else r) x db m in
    elim (Bool-cases (test r)) [
      | inl t ↦ (r, k, inl (t, rw t at q))
      | inr f ↦ (r, k, inr (f, rw f at q))
    ]

-- A statement that keeps a column keeps the list of its values.
pub update_rows-column :
    {A : Type 0} (column : JobRow → A) (test : JobRow → Bool) (set : JobRow → JobRow)
    → ((r : JobRow) → column (set r) ≡ column r)
    → (db : Jobs) → map column (update_rows test set db) ≡ map column db
unfolding update_rows
update_rows-column column test set same [] = refl
update_rows-column column test set same (r ∷ db) =
    let ih = update_rows-column column test set same db in
    elim (Bool-cases (test r)) [ inl t ↦ rw (t, same r, ih) | inr f ↦ rw (f, ih) ]

-- A statement whose test no row meets changes nothing.
pub update_rows-none :
    (test : JobRow → Bool) (set : JobRow → JobRow) (db : Jobs)
    → All (λ r. test r ≡ false) db
    → update_rows test set db ≡ db
unfolding update_rows
update_rows-none test set [] h = refl
update_rows-none test set (r ∷ db) (f, h) = let ih = update_rows-none test set db h in rw (f, ih)

pub any-none :
    (test : JobRow → Bool) (db : Jobs) → All (λ r. test r ≡ false) db → any test db ≡ false
any-none test [] h = refl
any-none test (r ∷ db) (f, h) = rw f (any-none test db h)

pub find-none :
    (test : JobRow → Bool) (db : Jobs) → All (λ r. test r ≡ false) db → find test db ≡ none
find-none test [] h = refl
find-none test (r ∷ db) (f, h) = rw f (find-none test db h)

-- An id is the id of one row.
pub same_row :
    (x r : JobRow) (db : Jobs) → NoRepeat (map row_id db) → In x db → In r db → x.id ≡ r.id → x ≡ r
same_row x r [] u m k q = absurd m
same_row x r (y ∷ db) u (inl a) (inl b) q = a ∙ sym b
same_row x r (y ∷ db) u (inr m) (inr k) q = same_row x r db u.1 m k q
same_row x r (y ∷ db) u (inl a) (inr k) q =
    absurd (u.0 (rw (sym q ∙ ap row_id a) at (In-map row_id r db k)))
same_row x r (y ∷ db) u (inr m) (inl b) q =
    absurd (u.0 (rw (q ∙ ap row_id b) at (In-map row_id x db m)))
