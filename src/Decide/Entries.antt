-- ===== src/Decide/Entries.antt =====
-- app/pipeline/decide.py::check_one_to_one, the loop that gathers the names of each employee.
use payroll_agent.Prelude.{
  ℕ, ◌++◌, ◌≡◌, refl, sym, inl, inr, ◌⊎◌, Text, list_eq, nat_eq, Bool, true, false, Option, none,
  some, List, [], ◌∷◌, ◌==◌, contains, In, All, NoRepeat, NoRepeat-snoc, contains-In, In-contains,
  arith, Bool-cases, In-append_left, In-append_right, In-append-cases, ==-cases, ==-self, ==→eq,
  if◌then◌else◌,
}
use mathlib.Core.Path.{subst}
use payroll_agent.Prelude.Dict.{Dict, lookup, insert, lookup-insert}
use payroll_agent.Roster.{NameMatchResult}
use payroll_agent.Decide.{names_at, add_name, add_for, by_employee}

In-if :
    (a : Text) (b : Bool) (xs ys : List Text)
    → (b ≡ true → In a xs)
    → (b ≡ false → In a ys)
    → In a (if b then xs else ys)
In-if a true xs ys f g = f refl
In-if a false xs ys f g = g refl

add_name-In : (n : Text) (names : List Text) → In n (add_name n names)
unfolding add_name
add_name-In n names =
    In-if n (contains n names) names (names ++ (n ∷ [])) (contains-In n names)
      (λ f. In-append_right n names (n ∷ []) (inl refl))

add_name-keeps : (a n : Text) (names : List Text) → In a names → In a (add_name n names)
unfolding add_name
add_name-keeps a n names m =
    In-if a (contains n names) names (names ++ (n ∷ [])) (λ t. m)
      (λ f. In-append_left a names (n ∷ []) m)

names_at-insert :
    (i j : ℕ) (names : List Text) (d : Dict ℕ (List Text))
    → names_at j (insert i names d) ≡ (if i == j then names else names_at j d)
names_at-insert i j names d = rw (lookup-insert i j names d) (ground arith)

add_for-In :
    (n : Text) (i : ℕ) (acc : Dict ℕ (List Text)) → In n (names_at i (add_for (some i) n acc))
add_for-In n i acc = rw (names_at-insert, ==-self i) (add_name-In n (names_at i acc))

add_for-keeps :
    (a n : Text) (o : Option ℕ) (j : ℕ) (acc : Dict ℕ (List Text))
    → In a (names_at j acc)
    → In a (names_at j (add_for o n acc))
add_for-keeps a n none j acc k = k
add_for-keeps a n (some i) j acc k = rw names_at-insert (
    In-if a (i == j) (add_name n (names_at i acc)) (names_at j acc)
      (λ t.
        add_name-keeps a n (names_at i acc)
          (subst (λ x. In a (names_at x acc)) (sym (==→eq i j t)) k))
      (λ f. k))

by_employee-keeps :
    (a : Text) (j : ℕ) (acc : Dict ℕ (List Text)) (ms : List NameMatchResult)
    → In a (names_at j acc)
    → In a (names_at j (by_employee acc ms))
unfolding by_employee
by_employee-keeps a j acc [] k = k
by_employee-keeps a j acc (m ∷ ms) k =
    by_employee-keeps a j (add_for m.matched_employee_id m.submitted_name acc) ms
      (add_for-keeps a m.submitted_name m.matched_employee_id j acc k)

-- Every resolved name stands under its employee.
pub by_employee-In :
    (i : ℕ) (m : NameMatchResult) (acc : Dict ℕ (List Text)) (ms : List NameMatchResult)
    → In m ms
    → m.matched_employee_id ≡ some i
    → In m.submitted_name (names_at i (by_employee acc ms))
unfolding by_employee
by_employee-In i m acc [] k e = absurd k
by_employee-In i m acc (x ∷ ms) (inl q) e =
    by_employee-keeps m.submitted_name i (add_for x.matched_employee_id x.submitted_name acc) ms (
      subst
        (λ (y : NameMatchResult).
          In m.submitted_name (names_at i (add_for y.matched_employee_id y.submitted_name acc)))
        q (rw e (add_for-In m.submitted_name i acc)))
by_employee-In i m acc (x ∷ ms) (inr k) e =
    by_employee-In i m (add_for x.matched_employee_id x.submitted_name acc) ms k e

-- An entry of the dictionary: its names are distinct, and each was submitted for its employee.
abbrev pub Entry : List NameMatchResult → ℕ × List Text → Type 0
Entry ms (i, names) =
    NoRepeat names
    × ((n : Text)
        → In n names
        → (m : NameMatchResult) × In m ms
          × (m.matched_employee_id ≡ some i)
          × (m.submitted_name ≡ n))

pub names_at-Entry :
    (ms : List NameMatchResult) (i : ℕ) (d : Dict ℕ (List Text))
    → All (Entry ms) d
    → Entry ms (i, names_at i d)
unfolding lookup
names_at-Entry ms i [] h = (tt, λ n k. absurd k)
names_at-Entry ms i ((j, names) ∷ d) h = elim (==-cases i j) [
  | inl q ↦ rw (q, ==-self j) h.0
  | inr f ↦ rw (f, lookup) (names_at-Entry ms i d h.1)
]

insert-Entry :
    (ms : List NameMatchResult) (i : ℕ) (names : List Text) (d : Dict ℕ (List Text))
    → Entry ms (i, names)
    → All (Entry ms) d
    → All (Entry ms) (insert i names d)
unfolding insert
insert-Entry ms i names [] e h = (e, tt)
insert-Entry ms i names ((j, old) ∷ d) e h = elim (==-cases i j) [
  | inl q ↦ rw (q, ==-self j) (subst (λ x. Entry ms (x, names)) q e, h.1)
  | inr f ↦ rw (f, insert) (h.0, insert-Entry ms i names d e h.1)
]

add_name-Entry :
    (ms : List NameMatchResult) (i : ℕ) (m : NameMatchResult) (names : List Text)
    → In m ms
    → m.matched_employee_id ≡ some i
    → Entry ms (i, names)
    → Entry ms (i, add_name m.submitted_name names)
unfolding add_name
add_name-Entry ms i m names k e h = elim (Bool-cases (contains m.submitted_name names)) [
  | inl t ↦ rw (t, add_name) h
  | inr f ↦
      rw (f, add_name)
        (
          NoRepeat-snoc m.submitted_name names h.0 (λ o. cc (In-contains m.submitted_name names o)),
          λ n o. from (In-append-cases n names (m.submitted_name ∷ []) o),
        )
]
  where
    from :
        {n : Text}
        → In n names ⊎ In n (m.submitted_name ∷ [])
        → (x : NameMatchResult) × In x ms
          × (x.matched_employee_id ≡ some i)
          × (x.submitted_name ≡ n)
    from (inl o) = h.1 _ o
    from (inr (inl q)) = (m, k, e, sym q)
    from (inr (inr o)) = absurd o

add_for-Entry :
    (ms : List NameMatchResult) (m : NameMatchResult) (o : Option ℕ) (d : Dict ℕ (List Text))
    → In m ms
    → m.matched_employee_id ≡ o
    → All (Entry ms) d
    → All (Entry ms) (add_for o m.submitted_name d)
add_for-Entry ms m none d k e h = h
add_for-Entry ms m (some i) d k e h =
    insert-Entry ms i (add_name m.submitted_name (names_at i d)) d
      (add_name-Entry ms i m (names_at i d) k e (names_at-Entry ms i d h)) h

-- The dictionary holds what was submitted, and nothing else.
pub by_employee-Entry :
    (ms rest : List NameMatchResult) (d : Dict ℕ (List Text))
    → ((m : NameMatchResult) → In m rest → In m ms)
    → All (Entry ms) d
    → All (Entry ms) (by_employee d rest)
unfolding by_employee
by_employee-Entry ms [] d sub h = h
by_employee-Entry ms (m ∷ rest) d sub h =
    by_employee-Entry ms rest (add_for m.matched_employee_id m.submitted_name d)
      (λ x k. sub x (inr k)) (add_for-Entry ms m m.matched_employee_id d (sub m (inl refl)) refl h)
