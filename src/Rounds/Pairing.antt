-- ===== src/Rounds/Pairing.antt =====
-- app/pipeline/validate.py::_pair_by_employee_id: which entries of two rounds are paired.
use payroll_agent.Prelude.{
  ℕ, ◌≡◌, ◌↔◌, ◌⊎◌, refl, sym, inl, inr, list_eq, nat_eq, leb, In-sorted, ap, Option, none, some,
  List, [], ◌∷◌, map, keep, contains, In, keep-In, In-contains, ==-cases,
}
use payroll_agent.Prelude.Dict.{Dict, lookup, distinct, In-distinct}
use payroll_agent.Roster.{NameMatchResult}
use payroll_agent.Contracts.{Extracted, ExtractedEmployee}
use payroll_agent.Rounds.{key, pair_at, pairs_at, common_ids, id_keyed, pair_by_employee_id}

In-pair_at :
    (p : ExtractedEmployee × ExtractedEmployee) (a b : Option ExtractedEmployee)
    (rest : List (ExtractedEmployee × ExtractedEmployee))
    → In p rest
    → In p (pair_at a b rest)
In-pair_at p (some a) (some b) rest m = inr m
In-pair_at p (some a) none rest m = m
In-pair_at p none b rest m = m

pair_at-cases :
    (p : ExtractedEmployee × ExtractedEmployee) (a b : Option ExtractedEmployee)
    (rest : List (ExtractedEmployee × ExtractedEmployee))
    → In p (pair_at a b rest)
    → ((a ≡ some p.0) × (b ≡ some p.1)) ⊎ In p rest
pair_at-cases p (some a) (some b) rest (inl q) = inl (
  ap (λ (x : ExtractedEmployee × ExtractedEmployee). some x.0) (sym q),
  ap (λ (x : ExtractedEmployee × ExtractedEmployee). some x.1) (sym q),
)
pair_at-cases p (some a) (some b) rest (inr m) = inr m
pair_at-cases p (some a) none rest m = inr m
pair_at-cases p none b rest m = inr m

-- A key of the dictionary is one that `lookup` finds.
lookup-key :
    (i : ℕ) (e : ExtractedEmployee) (d : Dict ℕ ExtractedEmployee)
    → lookup i d ≡ some e
    → In i (map key d)
unfolding lookup
lookup-key i e [] h = cc
lookup-key i e ((j, x) ∷ d) h = elim (==-cases i j) [
  | inl q ↦ inl q
  | inr f ↦ inr (lookup-key i e d (rw (f, lookup) at h))
]

common_ids-In :
    (i : ℕ) (o r : ExtractedEmployee) (a b : Dict ℕ ExtractedEmployee)
    → lookup i a ≡ some o
    → lookup i b ≡ some r
    → In i (common_ids a b)
unfolding common_ids
common_ids-In i o r a b h k =
    In-sorted leb i (keep (λ j. contains j (map key b)) (distinct (map key a))) (
      keep-In (λ j. contains j (map key b)) i (distinct (map key a))
        (In-distinct i (map key a) (lookup-key i o a h))
        (In-contains i (map key b) (lookup-key i r b k)))

pairs_at-In :
    (i : ℕ) (o r : ExtractedEmployee) (a b : Dict ℕ ExtractedEmployee) (ids : List ℕ)
    → lookup i a ≡ some o
    → lookup i b ≡ some r
    → In i ids
    → In (o, r) (pairs_at a b ids)
unfolding pairs_at
pairs_at-In i o r a b [] h k m = absurd m
pairs_at-In i o r a b (j ∷ ids) h k (inl q) = rw (← q, pairs_at, h, k) (inl refl)
pairs_at-In i o r a b (j ∷ ids) h k (inr m) =
    In-pair_at (o, r) (lookup j a) (lookup j b) (pairs_at a b ids) (pairs_at-In i o r a b ids h k m)

pairs_at-elim :
    (o r : ExtractedEmployee) (a b : Dict ℕ ExtractedEmployee) (ids : List ℕ)
    → In (o, r) (pairs_at a b ids)
    → (i : ℕ) × (lookup i a ≡ some o) × (lookup i b ≡ some r)
unfolding pairs_at
pairs_at-elim o r a b [] m = absurd m
pairs_at-elim o r a b (j ∷ ids) m =
    elim (pair_at-cases (o, r) (lookup j a) (lookup j b) (pairs_at a b ids) m) [
      | inl (h, k) ↦ (j, h, k)
      | inr n ↦ pairs_at-elim o r a b ids n
    ]

-- The pairs are the entries that the two rounds have for one employee id.
pub pair_by_employee_id_iff :
    (original resumed : Extracted) (pm cm : List NameMatchResult) (o r : ExtractedEmployee)
    → In (o, r) (pair_by_employee_id original resumed pm cm) ↔ (
        (i : ℕ) × (lookup i (id_keyed original pm) ≡ some o)
        × (lookup i (id_keyed resumed cm) ≡ some r))
unfolding pair_by_employee_id
pair_by_employee_id_iff original resumed pm cm o r =
    let a = id_keyed original pm in
    let b = id_keyed resumed cm in
    (
      pairs_at-elim o r a b (common_ids a b),
      λ (i, h, k). pairs_at-In i o r a b (common_ids a b) h k (common_ids-In i o r a b h k),
    )
