-- ===== src/AliasLearning/Carriers.antt =====
-- Who carries which name on a roster where one employee was given a token as an alias: the
-- throwaway roster of app/pipeline/alias_learning.py, and the table after the write.
use payroll_agent.Prelude.{
  ℕ, ◌≡◌, refl, sym, ◌∙◌, ap, ◌⊎◌, inl, inr, Text, list_eq, nat_eq, List, [], ◌∷◌, map, keep,
  contains, In, In-map, map-In, In-append_left, In-append-cases, Bool-cases, ◌==◌, ==→eq,
}
use payroll_agent.Prelude.Dict.{distinct-In, In-distinct}
use payroll_agent.Roster.{Employee, Roster}
use payroll_agent.Reconcile.{normalize_name}
use payroll_agent.Reconcile.Unique.{Carries, CarriedBy}
use payroll_agent.AliasLearning.{
  update_aliases, append_token, add_distinct, load_roster_for_business, Employees,
}

pub update_aliases-id :
    (g : List Text → List Text) (i : ℕ) (e : Employee) → (update_aliases g i e).id ≡ e.id
unfolding update_aliases
update_aliases-id g i e = elim (Bool-cases (e.id == i)) [ inl t ↦ rw t | inr f ↦ rw f ]

update_aliases-business :
    (g : List Text → List Text) (i : ℕ) (e : Employee)
    → (update_aliases g i e).business_id ≡ e.business_id
unfolding update_aliases
update_aliases-business g i e = elim (Bool-cases (e.id == i)) [ inl t ↦ rw t | inr f ↦ rw f ]

-- The roster with the aliases of one employee rewritten.
abbrev pub updated : (List Text → List Text) → ℕ → Roster → Roster
updated g i r = record {
  business_id = r.business_id;
  employees = map (update_aliases g i) r.employees;
}

keep-update :
    (g : List Text → List Text) (i b : ℕ) (db : Employees)
    → keep (λ (e : Employee). e.business_id == b) (map (update_aliases g i) db)
      ≡ map (update_aliases g i) (keep (λ (e : Employee). e.business_id == b) db)
unfolding update_aliases
keep-update g i b [] = refl
keep-update g i b (e ∷ db) =
    let ih = keep-update g i b db in
    elim (Bool-cases (e.business_id == b)) [
      | inl t ↦ rw (update_aliases-business g i e, t, ih)
      | inr f ↦ rw (update_aliases-business g i e, f, ih)
    ]

pub load-update :
    (g : List Text → List Text) (i b : ℕ) (db : Employees)
    → load_roster_for_business b (map (update_aliases g i) db)
      ≡ updated g i (load_roster_for_business b db)
unfolding load_roster_for_business
load-update g i b db = rw (keep-update g i b db)

-- A rewriting that adds at most the token, and one that loses nothing.
abbrev pub Keeps : (List Text → List Text) → Type 0
Keeps g = (a : Text) (xs : List Text) → In a xs → In a (g xs)

abbrev pub AddsOnly : Text → (List Text → List Text) → Type 0
AddsOnly token g = (a : Text) (xs : List Text) → In a (g xs) → In a xs ⊎ (a ≡ token)

pub append_token-Keeps : (token : Text) → Keeps (append_token token)
append_token-Keeps token a xs m = In-append_left a xs (token ∷ []) m

pub append_token-AddsOnly : (token : Text) → AddsOnly token (append_token token)
append_token-AddsOnly token a xs m = elim (In-append-cases a xs (token ∷ []) m) [
  | inl k ↦ inl k
  | inr k ↦ elim k [ inl q ↦ inr q | inr n ↦ absurd n ]
]

pub add_distinct-Keeps : (token : Text) → Keeps (add_distinct token)
unfolding add_distinct
add_distinct-Keeps token a xs m = elim (Bool-cases (contains token xs)) [
  | inl t ↦ rw t m
  | inr f ↦ rw f (In-distinct a (append_token token xs) (append_token-Keeps token a xs m))
]

pub add_distinct-AddsOnly : (token : Text) → AddsOnly token (add_distinct token)
unfolding add_distinct
add_distinct-AddsOnly token a xs m = elim (Bool-cases (contains token xs)) [
  | inl t ↦ inl (rw t at m)
  | inr f ↦ append_token-AddsOnly token a xs (distinct-In a (append_token token xs) (rw f at m))
]

module _ (fold : Text → Text) (g : List Text → List Text) (i : ℕ) where
  Carries-update :
      (norm : Text) (e : Employee)
      → Keeps g
      → Carries fold norm e
      → Carries fold norm (update_aliases g i e)
  unfolding update_aliases
  Carries-update norm e keeps c = elim (Bool-cases (e.id == i)) [
    | inl t ↦ elim c [
      | inl q ↦ rw t (inl q)
      | inr (a, m, q) ↦ rw t (inr (a, keeps a e.known_aliases m, q))
    ]
    | inr f ↦ rw f c
  ]

  update-Carries :
      (token norm : Text) (e : Employee)
      → AddsOnly token g
      → Carries fold norm (update_aliases g i e)
      → Carries fold norm e ⊎ ((e.id ≡ i) × (normalize_name fold token ≡ norm))
  unfolding update_aliases
  update-Carries token norm e adds c = elim (Bool-cases (e.id == i)) [
    | inr f ↦ inl (rw f at c)
    | inl t ↦ from_aliases (==→eq e.id i t) (rw t at c)
  ]
    where
      from_aliases :
          e.id ≡ i
          → Carries fold norm (record e { known_aliases = g e.known_aliases })
          → Carries fold norm e ⊎ ((e.id ≡ i) × (normalize_name fold token ≡ norm))
      from_aliases own (inl q) = inl (inl q)
      from_aliases own (inr (a, m, q)) = elim (adds a e.known_aliases m) [
        | inl k ↦ inl (inr (a, k, q))
        | inr same ↦ inr (own, sym (ap (normalize_name fold) same) ∙ q)
      ]

  -- A name stays with those who carry it, and only the token's name is carried anew.
  pub CarriedBy-updated :
      (norm : Text) (r : Roster) (j : ℕ)
      → Keeps g
      → CarriedBy fold norm r j
      → CarriedBy fold norm (updated g i r) j
  CarriedBy-updated norm r j keeps (e, m, c, q) = (
    update_aliases g i e,
    In-map (update_aliases g i) e r.employees m,
    Carries-update norm e keeps c,
    update_aliases-id g i e ∙ q,
  )

  pub updated-CarriedBy :
      (token norm : Text) (r : Roster) (j : ℕ)
      → AddsOnly token g
      → CarriedBy fold norm (updated g i r) j
      → CarriedBy fold norm r j ⊎ ((j ≡ i) × (normalize_name fold token ≡ norm))
  updated-CarriedBy token norm r j adds (e', m, c, q) =
      let (e, k, s) = map-In (update_aliases g i) e' r.employees m in
      let own : e.id ≡ j =
        sym (update_aliases-id g i e) ∙ (ap (λ (x : Employee). x.id) (sym s) ∙ q) in
      elim (update-Carries token norm e adds (rw s at c)) [
        | inl d ↦ inl (e, k, d, own)
        | inr (w, n) ↦ inr (sym own ∙ w, n)
      ]
