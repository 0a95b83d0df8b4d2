-- ===== src/Prelude/Dict.antt =====
-- Python's `dict` in insertion order, and `set` as a list without repetition.
use mathlib.Core.Path.{◌≡◌, refl, sym, ◌∙◌}
use mathlib.Core.Logic.{inl, inr}
use mathlib.Core.Bool.{false}
use mathlib.Core.Option.{Option, none, some}
use mathlib.Core.List.{List, [], ◌∷◌}
use native.Mathlib.Omega.{arith}
use payroll_agent.Prelude.Tests.{if◌then◌else◌, Bool-cases}
use payroll_agent.Prelude.Equality.{Eq, ◌==◌}
use payroll_agent.Prelude.Lists.{contains, In, contains-In, In-contains}

abbrev pub Dict {ℓ κ} : Type ℓ → Type κ → Type (ℓ ⊔ κ)
Dict K V = List (K × V)

module _ {K V : Type 0} ⦃e : Eq K⦄ where
  -- `d.get(k)`
  unfoldable pub lookup : K → Dict K V → Option V
  lookup k [] = none
  lookup k ((j, v) ∷ d) = if k == j then some v else lookup k d

  -- `d[k] = v`: a new key goes to the end, a known one keeps its place.
  unfoldable pub insert : K → V → Dict K V → Dict K V
  insert k v [] = (k, v) ∷ []
  insert k v ((j, w) ∷ d) = if k == j then (j, v) ∷ d else (j, w) ∷ insert k v d

  pub lookup-insert :
      (k j : K) (v : V) (d : Dict K V)
      → lookup j (insert k v d) ≡ (if k == j then some v else lookup j d)
  unfolding lookup insert
  lookup-insert k j v [] = ground (arith, e.beq_iff j k, e.beq_iff k j)
  lookup-insert k j v ((i, w) ∷ d) =
      ground
        (arith, e.beq_iff k j, e.beq_iff j k, e.beq_iff k i, e.beq_iff j i, lookup-insert k j v d)

  pub lookup-nil : (k : K) → lookup k [] ≡ none
  unfolding lookup
  lookup-nil k = refl

-- `set(xs)`: every item once.
module _ {A : Type 0} ⦃e : Eq A⦄ where
  unfoldable pub distinct : List A → List A
  distinct [] = []
  distinct (x ∷ xs) = let rest = distinct xs in if contains x rest then rest else x ∷ rest

  pub distinct-In : (a : A) (xs : List A) → In a (distinct xs) → In a xs
  unfolding distinct
  distinct-In a [] m = absurd m
  distinct-In a (x ∷ xs) m = elim (Bool-cases (contains x (distinct xs))) [
    | inl t ↦ inr (distinct-In a xs (rw t at m))
    | inr f ↦ first (distinct-In a xs) (rw f at m)
  ]
    where
      first : (In a (distinct xs) → In a xs) → In a (x ∷ distinct xs) → In a (x ∷ xs)
      first ih (inl q) = inl q
      first ih (inr k) = inr (ih k)

  pub In-distinct : (a : A) (xs : List A) → In a xs → In a (distinct xs)
  unfolding distinct
  In-distinct a [] m = absurd m
  In-distinct a (x ∷ xs) (inl q) = elim (Bool-cases (contains x (distinct xs))) [
    | inl t ↦ rw (t, q) (contains-In x (distinct xs) t)
    | inr f ↦ rw f (inl q)
  ]
  In-distinct a (x ∷ xs) (inr m) = elim (Bool-cases (contains x (distinct xs))) [
    | inl t ↦ rw t (In-distinct a xs m)
    | inr f ↦ rw f (inr (In-distinct a xs m))
  ]

  -- A set that has one item, up to repetition, is a set of one item.
  pub distinct-singleton :
      (a : A) (xs : List A) → In a xs → ((b : A) → In b xs → b ≡ a) → distinct xs ≡ a ∷ []
  unfolding distinct
  distinct-singleton a [] m all = absurd m
  distinct-singleton a (x ∷ xs) m all = elim (Bool-cases (contains x (distinct xs))) [
    | inl t ↦ rw t (
        distinct-singleton a xs
          (rw (all x (inl refl)) at (distinct-In x xs (contains-In x (distinct xs) t)))
          (λ b k. all b (inr k)))
    | inr f ↦ rw f (rw (nothing_left xs (λ b k. absent b k f)) (rw (all x (inl refl)) refl))
  ]
    where
      absent : (b : A) → In b xs → contains x (distinct xs) ≡ false → ⊥
      absent b k f = cc (
          In-contains x (distinct xs)
            (rw (all x (inl refl) ∙ sym (all b (inr k))) (In-distinct b xs k)))

      nothing_left : (ys : List A) → ((b : A) → In b ys → ⊥) → distinct ys ≡ []
      nothing_left [] h = refl
      nothing_left (y ∷ ys) h = absurd (h y (inl refl))
