-- ===== src/Prelude/Texts.antt =====
-- A Python `str` as the list of its code points: equality, the order by code points that `sorted`
-- uses, and `sorted` itself as insertion sort.
pub mod Order
use Prim.Native.Nat.{ℕ, zero, suc, ◌+◌, ◌≤◌, ◌<◌}
use Prim.Native.Char.{code}
use Prim.Native.String.{String}
use mathlib.Core.Path.{◌≡◌, refl, ap}
use mathlib.Core.Logic.{◌↔◌, ◌⊎◌, inl, inr}
use mathlib.Core.Bool.{Bool, true, false, ◌&&◌}
use mathlib.Core.List.{List, [], ◌∷◌}
use native.Mathlib.Omega.{arith}
use payroll_agent.Prelude.Tests.{ltb, eqb, if◌then◌else◌, Bool-cases}
use payroll_agent.Prelude.Equality.{Eq, ◌==◌, eqb_iff, nat_eq, ==→eq, ==-self}
use payroll_agent.Prelude.Lists.{In}

abbrev pub Text : Type 0
Text = List ℕ

abbrev pub codes : String → Text
codes String.[] = []
codes (String.◌∷◌ c s) = code c ∷ codes s

-- `==` on lists, from that on their items.
module _ {A : Type 0} ⦃e : Eq A⦄ where
  unfoldable pub list_beq : List A → List A → Bool
  list_beq [] [] = true
  list_beq [] (y ∷ ys) = false
  list_beq (x ∷ xs) [] = false
  list_beq (x ∷ xs) (y ∷ ys) = (x == y) && list_beq xs ys

  pub list_beq_iff : (s t : List A) → (list_beq s t ≡ true) ↔ (s ≡ t)
  unfolding list_beq
  list_beq_iff [] [] = ground arith
  list_beq_iff [] (y ∷ ys) = ground arith
  list_beq_iff (x ∷ xs) [] = ground arith
  list_beq_iff (x ∷ xs) (y ∷ ys) = ground (arith, e.beq_iff x y, list_beq_iff xs ys)

instance abbrev pub list_eq : {A : Type 0} ⦃e : Eq A⦄ → Eq (List A)
list_eq = record { beq = list_beq; beq_iff = list_beq_iff }

-- The order of two texts: the first code point that differs decides.
unfoldable pub text_le : Text → Text → Bool
text_le [] t = true
text_le (x ∷ xs) [] = false
text_le (x ∷ xs) (y ∷ ys) =
    let rest = text_le xs ys in if ltb x y then true else if eqb x y then rest else false

-- `sorted(xs, key=...)` for the order that `le` decides.
module _ {ℓ} {A : Type ℓ} (le : A → A → Bool) where
  unfoldable pub insert_sorted : A → List A → List A
  insert_sorted a [] = a ∷ []
  insert_sorted a (x ∷ xs) = if le a x then a ∷ x ∷ xs else x ∷ insert_sorted a xs

  unfoldable pub sorted : List A → List A
  unfolding insert_sorted
  sorted [] = []
  sorted (x ∷ xs) = insert_sorted x (sorted xs)

-- How often `a` stands in a list.
unfoldable pub count {ℓ} : {A : Type ℓ} ⦃e : Eq A⦄ → A → List A → ℕ
count a [] = 0
count a (x ∷ xs) = if a == x then suc (count a xs) else count a xs

module _ {A : Type 0} ⦃e : Eq A⦄ (le : A → A → Bool) where
  count-insert_sorted :
      (a b : A) (xs : List A)
      → count a (insert_sorted le b xs) ≡ (if a == b then suc (count a xs) else count a xs)
  unfolding insert_sorted count
  count-insert_sorted a b [] = refl
  count-insert_sorted a b (x ∷ xs) = ground (arith, count-insert_sorted a b xs)

  -- Sorting keeps every item as often.
  pub count-sorted : (a : A) (xs : List A) → count a (sorted le xs) ≡ count a xs
  unfolding sorted count
  count-sorted a [] = refl
  count-sorted a (x ∷ xs) =
      ground (arith, count-insert_sorted a x (sorted le xs), count-sorted a xs)

-- Sorting keeps the members.
module _ {A : Type 0} (le : A → A → Bool) where
  In-insert_sorted : (a x : A) (l : List A) → (a ≡ x) ⊎ In a l → In a (insert_sorted le x l)
  unfolding insert_sorted
  In-insert_sorted a x [] h = h
  In-insert_sorted a x (y ∷ l) h = elim (Bool-cases (le x y)) [
    | inl t ↦ rw t h
    | inr f ↦ rw f (place (In-insert_sorted a x l) h)
  ]
    where
      place :
          ((a ≡ x) ⊎ In a l → In a (insert_sorted le x l))
          → (a ≡ x) ⊎ In a (y ∷ l)
          → In a (y ∷ insert_sorted le x l)
      place ih (inl q) = inr (ih (inl q))
      place ih (inr (inl q)) = inl q
      place ih (inr (inr k)) = inr (ih (inr k))

  insert_sorted-In : (a x : A) (l : List A) → In a (insert_sorted le x l) → (a ≡ x) ⊎ In a l
  unfolding insert_sorted
  insert_sorted-In a x [] h = h
  insert_sorted-In a x (y ∷ l) h = elim (Bool-cases (le x y)) [
    | inl t ↦ rw t at h
    | inr f ↦ place (insert_sorted-In a x l) (rw f at h)
  ]
    where
      place :
          (In a (insert_sorted le x l) → (a ≡ x) ⊎ In a l)
          → In a (y ∷ insert_sorted le x l)
          → (a ≡ x) ⊎ In a (y ∷ l)
      place ih (inl q) = inr (inl q)
      place ih (inr k) = elim (ih k) [ inl q ↦ inl q | inr o ↦ inr (inr o) ]

  pub In-sorted : (a : A) (l : List A) → In a l → In a (sorted le l)
  unfolding sorted
  In-sorted a [] k = k
  In-sorted a (x ∷ l) (inl q) = In-insert_sorted a x (sorted le l) (inl q)
  In-sorted a (x ∷ l) (inr k) = In-insert_sorted a x (sorted le l) (inr (In-sorted a l k))

  pub sorted-In : (a : A) (l : List A) → In a (sorted le l) → In a l
  unfolding sorted
  sorted-In a [] k = k
  sorted-In a (x ∷ l) k = elim (insert_sorted-In a x (sorted le l) k) [
    | inl q ↦ inl q
    | inr o ↦ inr (sorted-In a l o)
  ]
