-- ===== src/Prelude/Texts/Order.antt =====
-- `sorted`, and how often a list holds a text.
use Prim.Native.Nat.{ℕ, suc}
use mathlib.Core.Path.{◌≡◌, refl, ap, sym, ◌∙◌}
use mathlib.Core.Logic.{◌↔◌, inl, inr}
use mathlib.Core.Bool.{true, false}
use mathlib.Core.List.{List, [], ◌∷◌}
use native.Mathlib.Omega.{arith}
use payroll_agent.Prelude.Tests.{if◌then◌else◌, Bool-cases}
use payroll_agent.Prelude.Equality.{◌==◌, nat_eq, ==-self, ==-cases}
use payroll_agent.Prelude.Texts.{Text, text_le, list_eq, insert_sorted, sorted, count, count-sorted}

pub text_le_refl : (s : Text) → text_le s s ≡ true
unfolding text_le
text_le_refl [] = refl
text_le_refl (x ∷ s) = ground (arith, text_le_refl s)

pub text_le_total : (s t : Text) → text_le s t ≡ false → text_le t s ≡ true
unfolding text_le
text_le_total [] t h = cc
text_le_total (x ∷ s) [] h = refl
text_le_total (x ∷ s) (y ∷ t) h = ground (arith, text_le_total s t)

pub text_le_antisymm : (s t : Text) → text_le s t ≡ true → text_le t s ≡ true → s ≡ t
unfolding text_le
text_le_antisymm [] [] h k = refl
text_le_antisymm [] (y ∷ t) h k = cc
text_le_antisymm (x ∷ s) [] h k = cc
text_le_antisymm (x ∷ s) (y ∷ t) h k = ground (arith, text_le_antisymm s t)

pub text_le_trans : (s t u : Text) → text_le s t ≡ true → text_le t u ≡ true → text_le s u ≡ true
unfolding text_le
text_le_trans [] t u h k = refl
text_le_trans (x ∷ s) [] u h k = cc
text_le_trans (x ∷ s) (y ∷ t) [] h k = cc
text_le_trans (x ∷ s) (y ∷ t) (z ∷ u) h k = ground (arith, text_le_trans s t u)

insert_comm_le :
    (a b : Text) (l : List Text)
    → text_le a b ≡ true
    → insert_sorted text_le a (insert_sorted text_le b l)
      ≡ insert_sorted text_le b (insert_sorted text_le a l)
unfolding insert_sorted
insert_comm_le a b [] h = ground (arith, text_le_antisymm a b)
insert_comm_le a b (x ∷ l) h =
    ground (arith, text_le_antisymm a b, text_le_trans a b x, insert_comm_le a b l h)

insert_comm :
    (a b : Text) (l : List Text)
    → insert_sorted text_le a (insert_sorted text_le b l)
      ≡ insert_sorted text_le b (insert_sorted text_le a l)
insert_comm a b l = elim (Bool-cases (text_le a b)) [
  | inl t ↦ insert_comm_le a b l t
  | inr f ↦ sym (insert_comm_le b a l (text_le_total a b f))
]

-- The list without the first occurrence of `a`.
remove : Text → List Text → List Text
remove a [] = []
remove a (x ∷ l) = if a == x then l else x ∷ remove a l

sorted-remove :
    (a : Text) (l : List Text) {k : ℕ}
    → count a l ≡ suc k
    → sorted text_le l ≡ insert_sorted text_le a (sorted text_le (remove a l))
unfolding sorted remove count
sorted-remove a [] h = absurd (omega arith)
sorted-remove a (x ∷ l) h = elim (==-cases a x) [
  | inl q ↦ rw (q, ==-self x)
  | inr f ↦
      rw (f, remove)
        (rw (sorted-remove a l (rw (f, count) at h))
          (insert_comm x a (sorted text_le (remove a l))))
]

count-remove :
    (a b : Text) (l : List Text) {k : ℕ}
    → count a l ≡ suc k
    → (if b == a then suc (count b (remove a l)) else count b (remove a l)) ≡ count b l
unfolding remove count
count-remove a b [] h = absurd (omega arith)
count-remove a b (x ∷ l) h = elim (==-cases a x) [
  | inl q ↦ rw (q, ==-self x)
  | inr f ↦ let ih = count-remove a b l (rw (f, count) at h) in rw (f, remove) (ground arith)
]

sorted-eq_of_count :
    (xs ys : List Text)
    → ((a : Text) → count a xs ≡ count a ys)
    → sorted text_le xs ≡ sorted text_le ys
unfolding sorted count
sorted-eq_of_count [] [] h = refl
sorted-eq_of_count [] (y ∷ ys) h = absurd (omega (arith, rw (==-self y) at (h y)))
sorted-eq_of_count (x ∷ xs) ys h =
    let here : count x ys ≡ suc (count x xs) = sym (rw (==-self x) at (h x)) in
    rw (sorted-remove x ys here) (
      ap (insert_sorted text_le x)
        (sorted-eq_of_count xs (remove x ys) (λ a. ground (arith, h a, count-remove x a ys here))))

pub sorted_iff :
    (xs ys : List Text)
    → (sorted text_le xs ≡ sorted text_le ys) ↔ ((a : Text) → count a xs ≡ count a ys)
sorted_iff xs ys = (
  λ h a. sym (count-sorted text_le a xs) ∙ (ap (count a) h ∙ count-sorted text_le a ys),
  sorted-eq_of_count xs ys,
)
