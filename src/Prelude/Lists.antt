-- ===== src/Prelude/Lists.antt =====
-- Python's lists: the tests `in`, `any`, `all`, comprehensions, and insertion of a sort key.
use Prim.Native.Nat.{◌≤◌, ℕ, zero, suc, ◌+◌, ◌≤◌}
use mathlib.Core.Path.{◌≡◌, refl, ap, sym, ◌∙◌}
use mathlib.Core.Logic.{◌≢◌, ◌⊎◌, inl, inr}
use mathlib.Core.Bool.{Bool, true, false, ◌&&◌, ◌||◌}
use mathlib.Core.Option.{Option, none, some}
use mathlib.Core.List.{List, [], ◌∷◌, ◌++◌, map}
use native.Mathlib.Omega.{arith}
use payroll_agent.Prelude.Tests.{if◌then◌else◌, Bool-cases, or_intro_right}
use payroll_agent.Prelude.Equality.{Eq, ◌==◌, ==-self, ==→eq}

module _ {ℓ} {A : Type ℓ} where
  abbrev pub length : List A → ℕ
  length [] = 0
  length (x ∷ xs) = suc (length xs)

  -- `any(p(x) for x in xs)`
  abbrev pub any : (A → Bool) → List A → Bool
  any p [] = false
  any p (x ∷ xs) = p x || any p xs

  -- `[x for x in xs if p(x)]`
  abbrev pub keep : (A → Bool) → List A → List A
  keep p [] = []
  keep p (x ∷ xs) = if p x then x ∷ keep p xs else keep p xs

  -- `next((x for x in xs if p(x)), None)`
  abbrev pub find : (A → Bool) → List A → Option A
  find p [] = none
  find p (x ∷ xs) = if p x then some x else find p xs

  -- `xs[i]`, where there is such an item.
  abbrev pub get_elem? : List A → ℕ → Option A
  get_elem? [] i = none
  get_elem? (x ∷ xs) zero = some x
  get_elem? (x ∷ xs) (suc i) = get_elem? xs i

  -- `xs[:n]`
  abbrev pub take : ℕ → List A → List A
  take zero xs = []
  take (suc n) [] = []
  take (suc n) (x ∷ xs) = x ∷ take n xs

  -- `not xs`
  abbrev pub is_empty : List A → Bool
  is_empty [] = true
  is_empty (x ∷ xs) = false

  pub is_empty-append : (xs ys : List A) → is_empty (xs ++ ys) ≡ (is_empty xs && is_empty ys)
  is_empty-append [] ys = refl
  is_empty-append (x ∷ xs) ys = refl

  pub length-append : (xs ys : List A) → length (xs ++ ys) ≡ length xs + length ys
  length-append [] ys = omega arith
  length-append (x ∷ xs) ys = omega (arith, length-append xs ys)

-- Membership as a predicate that computes.
module _ {A : Type 0} where
  abbrev pub In : A → List A → Type 0
  In a [] = ⊥
  In a (x ∷ xs) = (a ≡ x) ⊎ In a xs

  abbrev pub All : (A → Type 0) → List A → Type 0
  All P [] = Unit
  All P (x ∷ xs) = P x × All P xs

  pub All-In : (P : A → Type 0) (a : A) (xs : List A) → All P xs → In a xs → P a
  All-In P a [] h m = absurd m
  All-In P a (x ∷ xs) h (inl e) = rw e h.0
  All-In P a (x ∷ xs) h (inr m) = All-In P a xs h.1 m

  pub All-intro : (P : A → Type 0) (xs : List A) → ((a : A) → In a xs → P a) → All P xs
  All-intro P [] h = tt
  All-intro P (x ∷ xs) h = (h x (inl refl), All-intro P xs (λ a m. h a (inr m)))

  pub All-mono : (P Q : A → Type 0) (xs : List A) → ((a : A) → P a → Q a) → All P xs → All Q xs
  All-mono P Q [] f h = tt
  All-mono P Q (x ∷ xs) f h = (f x h.0, All-mono P Q xs f h.1)

  pub All-append : (P : A → Type 0) (xs ys : List A) → All P xs → All P ys → All P (xs ++ ys)
  All-append P [] ys h k = k
  All-append P (x ∷ xs) ys h k = (h.0, All-append P xs ys h.1 k)

  pub In-append_left : (a : A) (xs ys : List A) → In a xs → In a (xs ++ ys)
  In-append_left a [] ys m = absurd m
  In-append_left a (x ∷ xs) ys (inl e) = inl e
  In-append_left a (x ∷ xs) ys (inr m) = inr (In-append_left a xs ys m)

  pub In-append_right : (a : A) (xs ys : List A) → In a ys → In a (xs ++ ys)
  In-append_right a [] ys m = m
  In-append_right a (x ∷ xs) ys m = inr (In-append_right a xs ys m)

  -- No item stands twice.
  abbrev pub NoRepeat : List A → Type 0
  NoRepeat [] = Unit
  NoRepeat (x ∷ xs) = (¬ In x xs) × NoRepeat xs

  pub eq_of_short : (a b : A) (xs : List A) → length xs ≤ 1 → In a xs → In b xs → a ≡ b
  eq_of_short a b [] h m k = absurd m
  eq_of_short a b (x ∷ []) h (inl p) (inl q) = p ∙ sym q
  eq_of_short a b (x ∷ []) h (inl p) (inr k) = absurd k
  eq_of_short a b (x ∷ []) h (inr m) k = absurd m
  eq_of_short a b (x ∷ y ∷ xs) h m k = absurd (omega arith)

  pub length-NoRepeat :
      (xs : List A) → NoRepeat xs → ((a b : A) → In a xs → In b xs → a ≡ b) → length xs ≤ 1
  length-NoRepeat [] h same = omega arith
  length-NoRepeat (x ∷ []) h same = omega arith
  length-NoRepeat (x ∷ y ∷ xs) h same = absurd (h.0 (inl (same x y (inl refl) (inr (inl refl)))))

  pub append-eq_nil : (xs ys : List A) → xs ++ ys ≡ [] → (xs ≡ []) × (ys ≡ [])
  append-eq_nil [] ys h = (refl, h)
  append-eq_nil (x ∷ xs) ys h = cc

  pub In-append-cases : (a : A) (xs ys : List A) → In a (xs ++ ys) → In a xs ⊎ In a ys
  In-append-cases a [] ys m = inr m
  In-append-cases a (x ∷ xs) ys (inl q) = inl (inl q)
  In-append-cases a (x ∷ xs) ys (inr m) = elim (In-append-cases a xs ys m) [
    | inl k ↦ inl (inr k)
    | inr k ↦ inr k
  ]

  NoRepeat-snoc-head : (n x : A) (xs : List A) → ¬ In x xs → (n ≢ x) → In x (xs ++ (n ∷ [])) → ⊥
  NoRepeat-snoc-head n x xs h o k = elim (In-append-cases x xs (n ∷ []) k) [
    | inl m ↦ h m
    | inr m ↦ elim m [ inl q ↦ o (sym q) | inr e ↦ absurd e ]
  ]

  pub NoRepeat-snoc : (n : A) (xs : List A) → NoRepeat xs → ¬ In n xs → NoRepeat (xs ++ (n ∷ []))
  NoRepeat-snoc n [] h o = (λ k. absurd k, tt)
  NoRepeat-snoc n (x ∷ xs) h o =
      (NoRepeat-snoc-head n x xs h.0 (λ q. o (inl q)), NoRepeat-snoc n xs h.1 (λ k. o (inr k)))

  -- A list of one item under a test.
  pub In-unit_if : (c : Bool) (x a : A) → In a (if c then x ∷ [] else []) → (c ≡ true) × (a ≡ x)
  In-unit_if true x a (inl q) = (refl, q)
  In-unit_if true x a (inr k) = absurd k
  In-unit_if false x a k = absurd k

  pub any-In : (p : A → Bool) (a : A) (xs : List A) → In a xs → p a ≡ true → any p xs ≡ true
  any-In p a [] m h = absurd m
  any-In p a (x ∷ xs) (inl e) h = rw (← e) (rw h)
  any-In p a (x ∷ xs) (inr m) h = or_intro_right (p x) (any p xs) (any-In p a xs m h)

  pub any-false-In : (p : A → Bool) (a : A) (xs : List A) → any p xs ≡ false → In a xs → p a ≡ false
  any-false-In p a [] h m = absurd m
  any-false-In p a (x ∷ xs) h (inl e) = rw e (ground arith)
  any-false-In p a (x ∷ xs) h (inr m) = any-false-In p a xs (ground arith) m

  pub any-elim : (p : A → Bool) (xs : List A) → any p xs ≡ true → (a : A) × In a xs × (p a ≡ true)
  any-elim p [] h = cc
  any-elim p (x ∷ xs) h = elim (Bool-cases (p x)) [
    | inl t ↦ (x, inl refl, t)
    | inr f ↦ let (a, m, t) = any-elim p xs (rw f at h) in (a, inr m, t)
  ]

  pub find-elim : (p : A → Bool) (a : A) (xs : List A) → find p xs ≡ some a → In a xs × (p a ≡ true)
  find-elim p a [] h = cc
  find-elim p a (x ∷ xs) h = elim (Bool-cases (p x)) [
    | inl t ↦ let e : x ≡ a = ground arith in (inl (sym e), rw (← e) t)
    | inr f ↦ let (m, t) = find-elim p a xs (rw f at h) in (inr m, t)
  ]

  pub find-absent :
      (p : A → Bool) (xs : List A) → ((a : A) → In a xs → p a ≡ false) → find p xs ≡ none
  find-absent p [] h = refl
  find-absent p (x ∷ xs) h = rw (h x (inl refl)) (find-absent p xs (λ a m. h a (inr m)))

  pub In-keep : (p : A → Bool) (a : A) (xs : List A) → In a (keep p xs) → In a xs × (p a ≡ true)
  In-keep p a [] m = absurd m
  In-keep p a (x ∷ xs) m = elim (Bool-cases (p x)) [
    | inl t ↦ from_head (In-keep p a xs) t (rw t at m)
    | inr f ↦ let (k, t) = In-keep p a xs (rw f at m) in (inr k, t)
  ]
    where
      from_head :
          (In a (keep p xs) → In a xs × (p a ≡ true))
          → p x ≡ true
          → In a (x ∷ keep p xs)
          → In a (x ∷ xs) × (p a ≡ true)
      from_head ih t (inl e) = (inl e, rw e t)
      from_head ih t (inr k) = (inr (ih k).0, (ih k).1)

  pub keep-In : (p : A → Bool) (a : A) (xs : List A) → In a xs → p a ≡ true → In a (keep p xs)
  keep-In p a [] m h = absurd m
  keep-In p a (x ∷ xs) (inl e) h = rw (← e) (rw h (inl refl))
  keep-In p a (x ∷ xs) (inr m) h = elim (Bool-cases (p x)) [
    | inl t ↦ rw t (inr (keep-In p a xs m h))
    | inr f ↦ rw f (keep-In p a xs m h)
  ]

-- `a in xs`
module _ {A : Type 0} ⦃e : Eq A⦄ where
  abbrev pub contains : A → List A → Bool
  contains a xs = any (λ x. a == x) xs

  pub contains-In : (a : A) (xs : List A) → contains a xs ≡ true → In a xs
  contains-In a xs h = let (x, m, t) = any-elim (λ x. a == x) xs h in rw (==→eq a x t) m

  pub In-contains : (a : A) (xs : List A) → In a xs → contains a xs ≡ true
  In-contains a xs m = any-In (λ x. a == x) a xs m (==-self a)

-- The image of a list.
module _ {A B : Type 0} where
  pub In-map : (f : A → B) (a : A) (xs : List A) → In a xs → In (f a) (map f xs)
  In-map f a [] m = absurd m
  In-map f a (x ∷ xs) (inl e) = inl (ap f e)
  In-map f a (x ∷ xs) (inr m) = inr (In-map f a xs m)

  pub map-In : (f : A → B) (b : B) (xs : List A) → In b (map f xs) → (a : A) × In a xs × (b ≡ f a)
  map-In f b [] m = absurd m
  map-In f b (x ∷ xs) (inl e) = (x, inl refl, e)
  map-In f b (x ∷ xs) (inr m) = let (a, k, q) = map-In f b xs m in (a, inr k, q)

  -- Two lists of one length whose items at each place are related.
  abbrev pub Pointwise : (A → B → Type 0) → List A → List B → Type 0
  Pointwise R [] [] = Unit
  Pointwise R [] (y ∷ ys) = ⊥
  Pointwise R (x ∷ xs) [] = ⊥
  Pointwise R (x ∷ xs) (y ∷ ys) = R x y × Pointwise R xs ys
