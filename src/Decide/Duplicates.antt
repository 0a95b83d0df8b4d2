-- ===== src/Decide/Duplicates.antt =====
-- app/pipeline/decide.py::check_one_to_one, the loop that reports a name submitted twice.
use payroll_agent.Prelude.{
  ◌≡◌, refl, inl, inr, Text, list_eq, nat_eq, List, [], ◌∷◌, map, contains, In, All, All-mono,
  All-In, All-intro, NoRepeat, contains-In, In-contains, arith, Bool-cases,
}
use mathlib.Core.Path.{subst}
use payroll_agent.Roster.{NameMatchResult}
use payroll_agent.Decide.{submitted, duplicate_reasons}

pub no_duplicate :
    (seen : List Text) (ms : List NameMatchResult)
    → duplicate_reasons seen [] ms ≡ []
    → All (λ n. ¬ In n seen) (map submitted ms) × NoRepeat (map submitted ms)
unfolding duplicate_reasons
no_duplicate seen [] h = (tt, tt)
no_duplicate seen (m ∷ ms) h = elim (Bool-cases (contains m.submitted_name seen)) [
  | inl t ↦ absurd (ground arith)
  | inr f ↦
      let tail : duplicate_reasons (m.submitted_name ∷ seen) [] ms ≡ [] = ground arith in
      let (new, apart) = no_duplicate (m.submitted_name ∷ seen) ms tail in
      (
        (
          λ k. cc (In-contains m.submitted_name seen k),
          All-mono (λ n. ¬ In n (m.submitted_name ∷ seen)) (λ n. ¬ In n seen) (map submitted ms)
              (λ n p k. p (inr k)) new,
        ),
        (
          λ k.
              All-In (λ n. ¬ In n (m.submitted_name ∷ seen)) m.submitted_name (map submitted ms) new
                k (inl refl),
          apart,
        ),
      )
]

pub no_duplicate_back :
    (seen : List Text) (ms : List NameMatchResult)
    → All (λ n. ¬ In n seen) (map submitted ms)
    → NoRepeat (map submitted ms)
    → duplicate_reasons seen [] ms ≡ []
unfolding duplicate_reasons
no_duplicate_back seen [] new apart = refl
no_duplicate_back seen (m ∷ ms) new apart = elim (Bool-cases (contains m.submitted_name seen)) [
  | inl t ↦ absurd (new.0 (contains-In m.submitted_name seen t))
  | inr f ↦ rw f (
      no_duplicate_back (m.submitted_name ∷ seen) ms
        (All-intro (λ n. ¬ In n (m.submitted_name ∷ seen)) (map submitted ms) fresh) apart.1)
]
  where
    still_new : (n : Text) → In n (map submitted ms) → In n (m.submitted_name ∷ seen) → ⊥
    still_new n k (inl q) = apart.0 (subst (λ x. In x (map submitted ms)) q k)
    still_new n k (inr o) = All-In (λ x. ¬ In x seen) n (map submitted ms) new.1 k o

    fresh : (n : Text) → In n (map submitted ms) → ¬ In n (m.submitted_name ∷ seen)
    fresh n k = still_new n k
