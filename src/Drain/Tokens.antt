-- ===== src/Drain/Tokens.antt =====
-- app/queue/drain.py: which leases a snapshot of the held tokens misses.
use payroll_agent.Prelude.{
  ℕ, ◌+◌, ◌≤◌, ◌≡◌, ◌≢◌, ◌⊎◌, refl, sym, ap, ◌∙◌, inl, inr, nat_eq, true, not, some, List, [], ◌∷◌,
  ◌++◌, ◌==◌, In, All, keep-In, In-keep, arith, Bool-cases, ==-cases, ne→==, ==→eq, leb, leb→le,
}
use mathlib.Core.Path.{subst}
use payroll_agent.Drain.{
  Phase, idle, claiming, unanswered, granted, working, settled, Workers, discard, Step, begins,
  is_granted, finds_nothing, records, gives_up, settles, discards, forgets, keeps, expires, is_idle,
  replaced, Reachable, starts, then_step, held_tokens,
}

weight : Phase → ℕ
weight idle = 0
weight claiming = 1
weight unanswered = 1
weight (granted t) = 1
weight (working t) = 0
weight (settled t) = 0

count : List Phase → ℕ
count [] = 0
count (p ∷ ps) = weight p + count ps

count-at :
    (before : List Phase) (p : Phase) (after : List Phase)
    → count (before ++ (p ∷ after)) ≡ count before + weight p + count after
unfolding count
count-at [] p after = omega arith
count-at (q ∷ before) p after = omega (arith, count-at before p after)

-- Another phase at one place leaves every other phase where it is.
In-swap :
    (q p p' : Phase) (before after : List Phase)
    → In q (before ++ (p ∷ after))
    → (q ≡ p) ⊎ In q (before ++ (p' ∷ after))
In-swap q p p' [] after (inl e) = inl e
In-swap q p p' [] after (inr m) = inr (inr m)
In-swap q p p' (x ∷ before) after (inl e) = inr (inl e)
In-swap q p p' (x ∷ before) after (inr m) = elim (In-swap q p p' before after m) [
  | inl e ↦ inl e
  | inr k ↦ inr (inr k)
]

discard-In : (token t : ℕ) (xs : List ℕ) → In t (discard token xs) → In t xs × (t ≢ token)
unfolding discard
discard-In token t xs m =
    let (k, u) = In-keep (λ x. not (x == token)) t xs m in (k, λ e. ground (arith, u, e))

In-discard : (token t : ℕ) (xs : List ℕ) → In t xs → t ≢ token → In t (discard token xs)
unfolding discard
In-discard token t xs m ne = keep-In (λ x. not (x == token)) t xs m (rw (ne→== t token ne) refl)

-- A lease is held, forgotten on a `fenced` answer, or still to be recorded.
abbrev IsCovered : Workers → ℕ → Type 0
IsCovered s t = (In t s.held ⊎ In t s.forgotten) ⊎ In (granted t) s.phases

-- The counter counts the threads with a claim that is not recorded; every lease is covered; and a
-- token that is to be discarded after a settlement is no lease any more.
record IsTracked (s : Workers) : Type 0 where
  counted : s.in_flight ≡ count s.phases
  covered : (t : ℕ) → In t s.leases → IsCovered s t
  spent : (t : ℕ) → In (settled t) s.phases → ¬ In t s.leases

phases-swap :
    (q p p' : Phase) (before after : List Phase) (phases : List Phase)
    → phases ≡ before ++ (p ∷ after)
    → q ≢ p
    → In q phases
    → In q (before ++ (p' ∷ after))
phases-swap q p p' before after phases e ne m =
    elim (In-swap q p p' before after (subst (In q) e m)) [ inl d ↦ absurd (ne d) | inr k ↦ k ]

phases-back :
    (q p p' : Phase) (before after : List Phase) (phases : List Phase)
    → phases ≡ before ++ (p ∷ after)
    → q ≢ p'
    → In q (before ++ (p' ∷ after))
    → In q phases
phases-back q p p' before after phases e ne m = elim (In-swap q p' p before after m) [
  | inl d ↦ absurd (ne d)
  | inr k ↦ subst (In q) (sym e) k
]

-- The counter after a step at one place.
counted-at :
    (before : List Phase) (p p' : Phase) (after : List Phase) (phases : List Phase) (n : ℕ)
    → phases ≡ before ++ (p ∷ after)
    → n ≡ count phases
    → n + weight p' ≡ count (before ++ (p' ∷ after)) + weight p
counted-at before p p' after phases n e c =
    omega (arith, count-at before p after, count-at before p' after, c, ap count e)

In-here : (before : List Phase) (p : Phase) (after : List Phase) → In p (before ++ (p ∷ after))
In-here [] p after = inl refl
In-here (q ∷ before) p after = inr (In-here before p after)

-- A step that neither uses up a grant nor comes to discard a token.
moves :
    (s : Workers) (before : List Phase) (p p' : Phase) (after : List Phase)
    → s.phases ≡ before ++ (p ∷ after)
    → (n : ℕ) → n ≡ count (before ++ (p' ∷ after))
    → ((t : ℕ) → granted t ≢ p)
    → ((t : ℕ) → settled t ≢ p')
    → IsTracked s
    → IsTracked (record (replaced s before p' after) { in_flight = n })
moves s before p p' after e n c from to v = record {
  counted = c;
  covered = λ t m. elim (v.covered t m) [
    | inl h ↦ inl h
    | inr g ↦ inr (phases-swap (granted t) p p' before after s.phases e (from t) g)
  ];
  spent = λ t m. v.spent t (phases-back (settled t) p p' before after s.phases e (to t) m);
}

Step-IsTracked : {s s' : Workers} → Step s s' → IsTracked s → IsTracked s'
unfolding weight
Step-IsTracked {s} (begins before after e) v =
    moves s before idle claiming after e _
      (omega (arith, counted-at before idle claiming after s.phases s.in_flight e v.counted))
      (λ t q. cc q) (λ t q. cc q) v
Step-IsTracked {s} (is_granted before after token e new) v = record {
  counted =
      omega
        (arith, counted-at before claiming (granted token) after s.phases s.in_flight e v.counted);
  covered = λ t m. elim m [
    | inl q ↦ inr (
        subst (λ k. In (granted k) (before ++ (granted token ∷ after))) (sym q)
          (In-here before (granted token) after))
    | inr k ↦ elim (v.covered t k) [
      | inl h ↦ inl h
      | inr g ↦
          inr
            (phases-swap (granted t) claiming (granted token) before after s.phases e (λ q. cc q) g)
    ]
  ];
  spent = λ t m k.
      let old =
        phases-back (settled t) claiming (granted token) before after s.phases e (λ q. cc q) m in
      elim k [ inl q ↦ new (subst (λ x. In (settled x) s.phases) q old) | inr l ↦ v.spent t old l ];
}
Step-IsTracked {s} (finds_nothing before after e) v =
    moves s before claiming unanswered after e _
      (omega (arith, counted-at before claiming unanswered after s.phases s.in_flight e v.counted))
      (λ t q. cc q) (λ t q. cc q) v
Step-IsTracked {s} (records before after token e) v = record {
  counted = omega (
    arith,
    counted-at before (granted token) (working token) after s.phases s.in_flight e v.counted,
  );
  covered = λ t m. elim (v.covered t m) [
    | inl (inl h) ↦ inl (inl (inr h))
    | inl (inr lost) ↦ inl (inr lost)
    | inr g ↦
        elim (In-swap (granted t) (granted token) (working token) before after
          (subst (In (granted t)) e g)) [
            | inl d ↦ let q : t ≡ token = cc d in inl (inl (inl q))
            | inr k ↦ inr k
          ]
  ];
  spent = λ t m. v.spent t (
      phases-back (settled t) (granted token) (working token) before after s.phases e (λ q. cc q)
        m);
}
Step-IsTracked {s} (gives_up before after e) v =
    moves s before unanswered idle after e _
      (omega (arith, counted-at before unanswered idle after s.phases s.in_flight e v.counted))
      (λ t q. cc q) (λ t q. cc q) v
Step-IsTracked {s} (settles before after token e) v = record {
  counted = omega (
    arith,
    counted-at before (working token) (settled token) after s.phases s.in_flight e v.counted,
  );
  covered = λ t m. elim (v.covered t (discard-In token t s.leases m).0) [
    | inl h ↦ inl h
    | inr g ↦ inr (
        phases-swap (granted t) (working token) (settled token) before after s.phases e (λ q. cc q)
          g)
  ];
  spent = λ t m k.
      let (l, ne) = discard-In token t s.leases k in
      elim (In-swap (settled t) (settled token) (working token) before after m) [
        | inl d ↦ let q : t ≡ token = cc d in ne q
        | inr old ↦ v.spent t (subst (In (settled t)) (sym e) old) l
      ];
}
Step-IsTracked {s} (discards before after token e) v = record {
  counted =
      omega (arith, counted-at before (settled token) idle after s.phases s.in_flight e v.counted);
  covered = λ t m. elim (v.covered t m) [
    | inl (inr lost) ↦ inl (inr lost)
    | inl (inl h) ↦ inl (
        inl (
          In-discard token t s.held h (λ q.
            v.spent token
              (subst (In (settled token)) (sym e) (In-here before (settled token) after))
              (subst (λ x. In x s.leases) q m))))
    | inr g ↦
        inr (phases-swap (granted t) (settled token) idle before after s.phases e (λ q. cc q) g)
  ];
  spent = λ t m.
      v.spent t
        (phases-back (settled t) (settled token) idle before after s.phases e (λ q. cc q) m);
}
Step-IsTracked {s} (forgets before after token kind e f) v = record {
  counted =
      omega (arith, counted-at before (working token) idle after s.phases s.in_flight e v.counted);
  covered = λ t m. elim (v.covered t m) [
    | inl (inr lost) ↦ inl (inr (inr lost))
    | inl (inl h) ↦ inl (discarded t h)
    | inr g ↦
        inr (phases-swap (granted t) (working token) idle before after s.phases e (λ q. cc q) g)
  ];
  spent = λ t m.
      v.spent t
        (phases-back (settled t) (working token) idle before after s.phases e (λ q. cc q) m);
}
  where
    discarded : (t : ℕ) → In t s.held → In t (discard token s.held) ⊎ In t (token ∷ s.forgotten)
    discarded t h = elim (==-cases t token) [
      | inl q ↦ inr (inl q)
      | inr ne ↦ inl (In-discard token t s.held h (λ q. ground (arith, ne, q)))
    ]
Step-IsTracked {s} (keeps before after token e) v =
    moves s before (working token) idle after e _
      (omega (arith, counted-at before (working token) idle after s.phases s.in_flight e v.counted))
      (λ t q. cc q) (λ t q. cc q) v
Step-IsTracked {s} (expires token) v = record {
  counted = v.counted;
  covered = λ t m. v.covered t (discard-In token t s.leases m).0;
  spent = λ t m k. v.spent t m (discard-In token t s.leases k).0;
}

start-count : (phases : List Phase) → All (λ p. is_idle p ≡ true) phases → count phases ≡ 0
unfolding count weight is_idle
start-count [] h = refl
start-count (p ∷ ps) (i, h) = omega (arith, idle-weight p i, start-count ps h)
  where
    idle-weight : (p : Phase) → is_idle p ≡ true → weight p ≡ 0
    idle-weight p i = ground (arith, i)

Reachable-IsTracked : {s : Workers} → Reachable s → IsTracked s
Reachable-IsTracked (starts s all_idle held none_open leases kept) = record {
  counted = none_open ∙ sym (start-count s.phases all_idle);
  covered = λ t m. absurd (subst (In t) leases m);
  spent = λ t m k. absurd (subst (In t) leases k);
}
Reachable-IsTracked (then_step r step) = Step-IsTracked step (Reachable-IsTracked r)

granted-count : (t : ℕ) (ps : List Phase) → In (granted t) ps → 1 ≤ count ps
unfolding count weight
granted-count t [] m = absurd m
granted-count t (p ∷ ps) (inl q) = rw (← q) (omega arith)
granted-count t (p ∷ ps) (inr m) = omega (arith, granted-count t ps m)

-- With no claim in flight the held tokens, with those that were forgotten, are all that the database
-- has leased to the process.
quiet-complete :
    (s : Workers)
    → Reachable s
    → s.in_flight ≡ 0
    → (t : ℕ) → In t s.leases
    → In t s.held ⊎ In t s.forgotten
quiet-complete s r q t m =
    let v = Reachable-IsTracked r in
    elim (v.covered t m) [
      | inl h ↦ h
      | inr g ↦ absurd (omega (arith, granted-count t s.phases g, v.counted, q))
    ]

-- What a snapshot of the held tokens says: the tokens are those of one of the states that were
-- polled, and but for the forgotten ones they miss no lease of that state unless the deadline had
-- passed.
abbrev pub Snapshot : ℕ → List (ℕ × Workers) → List ℕ → Type 0
Snapshot deadline polls tokens =
    (now : ℕ) × (s : Workers) × In (now, s) polls
    × (tokens ≡ s.held)
    × (((t : ℕ) → In t s.leases → In t tokens ⊎ In t s.forgotten) ⊎ (deadline ≤ now))

-- Whatever the threads do between the polls, the shutdown's snapshot holds every lease that the
-- database has granted to the process, but for the tokens that a thread forgot on a `fenced` answer
-- to a job that is no delivery, unless the wait for the claims in flight timed out.
pub held_tokens-Snapshot :
    (deadline : ℕ) (polls : List (ℕ × Workers)) (tokens : List ℕ)
    → All (λ p. Reachable p.1) polls
    → held_tokens deadline polls ≡ some tokens
    → Snapshot deadline polls tokens
unfolding held_tokens
held_tokens-Snapshot deadline [] tokens r h = cc
held_tokens-Snapshot deadline ((now, s) ∷ polls) tokens (r, rs) h =
    elim (Bool-cases (s.in_flight == 0)) [
      | inl q ↦
          let e : s.held ≡ tokens = cc (rw q at h) in
          (
            now,
            s,
            inl refl,
            sym e,
            inl (λ t m.
                subst (λ xs. In t xs ⊎ In t s.forgotten) e
                  (quiet-complete s r (==→eq s.in_flight 0 q) t m)),
          )
      | inr f ↦ elim (Bool-cases (leb deadline now)) [
        | inl l ↦
            let e : s.held ≡ tokens = cc (rw (f, l) at h) in
            (now, s, inl refl, sym e, inr (leb→le deadline now l))
        | inr l ↦
            let (n, x, m, q, c) = held_tokens-Snapshot deadline polls tokens rs (rw (f, l) at h) in
            (n, x, inr m, q, c)
      ]
    ]
