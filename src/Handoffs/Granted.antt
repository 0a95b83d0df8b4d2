-- ===== src/Handoffs/Granted.antt =====
-- app/db/repo/outbound_handoffs.py::authorize_outbound_provider_handoff: the handoff behind an
-- authority, which is the run's one and belongs to the lease.
use payroll_agent.Prelude.{
  ℕ, ◌≡◌, ◌⊎◌, refl, ap, inl, inr, list_eq, nat_eq, Bool, true, ltb, none, some, List, [], ◌∷◌,
  ◌++◌, any, find, map, Bool-cases, Option-cases, if◌then◌else◌, arith, ◌==◌, ==→eq, ==-self,
  find-elim,
}
use payroll_agent.Jobs.{Job}
use payroll_agent.Runs.{RunRow}
use payroll_agent.Store.{Db, Message, Snapshot, Handoff}
use payroll_agent.Handoffs.{
  authorization, HandoffOutcome, authorized, record_only, refused, is_active, active_handoff,
  new_handoff, same_delivery, can_adopt, adopt, update_handoffs, authorize_active,
  authorize_current,
}

-- The lease has the run's active handoff. A handoff that was given to it just now (the one of
-- `before` is none, or another lease's) ends with the lease of the job.
abbrev pub Owns : Job → ℕ → ℕ → Db → Db → Type 0
Owns job until run_id before db =
    (h : Handoff) × (active_handoff run_id db ≡ some h)
    × (h.lease_token ≡ job.lease_token)
    × ((h.owner_leased_until ≡ until) ⊎ (active_handoff run_id before ≡ some h))

-- An authorization leaves its lease as the owner.
abbrev pub Grants : Job → ℕ → ℕ → Db → HandoffOutcome × Db → Type 0
Grants job until run_id before (authorized a, db) =
    (a.run_id ≡ run_id) × Owns job until run_id before db
Grants job until run_id before (record_only i, db) = Unit {0}
Grants job until run_id before (refused why, db) = Unit {0}

find-map :
    (p : Handoff → Bool) (f : Handoff → Handoff) (xs : List Handoff) (h : Handoff)
    → ((x : Handoff) → p (f x) ≡ p x)
    → find p xs ≡ some h
    → find p (map f xs) ≡ some (f h)
find-map p f [] h same e = cc
find-map p f (x ∷ xs) h same e = elim (Bool-cases (p x)) [
  | inl t ↦ let q : x ≡ h = cc (rw t at e) in rw (same x, t) (ap (λ y. some (f y)) q)
  | inr n ↦ rw (same x, n) (find-map p f xs h same (rw n at e))
]

find-snoc :
    (p : Handoff → Bool) (xs : List Handoff) (h : Handoff)
    → find p xs ≡ none
    → p h ≡ true
    → find p (xs ++ (h ∷ [])) ≡ some h
find-snoc p [] h e t = rw t
find-snoc p (x ∷ xs) h e t = elim (Bool-cases (p x)) [
  | inl u ↦ cc (rw u at e)
  | inr n ↦ rw n (find-snoc p xs h (rw n at e) t)
]

adopt-is_active :
    (now until run_id : ℕ) (job : Job) (h x : Handoff)
    → is_active run_id (if can_adopt now h x then adopt job until x else x) ≡ is_active run_id x
unfolding is_active adopt
adopt-is_active now until run_id job h x = elim (Bool-cases (can_adopt now h x)) [
  | inl t ↦ rw t
  | inr n ↦ rw n
]

own_row :
    (now run_id : ℕ) (h : Handoff)
    → is_active run_id h ≡ true
    → ltb h.owner_leased_until now ≡ true
    → can_adopt now h h ≡ true
unfolding can_adopt is_active
own_row now run_id h t u = ground (arith, t, u)

adopted :
    (now until run_id : ℕ) (job : Job) (h : Handoff) (db : Db)
    → active_handoff run_id db ≡ some h
    → ltb h.owner_leased_until now ≡ true
    → active_handoff run_id (update_handoffs (can_adopt now h) (adopt job until) db)
      ≡ some (adopt job until h)
unfolding active_handoff update_handoffs
adopted now until run_id job h db e u =
    let (m, t) = find-elim (is_active run_id) h db.handoffs e in
    let q =
      find-map (is_active run_id) (λ x. if can_adopt now h x then adopt job until x else x)
        db.handoffs h (adopt-is_active now until run_id job h) e in
    rw (own_row now run_id h t u) at q

adopt-token :
    (job : Job) (until : ℕ) (h : Handoff) → (adopt job until h).lease_token ≡ job.lease_token
unfolding adopt
adopt-token job until h = refl

adopt-until : (job : Job) (until : ℕ) (h : Handoff) → (adopt job until h).owner_leased_until ≡ until
unfolding adopt
adopt-until job until h = refl

new-is_active :
    (now new_id : ℕ) (job : Job) (until run_id email_id epoch : ℕ) (s : Snapshot)
    → is_active run_id (new_handoff now new_id job until run_id email_id epoch s) ≡ true
unfolding is_active new_handoff
new-is_active now new_id job until run_id email_id epoch s = rw (==-self run_id) refl

new-token :
    (now new_id : ℕ) (job : Job) (until run_id email_id epoch : ℕ) (s : Snapshot)
    → (new_handoff now new_id job until run_id email_id epoch s).lease_token ≡ job.lease_token
unfolding new_handoff
new-token now new_id job until run_id email_id epoch s = refl

new-until :
    (now new_id : ℕ) (job : Job) (until run_id email_id epoch : ℕ) (s : Snapshot)
    → (new_handoff now new_id job until run_id email_id epoch s).owner_leased_until ≡ until
unfolding new_handoff
new-until now new_id job until run_id email_id epoch s = refl

module _ (now : ℕ) (job : Job) (until run_id email_id : ℕ) (run : RunRow) (m : Message)
    (s : Snapshot) where
  authorize_active-Grants :
      (h : Handoff) (db : Db)
      → active_handoff run_id db ≡ some h
      → Grants job until run_id db (authorize_active now job until run_id email_id run m s h db)
  unfolding authorize_active authorization
  authorize_active-Grants h db e =
      elim (Bool-cases (same_delivery h job run_id email_id run.reply_epoch s)) [
        | inr f ↦ rw f tt
        | inl t ↦ elim (Bool-cases (h.lease_token == job.lease_token)) [
          | inl same ↦ rw (t, same) (refl, (h, e, ==→eq h.lease_token job.lease_token same, inr e))
          | inr other ↦ elim (Bool-cases (ltb h.owner_leased_until now)) [
            | inr f ↦ rw (t, other, f) tt
            | inl u ↦ elim (Bool-cases (any (can_adopt now h) db.handoffs)) [
              | inr f ↦ rw (t, other, u, f) tt
              | inl v ↦
                  rw (t, other, u, v)
                    (
                      refl,
                      (
                        adopt job until h,
                        adopted now until run_id job h db e u,
                        adopt-token job until h,
                        inl (adopt-until job until h),
                      ),
                    )
            ]
          ]
        ]
      ]

  pub authorize_current-Grants :
      (new_id : ℕ) (db : Db)
      → Grants job until run_id db
          (authorize_current now new_id job until run_id email_id run m s db)
  unfolding authorize_current authorization
  authorize_current-Grants new_id db = elim (Option-cases (active_handoff run_id db)) [
    | inr (h, e) ↦ rw (e, authorize_current) (authorize_active-Grants h db e)
    | inl e ↦
        rw (e, authorize_current)
          (
            refl,
            (
              new_handoff now new_id job until run_id email_id run.reply_epoch s,
              find-snoc (is_active run_id) db.handoffs _ e
                  (new-is_active now new_id job until run_id email_id run.reply_epoch s),
              new-token now new_id job until run_id email_id run.reply_epoch s,
              inl (new-until now new_id job until run_id email_id run.reply_epoch s),
            ),
          )
  ]
