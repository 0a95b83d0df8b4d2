-- ===== src/Handoffs/Active.antt =====
-- app/db/repo/outbound_handoffs.py: the handoffs of a run that are in force at once.
use payroll_agent.Prelude.{
  ℕ, ◌≡◌, ◌≤◌, refl, ap, inl, inr, Text, codes, nat_eq, list_eq, Bool, true, ◌&&◌, ltb, none, List,
  [], ◌∷◌, ◌++◌, keep, length, length-append, find, map, any, ◌==◌, ==→eq, Bool-cases, Option-cases,
  if◌then◌else◌, arith, ok, Result, err,
}
use mathlib.Core.Path.{subst}
use payroll_agent.Jobs.{Job}
use payroll_agent.Runs.{RunRow, is_run}
use payroll_agent.Store.{Db, Message, Snapshot, Handoff, RuntimeError}
use payroll_agent.Settlement.{locked_job}
use payroll_agent.Handoffs.{
  Authorization, HandoffOutcome, is_active, active_handoff, adopt, can_adopt, update_handoffs,
  is_exact, release_handoff, release_exact_handoff, new_handoff, authorize_active,
  authorize_current, authorize_slot, authorize_ids, authorize_outbound_provider_handoff,
  delivery_ids, reserved_slot, same_delivery, has_status, expected_run_status,
}
use payroll_agent.Outcome.{delivery_replay_allowed}

-- At most one handoff of a run is in force.
abbrev pub OneActive : List Handoff → Type 0
OneActive hs = (run_id : ℕ) → length (keep (is_active run_id) hs) ≤ 1

-- A change that puts no handoff in force.
abbrev pub Ending : (Handoff → Handoff) → Type 0
Ending f = (run_id : ℕ) (h : Handoff) → is_active run_id (f h) ≡ true → is_active run_id h ≡ true

length-keep-map :
    (p : Handoff → Bool) (f : Handoff → Handoff)
    → ((h : Handoff) → p (f h) ≡ true → p h ≡ true)
    → (hs : List Handoff) → length (keep p (map f hs)) ≤ length (keep p hs)
length-keep-map p f c [] = omega arith
length-keep-map p f c (h ∷ hs) =
    let ih = length-keep-map p f c hs in
    elim (Bool-cases (p (f h))) [
      | inl t ↦ rw (t, c h t) (omega (arith, ih))
      | inr n ↦ elim (Bool-cases (p h)) [
        | inl t ↦ rw (n, t) (omega (arith, ih))
        | inr k ↦ rw (n, k) ih
      ]
    ]

length-keep-none :
    (p : Handoff → Bool) (hs : List Handoff) → find p hs ≡ none → length (keep p hs) ≡ 0
length-keep-none p [] e = refl
length-keep-none p (h ∷ hs) e = elim (Bool-cases (p h)) [
  | inl t ↦ cc (rw t at e)
  | inr n ↦ rw n (length-keep-none p hs (rw n at e))
]

keep-append : (p : Handoff → Bool) (a b : List Handoff) → keep p (a ++ b) ≡ keep p a ++ keep p b
keep-append p [] b = refl
keep-append p (h ∷ a) b = elim (Bool-cases (p h)) [
  | inl t ↦ rw t (ap (λ xs. h ∷ xs) (keep-append p a b))
  | inr n ↦ rw n (keep-append p a b)
]

conditional-Ending :
    (test : Handoff → Bool) (f : Handoff → Handoff)
    → Ending f
    → Ending (λ h. if test h then f h else h)
conditional-Ending test f c run_id h t = elim (Bool-cases (test h)) [
  | inl y ↦ c run_id h (rw y at t)
  | inr n ↦ rw n at t
]

pub update_handoffs-OneActive :
    (test : Handoff → Bool) (f : Handoff → Handoff) (db : Db)
    → Ending f
    → OneActive db.handoffs
    → OneActive (update_handoffs test f db).handoffs
unfolding update_handoffs
update_handoffs-OneActive test f db c one run_id =
    let le =
      length-keep-map (is_active run_id) (λ h. if test h then f h else h)
        (λ h. conditional-Ending test f c run_id h) db.handoffs in
    omega (arith, le, one run_id)

pub release_handoff-Ending : (now : ℕ) (reason : Text) → Ending (release_handoff now reason)
unfolding release_handoff is_active
release_handoff-Ending now reason run_id h t = ground (arith, t)

adopt-Ending : (job : Job) (until : ℕ) → Ending (adopt job until)
unfolding adopt is_active
adopt-Ending job until run_id h t = t

pub release_exact_handoff-OneActive :
    (now : ℕ) (reason : Text) (a : Authorization) (db : Db)
    → OneActive db.handoffs
    → OneActive (release_exact_handoff now reason a db).1.handoffs
unfolding release_exact_handoff
release_exact_handoff-OneActive now reason a db =
    update_handoffs-OneActive (is_exact a) (release_handoff now reason) db
      (release_handoff-Ending now reason)

active-run : (run_id : ℕ) (h : Handoff) → is_active run_id h ≡ true → h.run_id ≡ run_id
unfolding is_active
active-run run_id h t = ==→eq h.run_id run_id (ground (arith, t))

opened-OneActive :
    (h : Handoff) (hs : List Handoff)
    → find (is_active h.run_id) hs ≡ none
    → OneActive hs
    → OneActive (hs ++ (h ∷ []))
opened-OneActive h hs e one run_id =
    let split = keep-append (is_active run_id) hs (h ∷ []) in
    elim (Bool-cases (is_active run_id h)) [
      | inr n ↦
          rw (split, n)
            (rw (length-append (keep (is_active run_id) hs) []) (omega (arith, one run_id)))
      | inl t ↦
          let own : h.run_id ≡ run_id = active-run run_id h t in
          let zero : length (keep (is_active run_id) hs) ≡ 0 =
            length-keep-none (is_active run_id) hs
              (subst (λ i. find (is_active i) hs ≡ none) own e) in
          rw (split, t)
            (rw (length-append (keep (is_active run_id) hs) (h ∷ [])) (omega (arith, zero)))
    ]

-- An authorization leaves the jobs alone, and the handoffs of a run at most one.
abbrev pub Guards : Db → Db → Type 0
Guards db after = (after.jobs ≡ db.jobs) × (OneActive db.handoffs → OneActive after.handoffs)

unchanged : (db : Db) → Guards db db
unchanged db = (refl, λ one. one)

module _ (now new_id : ℕ) (job : Job) (until run_id email_id : ℕ) (db : Db) where
  authorize_active-Guards :
      (run : RunRow) (m : Message) (s : Snapshot) (h : Handoff)
      → Guards db (authorize_active now job until run_id email_id run m s h db).1
  unfolding authorize_active
  authorize_active-Guards run m s h =
      elim (Bool-cases (same_delivery h job run_id email_id run.reply_epoch s)) [
        | inr n ↦ rw n (unchanged db)
        | inl t ↦ elim (Bool-cases (h.lease_token == job.lease_token)) [
          | inl own ↦ rw (t, own) (unchanged db)
          | inr other ↦ elim (Bool-cases (ltb h.owner_leased_until now)) [
            | inr held ↦ rw (t, other, held) (unchanged db)
            | inl over ↦ elim (Bool-cases (any (can_adopt now h) db.handoffs)) [
              | inr gone ↦ rw (t, other, over, gone) (unchanged db)
              | inl found ↦
                  rw (t, other, over, found)
                    (
                      refl,
                      update_handoffs-OneActive (can_adopt now h) (adopt job until) db
                          (adopt-Ending job until),
                    )
            ]
          ]
        ]
      ]

  authorize_current-Guards :
      (run : RunRow) (m : Message) (s : Snapshot)
      → Guards db (authorize_current now new_id job until run_id email_id run m s db).1
  unfolding authorize_current active_handoff new_handoff
  authorize_current-Guards run m s = elim (Option-cases (find (is_active run_id) db.handoffs)) [
    | inr (h, e) ↦ rw (e, authorize_current) (authorize_active-Guards run m s h)
    | inl e ↦
        rw (e, authorize_current)
          (
            refl,
            opened-OneActive (new_handoff now new_id job until run_id email_id run.reply_epoch s)
                db.handoffs e,
          )
  ]

  authorize_slot-Guards :
      (run : RunRow) (m : Message) (s : Snapshot)
      → Guards db (authorize_slot now new_id job until run_id email_id run m s db).1
  unfolding authorize_slot
  authorize_slot-Guards run m s = elim (Bool-cases run.record_only) [
    | inl t ↦ rw t (unchanged db)
    | inr f ↦
        elim (Bool-cases
          (has_status run (expected_run_status m.purpose) && m.epoch == run.reply_epoch)) [
            | inr n ↦ rw (f, n) (unchanged db)
            | inl t ↦ elim (Bool-cases (delivery_replay_allowed s.reserved_at now)) [
              | inr n ↦ rw (f, t, n) (unchanged db)
              | inl w ↦ rw (f, t, w) (authorize_current-Guards run m s)
            ]
          ]
  ]

  authorize_ids-Guards : Guards db (authorize_ids now new_id job until run_id email_id db).1
  unfolding authorize_ids
  authorize_ids-Guards = elim (Option-cases (reserved_slot run_id email_id db)) [
    | inl n ↦ rw (n, authorize_ids) (unchanged db)
    | inr ((m, s), e) ↦ elim (Bool-cases (m.send_state == codes "reserved")) [
      | inr n ↦ rw (e, authorize_ids) (rw n (unchanged db))
      | inl t ↦ elim (Option-cases (find (is_run run_id) db.runs)) [
        | inl n ↦ rw (e, authorize_ids) (rw t (rw (n, authorize_ids) (unchanged db)))
        | inr (run, g) ↦
            rw (e, authorize_ids) (rw t (rw (g, authorize_ids) (authorize_slot-Guards run m s)))
      ]
    ]
  ]

-- What a transaction that returns leaves, the jobs unchanged.
abbrev pub Fenced : Db → Result RuntimeError (HandoffOutcome × Db) → Type 0
Fenced db (err e) = Unit
Fenced db (ok (o, after)) = Guards db after

pub authorize-Fenced :
    (now new_id : ℕ) (job : Job) (db : Db)
    → Fenced db (authorize_outbound_provider_handoff now new_id job db)
unfolding authorize_outbound_provider_handoff
authorize-Fenced now new_id job db = elim (Option-cases (locked_job job db.jobs)) [
  | inl n ↦ rw (n, authorize_outbound_provider_handoff) (unchanged db)
  | inr (r, e) ↦ elim (Option-cases r.leased_until) [
    | inl n ↦
        rw (e, authorize_outbound_provider_handoff) (rw (n, authorize_outbound_provider_handoff) tt)
    | inr (until, l) ↦ elim (Option-cases (delivery_ids r job)) [
      | inl n ↦
          rw (e, authorize_outbound_provider_handoff)
            (rw (l, n, authorize_outbound_provider_handoff) (unchanged db))
      | inr ((run_id, email_id), i) ↦
          rw (e, authorize_outbound_provider_handoff)
            (rw (l, i, authorize_outbound_provider_handoff)
              (authorize_ids-Guards now new_id job until run_id email_id db))
    ]
  ]
]
