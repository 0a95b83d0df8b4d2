-- ===== src/Handlers/Starts.antt =====
-- app/queue/handlers/pipeline.py: when the stages of a run start, and from which table of runs.
use payroll_agent.Prelude.{
  ℕ, ◌≡◌, ◌⊎◌, refl, sym, ap, ◌∙◌, inl, inr, list_eq, nat_eq, Bool, true, false, ◌||◌, ◌&&◌, ltb,
  some, List, [], ◌∷◌, In, In-map, any, any-In, any-elim, any-false-In, map, ◌==◌, ==-self,
  Bool-cases, if◌then◌else◌, arith,
}
use mathlib.Core.Path.{subst}
use payroll_agent.Jobs.{Job}
use payroll_agent.Runs.{
  received, extracting, Runs, RunRow, status_value, in_status, move_status, update_runs,
  claim_status, is_stranded, can_rewind, rewind, rewind_for_reclaim,
}
use payroll_agent.Runs.Swap.{in_status-parts}
use payroll_agent.Store.{Db}
use payroll_agent.Handoffs.Handler.{bounded_noop}
use payroll_agent.Handlers.{Handled, reclaimed, start_run, handle_run_pipeline}

-- A run that a job may start: it is received, or a second attempt finds it stranded.
abbrev pub can_start : ℕ → ℕ → RunRow → Bool
can_start attempts run_id r = in_status run_id received r || (ltb 1 attempts && can_rewind run_id r)

abbrev pub epochs : Runs → List ℕ
epochs = map (λ (r : RunRow). r.reply_epoch)

-- The stages start, with the run extracting and no epoch changed; or nothing happens.
abbrev pub Starts : (ℕ → Db → Handled) → ℕ → ℕ → Db → Handled → Type 0
Starts run_pipeline_now attempts run_id db h =
    ((any (can_start attempts run_id) db.runs ≡ true)
      × (runs : Runs) × (h ≡ run_pipeline_now run_id (record db { runs = runs }))
      × (any (in_status run_id extracting) runs ≡ true)
      × (epochs runs ≡ epochs db.runs))
    ⊎ ((any (can_start attempts run_id) db.runs ≡ false) × (h ≡ (some bounded_noop, db)))

any-absent :
    (test : RunRow → Bool) (runs : Runs)
    → ((r : RunRow) → In r runs → test r ≡ false)
    → any test runs ≡ false
any-absent test [] h = refl
any-absent test (r ∷ runs) h = rw (h r (inl refl)) (any-absent test runs (λ x m. h x (inr m)))

map-same :
    (test : RunRow → Bool) (set : RunRow → RunRow) (runs : Runs)
    → any test runs ≡ false
    → map (λ r. if test r then set r else r) runs ≡ runs
map-same test set [] f = refl
map-same test set (r ∷ runs) f = elim (Bool-cases (test r)) [
  | inl t ↦ cc (rw t at f)
  | inr n ↦ rw n (ap (λ xs. r ∷ xs) (map-same test set runs (rw n at f)))
]

pub epochs-same :
    (test : RunRow → Bool) (set : RunRow → RunRow) (runs : Runs)
    → ((r : RunRow) → (set r).reply_epoch ≡ r.reply_epoch)
    → epochs (map (λ r. if test r then set r else r) runs) ≡ epochs runs
epochs-same test set [] k = refl
epochs-same test set (r ∷ runs) k =
    let ih = epochs-same test set runs k in
    elim (Bool-cases (test r)) [
      | inl t ↦ rw t (rw (k r) (ap (λ xs. r.reply_epoch ∷ xs) ih))
      | inr n ↦ rw n (ap (λ xs. r.reply_epoch ∷ xs) ih)
    ]

received_kept :
    (run_id : ℕ) (r : RunRow) → in_status run_id received r ≡ true → can_rewind run_id r ≡ false
unfolding can_rewind is_stranded
received_kept run_id r t =
    let (i, s) = in_status-parts run_id received r t in
    let f : is_stranded r.status ≡ false = ap is_stranded s in ground (arith, f)

pub rewound_received :
    (now run_id : ℕ) (r : RunRow)
    → can_rewind run_id r ≡ true
    → in_status run_id received (rewind now r) ≡ true
unfolding can_rewind rewind in_status
rewound_received now run_id r t =
    let i : (r.id == run_id) ≡ true = ground (arith, t) in rw i (==-self (status_value received))

moved_extracting :
    (now run_id : ℕ) (r : RunRow)
    → in_status run_id received r ≡ true
    → in_status run_id extracting (move_status now extracting r) ≡ true
unfolding in_status move_status
moved_extracting now run_id r t =
    let i : (r.id == run_id) ≡ true = ground (arith, t) in rw i (==-self (status_value extracting))

module _ (now attempts run_id : ℕ) (runs : Runs) where
  -- A run that can start is received after the rewind.
  started :
      (r : RunRow)
      → In r runs
      → can_start attempts run_id r ≡ true
      → (x : RunRow) × In x (reclaimed now attempts run_id runs)
        × (in_status run_id received x ≡ true)
  unfolding reclaimed rewind_for_reclaim update_runs
  started r m t = elim (Bool-cases (ltb 1 attempts)) [
    | inr once ↦
        let u : in_status run_id received r ≡ true = ground (arith, rw once at t) in
        (r, rw once m, u)
    | inl again ↦
        let k = In-map (λ y. if can_rewind run_id y then rewind now y else y) r runs m in
        elim (Bool-cases (in_status run_id received r)) [
          | inl u ↦
              let n = received_kept run_id r u in
              let k' : In r (map (λ y. if can_rewind run_id y then rewind now y else y) runs) =
                rw n at k in
              (r, rw again k', u)
          | inr n ↦
              let c : can_rewind run_id r ≡ true = ground (arith, rw (again, n) at t) in
              let k' : In (rewind now r)
                  (map (λ y. if can_rewind run_id y then rewind now y else y) runs) =
                rw c at k in
              (rewind now r, rw again k', rewound_received now run_id r c)
        ]
  ]

  reclaimed-epochs : epochs (reclaimed now attempts run_id runs) ≡ epochs runs
  unfolding reclaimed rewind_for_reclaim update_runs rewind
  reclaimed-epochs = elim (Bool-cases (ltb 1 attempts)) [
    | inr once ↦ rw once refl
    | inl again ↦ rw again (epochs-same (can_rewind run_id) (rewind now) runs (λ r. refl))
  ]

  -- Without such a run the rewind finds none.
  reclaimed-same :
      any (can_start attempts run_id) runs ≡ false
      → (reclaimed now attempts run_id runs ≡ runs) × (any (in_status run_id received) runs ≡ false)
  unfolding reclaimed rewind_for_reclaim update_runs
  reclaimed-same f =
      let off =
        λ (r : RunRow) (m : In r runs). any-false-In (can_start attempts run_id) r runs f m in
      (
        elim (Bool-cases (ltb 1 attempts)) [
          | inr once ↦ rw once refl
          | inl again ↦ rw again (
              map-same (can_rewind run_id) (rewind now) runs (
                any-absent (can_rewind run_id) runs
                  (λ r m. let g = off r m in ground (arith, rw again at g))))
        ],
        any-absent (in_status run_id received) runs (λ r m. let g = off r m in ground (arith, g)),
      )

start_run-Starts :
    (now : ℕ) (run_pipeline_now : ℕ → Db → Handled) (attempts run_id : ℕ) (db : Db)
    → Starts run_pipeline_now attempts run_id db (start_run now run_pipeline_now attempts run_id db)
unfolding start_run claim_status move_status
start_run-Starts now run_pipeline_now attempts run_id db =
    let runs = reclaimed now attempts run_id db.runs in
    elim (Bool-cases (any (can_start attempts run_id) db.runs)) [
      | inr f ↦
          let (same, lost) = reclaimed-same now attempts run_id db.runs f in
          let lost' : any (in_status run_id received) runs ≡ false =
            subst (λ (rs : Runs). any (in_status run_id received) rs ≡ false) (sym same) lost in
          let kept : (claim_status now run_id received extracting runs).1 ≡ db.runs =
            map-same (in_status run_id received) (move_status now extracting) runs lost' ∙ same in
          inr (f, rw lost' (ap (λ (rs : Runs). (some bounded_noop, record db { runs = rs })) kept))
      | inl t ↦
          let (r, m, u) = any-elim (can_start attempts run_id) db.runs t in
          let (x, k, w) = started now attempts run_id db.runs r m u in
          let won : any (in_status run_id received) runs ≡ true =
            any-In (in_status run_id received) x runs k w in
          let after = (claim_status now run_id received extracting runs).1 in
          let j : In (move_status now extracting x) after = rw w at (
            In-map (λ y. if in_status run_id received y then move_status now extracting y else y) x
              runs k) in
          inl (
            t,
            after,
            rw won refl,
            any-In (in_status run_id extracting) (move_status now extracting x) after j
                (moved_extracting now run_id x w),
            epochs-same (in_status run_id received) (move_status now extracting) runs (λ y. refl)
                ∙ reclaimed-epochs now attempts run_id db.runs,
          )
    ]

-- The handler of a `run_pipeline` job starts the stages exactly when the run is received, or, on a
-- second or later attempt, was left extracting, computed or sent; the stages then find it
-- extracting, and no run's reply epoch has changed. In every other status it answers with the
-- result that does nothing, and no table changes.
pub handle_run_pipeline-Starts :
    (now : ℕ) (run_pipeline_now : ℕ → Db → Handled) (job : Job) (run_id : ℕ) (db : Db)
    → job.run_id ≡ some run_id
    → Starts run_pipeline_now job.attempts run_id db
        (handle_run_pipeline now run_pipeline_now job db)
unfolding handle_run_pipeline
handle_run_pipeline-Starts now run_pipeline_now job run_id db e =
    rw (e, handle_run_pipeline) (start_run-Starts now run_pipeline_now job.attempts run_id db)
