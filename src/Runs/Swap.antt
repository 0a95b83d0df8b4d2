-- ===== src/Runs/Swap.antt =====
-- app/db/repo/runs.py::claim_status: who wins a contended gate.
use payroll_agent.Prelude.{
  ℕ, ◌≡◌, ◌≢◌, ◌↔◌, refl, sym, ◌∙◌, ap, inl, inr, Text, codes, list_eq, list_beq, nat_eq, Bool,
  true, false, Option, none, some, List, [], ◌∷◌, In, ◌==◌, ==→eq, ==-self, any-In, any-elim, arith,
  Bool-cases, if◌then◌else◌,
}
use payroll_agent.Runs.{
  RunStatus, received, extracting, awaiting_reply, computed, awaiting_approval, approved, sent,
  reconciled, rejected, error, needs_operator, status_value, RunRow, in_status, move_status,
  claim_status,
}

-- `RunStatus(value)`
status_of : Text → Option RunStatus
status_of v =
    if v == codes "received"
    then some received
    else if v == codes "extracting"
    then some extracting
    else if v == codes "awaiting_reply"
    then some awaiting_reply
    else if v == codes "computed"
    then some computed
    else if v == codes "awaiting_approval"
    then some awaiting_approval
    else if v == codes "approved"
    then some approved
    else if v == codes "sent"
    then some sent
    else if v == codes "reconciled"
    then some reconciled
    else if v == codes "rejected"
    then some rejected
    else if v == codes "error"
    then some error
    else if v == codes "needs_operator"
    then some needs_operator
    else none

status_of-status_value : (s : RunStatus) → status_of (status_value s) ≡ some s
unfolding status_of status_value list_beq
status_of-status_value received = refl
status_of-status_value extracting = refl
status_of-status_value awaiting_reply = refl
status_of-status_value computed = refl
status_of-status_value awaiting_approval = refl
status_of-status_value approved = refl
status_of-status_value sent = refl
status_of-status_value reconciled = refl
status_of-status_value rejected = refl
status_of-status_value error = refl
status_of-status_value needs_operator = refl

status_value-injective : (s t : RunStatus) → status_value s ≡ status_value t → s ≡ t
status_value-injective s t q =
    let p : some s ≡ some t =
      sym (status_of-status_value s) ∙ (ap status_of q ∙ status_of-status_value t) in
    cc p

pub in_status-parts :
    (run_id : ℕ) (expected : RunStatus) (r : RunRow)
    → in_status run_id expected r ≡ true
    → (r.id ≡ run_id) × (r.status ≡ expected)
unfolding in_status
in_status-parts run_id expected r t =
    let a : (r.id == run_id) ≡ true = ground (arith, t) in
    let b : (status_value r.status == status_value expected) ≡ true = ground (arith, t) in
    (
      ==→eq r.id run_id a,
      status_value-injective r.status expected
          (==→eq (status_value r.status) (status_value expected) b),
    )

moved-in_status :
    (now run_id : ℕ) (expected status : RunStatus) (r : RunRow)
    → status ≢ expected
    → in_status run_id expected (move_status now status r) ≡ false
unfolding move_status
moved-in_status now run_id expected status r ne =
    elim (Bool-cases (in_status run_id expected (move_status now status r))) [
      | inl t ↦ absurd (ne (in_status-parts run_id expected (move_status now status r) t).1)
      | inr f ↦ f
    ]

-- A claim succeeds exactly when the run is in the expected status.
pub claim_status_iff :
    (now run_id : ℕ) (expected status : RunStatus) (db : List RunRow)
    → ((claim_status now run_id expected status db).0 ≡ true)
      ↔ ((r : RunRow) × In r db × (r.id ≡ run_id) × (r.status ≡ expected))
unfolding claim_status in_status
claim_status_iff now run_id expected status db = (
  λ h.
      let (r, m, t) = any-elim (in_status run_id expected) db h in
      let (i, s) = in_status-parts run_id expected r t in (r, m, i, s),
  λ (r, m, i, s).
      any-In (in_status run_id expected) r db m
        (rw (i, s, ==-self run_id) (==-self (status_value expected))),
)

-- Of several claims that move a run out of one status at most the first one succeeds: after a claim
-- to another status, each further claim from that status is refused and leaves the table as it is.
pub claim_status_once :
    (now run_id : ℕ) (expected status : RunStatus) (db : List RunRow)
    → status ≢ expected
    → (now' : ℕ) (status' : RunStatus)
    → let after = (claim_status now run_id expected status db).1 in
      claim_status now' run_id expected status' after ≡ (false, after)
unfolding claim_status
claim_status_once now run_id expected status [] ne now' status' = refl
claim_status_once now run_id expected status (r ∷ db) ne now' status' =
    let ih = claim_status_once now run_id expected status db ne now' status' in
    elim (Bool-cases (in_status run_id expected r)) [
      | inl t ↦
          rw (t, moved-in_status now run_id expected status r ne)
            (ap (λ (p : Bool × List RunRow). (p.0, move_status now status r ∷ p.1)) ih)
      | inr f ↦ rw (f, f) (ap (λ (p : Bool × List RunRow). (p.0, r ∷ p.1)) ih)
    ]
