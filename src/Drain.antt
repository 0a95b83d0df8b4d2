-- ===== src/Drain.antt =====
-- app/queue/drain.py: the outcomes of a drain, and the lease tokens that the process holds. The
-- threads that run `drain_once` are a list of phases, and `leases` are the tokens that the database
-- has granted to them; a step is one critical section or one call of the repository. `forgotten` is
-- no variable of the code: it records the tokens that a `fenced` answer made a thread discard.
pub mod Tokens
pub mod Forgotten
pub mod Once
mod Tests
use payroll_agent.Prelude.{
  ℕ, ◌+◌, ◌-◌, ◌≡◌, nat_eq, list_eq, Bool, true, false, not, Option, none, some, List, [], ◌∷◌,
  ◌++◌, ◌==◌, ◌||◌, ◌&&◌, In, All, keep, leb, if◌then◌else◌,
}
use payroll_agent.Jobs.{JobKind, send_outbound}
use payroll_agent.Store.{SettlementOutcome}
use payroll_agent.Settlement.{same_kind}

pub data DrainOutcome : Type 0 where
  empty done retried dead fenced lost_lease invalid_context reaped_final_lease : DrainOutcome

-- `__bool__`
unfoldable pub is_truthy : DrainOutcome → Bool
is_truthy empty = false
is_truthy done = true
is_truthy retried = true
is_truthy dead = true
is_truthy fenced = true
is_truthy lost_lease = true
is_truthy invalid_context = true
is_truthy reaped_final_lease = true

unfoldable pub map_settlement_outcome : SettlementOutcome → DrainOutcome
map_settlement_outcome SettlementOutcome.done = done
map_settlement_outcome SettlementOutcome.retried = retried
map_settlement_outcome SettlementOutcome.dead = dead
map_settlement_outcome SettlementOutcome.fenced = fenced
map_settlement_outcome SettlementOutcome.lost_lease = lost_lease
map_settlement_outcome SettlementOutcome.invalid_context = invalid_context
map_settlement_outcome SettlementOutcome.reaped_final_lease = reaped_final_lease

unfoldable pub lease_is_settled : JobKind → SettlementOutcome → Bool
unfolding same_kind
lease_is_settled kind SettlementOutcome.done = true
lease_is_settled kind SettlementOutcome.retried = true
lease_is_settled kind SettlementOutcome.dead = true
lease_is_settled kind SettlementOutcome.lost_lease = true
lease_is_settled kind SettlementOutcome.invalid_context = true
lease_is_settled kind SettlementOutcome.fenced = not (same_kind kind send_outbound)
lease_is_settled kind SettlementOutcome.reaped_final_lease = false

-- Where a thread stands in `drain_once`: before it, between the increment of `_claims_in_flight` and
-- the answer of the claim, after an answer that is not recorded yet, and with a job.
pub data Phase : Type 0 where
  idle claiming unanswered : Phase
  granted working settled : ℕ → Phase

pub record Workers : Type 0 where
  pub phases : List Phase
  pub held : List ℕ
  pub in_flight : ℕ
  pub leases : List ℕ
  pub forgotten : List ℕ

unfoldable pub discard : ℕ → List ℕ → List ℕ
discard token = keep (λ t. not (t == token))

abbrev pub replaced : Workers → List Phase → Phase → List Phase → Workers
replaced s before p after = record s { phases = before ++ (p ∷ after) }

-- One step of the thread between `before` and `after`. A token that is granted is a new one.
pub data Step (s : Workers) : Workers → Type 0 where
  begins :
      (before after : List Phase)
      → s.phases ≡ before ++ (idle ∷ after)
      → Step s (record (replaced s before claiming after) { in_flight = s.in_flight + 1 })
  is_granted :
      (before after : List Phase) (token : ℕ)
      → s.phases ≡ before ++ (claiming ∷ after)
      → ¬ In (settled token) s.phases
      → Step s (record (replaced s before (granted token) after) { leases = token ∷ s.leases })
  finds_nothing :
      (before after : List Phase)
      → s.phases ≡ before ++ (claiming ∷ after)
      → Step s (replaced s before unanswered after)
  records :
      (before after : List Phase) (token : ℕ)
      → s.phases ≡ before ++ (granted token ∷ after)
      → Step s (record (replaced s before (working token) after) {
        held = token ∷ s.held;
        in_flight = s.in_flight - 1;
      })
  gives_up :
      (before after : List Phase)
      → s.phases ≡ before ++ (unanswered ∷ after)
      → Step s (record (replaced s before idle after) { in_flight = s.in_flight - 1 })
  settles :
      (before after : List Phase) (token : ℕ)
      → s.phases ≡ before ++ (working token ∷ after)
      → Step s
          (record (replaced s before (settled token) after) { leases = discard token s.leases })
  discards :
      (before after : List Phase) (token : ℕ)
      → s.phases ≡ before ++ (settled token ∷ after)
      → Step s (record (replaced s before idle after) { held = discard token s.held })
  -- A `fenced` answer that counts as settled, though the settlement left the lease as it was.
  forgets :
      (before after : List Phase) (token : ℕ) (kind : JobKind)
      → s.phases ≡ before ++ (working token ∷ after)
      → lease_is_settled kind SettlementOutcome.fenced ≡ true
      → Step s (record (replaced s before idle after) {
        held = discard token s.held;
        forgotten = token ∷ s.forgotten;
      })
  keeps :
      (before after : List Phase) (token : ℕ)
      → s.phases ≡ before ++ (working token ∷ after)
      → Step s (replaced s before idle after)
  -- A lease that ends in the database without this process: another claim took the job over.
  expires : (token : ℕ) → Step s (record s { leases = discard token s.leases })

unfoldable pub is_idle : Phase → Bool
is_idle idle = true
is_idle claiming = false
is_idle unanswered = false
is_idle (granted t) = false
is_idle (working t) = false
is_idle (settled t) = false

-- What the threads can reach, any number of them, from before the first claim.
pub data Reachable : Workers → Type 0 where
  starts :
      (s : Workers)
      → All (λ p. is_idle p ≡ true) s.phases
      → s.held ≡ []
      → s.in_flight ≡ 0
      → s.leases ≡ []
      → s.forgotten ≡ []
      → Reachable s
  then_step : {s s' : Workers} → Reachable s → Step s s' → Reachable s'

-- `held_tokens`: each poll reads the clock and the state under the lock; `none` means that it still
-- polls.
unfoldable pub held_tokens : ℕ → List (ℕ × Workers) → Option (List ℕ)
held_tokens deadline [] = none
held_tokens deadline ((now, s) ∷ polls) =
    let later = held_tokens deadline polls in
    if s.in_flight == 0 then some s.held else if leb deadline now then some s.held else later
