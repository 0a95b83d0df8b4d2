-- ===== src/Outcome/Replay.antt =====
-- app/pipeline/result.py: the replay schedule of a delivery.
use payroll_agent.Prelude.{
  ℕ, zero, suc, ◌+◌, ◌≡◌, ◌<◌, ◌≤◌, refl, Option, none, some, arith, get_elem?,
}
use payroll_agent.Outcome.{
  minutes, replay_offsets, replay_window, delivery_replay_allowed, next_delivery_attempt_at,
}
use payroll_agent.Jobs.Enqueue.{send_outbound_max_attempts}

-- After `t`, if at all.
abbrev pub Later : ℕ → Option ℕ → Type 0
Later t none = Unit {0}
Later t (some next) = t < next

-- What the schedule says after `n` attempts of a reservation.
abbrev pub NextSlot : ℕ → ℕ → Option ℕ → Type 0
NextSlot reserved_at n none = send_outbound_max_attempts ≤ n
NextSlot reserved_at n (some t) =
    (n < send_outbound_max_attempts)
    × (reserved_at ≤ t)
    × (t < reserved_at + replay_window)
    × Later t (next_delivery_attempt_at reserved_at (suc n))

scheduled :
    (r n o : ℕ)
    → get_elem? replay_offsets n ≡ some o
    → o < replay_window
    → next_delivery_attempt_at r n ≡ some (r + o)
unfolding next_delivery_attempt_at delivery_replay_allowed replay_window
scheduled r n o e h = rw (e, next_delivery_attempt_at) (ground (arith, h))

slot_before :
    (r n o o' : ℕ)
    → get_elem? replay_offsets n ≡ some o
    → get_elem? replay_offsets (suc n) ≡ some o'
    → suc n < send_outbound_max_attempts
    → o < o'
    → o' < replay_window
    → NextSlot r n (next_delivery_attempt_at r n)
unfolding replay_window
slot_before r n o o' e e' h lt lt' =
    rw (scheduled r n o e (omega arith))
      (omega arith, omega arith, omega arith, rw (scheduled r (suc n) o' e' lt') (omega arith))

last_slot : (r : ℕ) → NextSlot r 7 (next_delivery_attempt_at r 7)
unfolding replay_window next_delivery_attempt_at replay_offsets
last_slot r =
    rw (scheduled r 7 (minutes 960) refl (omega arith)) (omega arith, omega arith, omega arith, tt)

-- After `n` attempts there is a next slot exactly when the attempts of a delivery job, eight, are
-- not used up; the slot lies between the reservation and the end of its window, and each slot comes
-- after the one before.
pub next_delivery_attempt_at-NextSlot :
    (reserved_at n : ℕ) → NextSlot reserved_at n (next_delivery_attempt_at reserved_at n)
unfolding replay_offsets replay_window next_delivery_attempt_at
next_delivery_attempt_at-NextSlot r zero =
    slot_before r 0 (minutes 0) (minutes 1) refl refl (omega arith) (omega arith) (omega arith)
next_delivery_attempt_at-NextSlot r (suc zero) =
    slot_before r 1 (minutes 1) (minutes 5) refl refl (omega arith) (omega arith) (omega arith)
next_delivery_attempt_at-NextSlot r (suc (suc zero)) =
    slot_before r 2 (minutes 5) (minutes 15) refl refl (omega arith) (omega arith) (omega arith)
next_delivery_attempt_at-NextSlot r (suc (suc (suc zero))) =
    slot_before r 3 (minutes 15) (minutes 60) refl refl (omega arith) (omega arith) (omega arith)
next_delivery_attempt_at-NextSlot r (suc (suc (suc (suc zero)))) =
    slot_before r 4 (minutes 60) (minutes 180) refl refl (omega arith) (omega arith) (omega arith)
next_delivery_attempt_at-NextSlot r (suc (suc (suc (suc (suc zero))))) =
    slot_before r 5 (minutes 180) (minutes 480) refl refl (omega arith) (omega arith) (omega arith)
next_delivery_attempt_at-NextSlot r (suc (suc (suc (suc (suc (suc zero)))))) =
    slot_before r 6 (minutes 480) (minutes 960) refl refl (omega arith) (omega arith) (omega arith)
next_delivery_attempt_at-NextSlot r (suc (suc (suc (suc (suc (suc (suc zero))))))) = last_slot r
next_delivery_attempt_at-NextSlot r (suc (suc (suc (suc (suc (suc (suc (suc n)))))))) = omega arith
