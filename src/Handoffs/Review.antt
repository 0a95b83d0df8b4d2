-- ===== src/Handoffs/Review.antt =====
-- app/db/repo/outbound_handoffs.py: the handoff that an operator's delivery review ends, and the
-- check that comes before an operation that changes the reply epoch. The two resolutions are the
-- values that the ValueError lets through.
use payroll_agent.Prelude.{
  ℕ, Text, codes, list_eq, nat_eq, Bool, true, false, ◌&&◌, none, some, ◌==◌, any, is_some,
  if◌then◌else◌,
}
use payroll_agent.Store.{Db, Handoff}
use payroll_agent.Handoffs.{active_handoff, is_active, release_handoff, update_handoffs}

pub data Resolution : Type 0 where
  finalized delivery_review : Resolution

unfoldable pub resolution_value : Resolution → Text
resolution_value finalized = codes "finalized"
resolution_value delivery_review = codes "delivery_review"

-- The `WHERE` of the release.
unfoldable pub is_reviewed : ℕ → ℕ → ℕ → Handoff → Handoff → Bool
unfolding is_active
is_reviewed run_id email_id snapshot_id h x =
    x.id == h.id && (is_active run_id x && (x.email_id == email_id && x.snapshot_id == snapshot_id))

unfoldable pub resolve_outbound_provider_handoff_for_delivery_review :
    ℕ → ℕ → ℕ → ℕ → Resolution → Db → Bool × Db
unfolding active_handoff is_reviewed release_handoff update_handoffs resolution_value
resolve_outbound_provider_handoff_for_delivery_review now run_id email_id snapshot_id resolution
      db =
    elim (active_handoff run_id db) [
      | none ↦ (true, db)
      | some h ↦
          if h.email_id == email_id && h.snapshot_id == snapshot_id
          then (
            any (is_reviewed run_id email_id snapshot_id h) db.handoffs,
            update_handoffs (is_reviewed run_id email_id snapshot_id h)
                (release_handoff now (resolution_value resolution)) db,
          )
          else (false, db)
    ]

-- Whether it raises ActiveOutboundProviderHandoffError.
unfoldable pub assert_no_active_outbound_provider_handoff : ℕ → Db → Bool
unfolding active_handoff
assert_no_active_outbound_provider_handoff run_id db = is_some (active_handoff run_id db)
