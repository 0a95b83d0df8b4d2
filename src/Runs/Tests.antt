-- ===== src/Runs/Tests.antt =====
-- Runs of app/db/repo/runs.py::claim_status.
use payroll_agent.Prelude.{◌≡◌, ◌≢◌, refl, list_beq, true, false, none, List, [], ◌∷◌}
use payroll_agent.Runs.{awaiting_approval, approved, rejected, RunRow, claim_status}
use payroll_agent.Runs.Swap.{claim_status_once}

abbrev run : RunRow
run = record {
  id = 7;
  status = awaiting_approval;
  reply_epoch = 0;
  record_only = false;
  clarification_round = 0;
  business_id = 3;
  error_reason = none;
  error_detail = none;
  updated_at = 0;
}

-- The approval wins; the rejection that comes after it is refused.
abbrev after_approval : List RunRow
after_approval = (claim_status 1 7 awaiting_approval approved (run ∷ [])).1

approval_wins :
    claim_status 1 7 awaiting_approval approved (run ∷ [])
    ≡ (true, (record run { status = approved; updated_at = 1 }) ∷ [])
unfolding claim_status list_beq
approval_wins = refl

approved_elsewhere : approved ≢ awaiting_approval
approved_elsewhere q = cc q

claim_status_once_example :
    claim_status 2 7 awaiting_approval rejected after_approval ≡ (false, after_approval)
claim_status_once_example =
    claim_status_once 1 7 awaiting_approval approved (run ∷ []) approved_elsewhere 2 rejected
