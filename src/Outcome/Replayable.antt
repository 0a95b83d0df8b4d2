-- ===== src/Outcome/Replayable.antt =====
-- app/pipeline/result.py::classify_delivery_exception against the reasons that
-- app/db/repo/job_settlement.py replays.
use payroll_agent.Prelude.{
  ◌≡◌, ◌↔◌, refl, sym, ap, ◌∙◌, inl, inr, list_eq, list_beq, nat_eq, Bool, true, false, ◌||◌,
  Option, none, some, Option-cases, if◌then◌else◌,
}
use mathlib.Core.Path.{subst}
use payroll_agent.Outcome.{
  PipelineOutcome, retryable, terminal, PipelineReason, PipelineResult, delivery_rate_limit,
  delivery_quota_exhausted, delivery_server_failure, delivery_idempotency_payload_mismatch,
  delivery_validation_failure, delivery_configuration_failure, delivery_authentication_failure,
  delivery_authorization_failure, delivery_provider_failure,
}
use payroll_agent.Outcome.Classify.{
  Exception, ResendError, classify_delivery_exception, classify_resend_error, retryable_reason,
  is_server_failure, delivery_retryable, delivery_terminal,
}
use payroll_agent.Settlement.Outbound.{is_replayable}

unfoldable is_retryable : PipelineOutcome → Bool
is_retryable PipelineOutcome.ok = false
is_retryable retryable = true
is_retryable terminal = false

-- The result is retryable exactly when its reason is one that is replayed.
record IsAgreed (p : PipelineResult) : Type 0 where
  agrees : (p.outcome ≡ retryable) ↔ (is_replayable p.reason ≡ true)

retryable_of : (o : PipelineOutcome) → is_retryable o ≡ true → o ≡ retryable
unfolding is_retryable
retryable_of retryable t = refl
retryable_of PipelineOutcome.ok t = cc t
retryable_of terminal t = cc t

agreed : (p : PipelineResult) → is_retryable p.outcome ≡ is_replayable p.reason → IsAgreed p
unfolding is_retryable
agreed p q = record {
  agrees = (λ e. sym q ∙ ap is_retryable e, λ t. retryable_of p.outcome (q ∙ t));
}

retryable-IsAgreed :
    (reason : PipelineReason) → is_replayable reason ≡ true → IsAgreed (delivery_retryable reason)
unfolding delivery_retryable is_retryable
retryable-IsAgreed reason t = agreed (delivery_retryable reason) (sym t)

terminal-IsAgreed :
    (reason : PipelineReason) → is_replayable reason ≡ false → IsAgreed (delivery_terminal reason)
unfolding delivery_terminal is_retryable
terminal-IsAgreed reason f = agreed (delivery_terminal reason) (sym f)

if-IsAgreed :
    (b : Bool) (x y : PipelineResult) → IsAgreed x → IsAgreed y → IsAgreed (if b then x else y)
if-IsAgreed true x y p q = p
if-IsAgreed false x y p q = q

abbrev IsReplayed : Option PipelineReason → Type 0
IsReplayed none = Unit
IsReplayed (some reason) = is_replayable reason ≡ true

if-IsReplayed :
    (b : Bool) (x y : Option PipelineReason)
    → IsReplayed x
    → IsReplayed y
    → IsReplayed (if b then x else y)
if-IsReplayed true x y p q = p
if-IsReplayed false x y p q = q

retryable_reason-IsReplayed : (x : Exception) → IsReplayed (retryable_reason x)
unfolding retryable_reason is_replayable list_beq
retryable_reason-IsReplayed x = if-IsReplayed (x.is_timeout || x.is_api_timeout) _ _ refl (
    if-IsReplayed (x.is_connection || x.is_api_connection) _ _ refl (
      if-IsReplayed x.is_rate_limit _ _ refl
        (if-IsReplayed (is_server_failure x.api_status) _ _ refl tt)))

classify_resend_error-IsAgreed : (e : ResendError) → IsAgreed (classify_resend_error e)
unfolding classify_resend_error is_replayable list_beq
classify_resend_error-IsAgreed e = if-IsAgreed _ _ _ (retryable-IsAgreed delivery_rate_limit refl) (
    if-IsAgreed _ _ _ (terminal-IsAgreed delivery_quota_exhausted refl) (
      if-IsAgreed _ _ _ (retryable-IsAgreed delivery_server_failure refl) (
        if-IsAgreed _ _ _ (terminal-IsAgreed delivery_idempotency_payload_mismatch refl) (
          if-IsAgreed _ _ _ (terminal-IsAgreed delivery_validation_failure refl) (
            if-IsAgreed _ _ _ (terminal-IsAgreed delivery_configuration_failure refl) (
              if-IsAgreed _ _ _ (terminal-IsAgreed delivery_authentication_failure refl) (
                if-IsAgreed _ _ _ (terminal-IsAgreed delivery_authorization_failure refl)
                  (terminal-IsAgreed delivery_provider_failure refl))))))))

resend-IsAgreed :
    (x : Exception) (o : Option ResendError)
    → retryable_reason x ≡ none
    → x.resend ≡ o
    → IsAgreed (classify_delivery_exception x)
unfolding classify_delivery_exception is_replayable list_beq
resend-IsAgreed x none e r =
    rw (e, classify_delivery_exception)
      (rw (r, classify_delivery_exception) (terminal-IsAgreed delivery_provider_failure refl))
resend-IsAgreed x (some y) e r =
    rw (e, classify_delivery_exception)
      (rw (r, classify_delivery_exception) (classify_resend_error-IsAgreed y))

classify_delivery_exception-IsAgreed : (x : Exception) → IsAgreed (classify_delivery_exception x)
unfolding classify_delivery_exception
classify_delivery_exception-IsAgreed x = elim (Option-cases (retryable_reason x)) [
  | inl e ↦ resend-IsAgreed x x.resend e refl
  | inr (reason, e) ↦
      rw (e, classify_delivery_exception)
        (retryable-IsAgreed reason (subst IsReplayed e (retryable_reason-IsReplayed x)))
]

-- A failed delivery is classified as retryable exactly when its reason is one of those that the
-- settlement replays.
pub classify_delivery_exception-retryable_iff :
    (x : Exception)
    → ((classify_delivery_exception x).outcome ≡ retryable)
      ↔ (is_replayable (classify_delivery_exception x).reason ≡ true)
classify_delivery_exception-retryable_iff x = (classify_delivery_exception-IsAgreed x).agrees
