-- ===== src/Outcome/Codes.antt =====
-- app/pipeline/result.py::PipelineResult.diagnostic_code against the test that
-- app/db/repo/jobs.py::enqueue_job makes of a diagnostic.
use payroll_agent.Prelude.{
  ℕ, ◌≡◌, ◌↔◌, refl, sym, ap, ◌∙◌, inl, inr, Text, list_eq, list_beq, nat_eq, Bool, true, false,
  ◌&&◌, List, [], ◌∷◌, ◌++◌, map, map-In, any, contains, contains-In, eqb, Bool-cases, arith,
  eqb_iff,
}
use mathlib.Core.Path.{subst}
use payroll_agent.Outcome.{
  PipelineStage, unknown, load, extract, persist, clarification, compute, delivery, PipelineReason,
  unclassified, provider_connection_failure, provider_timeout, provider_rate_limit,
  provider_server_failure, schema_or_parse_failure, client_request_failure, ambiguous_send_failure,
  invalid_operator_override_context, delivery_timeout, delivery_connection_failure,
  delivery_rate_limit, delivery_server_failure, delivery_idempotency_payload_mismatch,
  delivery_quota_exhausted, delivery_validation_failure, delivery_authentication_failure,
  delivery_authorization_failure, delivery_configuration_failure, delivery_provider_failure,
  delivery_record_only, delivery_authorization_expired, PipelineResult, terminal, stage_value,
  reason_value, diagnostic_code,
}
use payroll_agent.Jobs.Enqueue.{stages, reasons, split_colon, is_diagnostic}

all_stages : List PipelineStage
all_stages = unknown ∷ load ∷ extract ∷ persist ∷ clarification ∷ compute ∷ delivery ∷ []

all_reasons : List PipelineReason
all_reasons =
    unclassified ∷ provider_connection_failure ∷ provider_timeout ∷ provider_rate_limit
    ∷ provider_server_failure ∷ schema_or_parse_failure ∷ client_request_failure
    ∷ ambiguous_send_failure ∷ invalid_operator_override_context ∷ delivery_timeout
    ∷ delivery_connection_failure ∷ delivery_rate_limit ∷ delivery_server_failure
    ∷ delivery_idempotency_payload_mismatch ∷ delivery_quota_exhausted ∷ delivery_validation_failure
    ∷ delivery_authentication_failure ∷ delivery_authorization_failure
    ∷ delivery_configuration_failure ∷ delivery_provider_failure ∷ delivery_record_only
    ∷ delivery_authorization_expired ∷ []

stages-eq : stages ≡ map stage_value all_stages
unfolding stages all_stages stage_value
stages-eq = refl

reasons-eq : reasons ≡ map reason_value all_reasons
unfolding reasons all_reasons reason_value
reasons-eq = refl

In-all_stages : (s : PipelineStage) → contains (stage_value s) stages ≡ true
unfolding stages stage_value list_beq
In-all_stages unknown = refl
In-all_stages load = refl
In-all_stages extract = refl
In-all_stages persist = refl
In-all_stages clarification = refl
In-all_stages compute = refl
In-all_stages delivery = refl

In-all_reasons : (r : PipelineReason) → contains (reason_value r) reasons ≡ true
unfolding reasons reason_value list_beq
In-all_reasons unclassified = refl
In-all_reasons provider_connection_failure = refl
In-all_reasons provider_timeout = refl
In-all_reasons provider_rate_limit = refl
In-all_reasons provider_server_failure = refl
In-all_reasons schema_or_parse_failure = refl
In-all_reasons client_request_failure = refl
In-all_reasons ambiguous_send_failure = refl
In-all_reasons invalid_operator_override_context = refl
In-all_reasons delivery_timeout = refl
In-all_reasons delivery_connection_failure = refl
In-all_reasons delivery_rate_limit = refl
In-all_reasons delivery_server_failure = refl
In-all_reasons delivery_idempotency_payload_mismatch = refl
In-all_reasons delivery_quota_exhausted = refl
In-all_reasons delivery_validation_failure = refl
In-all_reasons delivery_authentication_failure = refl
In-all_reasons delivery_authorization_failure = refl
In-all_reasons delivery_configuration_failure = refl
In-all_reasons delivery_provider_failure = refl
In-all_reasons delivery_record_only = refl
In-all_reasons delivery_authorization_expired = refl

has_colon : Text → Bool
has_colon = any (λ c. eqb c 58)

stage_value-has_colon : (s : PipelineStage) → has_colon (stage_value s) ≡ false
unfolding has_colon stage_value
stage_value-has_colon unknown = refl
stage_value-has_colon load = refl
stage_value-has_colon extract = refl
stage_value-has_colon persist = refl
stage_value-has_colon clarification = refl
stage_value-has_colon compute = refl
stage_value-has_colon delivery = refl

reason_value-has_colon : (r : PipelineReason) → has_colon (reason_value r) ≡ false
unfolding has_colon reason_value
reason_value-has_colon unclassified = refl
reason_value-has_colon provider_connection_failure = refl
reason_value-has_colon provider_timeout = refl
reason_value-has_colon provider_rate_limit = refl
reason_value-has_colon provider_server_failure = refl
reason_value-has_colon schema_or_parse_failure = refl
reason_value-has_colon client_request_failure = refl
reason_value-has_colon ambiguous_send_failure = refl
reason_value-has_colon invalid_operator_override_context = refl
reason_value-has_colon delivery_timeout = refl
reason_value-has_colon delivery_connection_failure = refl
reason_value-has_colon delivery_rate_limit = refl
reason_value-has_colon delivery_server_failure = refl
reason_value-has_colon delivery_idempotency_payload_mismatch = refl
reason_value-has_colon delivery_quota_exhausted = refl
reason_value-has_colon delivery_validation_failure = refl
reason_value-has_colon delivery_authentication_failure = refl
reason_value-has_colon delivery_authorization_failure = refl
reason_value-has_colon delivery_configuration_failure = refl
reason_value-has_colon delivery_provider_failure = refl
reason_value-has_colon delivery_record_only = refl
reason_value-has_colon delivery_authorization_expired = refl

split_colon-first :
    (w t : Text)
    → has_colon w ≡ false
    → split_colon (w ++ (58 ∷ t)) ≡ (w, (split_colon t).0 ∷ (split_colon t).1)
unfolding split_colon has_colon
split_colon-first [] t h = refl
split_colon-first (c ∷ w) t h = ground (arith, split_colon-first w t)

split_colon-last : (w : Text) → has_colon w ≡ false → split_colon w ≡ (w, [])
unfolding split_colon has_colon
split_colon-last [] h = refl
split_colon-last (c ∷ w) h = ground (arith, split_colon-last w)

accepted : Text → Text → Bool
accepted stage reason = contains stage stages && contains reason reasons

is_diagnostic-two :
    (w v : Text)
    → has_colon w ≡ false
    → has_colon v ≡ false
    → is_diagnostic (w ++ (58 ∷ v)) ≡ accepted w v
unfolding is_diagnostic accepted
is_diagnostic-two w v h k =
    ap
      (λ (p : Text × List Text). elim p.1 [
        | [] ↦ false
        | v' ∷ more ↦ elim more [ [] ↦ accepted p.0 v' | _ ∷ _ ↦ false ]
      ])
      (split_colon-first w v h)
    ∙ ap (λ (p : Text × List Text). elim p.1 [ [] ↦ accepted w p.0 | _ ∷ _ ↦ false ])
        (split_colon-last v k)

diagnostic_code-is_diagnostic : (r : PipelineResult) → is_diagnostic (diagnostic_code r) ≡ true
unfolding diagnostic_code accepted
diagnostic_code-is_diagnostic r =
    is_diagnostic-two (stage_value r.stage) (reason_value r.reason) (stage_value-has_colon r.stage)
      (reason_value-has_colon r.reason)
    ∙ rw (In-all_stages r.stage) (In-all_reasons r.reason)

-- What `split(":")` says of a text without a colon, and of one with a colon.
whole : (t : Text) → (split_colon t).1 ≡ [] → t ≡ (split_colon t).0
unfolding split_colon
whole [] h = refl
whole (c ∷ t) h = elim (Bool-cases (eqb c 58)) [
  | inl y ↦ cc (rw y at h)
  | inr n ↦ rw n (ap (λ (x : Text). c ∷ x) (whole t (rw n at h)))
]

parted :
    (t v : Text) (vs : List Text)
    → (split_colon t).1 ≡ v ∷ vs
    → (u : Text) × (t ≡ (split_colon t).0 ++ (58 ∷ u)) × (split_colon u ≡ (v, vs))
unfolding split_colon
parted [] v vs h = cc
parted (c ∷ t) v vs h = elim (Bool-cases (eqb c 58)) [
  | inl y ↦
      let q : (split_colon t).0 ∷ (split_colon t).1 ≡ v ∷ vs = rw y at h in
      (t, rw y (ap (λ (x : ℕ). x ∷ t) ((eqb_iff c 58).0 y)), cc q)
  | inr n ↦ let (u, q, k) = parted t v vs (rw n at h) in (u, rw n (ap (λ (x : Text). c ∷ x) q), k)
]

stage_of : (w : Text) → contains w stages ≡ true → (s : PipelineStage) × (w ≡ stage_value s)
stage_of w h =
    let (s, _, q) = map-In stage_value w all_stages (rw stages-eq at (contains-In w stages h)) in
    (s, q)

reason_of : (w : Text) → contains w reasons ≡ true → (r : PipelineReason) × (w ≡ reason_value r)
reason_of w h =
    let (r, _, q) =
      map-In reason_value w all_reasons (rw reasons-eq at (contains-In w reasons h)) in
    (r, q)

-- The code of a result.
abbrev pub IsCode : Text → Type 0
IsCode t = (r : PipelineResult) × (t ≡ diagnostic_code r)

is_diagnostic-parts :
    (t v : Text) → (split_colon t).1 ≡ v ∷ [] → accepted (split_colon t).0 v ≡ true → IsCode t
unfolding diagnostic_code accepted
is_diagnostic-parts t v h a =
    let (u, q, k) = parted t v [] h in
    let w = whole u (ap (λ (p : Text × List Text). p.1) k) ∙ ap (λ (p : Text × List Text). p.0) k in
    let (s, e) = stage_of (split_colon t).0 (ground (arith, a)) in
    let (r, f) = reason_of v (ground (arith, a)) in
    (
      record { outcome = terminal; stage = s; reason = r },
      q
          ∙ (ap (λ (x : Text). (split_colon t).0 ++ (58 ∷ x)) (w ∙ f)
              ∙ ap (λ (x : Text). x ++ (58 ∷ reason_value r)) e),
    )

is_diagnostic-IsCode :
    (t : Text) (rest : List Text) → (split_colon t).1 ≡ rest → is_diagnostic t ≡ true → IsCode t
unfolding is_diagnostic accepted
is_diagnostic-IsCode t [] e h = cc (rw (e, is_diagnostic) at h)
is_diagnostic-IsCode t (v ∷ []) e h = is_diagnostic-parts t v e (rw (e, is_diagnostic) at h)
is_diagnostic-IsCode t (v ∷ w ∷ ws) e h = cc (rw (e, is_diagnostic) at h)

-- The queue accepts a diagnostic exactly when it is the code of some pipeline result: every code
-- that a result prints is read back as a known stage and a known reason, and no other text is.
pub is_diagnostic_iff : (t : Text) → (is_diagnostic t ≡ true) ↔ IsCode t
is_diagnostic_iff t = (
  is_diagnostic-IsCode t (split_colon t).1 refl,
  λ (r, q). subst (λ x. is_diagnostic x ≡ true) (sym q) (diagnostic_code-is_diagnostic r),
)
