-- ===== src/Service/Handler.antt =====
-- `handle_paid_resource` of retail_context/service.py. An error that comes out of it is one that the
-- web server answers by 500.
use sharpe_nova_os.Prelude.{
  ℕ, Bool, false, not, ◌||◌, Option, none, some, String, ◌==◌, eqb, ltb, one_of, [], ◌∷◌,
  if◌then◌else◌,
}
use sharpe_nova_os.Exec.{Error, value_error, Result, ok, Exec, pure, raise, lift, attempt, ◌>>=◌}
use sharpe_nova_os.Payment.Types.{PaymentRequirement, payload, PaymentOutcome, receipt_of}
use sharpe_nova_os.Payment.Requirement.{build_retail_payment_requirement}
use sharpe_nova_os.Payment.Challenge.{build_retail_payment_challenge}
use sharpe_nova_os.Payment.Process.{process_retail_x402_payment}
use sharpe_nova_os.Payment.Access.{payment_receipt_allows_resource_access, is_truthy}
use sharpe_nova_os.Delivery.{
  DeliveredResource, claim_or_resume_retail_delivery, deliver_or_redeliver_retail_resource,
}
use sharpe_nova_os.Service.World.{World, on_store, on_facilitator}
use sharpe_nova_os.Service.Request.{
  PreparedRetailRequest, RuntimeConfig, HttpRequest, Decoded, undecodable, other_version, decoded,
  Response, ServiceHost, compare_digest, resource_uri_of, for_delivery,
}
use sharpe_nova_os.Service.Admission.{reason_or, ensure_runtime_admission}

-- `_error`
abbrev pub error_response : ℕ → String → Option String → Response
error_response status reason payment_required = record {
  status = status;
  error = some reason;
  body = none;
  payment_required = payment_required;
  delivery_mode = none;
  response_digest = none;
  settled_transaction = none;
}

-- `_admission_error_status`
unfoldable pub admission_error_status : String → ℕ
admission_error_status reason =
    if reason == "rate_limit_exceeded"
    then 429
    else if one_of reason ("service_disabled" ∷ "control_store_unavailable" ∷ [])
    then 503
    else 400

abbrev pub served : PaymentOutcome → DeliveredResource → Response
served o d = record {
  status = 200;
  error = none;
  body = some d.body;
  payment_required = none;
  delivery_mode = some d.delivery_mode;
  response_digest = some d.response_digest;
  settled_transaction = (receipt_of o).transaction_reference;
}

-- `isinstance(supplied_token, str) and hmac.compare_digest(…)`
unfoldable pub token_matches : String → Option String → Result Bool
token_matches token none = ok false
token_matches token (some supplied) = compare_digest supplied token

-- `except RetailDeliveryRecoveryError`
unfoldable pub recovery_response : Error → Exec World Response
recovery_response (value_error reason) =
    pure (error_response (if reason == "control_store_unavailable" then 503 else 409) reason none)
recovery_response e = raise e

module _ (h : ServiceHost) (config : RuntimeConfig) (observed_at : String) (elapsed : ℕ)
    (p : PreparedRetailRequest) where
  unfoldable pub claim_and_deliver : PaymentOutcome → Exec World Response
  claim_and_deliver o = do
    capability ← on_store (claim_or_resume_retail_delivery h.control o (for_delivery p) observed_at)
    d ← on_store (
        deliver_or_redeliver_retail_resource h.control h.utf8_length capability (for_delivery p)
          observed_at elapsed config.max_response_bytes)
    pure (served o d)

  unfoldable pub after_payment : String → PaymentOutcome → Exec World Response
  after_payment challenge o =
      if not (payment_receipt_allows_resource_access h.payment o)
      then pure (
          error_response 402 (reason_or "payment_failed" (receipt_of o).failure_reason)
            (some challenge))
      else attempt (claim_and_deliver o) recovery_response

  unfoldable pub pay : PaymentRequirement → String → Decoded → Exec World Response
  pay requirement challenge undecodable = pure (error_response 400 "invalid_payment_payload" none)
  pay requirement challenge other_version =
      pure (error_response 400 "unsupported_x402_version" none)
  pay requirement challenge (decoded paid) = do
    o ←
        on_facilitator
          (process_retail_x402_payment h.payment h.facilitator requirement (payload paid))
    after_payment challenge o

  unfoldable pub ask_payment : PaymentRequirement → String → Option String → Exec World Response
  ask_payment requirement challenge none =
      pure (error_response 402 "payment_required" (some challenge))
  ask_payment requirement challenge (some header) =
      if header == ""
      then pure (error_response 402 "payment_required" (some challenge))
      else pay requirement challenge (h.decode_payment header)

  unfoldable pub after_admitted : Option String → Option String → Exec World Response
  after_admitted header (some reason) =
      pure (error_response (admission_error_status reason) reason none)
  after_admitted header none = do
    requirement ← lift (
        build_retail_payment_requirement h.payment p.resource_type (resource_uri_of p)
          (some config.settlement_wallet) none)
    challenge ← lift (build_retail_payment_challenge h.payment h.challenge requirement)
    ask_payment requirement challenge.payment_required_header header

  -- `except Exception: admission_failure = "control_store_unavailable"`
  unfoldable pub admission_unavailable : Error → Exec World (Option String)
  admission_unavailable _ = pure (some "control_store_unavailable")

  unfoldable pub handle_prepared : Option String → Exec World Response
  handle_prepared header = do
    failure ←
        attempt (ensure_runtime_admission h.control config p observed_at (is_truthy header))
          admission_unavailable
    after_admitted header failure

  unfoldable pub handle_digest : Option String → Bool → Exec World Response
  handle_digest header same =
      if not same
      then pure (error_response 400 "request_digest_mismatch" none)
      else handle_prepared header

module _ (h : ServiceHost) (config : RuntimeConfig) (observed_at : String) (elapsed : ℕ) where
  unfoldable pub handle_body : HttpRequest → Option PreparedRetailRequest → Exec World Response
  handle_body q none = pure (error_response 400 "invalid_request" none)
  handle_body q (some p) = do
    same ← lift (compare_digest q.request_digest p.request_digest)
    handle_digest h config observed_at elapsed p q.payment_header same

  unfoldable pub handle_allowed : HttpRequest → String → Bool → Exec World Response
  handle_allowed q resource_type allowed =
      if not allowed
      then pure (error_response 403 "controlled_proof_access_denied" none)
      else if eqb q.body_bytes 0 || ltb config.max_request_bytes q.body_bytes
      then pure (error_response 400 "invalid_request" none)
      else handle_body q (h.prepare resource_type q.body)

  unfoldable pub handle_paid_resource : HttpRequest → String → Exec World Response
  handle_paid_resource q resource_type = do
    allowed ← lift (token_matches config.controlled_proof_access_token q.proof_token)
    handle_allowed q resource_type allowed
