-- ===== src/Payment/Process.antt =====
-- `process_retail_x402_payment` of retail_context/x402_payment.py: parse, verify, settle, reconcile. The
-- state is the log of what was asked of the facilitator.
use sharpe_nova_os.Prelude.{
  Bool, true, false, not, ◌&&◌, Option, none, some, List, [], ◌∷◌, ◌++◌, String, ◌==◌, eqb, opt_eq,
  if◌then◌else◌,
}
use sharpe_nova_os.Exec.{
  Result, ok, err, value_error, validation_error, Exec, pure, raise, lift, raise_if, ◌>>=◌, ◌>>◌,
}
use sharpe_nova_os.Text.{strip}
use sharpe_nova_os.Text.Json.{str, opt_str}
use sharpe_nova_os.Telemetry.{stable_operational_id}
use sharpe_nova_os.Payment.Types.{
  PaymentRequirement, PaymentPayload, PaymentInput, payload, mapping, VerifyResponse, RawSettlement,
  Facilitator, FacilitatorCall, verify_call, settle_call, PaymentReceipt, PaymentOutcome, outcome,
  PaymentHost, opt_nova_eq, requirements_eq,
}
use sharpe_nova_os.Payment.Requirement.{
  x402_version_2, pricing_model_name, access_effect_name, validate_retail_payment_requirement,
  nova_of, upstream_requirements,
}

abbrev pub Log : Type 0
Log = List FacilitatorCall

unfoldable pub ask : {A : Type 0} → FacilitatorCall → A → Exec Log A
ask call answer log = (ok answer, log ++ call ∷ [])

-- `a or b` on nullable texts: the empty text counts as none.
abbrev pub or_else : Option String → Option String → Option String
or_else none b = b
or_else (some a) b = if a == "" then b else some a

-- `_parse_payload`
unfoldable pub parse_payload : PaymentInput → Result PaymentPayload
parse_payload (payload p) =
    if eqb p.x402_version x402_version_2 then ok p else err (value_error "unsupported_x402_version")
parse_payload (mapping version none) =
    if eqb version x402_version_2
    then err (value_error "invalid_payment_payload")
    else err (value_error "unsupported_x402_version")
parse_payload (mapping version (some p)) =
    if eqb version x402_version_2 then ok p else err (value_error "unsupported_x402_version")

-- `_payload_matches_requirement`
unfoldable pub payload_matches_requirement : PaymentPayload → PaymentRequirement → Bool
payload_matches_requirement p r =
    eqb p.x402_version x402_version_2
    && requirements_eq p.accepted (upstream_requirements r)
    && opt_eq p.resource_url (some r.resource_uri)
    && opt_nova_eq p.nova (some (nova_of r))

-- The optional arguments of `_failure_receipt`.
pub record Failure : Type 0 where
  pub reason : String
  pub verification_status : String
  pub settlement_status : String
  pub payer : Option String
  pub transaction_reference : Option String

abbrev pub not_attempted : String → Failure
not_attempted reason = record {
  reason = reason;
  verification_status = "not_attempted";
  settlement_status = "not_attempted";
  payer = none;
  transaction_reference = none;
}

abbrev pub verification_failed : Option String → Failure
verification_failed payer = record (not_attempted "payment_verification_failed") {
  verification_status = "failed";
  payer = payer;
}

abbrev pub settlement_failed : String → Option String → Option String → Failure
settlement_failed reason payer reference = record (not_attempted reason) {
  verification_status = "verified";
  settlement_status = "failed";
  payer = payer;
  transaction_reference = reference;
}

module _ (h : PaymentHost) (r : PaymentRequirement) where
  unfoldable pub denied_receipt : Failure → PaymentReceipt
  denied_receipt f = record {
    payment_receipt_id = stable_operational_id h.sha256 "payment-receipt-failed" (
        str r.payment_requirement_id
        ∷ str f.verification_status
        ∷ str f.settlement_status
        ∷ str f.reason
        ∷ opt_str f.transaction_reference
        ∷ []);
    payment_requirement_id = r.payment_requirement_id;
    resource_type = r.resource_type;
    resource_uri = r.resource_uri;
    pricing_model = pricing_model_name;
    payment_verification_status = f.verification_status;
    settlement_status = f.settlement_status;
    access_status = "denied";
    payer = f.payer;
    network = r.network;
    asset = r.asset;
    amount_atomic = r.amount_atomic;
    settlement_wallet = r.settlement_wallet;
    transaction_reference = f.transaction_reference;
    failure_reason = some f.reason;
    authority_effect = "none";
    access_effect = access_effect_name;
  }

  -- A receipt that its schema refuses raises.
  unfoldable pub issue : PaymentReceipt → Bool → Exec Log PaymentOutcome
  issue receipt capability = do
    raise_if (not (h.valid_receipt receipt)) validation_error
    pure (outcome receipt capability)

  -- `_failure_receipt`
  unfoldable pub failure_receipt : Failure → Exec Log PaymentOutcome
  failure_receipt f = issue (denied_receipt f) false

  unfoldable pub settled_receipt : Option String → String → PaymentReceipt
  settled_receipt payer reference = record {
    payment_receipt_id = stable_operational_id h.sha256 "payment-receipt" (
        str r.payment_requirement_id
        ∷ str reference
        ∷ opt_str payer
        ∷ str r.network
        ∷ str r.amount_atomic
        ∷ []);
    payment_requirement_id = r.payment_requirement_id;
    resource_type = r.resource_type;
    resource_uri = r.resource_uri;
    pricing_model = pricing_model_name;
    payment_verification_status = "verified";
    settlement_status = "settled";
    access_status = "permitted";
    payer = payer;
    network = r.network;
    asset = r.asset;
    amount_atomic = r.amount_atomic;
    settlement_wallet = r.settlement_wallet;
    transaction_reference = some reference;
    failure_reason = none;
    authority_effect = "none";
    access_effect = access_effect_name;
  }

  -- The reconciliation of a settlement that has a transaction reference.
  unfoldable pub reconcile_reference :
      RawSettlement → Option String → String → Exec Log PaymentOutcome
  reconcile_reference s payer reference =
      if not (opt_eq s.network (some r.network))
      then failure_receipt (settlement_failed "settlement_network_mismatch" payer (some reference))
      else if not (opt_eq s.amount (some r.amount_atomic))
      then failure_receipt (settlement_failed "settlement_amount_mismatch" payer (some reference))
      else issue (settled_receipt payer reference) true

  unfoldable pub reconcile_transaction :
      RawSettlement → Option String → Option String → Exec Log PaymentOutcome
  reconcile_transaction s payer none =
      failure_receipt (settlement_failed "settlement_reference_missing" payer none)
  reconcile_transaction s payer (some transaction) =
      if strip transaction == ""
      then failure_receipt (settlement_failed "settlement_reference_missing" payer none)
      else reconcile_reference s payer (strip transaction)

  unfoldable pub reconcile : VerifyResponse → Option RawSettlement → Exec Log PaymentOutcome
  reconcile v none = failure_receipt (settlement_failed "payment_settlement_failed" v.payer none)
  reconcile v (some s) =
      if not s.success
      then failure_receipt
          (settlement_failed "payment_settlement_failed" (or_else s.payer v.payer) s.transaction)
      else reconcile_transaction s (or_else s.payer v.payer) s.transaction

module _ (h : PaymentHost) (facilitator : Facilitator) (r : PaymentRequirement) where
  unfoldable pub settle_verified : PaymentPayload → VerifyResponse → Exec Log PaymentOutcome
  settle_verified p v =
      if not v.is_valid then failure_receipt h r (verification_failed v.payer) else (do
        raw ←
            ask (settle_call p (upstream_requirements r))
              (facilitator.settle p (upstream_requirements r))
        reconcile h r v raw)

  unfoldable pub after_verify : PaymentPayload → Option VerifyResponse → Exec Log PaymentOutcome
  after_verify p none = failure_receipt h r (verification_failed none)
  after_verify p (some v) = settle_verified p v

  unfoldable pub process_payload : Result PaymentPayload → Exec Log PaymentOutcome
  process_payload (err (value_error reason)) = failure_receipt h r (not_attempted reason)
  process_payload (err e) = raise e
  process_payload (ok p) =
      if not (payload_matches_requirement p r)
      then failure_receipt h r (not_attempted "invalid_payment_payload")
      else (do
        answer ←
            ask (verify_call p (upstream_requirements r))
              (facilitator.verify p (upstream_requirements r))
        after_verify p answer)

  unfoldable pub process_retail_x402_payment : PaymentInput → Exec Log PaymentOutcome
  process_retail_x402_payment input = do
    lift (validate_retail_payment_requirement h r)
    process_payload (parse_payload input)
