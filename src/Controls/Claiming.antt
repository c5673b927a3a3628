-- ===== src/Controls/Claiming.antt =====
-- Claims of settled payments: `claim_settled_payment_for_delivery` and
-- `delivery_outcome_allows_resource_delivery` of retail_context/production_controls.py.
use sharpe_nova_os.Prelude.{
  Bool, true, false, not, ◌&&◌, Option, none, some, [], ◌∷◌, String, ◌==◌, opt_eq, if◌then◌else◌,
}
use sharpe_nova_os.Exec.{
  Result, ok, err, runtime_error, validation_error, Exec, pure, lift, attempt, raise_if, ◌>>=◌,
  ◌>>◌,
}
use sharpe_nova_os.Text.Json.{str, opt_str}
use sharpe_nova_os.Telemetry.{
  EventArgs, event_args, IncidentArgs, incident_args, scalar, stable_operational_id,
}
use sharpe_nova_os.Payment.Types.{PaymentReceipt, PaymentOutcome, receipt_of}
use sharpe_nova_os.Payment.Access.{is_none, payment_receipt_allows_resource_access}
use sharpe_nova_os.Store.Db.{Db, Claim}
use sharpe_nova_os.Store.Mode.{is_healthy, get_service_mode}
use sharpe_nova_os.Store.Claims.{PaymentClaimDecision, claim_payment}
use sharpe_nova_os.Controls.Types.{
  DeliveryRecord, DeliveryOutcome, ControlHost, timestamp_epoch, validate_request_id,
}
use sharpe_nova_os.Controls.Audit.{report_event, record_retail_operational_incident}

-- The reference of a receipt that may reach a resource is a text that is not empty.
abbrev pub reference_text : Option String → String
reference_text none = ""
reference_text (some t) = t

module _ (h : ControlHost) (r : PaymentReceipt) (request_id observed_at : String) where
  -- `_delivery_record`, before its validation.
  unfoldable pub delivery_of : Option String → String → Option String → DeliveryRecord
  delivery_of claim_id status reason = record {
    delivery_outcome_id = stable_operational_id h.sha256 "delivery-outcome" (
        str request_id
        ∷ str r.payment_receipt_id
        ∷ opt_str claim_id
        ∷ str observed_at
        ∷ str status
        ∷ opt_str reason
        ∷ []);
    claim_id = claim_id;
    request_id = request_id;
    payment_receipt_id = r.payment_receipt_id;
    payment_requirement_id = r.payment_requirement_id;
    resource_type = r.resource_type;
    resource_uri = r.resource_uri;
    delivery_eligibility_status = if status == "pending" then "eligible" else "denied";
    delivery_status = status;
    claimed_at = observed_at;
    failure_reason = reason;
    authority_effect = "none";
  }

  unfoldable pub delivery_record : Option String → String → Option String → Result DeliveryRecord
  delivery_record claim_id status reason =
      if h.valid_delivery (delivery_of claim_id status reason)
      then ok (delivery_of claim_id status reason)
      else err validation_error

  unfoldable pub deny_delivery : Option String → Exec Db DeliveryOutcome
  deny_delivery reason = do
    body ← lift (delivery_record none "denied" reason)
    pure (record { body = body; capability = false })

  unfoldable pub claim_id_of : String
  claim_id_of =
      stable_operational_id h.sha256 "payment-claim"
        (str r.payment_receipt_id ∷ str r.network ∷ opt_str r.transaction_reference ∷ [])

  -- `claim_record`; its delivery status is `pending`.
  unfoldable pub claim_of : Claim
  claim_of = record {
    claim_id = claim_id_of;
    request_id = request_id;
    payment_receipt_id = r.payment_receipt_id;
    payment_requirement_id = r.payment_requirement_id;
    network = r.network;
    transaction_reference = reference_text r.transaction_reference;
    payer = r.payer;
    resource_type = r.resource_type;
    resource_uri = r.resource_uri;
    amount_atomic = r.amount_atomic;
    settlement_wallet = r.settlement_wallet;
    claimed_at = observed_at;
    authority_effect = "none";
  }

  abbrev pub claim_event : String → Option String → EventArgs
  claim_event kind reason = record (event_args observed_at kind request_id) {
    resource_type = some r.resource_type;
    payment_receipt_id = some r.payment_receipt_id;
    payment_requirement_id = some r.payment_requirement_id;
    transaction_reference = r.transaction_reference;
    failure_reason = reason;
  }

  abbrev pub conflict_incident : IncidentArgs
  conflict_incident =
      record (incident_args observed_at "payment_replay_conflict" request_id r.resource_type
        "payment_replay_conflict") {
          payment_receipt_id = some r.payment_receipt_id;
          details = ("conflict_scope", scalar (str "settlement_reconciliation")) ∷ [];
        }

  unfoldable pub report_conflict : Option String → Exec Db Unit
  report_conflict reason =
      if opt_eq reason (some "payment_replay_conflict")
      then record_retail_operational_incident h conflict_incident
      else pure tt

  unfoldable pub deny_replay : Option String → Exec Db DeliveryOutcome
  deny_replay reason = do
    report_event h (claim_event "payment_replay_denied" reason)
    report_conflict reason
    deny_delivery reason

  unfoldable pub grant_delivery : Exec Db DeliveryOutcome
  grant_delivery = do
    report_event h (claim_event "payment_claimed" none)
    body ← lift (delivery_record (some claim_id_of) "pending" none)
    pure (record { body = body; capability = true })

  unfoldable pub after_claim : PaymentClaimDecision → Exec Db DeliveryOutcome
  after_claim d = if not d.claimed then deny_replay d.failure_reason else grant_delivery

  unfoldable pub claim_in_mode : String → Exec Db DeliveryOutcome
  claim_in_mode mode =
      if not (mode == "controlled_proof")
      then deny_delivery (some "service_disabled")
      else (do d ← claim_payment h.sha256 claim_of "pending"; after_claim d)

  -- The body of the `try`.
  unfoldable pub claim_checked : Exec Db DeliveryOutcome
  claim_checked = do
    healthy ← is_healthy
    raise_if (not healthy) (runtime_error "control_store_unavailable")
    mode ← get_service_mode
    claim_in_mode mode

  unfoldable pub claim_if : Bool → Exec Db DeliveryOutcome
  claim_if allowed =
      if not allowed
      then deny_delivery (some "invalid_payment_outcome")
      else attempt claim_checked (λ _. deny_delivery (some "control_store_unavailable"))

module _ (h : ControlHost) where
  unfoldable pub claim_settled_payment_for_delivery :
      PaymentOutcome → String → String → Exec Db DeliveryOutcome
  claim_settled_payment_for_delivery payment request_id observed_at = do
    valid_id ← lift (validate_request_id request_id)
    lift (timestamp_epoch h observed_at)
    claim_if h (receipt_of payment) valid_id observed_at
        (payment_receipt_allows_resource_access h.payment payment)

  unfoldable pub delivery_outcome_allows_resource_delivery : DeliveryOutcome → Bool
  delivery_outcome_allows_resource_delivery o =
      o.capability
      && h.valid_delivery o.body
      && o.body.delivery_eligibility_status == "eligible"
      && o.body.delivery_status == "pending"
      && is_none o.body.failure_reason
      && o.body.authority_effect == "none"
      && o.body.delivery_outcome_id
        == stable_operational_id h.sha256 "delivery-outcome" (
            str o.body.request_id
            ∷ str o.body.payment_receipt_id
            ∷ opt_str o.body.claim_id
            ∷ str o.body.claimed_at
            ∷ str o.body.delivery_status
            ∷ opt_str o.body.failure_reason
            ∷ [])
