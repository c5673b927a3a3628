-- ===== src/Delivery.antt =====
-- Delivery of a paid resource (retail_context/runtime_delivery.py): the first delivery of a claimed
-- payment, its resumption, and the redelivery of the same bytes.
pub mod Evolution
pub mod Records
pub mod Capability
pub mod Redelivery
use sharpe_nova_os.Prelude.{
  ℕ, Bool, true, false, not, ◌&&◌, ◌||◌, Option, none, some, String, ◌==◌, opt_eq, ltb, one_of,
  List, [], ◌∷◌, if◌then◌else◌, ℤ, pos, opt_int_eq,
}
use sharpe_nova_os.Exec.{Error, value_error, Exec, pure, raise, attempt, raise_if, ◌>>=◌, ◌>>◌}
use sharpe_nova_os.Telemetry.{IncidentArgs, incident_args}
use sharpe_nova_os.Payment.Types.{PaymentReceipt, PaymentOutcome, receipt_of}
use sharpe_nova_os.Payment.Access.{payment_receipt_allows_resource_access}
use sharpe_nova_os.Store.Db.{Db, PaymentRow}
use sharpe_nova_os.Store.Claims.{get_payment_claim, get_payment_claim_by_settlement}
use sharpe_nova_os.Store.Deliveries.{Mark, mark_delivery}
use sharpe_nova_os.Controls.Types.{DeliveryOutcome, ControlHost}
use sharpe_nova_os.Controls.Audit.{record_retail_operational_incident}
use sharpe_nova_os.Controls.Claiming.{
  reference_text, claim_settled_payment_for_delivery, delivery_outcome_allows_resource_delivery,
}

-- `PreparedRetailRequest`, as far as delivery reads it: `rendered` is the canonical JSON of
-- `build_resource()`, or `none` where building it raises.
pub record PreparedRequest : Type 0 where
  pub request_id : String
  pub resource_type : String
  pub resource_uri : String
  pub rendered : Option String

-- `RetailRuntimeDeliveryCapability`; `issued` says that its private capability is the module's.
pub record RuntimeCapability : Type 0 where
  pub claim_id : String
  pub delivery_status : String
  pub payment_receipt_id : String
  pub request_id : String
  pub resource_uri : String
  pub issued : Bool

pub record DeliveredResource : Type 0 where
  pub body : String
  pub response_digest : String
  pub response_bytes : ℕ
  pub delivery_mode : String

-- `_claim_matches_outcome`
unfoldable pub claim_matches_outcome : PaymentRow → PaymentReceipt → PreparedRequest → Bool
claim_matches_outcome c r p =
    c.request_id == p.request_id
    && c.resource_uri == p.resource_uri
    && c.payment_receipt_id == r.payment_receipt_id
    && c.payment_requirement_id == r.payment_requirement_id
    && c.network == r.network
    && opt_eq (some c.transaction_reference) r.transaction_reference
    && opt_eq c.payer r.payer
    && c.resource_type == r.resource_type
    && c.resource_uri == r.resource_uri
    && c.amount_atomic == r.amount_atomic
    && c.settlement_wallet == r.settlement_wallet

-- `except Exception as exc: raise RetailDeliveryRecoveryError("control_store_unavailable")`
unfoldable pub unavailable : {A : Type 0} → Error → Exec Db A
unavailable _ = raise (value_error "control_store_unavailable")

abbrev pub capability_of : PreparedRequest → String → String → String → RuntimeCapability
capability_of p claim_id status receipt_id = record {
  claim_id = claim_id;
  delivery_status = status;
  payment_receipt_id = receipt_id;
  request_id = p.request_id;
  resource_uri = p.resource_uri;
  issued = true;
}

-- `str(reason or "invalid_payment_outcome")`
abbrev pub reason_or_invalid : Option String → String
reason_or_invalid none = "invalid_payment_outcome"
reason_or_invalid (some reason) = if reason == "" then "invalid_payment_outcome" else reason

unfoldable pub resume_claim :
    PaymentReceipt → PreparedRequest → Option PaymentRow → Exec Db RuntimeCapability
resume_claim r p none = raise (value_error "payment_replay_conflict")
resume_claim r p (some c) =
    if not (claim_matches_outcome c r p)
    then raise (value_error "payment_replay_conflict")
    else if c.delivery_status == "failed"
    then raise (value_error "delivery_reconciliation_required")
    else if not (one_of c.delivery_status ("pending" ∷ "delivered" ∷ []))
    then raise (value_error "invalid_delivery_state")
    else pure (capability_of p c.claim_id c.delivery_status c.payment_receipt_id)

unfoldable pub resume_consumed :
    PaymentReceipt → PreparedRequest → Option String → Exec Db RuntimeCapability
resume_consumed r p reason =
    if not (opt_eq reason (some "payment_already_consumed"))
    then raise (value_error (reason_or_invalid reason))
    else (do
      existing ←
          attempt
            (get_payment_claim_by_settlement r.network (reference_text r.transaction_reference))
            unavailable
      resume_claim r p existing)

-- What follows the claim. An outcome that allows delivery has a claim id.
unfoldable pub after_initial :
    ControlHost → PaymentReceipt → PreparedRequest → DeliveryOutcome → Exec Db RuntimeCapability
after_initial h r p initial =
    if delivery_outcome_allows_resource_delivery h initial
    then pure (
        capability_of p (reference_text initial.body.claim_id) "pending"
          initial.body.payment_receipt_id)
    else resume_consumed r p initial.body.failure_reason

unfoldable pub claim_or_resume_retail_delivery :
    ControlHost → PaymentOutcome → PreparedRequest → String → Exec Db RuntimeCapability
claim_or_resume_retail_delivery h payment p observed_at = do
  raise_if (not (payment_receipt_allows_resource_access h.payment payment))
      (value_error "invalid_payment_outcome")
  raise_if (not ((receipt_of payment).resource_type == p.resource_type))
      (value_error "payment_replay_conflict")
  raise_if (not ((receipt_of payment).resource_uri == p.resource_uri))
      (value_error "payment_replay_conflict")
  initial ←
      attempt (claim_settled_payment_for_delivery h payment p.request_id observed_at) unavailable
  after_initial h (receipt_of payment) p initial

-- `_capability_is_valid`
unfoldable pub capability_is_valid : RuntimeCapability → PreparedRequest → Bool
capability_is_valid c p =
    c.issued && c.request_id == p.request_id && c.resource_uri == p.resource_uri

abbrev pub is_pending : Option PaymentRow → Bool
is_pending none = false
is_pending (some r) = r.delivery_status == "pending"

-- `utf8_length` counts the bytes of a text, and `elapsed` is `processing_duration_ms`.
module _ (h : ControlHost) (utf8_length : String → ℕ) (c : RuntimeCapability) (p : PreparedRequest)
    (observed_at : String) (elapsed : ℕ) where
  abbrev pub failed_mark : String → Mark
  failed_mark reason = record {
    claim_id = c.claim_id;
    status = "failed";
    occurred_at = observed_at;
    response_digest = none;
    response_bytes = none;
    processing_duration_ms = some (pos elapsed);
    failure_reason = some reason;
  }

  abbrev pub delivered_mark : String → Mark
  delivered_mark body = record {
    claim_id = c.claim_id;
    status = "delivered";
    occurred_at = observed_at;
    response_digest = some (h.sha256 body);
    response_bytes = some (pos (utf8_length body));
    processing_duration_ms = some (pos elapsed);
    failure_reason = none;
  }

  unfoldable pub fail_claim : String → Option PaymentRow → Exec Db Unit
  fail_claim reason claim =
      if is_pending claim
      then (do attempt (mark_delivery h.sha256 (failed_mark reason)) unavailable; pure tt)
      else pure tt

  -- The two `except` branches that fail a pending claim and raise `reason`.
  unfoldable pub fail_delivery : String → Exec Db DeliveredResource
  fail_delivery reason = do
    claim ← attempt (get_payment_claim c.claim_id) unavailable
    fail_claim reason claim
    raise (value_error reason)

  abbrev pub resource : String → String → DeliveredResource
  resource body mode = record {
    body = body;
    response_digest = h.sha256 body;
    response_bytes = utf8_length body;
    delivery_mode = mode;
  }

  -- The row records this digest and this length.
  unfoldable pub is_recorded : String → PaymentRow → Bool
  is_recorded body r =
      opt_eq r.response_digest (some (h.sha256 body))
      && opt_int_eq r.response_bytes (some (pos (utf8_length body)))

  abbrev pub mismatch : IncidentArgs
  mismatch =
      record (incident_args observed_at "delivery_failure" p.request_id p.resource_type
        "response_digest_mismatch") { payment_receipt_id = some c.payment_receipt_id }

  unfoldable pub redeliver : String → PaymentRow → Exec Db DeliveredResource
  redeliver body r =
      if not (is_recorded body r)
      then (do
        attempt (record_retail_operational_incident h mismatch) unavailable
        raise (value_error "response_digest_mismatch"))
      else pure (resource body "idempotent_redelivery")

  unfoldable pub after_race : String → Option PaymentRow → Exec Db DeliveredResource
  after_race body none = raise (value_error "invalid_delivery_state")
  after_race body (some r) =
      if not (r.delivery_status == "delivered")
      then raise (value_error "invalid_delivery_state")
      else if not (is_recorded body r)
      then raise (value_error "response_digest_mismatch")
      else pure (resource body "idempotent_redelivery")

  -- `except ValueError` reads the claim again; any other exception is passed on.
  unfoldable pub mark_raised : String → Error → Exec Db DeliveredResource
  mark_raised body (value_error _) = do
    raced ← attempt (get_payment_claim c.claim_id) unavailable
    after_race body raced
  mark_raised body e = unavailable e

  unfoldable pub deliver_first : String → Exec Db DeliveredResource
  deliver_first body =
      attempt
        (do mark_delivery h.sha256 (delivered_mark body); pure (resource body "initial_delivery"))
        (mark_raised body)

  unfoldable pub deliver_claim : String → Option PaymentRow → Exec Db DeliveredResource
  deliver_claim body none = raise (value_error "payment_replay_conflict")
  deliver_claim body (some r) =
      if not (
        r.request_id == p.request_id
        && r.resource_uri == p.resource_uri
        && r.payment_receipt_id == c.payment_receipt_id)
      then raise (value_error "payment_replay_conflict")
      else if r.delivery_status == "failed"
      then raise (value_error "delivery_reconciliation_required")
      else if r.delivery_status == "delivered"
      then redeliver body r
      else if not (r.delivery_status == "pending")
      then raise (value_error "invalid_delivery_state")
      else deliver_first body

  unfoldable pub deliver_body : ℕ → Option String → Exec Db DeliveredResource
  deliver_body max_response_bytes none = fail_delivery "resource_render_failed"
  deliver_body max_response_bytes (some body) =
      if ltb max_response_bytes (utf8_length body)
      then fail_delivery "response_size_exceeded"
      else (do claim ← attempt (get_payment_claim c.claim_id) unavailable; deliver_claim body claim)

  unfoldable pub deliver_or_redeliver_retail_resource : ℕ → Exec Db DeliveredResource
  deliver_or_redeliver_retail_resource max_response_bytes = do
    raise_if (not (capability_is_valid c p)) (value_error "invalid_delivery_capability")
    deliver_body max_response_bytes p.rendered
