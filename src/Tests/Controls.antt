-- ===== src/Tests/Controls.antt =====
-- Runs of the controls (retail_context/production_controls.py).
use sharpe_nova_os.Prelude.{◌≡◌, refl, true, none, some, [], pos}
use sharpe_nova_os.Exec.{ok, ◌>>=◌}
use sharpe_nova_os.Payment.Types.{PaymentOutcome, outcome, receipt_of}
use sharpe_nova_os.Store.Db.{Db}
use sharpe_nova_os.Controls.Types.{ControlConfig, AdmissionOutcome, DeliveryOutcome}
use sharpe_nova_os.Controls.Grants.{IsGranted, claim_settled-IsGranted}
use sharpe_nova_os.Controls.Permitted.{IsPermitted, evaluate-IsPermitted}
use sharpe_nova_os.Tests.Store.{open_db}
use sharpe_nova_os.Tests.Service.{control_host}
use sharpe_nova_os.Text.{strip}
use sharpe_nova_os.Telemetry.{
  stable_operational_id, hash_retail_subject, build_retail_telemetry_event,
}
use sharpe_nova_os.Payment.Requirement.{
  catalog_price, requirement_id, validate_retail_payment_requirement, validated,
  settlement_wallet_of, requirement_for, build_retail_payment_requirement,
}
use sharpe_nova_os.Payment.Process.{
  ask, parse_payload, payload_matches_requirement, issue, settled_receipt, reconcile_reference,
  reconcile_transaction, reconcile, settle_verified, after_verify, process_payload,
  process_retail_x402_payment,
}
use sharpe_nova_os.Payment.Access.{
  receipt_is_permitted, price_matches, expected_receipt_id, payment_receipt_allows_resource_access,
}
use sharpe_nova_os.Payment.Challenge.{challenge_if_valid, build_retail_payment_challenge}
use sharpe_nova_os.Store.Db
use sharpe_nova_os.Store.Db.{require_table}
use sharpe_nova_os.Store.Audit.{
  event_is_refused, incident_is_refused, add_event, add_incident, store_event, store_incident,
  insert_telemetry, insert_incident, unless_post_commit, record_incident,
}
use sharpe_nova_os.Store.Mode.{mode_of, get_service_mode, health_of, health_snapshot, is_healthy}
use sharpe_nova_os.Store.RateLimit.{
  current_count, write_count, decide_count, count_request, consume_rate_limit,
}
use sharpe_nova_os.Store.Claims.{
  insert_fails, add_payment, find_claim, accept_claim, claim_or_refuse, claim_payment,
  get_payment_claim,
}
use sharpe_nova_os.Store.Deliveries.{
  mark_rows, fetched, add_delivery_incident, mark_pending, mark_delivery,
}
use sharpe_nova_os.Store.Requests.{
  request_is_refused, find_request, add_request, admit_request, record_runtime_request,
  get_runtime_request,
}
use sharpe_nova_os.Controls.Types.{
  max_requests_for, timestamp_epoch, validate_request_id, window_start,
}
use sharpe_nova_os.Controls.Audit.{
  report_event, record_retail_operational_incident, set_retail_service_mode,
}
use sharpe_nova_os.Controls.Admission.{
  admission_of, admission_record, admit, decide, admit_resource, admit_in_mode, admit_checked,
  evaluate_candidate, evaluate_retail_pre_payment_admission,
  service_admission_allows_payment_challenge,
}
use sharpe_nova_os.Controls.Claiming.{
  delivery_of, delivery_record, claim_id_of, claim_of, grant_delivery, after_claim, claim_in_mode,
  claim_checked, claim_if, claim_settled_payment_for_delivery,
  delivery_outcome_allows_resource_delivery,
}
use sharpe_nova_os.Guard
use sharpe_nova_os.Guard.{
  find_guard, select_guard, add_guard, use_continuation, write_retry, initialize_found,
  initialize_request, current_retries, count_retry, consume_bound, consume_found, consume_in_window,
  consume_existing_attempt, get_request_guard,
}
use sharpe_nova_os.Delivery.{
  after_initial, claim_or_resume_retail_delivery, capability_is_valid, deliver_first, deliver_claim,
  deliver_body, deliver_or_redeliver_retail_resource,
}
use sharpe_nova_os.Service.World.{on_store, on_guard, on_facilitator}
use sharpe_nova_os.Service.Request.{resource_uri_of, request_id_of, for_delivery, compare_digest}
use sharpe_nova_os.Service.Admission.{
  after_recorded, after_admission, admit_new, admit_found, ensure_runtime_admission,
}
use sharpe_nova_os.Service.Handler.{
  token_matches, claim_and_deliver, after_payment, pay, ask_payment, after_admitted,
  handle_prepared, handle_digest, handle_body, handle_allowed, handle_paid_resource,
}

abbrev payment : PaymentOutcome
payment =
    outcome
      (record {
        payment_receipt_id = "payment-receipt-0123456789abcdef01234567";
        payment_requirement_id = "payment-requirement-0123456789abcdef01234567";
        resource_type = "state_ping";
        resource_uri = "/ping";
        pricing_model = "pay_per_context_resource";
        payment_verification_status = "verified";
        settlement_status = "settled";
        access_status = "permitted";
        payer = some "payer-1";
        network = "eip155:8453";
        asset = "0x833589fCD6eDb6E08f4c7C32D4f71b54bdA02913";
        amount_atomic = "2000";
        settlement_wallet = "wallet-1";
        transaction_reference = some "0xabc";
        failure_reason = none;
        authority_effect = "none";
        access_effect = "context_resource_access_only";
      })
      true

abbrev granted : DeliveryOutcome
granted = record {
  body = record {
    delivery_outcome_id = "delivery-outcome-0123456789abcdef01234567";
    claim_id = some "payment-claim-0123456789abcdef01234567";
    request_id = "request-1";
    payment_receipt_id = "payment-receipt-0123456789abcdef01234567";
    payment_requirement_id = "payment-requirement-0123456789abcdef01234567";
    resource_type = "state_ping";
    resource_uri = "/ping";
    delivery_eligibility_status = "eligible";
    delivery_status = "pending";
    claimed_at = "2026-01-01T00:00:02Z";
    failure_reason = none;
    authority_effect = "none";
  };
  capability = true;
}

claims :
    (claim_settled_payment_for_delivery control_host payment "request-1" "2026-01-01T00:00:02Z"
      open_db).0
    ≡ ok granted
unfolding strip stable_operational_id hash_retail_subject build_retail_telemetry_event catalog_price
    requirement_id validate_retail_payment_requirement validated settlement_wallet_of
    requirement_for build_retail_payment_requirement ask parse_payload payload_matches_requirement
    issue settled_receipt reconcile_reference reconcile_transaction reconcile settle_verified
    after_verify process_payload process_retail_x402_payment receipt_is_permitted price_matches
    expected_receipt_id payment_receipt_allows_resource_access challenge_if_valid
    build_retail_payment_challenge Db.connection Guard.connection require_table store_event
    insert_telemetry mode_of get_service_mode health_of health_snapshot is_healthy current_count
    write_count decide_count count_request consume_rate_limit insert_fails add_payment find_claim
    accept_claim claim_or_refuse claim_payment get_payment_claim mark_rows fetched
    add_delivery_incident mark_pending mark_delivery request_is_refused find_request add_request
    admit_request record_runtime_request get_runtime_request max_requests_for timestamp_epoch
    validate_request_id report_event admission_of admission_record admit decide admit_resource
    admit_in_mode admit_checked evaluate_candidate evaluate_retail_pre_payment_admission
    service_admission_allows_payment_challenge delivery_of delivery_record claim_id_of claim_of
    grant_delivery after_claim claim_in_mode claim_checked claim_if
    claim_settled_payment_for_delivery delivery_outcome_allows_resource_delivery find_guard
    select_guard add_guard initialize_found initialize_request after_initial
    claim_or_resume_retail_delivery capability_is_valid deliver_first deliver_claim deliver_body
    deliver_or_redeliver_retail_resource on_store on_guard on_facilitator resource_uri_of
    request_id_of for_delivery compare_digest after_recorded after_admission admit_new admit_found
    ensure_runtime_admission token_matches claim_and_deliver after_payment pay ask_payment
    after_admitted handle_prepared handle_digest handle_body handle_allowed handle_paid_resource
    sharpe_nova_os.Controls.Audit.record_telemetry sharpe_nova_os.Store.Audit.record_telemetry ◌>>=◌
claims = refl

claim_settled-IsGranted_example :
    (payment_receipt_allows_resource_access control_host.payment payment ≡ true)
    × IsGranted
        (receipt_of payment)
        granted
        []
        (claim_settled_payment_for_delivery control_host payment "request-1" "2026-01-01T00:00:02Z"
          open_db).1.payments
claim_settled-IsGranted_example =
    claim_settled-IsGranted control_host payment "request-1" "2026-01-01T00:00:02Z" open_db granted
      claims refl

abbrev controls : ControlConfig
controls = record {
  rate_limit_window_seconds = 60;
  state_ping_max_requests = 2;
  context_delta_max_requests = 2;
}

abbrev admitted : AdmissionOutcome
admitted = record {
  body = record {
    service_admission_id = "service-admission-0123456789abcdef01234567";
    request_id = "request-1";
    resource_type = "state_ping";
    subject_hash = "0123456789abcdef01234567";
    observed_at = "2026-01-01T00:00:02Z";
    service_admission_status = "admitted";
    failure_reason = none;
    rate_limit = some (record { count = 1; max_requests = 2; window_started_at_epoch = pos 60 });
    authority_effect = "none";
  };
  capability = true;
}

admits :
    (evaluate_retail_pre_payment_admission control_host "subject" "state_ping" "request-1"
      (some controls)
      "2026-01-01T00:00:02Z"
      open_db).0
    ≡ ok admitted
unfolding window_start strip stable_operational_id hash_retail_subject build_retail_telemetry_event
    catalog_price requirement_id validate_retail_payment_requirement validated settlement_wallet_of
    requirement_for build_retail_payment_requirement ask parse_payload payload_matches_requirement
    issue settled_receipt reconcile_reference reconcile_transaction reconcile settle_verified
    after_verify process_payload process_retail_x402_payment receipt_is_permitted price_matches
    expected_receipt_id payment_receipt_allows_resource_access challenge_if_valid
    build_retail_payment_challenge Db.connection Guard.connection require_table store_event
    insert_telemetry mode_of get_service_mode health_of health_snapshot is_healthy current_count
    write_count decide_count count_request consume_rate_limit insert_fails add_payment find_claim
    accept_claim claim_or_refuse claim_payment get_payment_claim mark_rows fetched
    add_delivery_incident mark_pending mark_delivery request_is_refused find_request add_request
    admit_request record_runtime_request get_runtime_request max_requests_for timestamp_epoch
    validate_request_id report_event admission_of admission_record admit decide admit_resource
    admit_in_mode admit_checked evaluate_candidate evaluate_retail_pre_payment_admission
    service_admission_allows_payment_challenge delivery_of delivery_record claim_id_of claim_of
    grant_delivery after_claim claim_in_mode claim_checked claim_if
    claim_settled_payment_for_delivery delivery_outcome_allows_resource_delivery find_guard
    select_guard add_guard initialize_found initialize_request after_initial
    claim_or_resume_retail_delivery capability_is_valid deliver_first deliver_claim deliver_body
    deliver_or_redeliver_retail_resource on_store on_guard on_facilitator resource_uri_of
    request_id_of for_delivery compare_digest after_recorded after_admission admit_new admit_found
    ensure_runtime_admission token_matches claim_and_deliver after_payment pay ask_payment
    after_admitted handle_prepared handle_digest handle_body handle_allowed handle_paid_resource
    sharpe_nova_os.Controls.Audit.record_telemetry sharpe_nova_os.Store.Audit.record_telemetry ◌>>=◌
admits = refl

evaluate-IsPermitted_example :
    IsPermitted control_host "subject" "state_ping"
      (some controls)
      "2026-01-01T00:00:02Z"
      admitted
      open_db
evaluate-IsPermitted_example =
    evaluate-IsPermitted control_host "subject" "state_ping" "request-1" (some controls)
      "2026-01-01T00:00:02Z" open_db admitted admits refl
