-- ===== src/Tests/Service.antt =====
-- Runs of the service (retail_context/service.py).
use sharpe_nova_os.Prelude.{◌≡◌, ◌⊎◌, refl, Option, true, none, some, [], ◌∷◌, String, pos}
use sharpe_nova_os.Exec.{Result, ok, ◌>>=◌}
use sharpe_nova_os.Payment.Types.{PaymentRequirement, PaymentPayload}
use sharpe_nova_os.Payment.Requirement.{upstream_requirements, nova_of}
use sharpe_nova_os.Controls.Types.{ControlHost}
use sharpe_nova_os.Service.World.{World}
use sharpe_nova_os.Service.Request.{
  PreparedRetailRequest, RuntimeConfig, decoded, Response, ServiceHost,
}
use sharpe_nova_os.Service.Served.{IsServed, handle-IsServed}
use sharpe_nova_os.Service.Admitted.{IsAdmitted, ensure-IsAdmitted}
use sharpe_nova_os.Service.Asked.{IsCleared, handle-IsCleared}
use sharpe_nova_os.Service.Replay.{Arrival, answer, serve, handle-same_digest}
use sharpe_nova_os.Tests.Payment.{requirement, verification, settlement}
use sharpe_nova_os.Tests.Store.{open_db}
use sharpe_nova_os.Tests.Guard.{closed_guard}
use sharpe_nova_os.Tests.Delivery.{nine_bytes}
use sharpe_nova_os.Text.{strip, is_failure_reason}
use sharpe_nova_os.Telemetry.{
  stable_operational_id, hash_retail_subject, build_retail_telemetry_event,
}
use sharpe_nova_os.Payment.Requirement.{
  catalog_price, requirement_id, validate_retail_payment_requirement, validated,
  settlement_wallet_of, requirement_for, build_retail_payment_requirement,
}
use sharpe_nova_os.Payment.Process.{
  ask, parse_payload, payload_matches_requirement, issue, settled_receipt, reconcile_reference,
  reconcile_transaction, reconcile, settle_verified, after_verify, process_payload,
  process_retail_x402_payment,
}
use sharpe_nova_os.Payment.Access.{
  receipt_is_permitted, price_matches, expected_receipt_id, payment_receipt_allows_resource_access,
}
use sharpe_nova_os.Payment.Challenge.{challenge_if_valid, build_retail_payment_challenge}
use sharpe_nova_os.Store.Db
use sharpe_nova_os.Store.Db.{require_table}
use sharpe_nova_os.Store.Audit.{
  event_is_refused, incident_is_refused, add_event, add_incident, store_event, store_incident,
  insert_telemetry, insert_incident, unless_post_commit, record_incident,
}
use sharpe_nova_os.Store.Mode.{mode_of, get_service_mode, health_of, health_snapshot, is_healthy}
use sharpe_nova_os.Store.RateLimit.{
  current_count, write_count, decide_count, count_request, consume_rate_limit,
}
use sharpe_nova_os.Store.Claims.{
  insert_fails, add_payment, find_claim, same_payment, refuse, accept_claim, claim_or_refuse,
  claim_payment, get_payment_claim, get_payment_claim_by_settlement,
}
use sharpe_nova_os.Store.Deliveries.{
  mark_rows, fetched, add_delivery_incident, mark_pending, mark_delivery,
}
use sharpe_nova_os.Store.Requests.{
  request_is_refused, find_request, add_request, admit_request, record_runtime_request,
  get_runtime_request,
}
use sharpe_nova_os.Controls.Types.{
  max_requests_for, timestamp_epoch, validate_request_id, window_start,
}
use sharpe_nova_os.Controls.Audit.{
  report_event, record_retail_operational_incident, set_retail_service_mode,
}
use sharpe_nova_os.Controls.Admission.{
  admission_of, admission_record, admit, decide, admit_resource, admit_in_mode, admit_checked,
  evaluate_candidate, evaluate_retail_pre_payment_admission,
  service_admission_allows_payment_challenge,
}
use sharpe_nova_os.Controls.Claiming.{
  delivery_of, delivery_record, deny_delivery, claim_id_of, claim_of, report_conflict, deny_replay,
  grant_delivery, after_claim, claim_in_mode, claim_checked, claim_if,
  claim_settled_payment_for_delivery, delivery_outcome_allows_resource_delivery,
}
use sharpe_nova_os.Guard
use sharpe_nova_os.Guard.{
  find_guard, select_guard, add_guard, use_continuation, write_retry, initialize_found,
  initialize_request, current_retries, count_retry, consume_bound, consume_found, consume_in_window,
  consume_existing_attempt, get_request_guard,
}
use sharpe_nova_os.Delivery
use sharpe_nova_os.Delivery.{
  claim_matches_outcome, unavailable, resume_claim, resume_consumed, after_initial,
  claim_or_resume_retail_delivery, capability_is_valid, fail_claim, fail_delivery, redeliver,
  after_race, mark_raised, deliver_first, deliver_claim, deliver_body,
  deliver_or_redeliver_retail_resource,
}
use sharpe_nova_os.Service.World.{on_store, on_guard, on_facilitator}
use sharpe_nova_os.Service.Request.{resource_uri_of, request_id_of, for_delivery, compare_digest}
use sharpe_nova_os.Service.Admission.{
  is_same_request, ensure_guard, consume_retry, admit_known_in, admit_known_if, admit_known,
  after_recorded, after_admission, admit_new, admit_found, ensure_runtime_admission,
}
use sharpe_nova_os.Service.Handler.{
  token_matches, claim_and_deliver, after_payment, pay, ask_payment, after_admitted,
  handle_prepared, handle_digest, handle_body, handle_allowed, handle_paid_resource,
}

abbrev digest : String
digest = "0123456789abcdef01234567"

abbrev sha : String → String
sha _ = digest

abbrev pub control_host : ControlHost
control_host = record {
  payment = record { sha256 = sha; valid_requirement = λ _. true; valid_receipt = λ _. true };
  epoch_of = λ _. some (pos 65);
  valid_admission = λ _. true;
  valid_delivery = λ _. true;
  valid_event = λ _. true;
  valid_incident = λ _. true;
}

abbrev retail_request : PreparedRetailRequest
retail_request = record {
  resource_type = "state_ping";
  request_digest = digest;
  subject_key = "subject";
  source_binding_digest = "sources";
  rendered = some "{\"ok\":1}\n";
}

abbrev uri : String
uri = "/retail/v1/context/state-ping/0123456789abcdef01234567?source_binding=sources"

abbrev pub required : PaymentRequirement
required = record requirement { resource_uri = uri }

abbrev paid : PaymentPayload
paid = record {
  x402_version = 2;
  accepted = upstream_requirements required;
  resource_url = some uri;
  nova = some (nova_of required);
}

abbrev host : ServiceHost
host = record {
  control = control_host;
  challenge = record { encode_payment_required = λ _. "challenge"; valid_challenge = λ _. true };
  facilitator = record { verify = λ _ _. some verification; settle = λ _ _. some settlement };
  prepare = λ kind body. some retail_request;
  decode_payment = λ _. decoded paid;
  utf8_length = nine_bytes;
}

abbrev config : RuntimeConfig
config = record {
  controlled_proof_access_token = "token";
  settlement_wallet = "wallet-1";
  max_request_bytes = 64;
  max_response_bytes = 64;
  retry_max_requests = 2;
  production_controls = record {
    rate_limit_window_seconds = 60;
    state_ping_max_requests = 2;
    context_delta_max_requests = 2;
  };
}

abbrev before : World
before = record { store = open_db; guard = closed_guard; asked = [] }

abbrev paying : Arrival
paying = record {
  request = record {
    proof_token = some "token";
    body = "{}";
    body_bytes = 2;
    request_digest = digest;
    payment_header = some "payment";
  };
  kind = "state_ping";
  at = "2026-01-01T00:00:02Z";
  elapsed = 3;
}

abbrev asking : Arrival
asking = record paying { request = record (paying.request) { payment_header = none } }

abbrev response : String → Response
response mode = record {
  status = 200;
  error = none;
  body = some "{\"ok\":1}\n";
  payment_required = none;
  delivery_mode = some mode;
  response_digest = some digest;
  settled_transaction = some "0xabc";
}

answers_paid : (answer host config paying before).0 ≡ ok (response "initial_delivery")
unfolding strip stable_operational_id hash_retail_subject build_retail_telemetry_event catalog_price
    requirement_id validate_retail_payment_requirement validated settlement_wallet_of
    requirement_for build_retail_payment_requirement ask parse_payload payload_matches_requirement
    issue settled_receipt reconcile_reference reconcile_transaction reconcile settle_verified
    after_verify process_payload process_retail_x402_payment receipt_is_permitted price_matches
    expected_receipt_id payment_receipt_allows_resource_access challenge_if_valid
    build_retail_payment_challenge Db.connection Guard.connection require_table store_event
    insert_telemetry mode_of get_service_mode health_of health_snapshot is_healthy current_count
    write_count decide_count count_request consume_rate_limit insert_fails add_payment find_claim
    accept_claim claim_or_refuse claim_payment get_payment_claim mark_rows fetched
    add_delivery_incident mark_pending mark_delivery request_is_refused find_request add_request
    admit_request record_runtime_request get_runtime_request max_requests_for timestamp_epoch
    validate_request_id report_event admission_of admission_record admit decide admit_resource
    admit_in_mode admit_checked evaluate_candidate evaluate_retail_pre_payment_admission
    service_admission_allows_payment_challenge delivery_of delivery_record claim_id_of claim_of
    grant_delivery after_claim claim_in_mode claim_checked claim_if
    claim_settled_payment_for_delivery delivery_outcome_allows_resource_delivery find_guard
    select_guard add_guard initialize_found initialize_request after_initial
    claim_or_resume_retail_delivery capability_is_valid deliver_first deliver_claim deliver_body
    deliver_or_redeliver_retail_resource on_store on_guard on_facilitator resource_uri_of
    request_id_of for_delivery compare_digest after_recorded after_admission admit_new admit_found
    ensure_runtime_admission token_matches claim_and_deliver after_payment pay ask_payment
    after_admitted handle_prepared handle_digest handle_body handle_allowed handle_paid_resource
    sharpe_nova_os.Controls.Audit.record_telemetry sharpe_nova_os.Store.Audit.record_telemetry ◌>>=◌
answers_paid = refl

handle-IsServed_example :
    IsServed host config paying.request "state_ping"
      (response "initial_delivery")
      before
      (answer host config paying before).1
handle-IsServed_example =
    handle-IsServed host config "2026-01-01T00:00:02Z" 3 paying.request "state_ping" before
      (response "initial_delivery") answers_paid refl

answers_again :
    (answer host config paying
      (serve host config (asking ∷ []) (answer host config paying before).1)).0
    ≡ ok (response "idempotent_redelivery")
unfolding strip is_failure_reason stable_operational_id hash_retail_subject
    build_retail_telemetry_event catalog_price requirement_id validate_retail_payment_requirement
    validated settlement_wallet_of requirement_for build_retail_payment_requirement ask
    parse_payload payload_matches_requirement issue settled_receipt reconcile_reference
    reconcile_transaction reconcile settle_verified after_verify process_payload
    process_retail_x402_payment receipt_is_permitted price_matches expected_receipt_id
    payment_receipt_allows_resource_access challenge_if_valid build_retail_payment_challenge
    Db.connection Guard.connection require_table store_event insert_telemetry mode_of
    get_service_mode health_of health_snapshot is_healthy current_count write_count decide_count
    count_request consume_rate_limit insert_fails add_payment find_claim same_payment refuse
    accept_claim claim_or_refuse claim_payment get_payment_claim get_payment_claim_by_settlement
    mark_rows fetched add_delivery_incident mark_pending mark_delivery request_is_refused
    find_request Delivery.is_recorded add_request admit_request record_runtime_request
    get_runtime_request max_requests_for timestamp_epoch validate_request_id window_start
    report_event admission_of admission_record admit decide admit_resource admit_in_mode
    admit_checked evaluate_candidate evaluate_retail_pre_payment_admission
    service_admission_allows_payment_challenge delivery_of delivery_record deny_delivery claim_id_of
    claim_of report_conflict deny_replay grant_delivery after_claim claim_in_mode claim_checked
    claim_if claim_settled_payment_for_delivery delivery_outcome_allows_resource_delivery find_guard
    select_guard add_guard write_retry initialize_found initialize_request current_retries
    count_retry consume_bound consume_found consume_in_window consume_existing_attempt
    get_request_guard claim_matches_outcome resume_claim resume_consumed after_initial
    claim_or_resume_retail_delivery capability_is_valid redeliver deliver_first deliver_claim
    deliver_body deliver_or_redeliver_retail_resource on_store on_guard on_facilitator
    resource_uri_of request_id_of for_delivery compare_digest is_same_request ensure_guard
    consume_retry admit_known_in admit_known_if admit_known after_recorded after_admission admit_new
    admit_found ensure_runtime_admission token_matches claim_and_deliver after_payment pay
    ask_payment after_admitted handle_prepared handle_digest handle_body handle_allowed
    handle_paid_resource sharpe_nova_os.Controls.Audit.record_telemetry
    sharpe_nova_os.Store.Audit.record_telemetry ◌>>=◌ serve
answers_again = refl

handle-same_digest_example :
    (response "initial_delivery").response_digest
    ≡ (response "idempotent_redelivery").response_digest
handle-same_digest_example =
    handle-same_digest host config paying before (response "initial_delivery") (asking ∷ []) paying
      (response "idempotent_redelivery") answers_paid refl answers_again refl refl

handle-IsCleared_example :
    ((answer host config paying before).1.asked ≡ [])
    ⊎ IsCleared host config paying.request "state_ping" (answer host config paying before).1
handle-IsCleared_example =
    handle-IsCleared host config "2026-01-01T00:00:02Z" 3 paying.request "state_ping" before

abbrev admission : World → Result (Option String) × World
admission = ensure_runtime_admission control_host config retail_request "2026-01-01T00:00:02Z" true

admits : (admission before).0 ≡ ok none
unfolding strip stable_operational_id hash_retail_subject build_retail_telemetry_event catalog_price
    requirement_id validate_retail_payment_requirement validated settlement_wallet_of
    requirement_for build_retail_payment_requirement ask parse_payload payload_matches_requirement
    issue settled_receipt reconcile_reference reconcile_transaction reconcile settle_verified
    after_verify process_payload process_retail_x402_payment receipt_is_permitted price_matches
    expected_receipt_id payment_receipt_allows_resource_access challenge_if_valid
    build_retail_payment_challenge Db.connection Guard.connection require_table store_event
    insert_telemetry mode_of get_service_mode health_of health_snapshot is_healthy current_count
    write_count decide_count count_request consume_rate_limit insert_fails add_payment find_claim
    accept_claim claim_or_refuse claim_payment get_payment_claim mark_rows fetched
    add_delivery_incident mark_pending mark_delivery request_is_refused find_request add_request
    admit_request record_runtime_request get_runtime_request max_requests_for timestamp_epoch
    validate_request_id report_event admission_of admission_record admit decide admit_resource
    admit_in_mode admit_checked evaluate_candidate evaluate_retail_pre_payment_admission
    service_admission_allows_payment_challenge delivery_of delivery_record claim_id_of claim_of
    grant_delivery after_claim claim_in_mode claim_checked claim_if
    claim_settled_payment_for_delivery delivery_outcome_allows_resource_delivery find_guard
    select_guard add_guard initialize_found initialize_request after_initial
    claim_or_resume_retail_delivery capability_is_valid deliver_first deliver_claim deliver_body
    deliver_or_redeliver_retail_resource on_store on_guard on_facilitator resource_uri_of
    request_id_of for_delivery compare_digest after_recorded after_admission admit_new admit_found
    ensure_runtime_admission token_matches claim_and_deliver after_payment pay ask_payment
    after_admitted handle_prepared handle_digest handle_body handle_allowed handle_paid_resource
    sharpe_nova_os.Controls.Audit.record_telemetry sharpe_nova_os.Store.Audit.record_telemetry ◌>>=◌
admits = refl

ensure-IsAdmitted_example : IsAdmitted retail_request (admission before).1.store
ensure-IsAdmitted_example =
    ensure-IsAdmitted control_host config retail_request "2026-01-01T00:00:02Z" true before admits
