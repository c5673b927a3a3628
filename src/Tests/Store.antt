-- ===== src/Tests/Store.antt =====
-- Runs of the control store (retail_context/control_store.py).
use sharpe_nova_os.Prelude.{
  ◌≡◌, refl, inr, ◌≤◌, ◌+◌, true, false, none, some, Option, List, [], ◌∷◌, String, pos, arith,
}
use sharpe_nova_os.Exec.{ok, returned, ◌>>=◌}
use sharpe_nova_os.Telemetry.{build_retail_telemetry_event}
use sharpe_nova_os.Store.Db.{
  Db, Claim, RuntimeRequest, required_tables, empty, connection, require_table,
}
use sharpe_nova_os.Store.Audit.{insert_telemetry, store_event}
use sharpe_nova_os.Store.RateLimit.{Window, current_count}
use sharpe_nova_os.Store.Claims.{
  insert_fails, add_payment, find_claim, accept_claim, claim_or_refuse, claim_payment,
}
use sharpe_nova_os.Store.Deliveries.{
  Mark, mark_rows, fetched, add_delivery_incident, mark_pending, mark_delivery,
}
use sharpe_nova_os.Store.RateLimit.{write_count, decide_count, count_request, consume_rate_limit}
use sharpe_nova_os.Store.Mode.{write_mode, set_service_mode}
use sharpe_nova_os.Store.Requests.{
  request_is_refused, find_request, add_request, admit_request, record_runtime_request,
  get_runtime_request,
}
use sharpe_nova_os.Store.Recorded.{record-get_runtime_request}
use sharpe_nova_os.Store.Calls.{Call, perform, history}
use sharpe_nova_os.Store.Consumption.{was_claimed, claim_payment-once, history-Grows}
use sharpe_nova_os.Store.Growth.{Grows}
use sharpe_nova_os.Store.Replay.{AlreadyConsumed, claim_payment-replayed}
use sharpe_nova_os.Store.Final.{mark_delivery-once}
use sharpe_nova_os.Store.Keys.{HasKeys, HasKeys-empty, history-HasKeys}
use sharpe_nova_os.Store.Limits.{
  LimitsAtMost, total_permits, total_permits-counts, total_permits-le-limit,
}

-- A stand-in for SHA-256.
abbrev pub same_text : String → String
same_text s = s

abbrev pub open_db : Db
open_db = record empty {
  tables = required_tables;
  service_state =
      some (record { operating_mode = "controlled_proof"; changed_at = "2026-01-01T00:00:00Z" });
}

abbrev pub first_claim : Claim
first_claim = record {
  claim_id = "claim-1";
  request_id = "request-1";
  payment_receipt_id = "receipt-1";
  payment_requirement_id = "requirement-1";
  network = "eip155:8453";
  transaction_reference = "0xabc";
  payer = some "payer-1";
  resource_type = "state_ping";
  resource_uri = "/retail/v1/context/state-ping/1";
  amount_atomic = "1000";
  settlement_wallet = "wallet-1";
  claimed_at = "2026-01-01T00:00:01Z";
  authority_effect = "none";
}

-- Another receipt for the same settlement.
abbrev replayed_claim : Claim
replayed_claim = record first_claim { claim_id = "claim-2"; payment_receipt_id = "receipt-2" }

abbrev delivered : Mark
delivered = record {
  claim_id = "claim-1";
  status = "delivered";
  occurred_at = "2026-01-01T00:00:02Z";
  response_digest = some "digest-1";
  response_bytes = some (pos 7);
  processing_duration_ms = some (pos 3);
  failure_reason = none;
}

abbrev failed : Mark
failed = record delivered { status = "failed"; failure_reason = some "resource_render_failed" }

abbrev window : Window
window = record {
  subject_hash = "subject-1";
  resource_type = "state_ping";
  window_started_at_epoch = pos 60;
}

abbrev calls : List Call
calls =
    Call.mark_delivery delivered
    ∷ Call.set_service_mode "disabled" "2026-01-01T00:00:03Z"
    ∷ Call.consume_rate_limit window 2 "2026-01-01T00:00:04Z"
    ∷ []

first_claimed : was_claimed (claim_payment same_text first_claim "pending" open_db).0 ≡ true
unfolding claim_payment connection require_table claim_or_refuse accept_claim insert_telemetry
    store_event add_payment build_retail_telemetry_event insert_fails find_claim ◌>>=◌
first_claimed = refl

claim_payment-once_example :
    was_claimed
      (claim_payment same_text replayed_claim "pending"
        (history same_text calls (claim_payment same_text first_claim "pending" open_db).1)).0
    ≡ false
claim_payment-once_example =
    claim_payment-once same_text first_claim "pending" open_db calls replayed_claim "pending"
      first_claimed (inr (inr (refl, refl)))

claim_payment-replayed_example :
    AlreadyConsumed first_claim
      (claim_payment same_text
        (record first_claim { claim_id = "claim-3" })
        "pending"
        (history same_text calls (claim_payment same_text first_claim "pending" open_db).1)).0
claim_payment-replayed_example =
    claim_payment-replayed same_text first_claim "pending" open_db calls
      (record first_claim { claim_id = "claim-3" }) "pending" first_claimed
      (record {
        receipt = refl;
        requirement = refl;
        network = refl;
        reference = refl;
        payer = refl;
        resource_type = refl;
        resource_uri = refl;
        amount = refl;
        wallet = refl;
      })

abbrev pub claimed_db : Db
claimed_db = record open_db {
  payments =
      record {
        claim = first_claim;
        delivery_status = "pending";
        delivered_at = none;
        failed_at = none;
        response_digest = none;
        response_bytes = none;
        processing_duration_ms = none;
        delivery_failure_reason = none;
      }
      ∷ [];
}

delivered_once : returned (mark_delivery same_text delivered claimed_db).0 ≡ true
unfolding mark_delivery connection require_table mark_pending mark_rows fetched
    add_delivery_incident insert_telemetry store_event build_retail_telemetry_event find_claim ◌>>=◌
delivered_once = refl

mark_delivery-once_example :
    returned
      (mark_delivery same_text failed
        (history same_text calls (mark_delivery same_text delivered claimed_db).1)).0
    ≡ false
mark_delivery-once_example =
    mark_delivery-once same_text delivered claimed_db calls failed delivered_once refl

history-HasKeys_example : HasKeys (history same_text (Call.initialize ∷ calls) empty)
history-HasKeys_example = history-HasKeys same_text (Call.initialize ∷ calls) empty HasKeys-empty

history-Grows_example : Grows claimed_db (history same_text calls claimed_db)
history-Grows_example = history-Grows same_text calls claimed_db

abbrev three_requests : List Call
three_requests =
    Call.consume_rate_limit window 2 "2026-01-01T00:01:01Z"
    ∷ Call.consume_rate_limit window 2 "2026-01-01T00:01:02Z"
    ∷ Call.consume_rate_limit window 2 "2026-01-01T00:01:03Z"
    ∷ []

no_requests_yet : current_count window open_db.rate_limits ≤ 2
unfolding current_count
no_requests_yet = omega arith

within_two : LimitsAtMost 2 window three_requests
within_two = ((λ _. omega arith), ((λ _. omega arith), ((λ _. omega arith), tt)))

total_permits-le-limit_example :
    (current_count window (history same_text three_requests open_db).rate_limits ≤ 2)
    × (total_permits same_text window three_requests open_db ≤ 2)
total_permits-le-limit_example =
    total_permits-le-limit same_text window 2 three_requests open_db within_two no_requests_yet

total_permits-counts_example :
    current_count window (history same_text three_requests open_db).rate_limits
    ≡ current_count window open_db.rate_limits
      + total_permits same_text window three_requests open_db
total_permits-counts_example = total_permits-counts same_text window three_requests open_db

abbrev first_request : RuntimeRequest
first_request = record {
  request_id = "request-1";
  request_digest = "digest-1";
  subject_hash = "subject-1";
  resource_type = "state_ping";
  resource_uri = "/retail/v1/context/state-ping/1";
  admitted_at = "2026-01-01T00:00:01Z";
  authority_effect = "none";
}

first_recorded : (record_runtime_request first_request open_db).0 ≡ ok true
unfolding record_runtime_request connection require_table request_is_refused admit_request
    add_request ◌>>=◌
first_recorded = refl

reads_back :
    (get_runtime_request "request-1"
      (history same_text calls (record_runtime_request first_request open_db).1)).0
    ≡ ok (some first_request)
unfolding history perform get_runtime_request record_runtime_request connection require_table
    request_is_refused admit_request add_request find_request mark_delivery mark_pending mark_rows
    fetched add_delivery_incident set_service_mode write_mode consume_rate_limit count_request
    current_count decide_count write_count ◌>>=◌
reads_back = refl

record-get_runtime_request_example :
    ◌≡◌ {A = Option RuntimeRequest} (some first_request) (some first_request)
record-get_runtime_request_example =
    record-get_runtime_request same_text first_request open_db calls (some first_request)
      first_recorded reads_back
