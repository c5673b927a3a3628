-- ===== src/Tests/Delivery.antt =====
-- Runs of delivery (retail_context/runtime_delivery.py).
use sharpe_nova_os.Prelude.{◌≡◌, refl, ℕ, true, some, [], ◌∷◌, String, pos}
use sharpe_nova_os.Exec.{Result, ok, ◌>>=◌}
use sharpe_nova_os.Telemetry.{build_retail_telemetry_event}
use sharpe_nova_os.Store.Db.{Db, connection, require_table}
use sharpe_nova_os.Store.Audit.{insert_telemetry, store_event}
use sharpe_nova_os.Store.Claims.{find_claim, get_payment_claim}
use sharpe_nova_os.Store.Deliveries.{
  mark_rows, fetched, add_delivery_incident, mark_pending, mark_delivery,
}
use sharpe_nova_os.Store.Calls.{Call, perform, history}
use sharpe_nova_os.Store.Mode
use sharpe_nova_os.Controls.Types.{ControlHost}
use sharpe_nova_os.Delivery.{
  PreparedRequest, RuntimeCapability, DeliveredResource, capability_is_valid, is_recorded,
  redeliver, deliver_first, deliver_claim, deliver_body, deliver_or_redeliver_retail_resource,
}
use sharpe_nova_os.Delivery.Redelivery.{IsDelivered, deliver-IsDelivered, deliver-same_digest}
use sharpe_nova_os.Tests.Store.{claimed_db}

abbrev host : ControlHost
host = record {
  payment = record { sha256 = λ s. s; valid_requirement = λ _. true; valid_receipt = λ _. true };
  epoch_of = λ _. some (pos 0);
  valid_admission = λ _. true;
  valid_delivery = λ _. true;
  valid_event = λ _. true;
  valid_incident = λ _. true;
}

abbrev pub nine_bytes : String → ℕ
nine_bytes _ = 9

abbrev capability : RuntimeCapability
capability = record {
  claim_id = "claim-1";
  delivery_status = "pending";
  payment_receipt_id = "receipt-1";
  request_id = "request-1";
  resource_uri = "/retail/v1/context/state-ping/1";
  issued = true;
}

abbrev prepared : PreparedRequest
prepared = record {
  request_id = "request-1";
  resource_type = "state_ping";
  resource_uri = "/retail/v1/context/state-ping/1";
  rendered = some "{\"ok\":1}\n";
}

abbrev resource : String → DeliveredResource
resource mode = record {
  body = "{\"ok\":1}\n";
  response_digest = "{\"ok\":1}\n";
  response_bytes = 9;
  delivery_mode = mode;
}

abbrev deliver : Db → Result DeliveredResource × Db
deliver db =
    deliver_or_redeliver_retail_resource host nine_bytes capability prepared "2026-01-01T00:00:02Z"
      3 64 db

delivers_first : (deliver claimed_db).0 ≡ ok (resource "initial_delivery")
unfolding deliver_or_redeliver_retail_resource capability_is_valid deliver_body deliver_claim
    deliver_first get_payment_claim find_claim connection require_table mark_delivery mark_pending
    mark_rows fetched add_delivery_incident insert_telemetry store_event
    build_retail_telemetry_event ◌>>=◌
delivers_first = refl

deliver-IsDelivered_example :
    IsDelivered host nine_bytes "claim-1"
      (some "{\"ok\":1}\n")
      64
      (resource "initial_delivery")
      (deliver claimed_db).1.payments
deliver-IsDelivered_example =
    deliver-IsDelivered host nine_bytes capability prepared "2026-01-01T00:00:02Z" 3 64 claimed_db
      (resource "initial_delivery") delivers_first

delivers_again :
    (deliver (history (λ s. s) (Call.get_service_mode ∷ []) (deliver claimed_db).1)).0
    ≡ ok (resource "idempotent_redelivery")
unfolding history perform Mode.get_service_mode deliver_or_redeliver_retail_resource
    capability_is_valid deliver_body deliver_claim deliver_first redeliver is_recorded
    get_payment_claim find_claim connection require_table mark_delivery mark_pending mark_rows
    fetched add_delivery_incident insert_telemetry store_event build_retail_telemetry_event ◌>>=◌
delivers_again = refl

deliver-same_digest_example :
    ((resource "initial_delivery").response_digest
      ≡ (resource "idempotent_redelivery").response_digest)
    × ((resource "initial_delivery").response_bytes
        ≡ (resource "idempotent_redelivery").response_bytes)
deliver-same_digest_example =
    deliver-same_digest host nine_bytes capability prepared "2026-01-01T00:00:02Z" 3 64 claimed_db
      (resource "initial_delivery") (Call.get_service_mode ∷ []) capability prepared
      "2026-01-01T00:00:02Z" 3 64 (resource "idempotent_redelivery") refl delivers_first
      delivers_again
