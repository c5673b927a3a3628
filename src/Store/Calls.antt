-- ===== src/Store/Calls.antt =====
-- Histories of the control store: any sequence of calls of its methods, each one transaction, by any
-- number of clients, whose faults the database's schedule decides.
use sharpe_nova_os.Prelude.{ℕ, List, [], ◌∷◌, String}
use sharpe_nova_os.Telemetry.{TelemetryEvent, Incident}
use sharpe_nova_os.Store.Db.{Db, Claim, RuntimeRequest}
use sharpe_nova_os.Store.Audit
use sharpe_nova_os.Store.Mode
use sharpe_nova_os.Store.RateLimit
use sharpe_nova_os.Store.RateLimit.{Window}
use sharpe_nova_os.Store.Claims
use sharpe_nova_os.Store.Deliveries
use sharpe_nova_os.Store.Deliveries.{Mark}
use sharpe_nova_os.Store.Requests
use sharpe_nova_os.Store.Methods.{
  Writes, record_telemetry-Evolves, record_incident-Evolves, initialize-Evolves,
  get_service_mode-Evolves, set_service_mode-Evolves, is_healthy-Evolves,
  consume_rate_limit-Evolves, record_runtime_request-Evolves, get_runtime_request-Evolves,
  get_payment_claim-Evolves, get_payment_claim_by_settlement-Evolves, claim_payment-Evolves,
  mark_delivery-Evolves,
}

-- One constructor for each method of `RetailProductionControlStore`.
pub data Call : Type 0 where
  initialize is_healthy get_service_mode : Call
  set_service_mode : String → String → Call
  consume_rate_limit : Window → ℕ → String → Call
  claim_payment : Claim → String → Call
  get_payment_claim : String → Call
  get_payment_claim_by_settlement : String → String → Call
  mark_delivery : Mark → Call
  record_telemetry : TelemetryEvent → Call
  record_incident : Incident → Call
  get_runtime_request : String → Call
  record_runtime_request : RuntimeRequest → Call

module _ (sha256 : String → String) where
  -- The state after one call, whether it returned or raised.
  unfoldable pub perform : Call → Db → Db
  perform initialize db = (Mode.initialize db).1
  perform is_healthy db = (Mode.is_healthy db).1
  perform get_service_mode db = (Mode.get_service_mode db).1
  perform (set_service_mode mode at) db = (Mode.set_service_mode mode at db).1
  perform (consume_rate_limit w limit at) db = (RateLimit.consume_rate_limit w limit at db).1
  perform (claim_payment c status) db = (Claims.claim_payment sha256 c status db).1
  perform (get_payment_claim c) db = (Claims.get_payment_claim c db).1
  perform (get_payment_claim_by_settlement n r) db =
      (Claims.get_payment_claim_by_settlement n r db).1
  perform (mark_delivery m) db = (Deliveries.mark_delivery sha256 m db).1
  perform (record_telemetry e) db = (Audit.record_telemetry e db).1
  perform (record_incident i) db = (Audit.record_incident i db).1
  perform (get_runtime_request k) db = (Requests.get_runtime_request k db).1
  perform (record_runtime_request q) db = (Requests.record_runtime_request q db).1

  unfoldable pub history : List Call → Db → Db
  history [] db = db
  history (c ∷ cs) db = history cs (perform c db)

module _ (sha256 : String → String) {R : Db → Db → Type 0} (allow : Writes R) where
  pub perform-Writes : (c : Call) (db : Db) → R db (perform sha256 c db)
  unfolding perform
  perform-Writes initialize db = (initialize-Evolves allow).at db
  perform-Writes is_healthy db = (is_healthy-Evolves allow).at db
  perform-Writes get_service_mode db = (get_service_mode-Evolves allow).at db
  perform-Writes (set_service_mode mode at) db = (set_service_mode-Evolves allow mode at).at db
  perform-Writes (consume_rate_limit w limit at) db =
      (consume_rate_limit-Evolves allow w limit at).at db
  perform-Writes (claim_payment c status) db = (claim_payment-Evolves allow sha256 c status).at db
  perform-Writes (get_payment_claim c) db = (get_payment_claim-Evolves allow c).at db
  perform-Writes (get_payment_claim_by_settlement n r) db =
      (get_payment_claim_by_settlement-Evolves allow n r).at db
  perform-Writes (mark_delivery m) db = (mark_delivery-Evolves allow sha256 m).at db
  perform-Writes (record_telemetry e) db = (record_telemetry-Evolves allow e).at db
  perform-Writes (record_incident i) db = (record_incident-Evolves allow i).at db
  perform-Writes (get_runtime_request k) db = (get_runtime_request-Evolves allow k).at db
  perform-Writes (record_runtime_request q) db = (record_runtime_request-Evolves allow q).at db

  -- What each write allows, every history of calls keeps to.
  pub history-Writes : (cs : List Call) (db : Db) → R db (history sha256 cs db)
  unfolding history
  history-Writes [] db = allow.db.order.reflexive db
  history-Writes (c ∷ cs) db =
      allow.db.order.transitive db (perform sha256 c db) (history sha256 cs (perform sha256 c db))
        (perform-Writes c db) (history-Writes cs (perform sha256 c db))
