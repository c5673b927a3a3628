-- ===== src/Store/Deliveries.antt =====
-- Delivery marks of the control store: `mark_delivery` of retail_context/control_store.py.
use sharpe_nova_os.Prelude.{
  Bool, not, ◌&&◌, ◌||◌, Option, none, some, [], ◌∷◌, String, ◌==◌, eqb, one_of, count_in,
  update_where, if◌then◌else◌, ℤ, opt_negative,
}
use sharpe_nova_os.Exec.{
  value_error, runtime_error, sqlite_error, ok, Result, err, Exec, pure, lift, gets, raise_if,
  ◌>>=◌, ◌>>◌,
}
use sharpe_nova_os.Telemetry.{
  EventArgs, event_args, IncidentArgs, incident_args, build_retail_telemetry_event,
  build_retail_incident,
}
use sharpe_nova_os.Store.Db.{Db, PaymentRow, connection, require_table}
use sharpe_nova_os.Store.Audit.{insert_telemetry, insert_incident}
use sharpe_nova_os.Store.Claims.{find_claim}

-- The keyword arguments of `mark_delivery`.
pub record Mark : Type 0 where
  pub claim_id : String
  pub status : String
  pub occurred_at : String
  pub response_digest : Option String
  pub response_bytes : Option ℤ
  pub processing_duration_ms : Option ℤ
  pub failure_reason : Option String

-- `WHERE claim_id = ? AND delivery_status = 'pending'`
abbrev pub is_pending_claim : String → PaymentRow → Bool
is_pending_claim c r = r.claim_id == c && r.delivery_status == "pending"

abbrev pub marked : Mark → PaymentRow → PaymentRow
marked m r = record r {
  delivery_status = m.status;
  delivered_at = if m.status == "delivered" then some m.occurred_at else none;
  failed_at = if m.status == "failed" then some m.occurred_at else none;
  response_digest = m.response_digest;
  response_bytes = m.response_bytes;
  processing_duration_ms = m.processing_duration_ms;
  delivery_failure_reason = m.failure_reason;
}

unfoldable pub mark_rows : Mark → Exec Db Unit
mark_rows m db = (
  ok tt,
  record db { payments = update_where (is_pending_claim m.claim_id) (marked m) db.payments },
)

unfoldable pub fetched : Option PaymentRow → Result PaymentRow
fetched none = err (runtime_error "control_store_unavailable")
fetched (some r) = ok r

abbrev pub delivery_event : Mark → PaymentRow → EventArgs
delivery_event m r =
    record (event_args m.occurred_at
      (if m.status == "delivered" then "delivery_completed" else "delivery_failed") r.request_id) {
        resource_type = some r.resource_type;
        payment_receipt_id = some r.payment_receipt_id;
        payment_requirement_id = some r.payment_requirement_id;
        duration_ms = m.processing_duration_ms;
        response_bytes = if m.status == "delivered" then m.response_bytes else none;
        failure_reason = if m.status == "failed" then m.failure_reason else none;
      }

-- `str(failure_reason)`, which is `"None"` where there is none.
abbrev pub str_of : Option String → String
str_of none = "None"
str_of (some s) = s

abbrev pub delivery_incident : Mark → PaymentRow → IncidentArgs
delivery_incident m r =
    record (incident_args m.occurred_at "delivery_failure" r.request_id r.resource_type
      (str_of m.failure_reason)) { payment_receipt_id = some r.payment_receipt_id }

module _ (sha256 : String → String) where
  unfoldable pub add_delivery_incident : Mark → PaymentRow → Exec Db Unit
  add_delivery_incident m r =
      if m.status == "failed"
      then (do
        incident ← lift (build_retail_incident sha256 (delivery_incident m r))
        insert_incident incident)
      else pure tt

  -- The work under `BEGIN IMMEDIATE`: exactly one pending row is marked, with its audit records. A
  -- negative metric breaks a `CHECK` of the row.
  unfoldable pub mark_pending : Mark → Exec Db PaymentRow
  mark_pending m = do
    require_table "retail_payment_consumption"
    rowcount ← gets (λ db. count_in (is_pending_claim m.claim_id) db.payments)
    raise_if
        (not (eqb rowcount 0)
          && (opt_negative m.response_bytes || opt_negative m.processing_duration_ms))
        sqlite_error
    raise_if (not (eqb rowcount 1)) (value_error "invalid_delivery_state")
    mark_rows m
    row ← gets (λ db. find_claim m.claim_id db.payments)
    r ← lift (fetched row)
    event ← lift (build_retail_telemetry_event sha256 (delivery_event m r))
    insert_telemetry event
    add_delivery_incident m r
    pure r

  unfoldable pub mark_delivery : Mark → Exec Db PaymentRow
  mark_delivery m = do
    raise_if (not (one_of m.status ("delivered" ∷ "failed" ∷ [])))
        (value_error "invalid_delivery_status")
    connection (mark_pending m)
