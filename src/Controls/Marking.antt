-- ===== src/Controls/Marking.antt =====
-- Delivery marks: `mark_retail_delivery_complete` and `mark_retail_delivery_failed` of
-- retail_context/production_controls.py.
use sharpe_nova_os.Prelude.{◌||◌, not, Option, none, some, String, ℤ, is_negative, opt_negative}
use sharpe_nova_os.Exec.{value_error, Exec, pure, lift, raise_if, ◌>>=◌, ◌>>◌}
use sharpe_nova_os.Exec.Evolve.{Evolves, evolve_rules}
use sharpe_nova_os.Text.{is_sha256, is_failure_reason}
use sharpe_nova_os.Telemetry.{EventArgs, event_args, incident_args}
use sharpe_nova_os.Store.Db.{Db, PaymentRow}
use sharpe_nova_os.Store.Deliveries.{Mark, str_of, mark_delivery}
use sharpe_nova_os.Store.Methods.{Writes, mark_delivery-Evolves}
use sharpe_nova_os.Controls.Types.{DeliveryRecord, DeliveryOutcome, ControlHost, timestamp_epoch}
use sharpe_nova_os.Controls.Audit.{
  report_event, record_retail_operational_incident, report_event-Evolves,
  record_retail_operational_incident-Evolves,
}
use sharpe_nova_os.Controls.Claiming.{delivery_outcome_allows_resource_delivery}

abbrev pub delivered_mark : DeliveryRecord → String → String → ℤ → ℤ → Mark
delivered_mark b at digest bytes duration = record {
  claim_id = str_of b.claim_id;
  status = "delivered";
  occurred_at = at;
  response_digest = some digest;
  response_bytes = some bytes;
  processing_duration_ms = some duration;
  failure_reason = none;
}

abbrev pub failed_mark : DeliveryRecord → String → String → Option ℤ → Mark
failed_mark b at reason duration = record {
  claim_id = str_of b.claim_id;
  status = "failed";
  occurred_at = at;
  response_digest = none;
  response_bytes = none;
  processing_duration_ms = duration;
  failure_reason = some reason;
}

abbrev pub marked_event : DeliveryRecord → String → String → EventArgs
marked_event b at kind = record (event_args at kind b.request_id) {
  resource_type = some b.resource_type;
  payment_receipt_id = some b.payment_receipt_id;
  payment_requirement_id = some b.payment_requirement_id;
}

module _ (h : ControlHost) (o : DeliveryOutcome) (observed_at : String) where
  unfoldable pub mark_retail_delivery_complete : String → ℤ → ℤ → Exec Db PaymentRow
  mark_retail_delivery_complete digest bytes duration = do
    lift (timestamp_epoch h observed_at)
    raise_if (not (delivery_outcome_allows_resource_delivery h o))
        (value_error "invalid_delivery_capability")
    raise_if (not (is_sha256 digest)) (value_error "invalid_response_digest")
    raise_if (is_negative bytes || is_negative duration) (value_error "invalid_delivery_metrics")
    row ← mark_delivery h.sha256 (delivered_mark o.body observed_at digest bytes duration)
    report_event h (record (marked_event o.body observed_at "delivery_completed") {
      duration_ms = some duration;
      response_bytes = some bytes;
    })
    pure row

  unfoldable pub mark_retail_delivery_failed : String → Option ℤ → Exec Db PaymentRow
  mark_retail_delivery_failed reason duration = do
    lift (timestamp_epoch h observed_at)
    raise_if (not (delivery_outcome_allows_resource_delivery h o))
        (value_error "invalid_delivery_capability")
    raise_if (not (is_failure_reason reason) || opt_negative duration)
        (value_error "invalid_delivery_failure")
    row ← mark_delivery h.sha256 (failed_mark o.body observed_at reason duration)
    report_event h (record (marked_event o.body observed_at "delivery_failed") {
      duration_ms = duration;
      failure_reason = some reason;
    })
    record_retail_operational_incident h
        (record (incident_args observed_at "delivery_failure" o.body.request_id o.body.resource_type
          reason) { payment_receipt_id = some o.body.payment_receipt_id })
    pure row

module _ {R : Db → Db → Type 0} (allow : Writes R) (h : ControlHost) (o : DeliveryOutcome)
    (observed_at : String) where
  pub mark_complete-Evolves :
      (digest : String) (bytes duration : ℤ)
      → Evolves R (mark_retail_delivery_complete h o observed_at digest bytes duration)
  unfolding mark_retail_delivery_complete
  mark_complete-Evolves digest bytes duration =
      search (evolve_rules, allow.db.order, mark_delivery-Evolves allow, report_event-Evolves allow)
        depth 14

  pub mark_failed-Evolves :
      (reason : String) (duration : Option ℤ)
      → Evolves R (mark_retail_delivery_failed h o observed_at reason duration)
  unfolding mark_retail_delivery_failed
  mark_failed-Evolves reason duration =
      search
        (
          evolve_rules,
          allow.db.order,
          mark_delivery-Evolves allow,
          report_event-Evolves allow,
          record_retail_operational_incident-Evolves allow,
        )
        depth 16
