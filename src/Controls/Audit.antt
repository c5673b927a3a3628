-- ===== src/Controls/Audit.antt =====
-- `_record_telemetry` and `record_retail_operational_incident` of
-- retail_context/production_controls.py, and `set_retail_service_mode`.
use sharpe_nova_os.Prelude.{not, one_of, String}
use sharpe_nova_os.Exec.{validation_error, value_error, Exec, lift, raise_if, ◌>>=◌, ◌>>◌}
use sharpe_nova_os.Exec.Evolve.{Evolves, evolve_rules}
use sharpe_nova_os.Telemetry.{
  TelemetryEvent, EventArgs, IncidentArgs, build_retail_telemetry_event, build_retail_incident,
}
use sharpe_nova_os.Store.Db.{Db}
use sharpe_nova_os.Store.Audit
use sharpe_nova_os.Store.Mode.{set_service_mode, service_modes}
use sharpe_nova_os.Store.Methods.{
  Writes, record_telemetry-Evolves, record_incident-Evolves, set_service_mode-Evolves,
}
use sharpe_nova_os.Controls.Types.{ControlHost, timestamp_epoch}

module _ (h : ControlHost) where
  unfoldable pub record_telemetry : TelemetryEvent → Exec Db Unit
  record_telemetry e = do
    raise_if (not (h.valid_event e)) validation_error
    Audit.record_telemetry e

  -- `_record_telemetry(store, build_retail_telemetry_event(…))`
  unfoldable pub report_event : EventArgs → Exec Db Unit
  report_event a = do e ← lift (build_retail_telemetry_event h.sha256 a); record_telemetry e

  unfoldable pub record_retail_operational_incident : IncidentArgs → Exec Db Unit
  record_retail_operational_incident a = do
    lift (timestamp_epoch h a.occurred_at)
    i ← lift (build_retail_incident h.sha256 a)
    raise_if (not (h.valid_incident i)) validation_error
    Audit.record_incident i

  unfoldable pub set_retail_service_mode : String → String → Exec Db Unit
  set_retail_service_mode mode changed_at = do
    lift (timestamp_epoch h changed_at)
    raise_if (not (one_of mode service_modes)) (value_error "unsupported_service_mode")
    set_service_mode mode changed_at

module _ {R : Db → Db → Type 0} (allow : Writes R) (h : ControlHost) where
  record_telemetry-allowed : (e : TelemetryEvent) → Evolves R (record_telemetry h e)
  unfolding record_telemetry
  record_telemetry-allowed e = search (evolve_rules, allow.db.order, record_telemetry-Evolves allow)

  pub report_event-Evolves : (a : EventArgs) → Evolves R (report_event h a)
  unfolding report_event
  report_event-Evolves a = search (evolve_rules, allow.db.order, record_telemetry-allowed)

  pub record_retail_operational_incident-Evolves :
      (a : IncidentArgs) → Evolves R (record_retail_operational_incident h a)
  unfolding record_retail_operational_incident
  record_retail_operational_incident-Evolves a =
      search (evolve_rules, allow.db.order, record_incident-Evolves allow) depth 9

  pub set_retail_service_mode-Evolves :
      (mode at : String) → Evolves R (set_retail_service_mode h mode at)
  unfolding set_retail_service_mode
  set_retail_service_mode-Evolves mode at =
      search (evolve_rules, allow.db.order, set_service_mode-Evolves allow) depth 8
