-- ===== src/Store/Audit.antt =====
-- Telemetry and incidents of the control store: `_insert_telemetry`, `_insert_incident`,
-- `record_telemetry`, `record_incident` of retail_context/control_store.py.
use sharpe_nova_os.Prelude.{
  Bool, not, ◌||◌, List, [], ◌∷◌, ◌++◌, String, ◌==◌, one_of, exists_in, if◌then◌else◌,
  opt_negative,
}
use sharpe_nova_os.Exec.{Error, sqlite_error, ok, Exec, pure, raise, attempt, ◌>>◌}
use sharpe_nova_os.Telemetry.{
  TelemetryEvent, Incident, retail_operational_namespace, authority_effect_none,
}
use sharpe_nova_os.Store.Db.{Db, connection, require_table}

abbrev pub post_commit_telemetry_event_types : List String
post_commit_telemetry_event_types =
    "payment_claimed" ∷ "delivery_completed" ∷ "delivery_failed" ∷ []

abbrev pub post_commit_incident_types : List String
post_commit_incident_types = "delivery_failure" ∷ []

abbrev pub has_event_id : String → TelemetryEvent → Bool
has_event_id k e = e.event_id == k

abbrev pub has_incident_id : String → Incident → Bool
has_incident_id k i = i.incident_id == k

-- The constraints of `retail_operational_telemetry`, with its primary key.
unfoldable pub event_is_refused : TelemetryEvent → List TelemetryEvent → Bool
event_is_refused e es =
    exists_in (has_event_id e.event_id) es
    || opt_negative e.duration_ms
    || opt_negative e.response_bytes
    || not (e.retail_namespace == retail_operational_namespace)
    || not (e.authority_effect == authority_effect_none)

unfoldable pub incident_is_refused : Incident → List Incident → Bool
incident_is_refused i is =
    exists_in (has_incident_id i.incident_id) is
    || not (i.retail_namespace == retail_operational_namespace)
    || not (i.authority_effect == authority_effect_none)

-- `INSERT OR IGNORE`: a row that breaks a constraint is skipped.
unfoldable pub add_event : TelemetryEvent → List TelemetryEvent → List TelemetryEvent
add_event e es = if event_is_refused e es then es else es ++ e ∷ []

unfoldable pub add_incident : Incident → List Incident → List Incident
add_incident i is = if incident_is_refused i is then is else is ++ i ∷ []

unfoldable pub store_event : TelemetryEvent → Exec Db Unit
store_event e db = (ok tt, record db { telemetry = add_event e db.telemetry })

unfoldable pub store_incident : Incident → Exec Db Unit
store_incident i db = (ok tt, record db { incidents = add_incident i db.incidents })

unfoldable pub insert_telemetry : TelemetryEvent → Exec Db Unit
insert_telemetry e = do require_table "retail_operational_telemetry"; store_event e

unfoldable pub insert_incident : Incident → Exec Db Unit
insert_incident i = do require_table "retail_operational_incidents"; store_incident i

-- `except (OSError, sqlite3.Error)`: other exceptions pass.
unfoldable pub unless_post_commit : Bool → Error → Exec Db Unit
unless_post_commit post_commit sqlite_error = if post_commit then pure tt else raise sqlite_error
unless_post_commit post_commit e = raise e

unfoldable pub record_telemetry : TelemetryEvent → Exec Db Unit
record_telemetry e =
    attempt (connection (insert_telemetry e))
      (unless_post_commit (one_of e.event_type post_commit_telemetry_event_types))

unfoldable pub record_incident : Incident → Exec Db Unit
record_incident i =
    attempt (connection (insert_incident i))
      (unless_post_commit (one_of i.incident_type post_commit_incident_types))
