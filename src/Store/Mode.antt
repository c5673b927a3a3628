-- ===== src/Store/Mode.antt =====
-- The kill switch and the health of the control store: `initialize`, `get_service_mode`,
-- `set_service_mode`, `health_snapshot`, `is_healthy` of retail_context/control_store.py.
use sharpe_nova_os.Prelude.{
  Bool, true, false, not, ◌&&◌, Option, none, some, List, [], ◌∷◌, ◌++◌, String, one_of, is_some,
  if◌then◌else◌,
}
use sharpe_nova_os.Exec.{
  Error, sqlite_error, runtime_error, value_error, ok, err, Result, Exec, pure, raise, lift, gets,
  attempt, raise_if, ◌>>=◌, ◌>>◌,
}
use sharpe_nova_os.Store.Db.{Db, ServiceState, connection, require_table, required_tables}

abbrev pub service_modes : List String
service_modes = "disabled" ∷ "controlled_proof" ∷ []

-- `CREATE TABLE IF NOT EXISTS`
unfoldable pub create_table : String → List String → List String
create_table t present = if one_of t present then present else present ++ t ∷ []

-- The script of `CREATE TABLE` statements.
unfoldable pub create_tables : List String → List String → List String
create_tables [] present = present
create_tables (t ∷ ts) present = create_tables ts (create_table t present)

abbrev initial_state : ServiceState
initial_state = record { operating_mode = "disabled"; changed_at = "schema-initialization" }

-- `INSERT OR IGNORE` of the singleton row.
unfoldable pub or_initial_state : Option ServiceState → Option ServiceState
or_initial_state none = some initial_state
or_initial_state (some s) = some s

unfoldable pub create_schema : Exec Db Unit
create_schema db = (
  ok tt,
  record db {
    tables = create_tables required_tables db.tables;
    service_state = or_initial_state db.service_state;
  },
)

unfoldable pub initialize : Exec Db Unit
initialize = connection create_schema

unfoldable pub mode_of : Option ServiceState → Result String
mode_of none = err (runtime_error "control_store_unavailable")
mode_of (some s) = ok s.operating_mode

unfoldable pub get_service_mode : Exec Db String
get_service_mode = do
  row ← connection (require_table "retail_service_state" >> gets (λ db. db.service_state))
  lift (mode_of row)

unfoldable pub write_mode : ServiceState → Exec Db Unit
write_mode s db = (ok tt, record db { service_state = some s })

unfoldable pub set_service_mode : String → String → Exec Db Unit
set_service_mode mode changed_at = do
  raise_if (not (one_of mode service_modes)) (value_error "unsupported_service_mode")
  connection (do
    require_table "retail_service_state"
    row ← gets (λ db. db.service_state)
    raise_if (not (is_some row)) (runtime_error "control_store_unavailable")
    write_mode (record { operating_mode = mode; changed_at = changed_at }))

-- The checks of `health_snapshot`.
pub record Health : Type 0 where
  pub control_store_open : Bool
  pub schema_initialized : Bool
  pub payment_persistence_available : Bool
  pub telemetry_persistence_available : Bool

-- `REQUIRED_TABLES.issubset(tables)`
pub all_present : List String → List String → Bool
all_present [] present = true
all_present (t ∷ ts) present = let rest = all_present ts present in one_of t present && rest

unfoldable pub health_of : Db → Health
unfolding all_present
health_of db = record {
  control_store_open = true;
  schema_initialized = all_present required_tables db.tables;
  payment_persistence_available = one_of "retail_payment_consumption" db.tables;
  telemetry_persistence_available = one_of "retail_operational_telemetry" db.tables;
}

abbrev pub unavailable : Health
unavailable = record {
  control_store_open = false;
  schema_initialized = false;
  payment_persistence_available = false;
  telemetry_persistence_available = false;
}

-- `except (OSError, sqlite3.Error)`
unfoldable pub report_unavailable : Error → Exec Db Health
report_unavailable sqlite_error = pure unavailable
report_unavailable e = raise e

unfoldable pub health_snapshot : Exec Db Health
health_snapshot = attempt (connection (gets health_of)) report_unavailable

abbrev pub all_checks : Health → Bool
all_checks h =
    h.control_store_open && h.schema_initialized && h.payment_persistence_available
    && h.telemetry_persistence_available

unfoldable pub is_healthy : Exec Db Bool
is_healthy = do h ← health_snapshot; pure (all_checks h)
