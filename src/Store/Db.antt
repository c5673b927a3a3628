-- ===== src/Store/Db.antt =====
-- The SQLite database behind `SQLiteRetailProductionControlStore`: its rows and tables, and what a
-- connection does. Tables are lists in the order of insertion. A connection, a lock or a commit can
-- fail at any time: the list `faults` says which of the coming connections fail, and the rest
-- succeed. What a failed or rolled back transaction wrote is gone.
pub mod Evolve
pub mod Yields
use sharpe_nova_os.Prelude.{
  ℕ, Bool, false, not, Option, none, List, [], ◌∷◌, String, one_of, if◌then◌else◌, ℤ,
}
use sharpe_nova_os.Exec.{Result, ok, err, sqlite_error, Exec, gets, raise_if, ◌>>=◌}
use sharpe_nova_os.Telemetry.{TelemetryEvent, Incident}

-- `retail_service_state`: the row with `singleton_id = 1`.
pub record ServiceState : Type 0 where
  pub operating_mode : String
  pub changed_at : String

-- `retail_rate_limits`
pub record RateLimitRow : Type 0 where
  pub subject_hash : String
  pub resource_type : String
  pub window_started_at_epoch : ℤ
  pub request_count : ℕ
  pub updated_at : String

-- The columns of `retail_payment_consumption` that a claim sets and nothing changes.
pub record Claim : Type 0 where
  pub claim_id : String
  pub request_id : String
  pub payment_receipt_id : String
  pub payment_requirement_id : String
  pub network : String
  pub transaction_reference : String
  pub payer : Option String
  pub resource_type : String
  pub resource_uri : String
  pub amount_atomic : String
  pub settlement_wallet : String
  pub claimed_at : String
  pub authority_effect : String

-- `retail_payment_consumption`
pub record PaymentRow : Type 0 where
  pub claim : Claim
  pub open claim use *
  pub delivery_status : String
  pub delivered_at : Option String
  pub failed_at : Option String
  pub response_digest : Option String
  pub response_bytes : Option ℤ
  pub processing_duration_ms : Option ℤ
  pub delivery_failure_reason : Option String

-- `retail_runtime_requests`
pub record RuntimeRequest : Type 0 where
  pub request_id : String
  pub request_digest : String
  pub subject_hash : String
  pub resource_type : String
  pub resource_uri : String
  pub admitted_at : String
  pub authority_effect : String

pub record Db : Type 0 where
  pub tables : List String
  pub service_state : Option ServiceState
  pub rate_limits : List RateLimitRow
  pub payments : List PaymentRow
  pub telemetry : List TelemetryEvent
  pub incidents : List Incident
  pub runtime_requests : List RuntimeRequest
  pub faults : List Bool

-- `REQUIRED_TABLES`
abbrev pub required_tables : List String
required_tables =
    "retail_control_schema" ∷ "retail_service_state" ∷ "retail_rate_limits"
    ∷ "retail_payment_consumption" ∷ "retail_operational_telemetry" ∷ "retail_operational_incidents"
    ∷ "retail_runtime_requests" ∷ []

abbrev pub next_fault : List Bool → Bool
next_fault [] = false
next_fault (f ∷ _) = f

abbrev pub later_faults : List Bool → List Bool
later_faults [] = []
later_faults (_ ∷ fs) = fs

abbrev pub connected : Db → Db
connected db = record db { faults = later_faults db.faults }

module _ {A : Type 0} where
  -- What is left of a connection's work: all of it, or nothing of it after an exception.
  abbrev pub close : Db → Result A × Db → Result A × Db
  close before (ok a, after) = (ok a, after)
  close before (err e, after) = (err e, before)

  -- `with self._connection()`: open, work, commit or roll back, and close.
  unfoldable pub connection : Exec Db A → Exec Db A
  connection work db =
      if next_fault db.faults
      then (err sqlite_error, connected db)
      else close (connected db) (work (connected db))

-- A statement on a table that does not exist raises `sqlite3.OperationalError`.
unfoldable pub require_table : String → Exec Db Unit
require_table name = do
  present ← gets (λ db. one_of name db.tables)
  raise_if (not present) sqlite_error

abbrev supported_resource_types : List String
supported_resource_types = "state_ping" ∷ "context_delta" ∷ []

-- `CHECK (resource_type IN ('state_ping', 'context_delta'))`, and `SUPPORTED_RESOURCE_TYPES`.
abbrev pub is_resource_type : String → Bool
is_resource_type t = one_of t supported_resource_types

abbrev pub empty : Db
empty = record {
  tables = [];
  service_state = none;
  rate_limits = [];
  payments = [];
  telemetry = [];
  incidents = [];
  runtime_requests = [];
  faults = [];
}
