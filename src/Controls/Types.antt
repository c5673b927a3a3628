-- ===== src/Controls/Types.antt =====
-- The records of retail_context/production_controls.py and production_config.py, and what they are
-- given by the standard library and the jsonschema package.
use sharpe_nova_os.Prelude.{
  ℕ, zero, suc, ◌+◌, ◌*◌, ◌/◌, Bool, Option, none, some, String, ◌==◌, if◌then◌else◌, ℤ, pos,
  negsuc,
}
use sharpe_nova_os.Exec.{Result, ok, err, value_error}
use sharpe_nova_os.Text.{strip}
use sharpe_nova_os.Telemetry.{TelemetryEvent, Incident}
use sharpe_nova_os.Payment.Types.{PaymentHost}

-- `RetailProductionControlConfig`, less the path of the database.
pub record ControlConfig : Type 0 where
  pub rate_limit_window_seconds : ℕ
  pub state_ping_max_requests : ℕ
  pub context_delta_max_requests : ℕ

unfoldable pub max_requests_for : ControlConfig → String → Option ℕ
max_requests_for c resource_type =
    if resource_type == "state_ping"
    then some c.state_ping_max_requests
    else if resource_type == "context_delta"
    then some c.context_delta_max_requests
    else none

-- The three rate-limit entries of an admission record, all present or all null.
pub record RateInfo : Type 0 where
  pub count : ℕ
  pub max_requests : ℕ
  pub window_started_at_epoch : ℤ

pub record AdmissionRecord : Type 0 where
  pub service_admission_id : String
  pub request_id : String
  pub resource_type : String
  pub subject_hash : String
  pub observed_at : String
  pub service_admission_status : String
  pub failure_reason : Option String
  pub rate_limit : Option RateInfo
  pub authority_effect : String

-- `RetailServiceAdmissionOutcome` with or without its capability.
pub record AdmissionOutcome : Type 0 where
  pub body : AdmissionRecord
  pub capability : Bool

pub record DeliveryRecord : Type 0 where
  pub delivery_outcome_id : String
  pub claim_id : Option String
  pub request_id : String
  pub payment_receipt_id : String
  pub payment_requirement_id : String
  pub resource_type : String
  pub resource_uri : String
  pub delivery_eligibility_status : String
  pub delivery_status : String
  pub claimed_at : String
  pub failure_reason : Option String
  pub authority_effect : String

-- `RetailResourceDeliveryOutcome` with or without its capability.
pub record DeliveryOutcome : Type 0 where
  pub body : DeliveryRecord
  pub capability : Bool

-- `datetime.fromisoformat` of a time with an offset, in whole seconds since the epoch, and validation
-- against specs/retail_production_control_v0_1.schema.json by jsonschema.
pub record ControlHost : Type 0 where
  pub payment : PaymentHost
  pub open payment use *
  pub epoch_of : String → Option ℤ
  pub valid_admission : AdmissionRecord → Bool
  pub valid_delivery : DeliveryRecord → Bool
  pub valid_event : TelemetryEvent → Bool
  pub valid_incident : Incident → Bool

-- `_timestamp_epoch`
unfoldable pub epoch_or_error : Option ℤ → Result ℤ
epoch_or_error none = err (value_error "invalid_observed_at")
epoch_or_error (some t) = ok t

unfoldable pub timestamp_epoch : ControlHost → String → Result ℤ
unfolding epoch_or_error
timestamp_epoch h at = epoch_or_error (h.epoch_of at)

-- `_validate_request_id`
unfoldable pub validate_request_id : String → Result String
validate_request_id request_id =
    if strip request_id == "" then err (value_error "invalid_request_id") else ok (strip request_id)

-- `-m`
abbrev minus : ℕ → ℤ
minus m = elim m [ zero ↦ pos 0 | suc n ↦ negsuc n ]

-- `(epoch // seconds) * seconds`, where `//` rounds down.
unfoldable pub window_start : ℤ → ℕ → ℤ
window_start (pos n) seconds = pos (n / seconds * seconds)
window_start (negsuc n) seconds = minus ((n + seconds) / seconds * seconds)
