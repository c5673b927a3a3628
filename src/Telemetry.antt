-- ===== src/Telemetry.antt =====
-- Operational telemetry of the retail plane (retail_context/production_telemetry.py): stable
-- identifiers, hashed subjects and settlements, and the builders of events and incidents. SHA-256
-- (`hashlib.sha256(...).hexdigest()`) is the parameter `sha256`.
use Prim.Native.String.{◌++◌, slice}
use sharpe_nova_os.Prelude.{
  Bool, true, false, not, ◌&&◌, Option, none, some, List, [], ◌∷◌, String, ◌==◌, one_of,
  if◌then◌else◌, ℤ, opt_negative,
}
use sharpe_nova_os.Exec.{Result, ok, err, value_error}
use sharpe_nova_os.Text.{strip, is_failure_reason}
use sharpe_nova_os.Text.Json.{
  Json, str, arr, obj, Fields, end, field, parts, opt_str, canonical_json,
}

abbrev pub retail_operational_namespace : String
retail_operational_namespace = "retail_production_controls"

abbrev pub authority_effect_none : String
authority_effect_none = "none"

abbrev pub telemetry_event_types : List String
telemetry_event_types =
    "pre_payment_admitted" ∷ "pre_payment_denied" ∷ "rate_limit_denied" ∷ "payment_claimed"
    ∷ "payment_replay_denied" ∷ "delivery_completed" ∷ "delivery_failed" ∷ "service_disabled"
    ∷ "control_store_failure" ∷ "latency_observed" ∷ []

abbrev pub incident_types : List String
incident_types =
    "payment_replay_conflict" ∷ "control_store_unavailable" ∷ "delivery_failure"
    ∷ "rate_limit_pressure" ∷ "service_kill_switch_active" ∷ []

abbrev pub incident_detail_keys : List String
incident_detail_keys = "request_count" ∷ "limit" ∷ "conflict_scope" ∷ []

-- The columns of `retail_operational_telemetry`.
pub record TelemetryEvent : Type 0 where
  pub event_id : String
  pub occurred_at : String
  pub event_type : String
  pub request_id : String
  pub resource_type : Option String
  pub subject_hash : Option String
  pub payment_receipt_id : Option String
  pub payment_requirement_id : Option String
  pub transaction_reference_hash : Option String
  pub duration_ms : Option ℤ
  pub response_bytes : Option ℤ
  pub failure_reason : Option String
  pub retail_namespace : String
  pub authority_effect : String

-- The keyword arguments of `build_retail_telemetry_event`; `event_args` has the defaults.
pub record EventArgs : Type 0 where
  pub occurred_at : String
  pub event_type : String
  pub request_id : String
  pub resource_type : Option String
  pub subject_hash : Option String
  pub payment_receipt_id : Option String
  pub payment_requirement_id : Option String
  pub transaction_reference : Option String
  pub duration_ms : Option ℤ
  pub response_bytes : Option ℤ
  pub failure_reason : Option String

abbrev pub event_args : String → String → String → EventArgs
event_args at kind request = record {
  occurred_at = at;
  event_type = kind;
  request_id = request;
  resource_type = none;
  subject_hash = none;
  payment_receipt_id = none;
  payment_requirement_id = none;
  transaction_reference = none;
  duration_ms = none;
  response_bytes = none;
  failure_reason = none;
}

-- A value of an incident's details: the text, number or Boolean that the builder lets through, or
-- any other value.
pub data Detail : Type 0 where
  scalar : Json → Detail
  other : Detail

pub record Incident : Type 0 where
  pub incident_id : String
  pub occurred_at : String
  pub incident_type : String
  pub request_id : Option String
  pub resource_type : Option String
  pub payment_receipt_id : Option String
  pub failure_reason : String
  pub details : Fields
  pub retail_namespace : String
  pub authority_effect : String

pub record IncidentArgs : Type 0 where
  pub occurred_at : String
  pub incident_type : String
  pub request_id : Option String
  pub resource_type : Option String
  pub payment_receipt_id : Option String
  pub failure_reason : String
  pub details : List (String × Detail)

abbrev pub incident_args : String → String → String → String → String → IncidentArgs
incident_args at kind request resource reason = record {
  occurred_at = at;
  incident_type = kind;
  request_id = some request;
  resource_type = some resource;
  payment_receipt_id = none;
  failure_reason = reason;
  details = [];
}

-- `set(details).issubset(INCIDENT_DETAIL_KEYS)`
pub known_keys : List (String × Detail) → Bool
known_keys [] = true
known_keys ((k, _) ∷ ds) = let rest = known_keys ds in one_of k incident_detail_keys && rest

pub detail_fields : List (String × Detail) → Option Fields
detail_fields [] = some end
detail_fields ((k, scalar v) ∷ ds) = elim (detail_fields ds) [
  | some fs ↦ some (field k v fs)
  | none ↦ none
]
detail_fields ((k, other) ∷ ds) = none

module _ (sha256 : String → String) where
  unfoldable pub stable_operational_id : String → List Json → String
  stable_operational_id prefix ps =
      prefix ++ "-" ++ slice (sha256 (canonical_json (arr (parts ps)))) 0 24

  unfoldable pub hash_retail_subject : String → Result String
  hash_retail_subject subject_key =
      if strip subject_key == ""
      then err (value_error "invalid_retail_subject")
      else ok (sha256 ("nova-retail-subject-v0.1\0" ++ subject_key))

  unfoldable pub hash_transaction_reference : Option String → Option String
  hash_transaction_reference none = none
  hash_transaction_reference (some t) =
      if t == "" then none else some (sha256 ("nova-retail-transaction-v0.1\0" ++ t))

  unfoldable pub event_of : EventArgs → TelemetryEvent
  event_of a = record {
    event_id = stable_operational_id "retail-event" (
        str a.occurred_at
        ∷ str a.event_type
        ∷ str a.request_id
        ∷ opt_str a.resource_type
        ∷ opt_str a.payment_receipt_id
        ∷ opt_str a.failure_reason
        ∷ []);
    occurred_at = a.occurred_at;
    event_type = a.event_type;
    request_id = a.request_id;
    resource_type = a.resource_type;
    subject_hash = a.subject_hash;
    payment_receipt_id = a.payment_receipt_id;
    payment_requirement_id = a.payment_requirement_id;
    transaction_reference_hash = hash_transaction_reference a.transaction_reference;
    duration_ms = a.duration_ms;
    response_bytes = a.response_bytes;
    failure_reason = a.failure_reason;
    retail_namespace = retail_operational_namespace;
    authority_effect = authority_effect_none;
  }

  unfoldable pub invalid_reason : Option String → Bool
  invalid_reason none = false
  invalid_reason (some r) = not (is_failure_reason r)

  unfoldable pub build_retail_telemetry_event : EventArgs → Result TelemetryEvent
  unfolding invalid_reason
  build_retail_telemetry_event a =
      if not (one_of a.event_type telemetry_event_types)
      then err (value_error "unsupported_retail_telemetry_event")
      else if invalid_reason a.failure_reason
      then err (value_error "invalid_operational_failure_reason")
      else if opt_negative a.duration_ms
      then err (value_error "invalid_operational_metric")
      else if opt_negative a.response_bytes
      then err (value_error "invalid_operational_metric")
      else ok (event_of a)

  unfoldable pub incident_of : IncidentArgs → Fields → Incident
  incident_of a bounded_details = record {
    incident_id = stable_operational_id "retail-incident" (
        str a.occurred_at
        ∷ str a.incident_type
        ∷ opt_str a.request_id
        ∷ opt_str a.resource_type
        ∷ opt_str a.payment_receipt_id
        ∷ str a.failure_reason
        ∷ obj bounded_details
        ∷ []);
    occurred_at = a.occurred_at;
    incident_type = a.incident_type;
    request_id = a.request_id;
    resource_type = a.resource_type;
    payment_receipt_id = a.payment_receipt_id;
    failure_reason = a.failure_reason;
    details = bounded_details;
    retail_namespace = retail_operational_namespace;
    authority_effect = authority_effect_none;
  }

  abbrev incident_with : IncidentArgs → Option Fields → Result Incident
  incident_with a none = err (value_error "unbounded_retail_incident_details")
  incident_with a (some fs) = ok (incident_of a fs)

  unfoldable pub build_retail_incident : IncidentArgs → Result Incident
  unfolding known_keys detail_fields
  build_retail_incident a =
      if not (one_of a.incident_type incident_types)
      then err (value_error "unsupported_retail_incident")
      else if not (is_failure_reason a.failure_reason)
      then err (value_error "invalid_operational_failure_reason")
      else if not (known_keys a.details)
      then err (value_error "unbounded_retail_incident_details")
      else incident_with a (detail_fields a.details)
