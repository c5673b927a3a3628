-- ===== src/Controls/Admission.antt =====
-- Admission before payment: `evaluate_retail_pre_payment_admission` and
-- `service_admission_allows_payment_challenge` of retail_context/production_controls.py.
use sharpe_nova_os.Prelude.{
  ℕ, Bool, true, false, not, ◌&&◌, Option, none, some, [], ◌∷◌, String, ◌==◌, if◌then◌else◌, ℤ, pos,
}
use sharpe_nova_os.Exec.{
  Result, ok, err, runtime_error, validation_error, Exec, pure, lift, attempt, raise_if, ◌>>=◌,
  ◌>>◌,
}
use sharpe_nova_os.Text.Json.{str, opt_str, int}
use sharpe_nova_os.Telemetry.{
  EventArgs, event_args, IncidentArgs, incident_args, scalar, hash_retail_subject,
  stable_operational_id,
}
use sharpe_nova_os.Payment.Access.{is_none}
use sharpe_nova_os.Store.Db.{Db}
use sharpe_nova_os.Store.Mode.{is_healthy, get_service_mode}
use sharpe_nova_os.Store.RateLimit.{RateLimitDecision, Window, consume_rate_limit}
use sharpe_nova_os.Controls.Types.{
  ControlConfig, max_requests_for, RateInfo, AdmissionRecord, AdmissionOutcome, ControlHost,
  timestamp_epoch, validate_request_id, window_start,
}
use sharpe_nova_os.Controls.Audit.{report_event, record_retail_operational_incident}

-- What every admission record of one evaluation names.
pub record Candidate : Type 0 where
  pub request_id : String
  pub resource_type : String
  pub subject_hash : String
  pub observed_at : String

abbrev pub deny_event : Candidate → String → Option String → String → EventArgs
deny_event q kind resource reason = record (event_args q.observed_at kind q.request_id) {
  resource_type = resource;
  subject_hash = some q.subject_hash;
  failure_reason = some reason;
}

abbrev pub window_of : Candidate → ℤ → Window
window_of q start = record {
  subject_hash = q.subject_hash;
  resource_type = q.resource_type;
  window_started_at_epoch = start;
}

abbrev pub rate_info : RateLimitDecision → ℕ → ℤ → RateInfo
rate_info d limit start = record {
  count = d.request_count;
  max_requests = limit;
  window_started_at_epoch = start;
}

abbrev pub pressure_incident : Candidate → RateLimitDecision → ℕ → IncidentArgs
pressure_incident q d limit =
    record (incident_args q.observed_at "rate_limit_pressure" q.request_id q.resource_type
      "rate_limit_exceeded") {
        details =
            ("request_count", scalar (int (pos d.request_count)))
            ∷ ("limit", scalar (int (pos limit)))
            ∷ [];
      }

module _ (h : ControlHost) (q : Candidate) where
  -- `_admission_record`, before its validation.
  unfoldable pub admission_of : String → Option String → Option RateInfo → AdmissionRecord
  admission_of status reason rate = record {
    service_admission_id = stable_operational_id h.sha256 "service-admission" (
        str q.request_id
        ∷ str q.resource_type
        ∷ str q.subject_hash
        ∷ str q.observed_at
        ∷ str status
        ∷ opt_str reason
        ∷ []);
    request_id = q.request_id;
    resource_type = q.resource_type;
    subject_hash = q.subject_hash;
    observed_at = q.observed_at;
    service_admission_status = status;
    failure_reason = reason;
    rate_limit = rate;
    authority_effect = "none";
  }

  unfoldable pub admission_record :
      String → Option String → Option RateInfo → Result AdmissionRecord
  admission_record status reason rate =
      if h.valid_admission (admission_of status reason rate)
      then ok (admission_of status reason rate)
      else err validation_error

  abbrev pub without_capability : AdmissionRecord → AdmissionOutcome
  without_capability body = record { body = body; capability = false }

  unfoldable pub deny : String → Option RateInfo → Exec Db AdmissionOutcome
  deny reason rate = do
    body ← lift (admission_record "denied" (some reason) rate)
    pure (without_capability body)

  unfoldable pub deny_disabled : Exec Db AdmissionOutcome
  deny_disabled = do
    outcome ← deny "service_disabled" none
    report_event h (deny_event q "service_disabled" (some q.resource_type) "service_disabled")
    record_retail_operational_incident h (
        incident_args q.observed_at "service_kill_switch_active" q.request_id q.resource_type
          "service_disabled")
    pure outcome

  unfoldable pub deny_unsupported : Exec Db AdmissionOutcome
  deny_unsupported = do
    outcome ← deny "unsupported_resource" none
    report_event h (deny_event q "pre_payment_denied" none "unsupported_resource")
    pure outcome

  unfoldable pub deny_rate : RateLimitDecision → ℕ → ℤ → Exec Db AdmissionOutcome
  deny_rate d limit start = do
    outcome ← deny "rate_limit_exceeded" (some (rate_info d limit start))
    report_event h (deny_event q "rate_limit_denied" (some q.resource_type) "rate_limit_exceeded")
    record_retail_operational_incident h (pressure_incident q d limit)
    pure outcome

  unfoldable pub admit : RateLimitDecision → ℕ → ℤ → Exec Db AdmissionOutcome
  admit d limit start = do
    body ← lift (admission_record "admitted" none (some (rate_info d limit start)))
    report_event h (record (event_args q.observed_at "pre_payment_admitted" q.request_id) {
      resource_type = some q.resource_type;
      subject_hash = some q.subject_hash;
    })
    pure (record { body = body; capability = true })

  unfoldable pub decide : ℕ → ℤ → RateLimitDecision → Exec Db AdmissionOutcome
  decide limit start d = if not d.permitted then deny_rate d limit start else admit d limit start

  unfoldable pub admit_resource : ℤ → Option ℕ → Exec Db AdmissionOutcome
  admit_resource start none = deny_unsupported
  admit_resource start (some limit) = do
    d ← consume_rate_limit (window_of q start) limit q.observed_at
    decide limit start d

  unfoldable pub admit_in_mode : ControlConfig → ℤ → String → Exec Db AdmissionOutcome
  admit_in_mode config epoch mode =
      if not (mode == "controlled_proof")
      then deny_disabled
      else admit_resource (window_start epoch config.rate_limit_window_seconds)
          (max_requests_for config q.resource_type)

  -- The body of the `try`.
  unfoldable pub admit_checked : ControlConfig → ℤ → Exec Db AdmissionOutcome
  admit_checked config epoch = do
    healthy ← is_healthy
    raise_if (not healthy) (runtime_error "control_store_unavailable")
    mode ← get_service_mode
    admit_in_mode config epoch mode

  -- An object that is no configuration is `none`.
  unfoldable pub evaluate_candidate : Option ControlConfig → ℤ → Exec Db AdmissionOutcome
  evaluate_candidate none epoch = deny "invalid_control_config" none
  evaluate_candidate (some config) epoch =
      attempt (admit_checked config epoch) (λ _. deny "control_store_unavailable" none)

module _ (h : ControlHost) where
  unfoldable pub evaluate_retail_pre_payment_admission :
      String → String → String → Option ControlConfig → String → Exec Db AdmissionOutcome
  evaluate_retail_pre_payment_admission subject_key resource_type request_id config observed_at = do
    valid_id ← lift (validate_request_id request_id)
    epoch ← lift (timestamp_epoch h observed_at)
    subject_hash ← lift (hash_retail_subject h.sha256 subject_key)
    evaluate_candidate h
        (record {
          request_id = valid_id;
          resource_type = resource_type;
          subject_hash = subject_hash;
          observed_at = observed_at;
        })
        config epoch

  -- An outcome that was built in this process; any other mapping is refused.
  unfoldable pub service_admission_allows_payment_challenge : AdmissionOutcome → Bool
  service_admission_allows_payment_challenge o =
      o.capability
      && h.valid_admission o.body
      && o.body.service_admission_status == "admitted"
      && is_none o.body.failure_reason
      && o.body.authority_effect == "none"
      && o.body.service_admission_id
        == stable_operational_id h.sha256 "service-admission" (
            str o.body.request_id
            ∷ str o.body.resource_type
            ∷ str o.body.subject_hash
            ∷ str o.body.observed_at
            ∷ str o.body.service_admission_status
            ∷ opt_str o.body.failure_reason
            ∷ [])
