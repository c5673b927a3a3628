-- ===== src/Service/Admission.antt =====
-- `_ensure_runtime_admission` of retail_context/service.py.
use sharpe_nova_os.Prelude.{Bool, not, ◌&&◌, Option, none, some, String, ◌==◌, if◌then◌else◌}
use sharpe_nova_os.Exec.{Error, value_error, Exec, pure, lift, attempt, ◌>>=◌, ◌>>◌}
use sharpe_nova_os.Telemetry.{hash_retail_subject}
use sharpe_nova_os.Store.Db.{RuntimeRequest}
use sharpe_nova_os.Store.Mode.{is_healthy, get_service_mode}
use sharpe_nova_os.Store.Requests.{get_runtime_request, record_runtime_request}
use sharpe_nova_os.Controls.Types.{AdmissionOutcome, ControlHost}
use sharpe_nova_os.Controls.Admission.{
  evaluate_retail_pre_payment_admission, service_admission_allows_payment_challenge,
}
use sharpe_nova_os.Guard.{
  Attempt, GuardRow, initialize_request, consume_existing_attempt, get_request_guard,
}
use sharpe_nova_os.Service.World.{World, on_store, on_guard}
use sharpe_nova_os.Service.Request.{
  PreparedRetailRequest, RuntimeConfig, request_id_of, resource_uri_of,
}

-- `str(… or default)`
abbrev pub reason_or : String → Option String → String
reason_or default none = default
reason_or default (some reason) = if reason == "" then default else reason

module _ (h : ControlHost) (config : RuntimeConfig) (p : PreparedRetailRequest)
    (observed_at : String) (payment_present : Bool) where
  abbrev pub guard_attempt : Attempt
  guard_attempt = record {
    request_id = request_id_of p;
    source_binding_digest = p.source_binding_digest;
    payment_present = payment_present;
    observed_at = observed_at;
  }

  abbrev pub runtime_request : String → RuntimeRequest
  runtime_request subject_hash = record {
    request_id = request_id_of p;
    request_digest = p.request_digest;
    subject_hash = subject_hash;
    resource_type = p.resource_type;
    resource_uri = resource_uri_of p;
    admitted_at = observed_at;
    authority_effect = "none";
  }

  -- The recorded request is this one, but for its resource.
  unfoldable pub is_same_request : String → RuntimeRequest → Bool
  is_same_request subject_hash q =
      q.request_digest == p.request_digest
      && q.subject_hash == subject_hash
      && q.resource_type == p.resource_type
      && q.authority_effect == "none"

  unfoldable pub other_resource : String
  other_resource =
      if p.resource_type == "state_ping"
      then "source_binding_reconciliation_failed"
      else "request_reconciliation_failed"

  unfoldable pub ensure_guard : Option GuardRow → Exec World Unit
  ensure_guard (some _) = pure tt
  ensure_guard none = on_guard (initialize_request guard_attempt)

  -- The body of the `try`.
  unfoldable pub consume_retry : Exec World (Option String)
  consume_retry = do
    row ← on_guard (get_request_guard (request_id_of p))
    ensure_guard row
    retry ← on_guard (
        consume_existing_attempt h.epoch_of guard_attempt
          config.production_controls.rate_limit_window_seconds config.retry_max_requests)
    pure (if retry.permitted then none else some "rate_limit_exceeded")

  unfoldable pub retry_failure : Error → Exec World (Option String)
  retry_failure (value_error reason) =
      if reason == "source_binding_reconciliation_failed"
      then pure (some "source_binding_reconciliation_failed")
      else pure (some "request_reconciliation_failed")
  retry_failure _ = pure (some "control_store_unavailable")

  unfoldable pub admit_known_in : String → RuntimeRequest → String → Exec World (Option String)
  admit_known_in subject_hash q mode =
      if not (mode == "controlled_proof")
      then pure (some "service_disabled")
      else if not (is_same_request subject_hash q)
      then pure (some "request_reconciliation_failed")
      else if not (q.resource_uri == resource_uri_of p)
      then pure (some other_resource)
      else attempt consume_retry retry_failure

  unfoldable pub admit_known_if : String → RuntimeRequest → Bool → Exec World (Option String)
  admit_known_if subject_hash q healthy =
      if not healthy
      then pure (some "control_store_unavailable")
      else (do mode ← on_store get_service_mode; admit_known_in subject_hash q mode)

  -- The request was admitted before.
  unfoldable pub admit_known : String → RuntimeRequest → Exec World (Option String)
  admit_known subject_hash q = do
    healthy ← on_store is_healthy
    admit_known_if subject_hash q healthy

  unfoldable pub guard_failure : Error → Exec World (Option String)
  guard_failure (value_error _) = pure (some "source_binding_reconciliation_failed")
  guard_failure _ = pure (some "control_store_unavailable")

  unfoldable pub after_recorded : Bool → Exec World (Option String)
  after_recorded recorded =
      if not recorded
      then pure (some "request_reconciliation_failed")
      else attempt (do on_guard (initialize_request guard_attempt); pure none) guard_failure

  unfoldable pub after_admission : String → AdmissionOutcome → Exec World (Option String)
  after_admission subject_hash o =
      if not (service_admission_allows_payment_challenge h o)
      then pure (some (reason_or "service_admission_denied" o.body.failure_reason))
      else (do
        recorded ← on_store (record_runtime_request (runtime_request subject_hash))
        after_recorded recorded)

  -- The first request of its kind.
  unfoldable pub admit_new : String → Exec World (Option String)
  admit_new subject_hash = do
    admission ← on_store (
        evaluate_retail_pre_payment_admission h p.subject_key p.resource_type (request_id_of p)
          (some config.production_controls) observed_at)
    after_admission subject_hash admission

  unfoldable pub admit_found : String → Option RuntimeRequest → Exec World (Option String)
  admit_found subject_hash none = admit_new subject_hash
  admit_found subject_hash (some q) = admit_known subject_hash q

  unfoldable pub ensure_runtime_admission : Exec World (Option String)
  ensure_runtime_admission = do
    subject_hash ← lift (hash_retail_subject h.sha256 p.subject_key)
    existing ← on_store (get_runtime_request (request_id_of p))
    admit_found subject_hash existing
