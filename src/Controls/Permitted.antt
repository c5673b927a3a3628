-- ===== src/Controls/Permitted.antt =====
-- What an admission rests on: `evaluate_retail_pre_payment_admission` of
-- retail_context/production_controls.py fails closed.
use Prim.Native.String.{◌++◌}
use sharpe_nova_os.Text.{strip}
use sharpe_nova_os.Prelude.{
  ℕ, ◌+◌, ◌≤◌, ◌≡◌, refl, sym, ap, ◌∙◌, true, false, not, Option, none, some, String, ◌==◌, arith,
  eq_iff, ℤ, Bool-cases, inl, inr,
}
use sharpe_nova_os.Exec.{ok, pure, ◌>>=◌, ◌>>◌}
use sharpe_nova_os.Exec.Yields.{
  Yields, Yields-ok, Yields-unless, Yields-attempt, Yields-bind, Yields-lift, Yields-map,
  Yields-raise_if,
}
use sharpe_nova_os.Telemetry.{EventArgs, IncidentArgs, hash_retail_subject}
use sharpe_nova_os.Store.Db.{Db}
use sharpe_nova_os.Store.Mode.{is_healthy, health_of, all_checks, get_service_mode, mode_of}
use sharpe_nova_os.Store.RateLimit.{RateLimitDecision, Window, current_count, consume_rate_limit}
use sharpe_nova_os.Controls.Types.{
  ControlConfig, max_requests_for, AdmissionOutcome, AdmissionRecord, RateInfo, ControlHost,
  timestamp_epoch, epoch_or_error, validate_request_id, window_start,
}
use sharpe_nova_os.Controls.Audit.{report_event, record_retail_operational_incident}
use sharpe_nova_os.Controls.Admission.{
  Candidate, window_of, rate_info, admission_record, admission_of, deny, deny_disabled,
  deny_unsupported, deny_rate, admit, decide, admit_resource, admit_in_mode, admit_checked,
  evaluate_candidate, deny_event, pressure_incident, evaluate_retail_pre_payment_admission,
}
use sharpe_nova_os.Controls.Reads.{
  is_healthy-health, is_healthy-limits, is_healthy-state, get_service_mode-limits,
  get_service_mode-reads, consume-decides,
}

-- The store answers: every table is there, and the service is in its controlled mode.
pub record IsOpen (db : Db) : Type 0 where
  pub healthy : all_checks (health_of db) ≡ true
  pub mode : mode_of db.service_state ≡ ok "controlled_proof"

-- The window had room for one more request, and the outcome's record counts it.
pub record HasRoom (w : Window) (limit : ℕ) (o : AdmissionOutcome) (db : Db) : Type 0 where
  pub within : current_count w db.rate_limits + 1 ≤ limit
  pub counted :
      o.body.rate_limit
      ≡ some (record {
        count = current_count w db.rate_limits + 1;
        max_requests = limit;
        window_started_at_epoch = w.window_started_at_epoch;
      })
  pub status : o.body.service_admission_status ≡ "admitted"
  pub of_subject : o.body.subject_hash ≡ w.subject_hash
  pub of_resource : o.body.resource_type ≡ w.resource_type

-- What a permitted request of a subject rests on: the window of this subject and resource that the
-- time falls into.
pub record IsPermitted (h : ControlHost) (subject_key resource_type : String)
    (config : Option ControlConfig) (at : String) (o : AdmissionOutcome) (db : Db) : Type 0 where
  pub controls : ControlConfig
  pub configured : config ≡ some controls
  pub limit : ℕ
  pub listed : max_requests_for controls resource_type ≡ some limit
  pub epoch : ℤ
  pub read : h.epoch_of at ≡ some epoch
  pub subject_hash : String
  pub hashed : subject_hash ≡ h.sha256 ("nova-retail-subject-v0.1\0" ++ subject_key)
  pub open_store : IsOpen db
  pub room :
      HasRoom
        (record {
          subject_hash = subject_hash;
          resource_type = resource_type;
          window_started_at_epoch = window_start epoch controls.rate_limit_window_seconds;
        })
        limit
        o
        db

module _ (h : ControlHost) (q : Candidate) where
  -- What is asked of the outcomes that carry the capability only.
  abbrev Granted : (AdmissionOutcome → Type 0) → AdmissionOutcome → Db → Type 0
  Granted P o t = o.capability ≡ true → P o

  deny-refuses :
      (reason : String) (rate : Option RateInfo) (db : Db)
      → Yields (λ o t. o.capability ≡ false) (deny h q reason rate db)
  unfolding deny pure
  deny-refuses reason rate db =
      Yields-lift (λ o t. o.capability ≡ false) (admission_record h q "denied" (some reason) rate) _
        db (λ _ _. refl)

  module _ (P : AdmissionOutcome → Type 0) where
    deny-Granted :
        (reason : String) (rate : Option RateInfo) (db : Db)
        → Yields (Granted P) (deny h q reason rate db)
    deny-Granted reason rate db =
        Yields-map (λ o t. o.capability ≡ false) (Granted P) _ (λ o t no yes_. absurd (cc))
          (deny-refuses reason rate db)

    -- A denial that is reported, with its incident.
    reported :
        (reason : String) (rate : Option RateInfo) (event : EventArgs) (incident : IncidentArgs)
        (db : Db)
        → Yields (Granted P) (
            (do
              outcome ← deny h q reason rate
              report_event h event
              record_retail_operational_incident h incident
              pure outcome)
              db)
    unfolding pure
    reported reason rate event incident db =
        Yields-bind (Granted P) (deny h q reason rate) _ db (λ o e.
          Yields-bind (Granted P) (report_event h event) _ _ (λ _ _.
            Yields-bind (Granted P) (record_retail_operational_incident h incident) _ _ (λ _ _ yes_.
              let no =
                Yields-ok (λ x t. x.capability ≡ false) (deny h q reason rate db) o
                  (deny-refuses reason rate db) e in
              absurd (cc))))

    deny_unsupported-Granted : (db : Db) → Yields (Granted P) (deny_unsupported h q db)
    unfolding deny_unsupported pure
    deny_unsupported-Granted db =
        let first = deny h q "unsupported_resource" none in
        Yields-bind (Granted P) first _ db (λ o e.
          Yields-bind (Granted P)
            (report_event h (deny_event q "pre_payment_denied" none "unsupported_resource")) _ _
            (λ _ _ yes_.
              let no =
                Yields-ok (λ x t. x.capability ≡ false) (first db) o (deny-refuses _ none db) e in
              absurd (cc)))

  -- The record of an admission.
  admitted_record :
      (rate : Option RateInfo) (b : AdmissionRecord)
      → admission_record h q "admitted" none rate ≡ ok b
      → (b.rate_limit ≡ rate)
        × (b.service_admission_status ≡ "admitted")
        × (b.subject_hash ≡ q.subject_hash)
        × (b.resource_type ≡ q.resource_type)
  unfolding admission_record admission_of
  admitted_record rate b e = (ground arith, ground arith, ground arith, ground arith)

  admit-HasRoom :
      (d : RateLimitDecision) (limit : ℕ) (start : ℤ) (before db : Db)
      → (current_count (window_of q start) before.rate_limits + 1 ≤ limit)
      → d.request_count ≡ current_count (window_of q start) before.rate_limits + 1
      → Yields (λ o t. HasRoom (window_of q start) limit o before) (admit h q d limit start db)
  unfolding admit pure
  admit-HasRoom d limit start before db within counts =
      Yields-lift (λ o t. HasRoom (window_of q start) limit o before)
        (admission_record h q "admitted" none (some (rate_info d limit start))) _ db
        (λ b e.
          Yields-bind (λ o t. HasRoom (window_of q start) limit o before) (report_event h _) _ db
            (λ _ _.
              let (rate, status, subject, resource) = admitted_record _ b e in
              record {
                within = within;
                counted =
                    rate
                    ∙ ap
                        (λ (n : ℕ). some (record {
                          count = n;
                          max_requests = limit;
                          window_started_at_epoch = start;
                        }))
                        counts;
                status = status;
                of_subject = subject;
                of_resource = resource;
              }))

  decide-HasRoom :
      (d : RateLimitDecision) (limit : ℕ) (start : ℤ) (before db : Db)
      → (d.permitted ≡ true
          → (current_count (window_of q start) before.rate_limits + 1 ≤ limit)
            × (d.request_count ≡ current_count (window_of q start) before.rate_limits + 1))
      → Yields
          (Granted (λ o. HasRoom (window_of q start) limit o before))
          (decide h q limit start d db)
  unfolding decide deny_rate
  decide-HasRoom d limit start before db counts =
      let P : AdmissionOutcome → Type 0 = λ o. HasRoom (window_of q start) limit o before in
      Yields-unless (Granted P) d.permitted _ _ db
        (λ _.
          reported P "rate_limit_exceeded" (some (rate_info d limit start))
            (deny_event q "rate_limit_denied" (some q.resource_type) "rate_limit_exceeded")
            (pressure_incident q d limit) db)
        (λ permitted.
          let (within, same) = counts permitted in
          Yields-map (λ o t. P o) (Granted P) _ (λ o t room _. room)
            (admit-HasRoom d limit start before db within same))

  -- A permitted request of a supported resource.
  abbrev Supported : ℤ → Option ℕ → Db → AdmissionOutcome → Type 0
  Supported start supported before o =
      (limit : ℕ) × (supported ≡ some limit) × HasRoom (window_of q start) limit o before

  admit_resource-Supported :
      (start : ℤ) (supported : Option ℕ) (before db : Db)
      → db.rate_limits ≡ before.rate_limits
      → Yields (Granted (Supported start supported before)) (admit_resource h q start supported db)
  unfolding admit_resource
  admit_resource-Supported start none before db same =
      deny_unsupported-Granted (Supported start none before) db
  admit_resource-Supported start (some limit) before db same =
      let consume = consume_rate_limit (window_of q start) limit q.observed_at in
      Yields-bind (Granted (Supported start (some limit) before)) consume _ db (λ d e.
        Yields-map (Granted (λ o. HasRoom (window_of q start) limit o before))
          (Granted (Supported start (some limit) before)) _
          (λ o t room yes_. (limit, refl, room yes_))
          (decide-HasRoom d limit start before (consume db).1 (
            rw (← same) (
              Yields-ok _ (consume db) d
                (consume-decides (window_of q start) limit q.observed_at db) e))))

  admit_in_mode-Supported :
      (config : ControlConfig) (epoch : ℤ) (mode : String) (before db : Db)
      → db.rate_limits ≡ before.rate_limits
      → Yields
          (Granted (λ o.
            (mode ≡ "controlled_proof")
            × Supported
                (window_start epoch config.rate_limit_window_seconds)
                (max_requests_for config q.resource_type)
                before
                o))
          (admit_in_mode h q config epoch mode db)
  unfolding admit_in_mode deny_disabled
  admit_in_mode-Supported config epoch mode before db same =
      let start = window_start epoch config.rate_limit_window_seconds in
      let P : AdmissionOutcome → Type 0 = λ o.
        (mode ≡ "controlled_proof")
        × Supported start (max_requests_for config q.resource_type) before o in
      Yields-unless (Granted P) (mode == "controlled_proof") _ _ db
        (λ _.
          reported P "service_disabled" none
            (deny_event q "service_disabled" (some q.resource_type) "service_disabled") _ db)
        (λ in_mode.
          Yields-map (Granted (Supported start (max_requests_for config q.resource_type) before))
            (Granted P) _
            (λ o t made yes_. (ground (arith, eq_iff mode "controlled_proof"), made yes_))
            (admit_resource-Supported start (max_requests_for config q.resource_type) before db
              same))

  evaluate_candidate-IsPermitted :
      (subject_key : String) (config : Option ControlConfig) (epoch : ℤ) (db : Db)
      → h.epoch_of q.observed_at ≡ some epoch
      → q.subject_hash ≡ h.sha256 ("nova-retail-subject-v0.1\0" ++ subject_key)
      → Yields
          (Granted (λ o. IsPermitted h subject_key q.resource_type config q.observed_at o db))
          (evaluate_candidate h q config epoch db)
  unfolding evaluate_candidate admit_checked
  evaluate_candidate-IsPermitted key none epoch db time hashed =
      deny-Granted _ "invalid_control_config" none db
  evaluate_candidate-IsPermitted key (some config) epoch db time hashed =
      let P : AdmissionOutcome → Type 0 =
        λ o. IsPermitted h key q.resource_type (some config) q.observed_at o db in
      let after_health = (is_healthy db).1 in
      Yields-attempt (Granted P) (admit_checked h q config epoch) _ db
        (Yields-bind (Granted P) is_healthy _ db (λ healthy e.
          Yields-raise_if (Granted P) (not healthy) _ _ after_health (λ checked.
            Yields-bind (Granted P) get_service_mode _ after_health (λ mode read.
              Yields-map
                (Granted (λ o.
                  (mode ≡ "controlled_proof")
                  × Supported (window_start epoch config.rate_limit_window_seconds)
                      (max_requests_for config q.resource_type) db o))
                (Granted P) _
                (λ o t made yes_.
                  let (in_mode, (limit, listed, room)) = made yes_ in
                  record {
                    controls = config;
                    configured = refl;
                    limit = limit;
                    listed = listed;
                    epoch = epoch;
                    read = time;
                    subject_hash = q.subject_hash;
                    hashed = hashed;
                    open_store = record {
                      healthy =
                          Yields-ok _ (is_healthy db) healthy (is_healthy-health db) e
                            (ground arith);
                      mode =
                          ap mode_of (sym (is_healthy-state db))
                          ∙ Yields-ok _ (get_service_mode after_health) mode
                              (get_service_mode-reads after_health) read
                          ∙ ap ok in_mode;
                    };
                    room = room;
                  })
                (admit_in_mode-Supported config epoch mode db _
                  (get_service_mode-limits after_health ∙ is_healthy-limits db))))))
        (λ _. deny-Granted P "control_store_unavailable" none _)

timestamp_epoch-reads :
    (h : ControlHost) (at : String) (epoch : ℤ)
    → timestamp_epoch h at ≡ ok epoch
    → h.epoch_of at ≡ some epoch
unfolding timestamp_epoch epoch_or_error
timestamp_epoch-reads h at epoch e = read (h.epoch_of at) e
  where
    read : (o : Option ℤ) → epoch_or_error o ≡ ok epoch → o ≡ some epoch
    read none e = cc
    read (some t) e = cc

hash_retail_subject-hashes :
    (sha256 : String → String) (subject_key subject : String)
    → hash_retail_subject sha256 subject_key ≡ ok subject
    → subject ≡ sha256 ("nova-retail-subject-v0.1\0" ++ subject_key)
unfolding hash_retail_subject
hash_retail_subject-hashes sha256 subject_key subject e =
    elim (Bool-cases (strip subject_key == "")) [
      | inl blank ↦ absurd (ground (arith, blank, e))
      | inr named ↦ ground (arith, named, e)
    ]

module _ (h : ControlHost) where
  -- A request is admitted only by a valid configuration, with every table of the store there, in the
  -- controlled mode, for a resource that has a limit, and where the window of the hashed subject, the
  -- resource and the request's time had counted fewer requests than the limit. The admission record
  -- then names this subject and resource and carries the count with this request.
  pub evaluate-IsPermitted :
      (subject_key resource_type request_id : String) (config : Option ControlConfig) (at : String)
      (db : Db) (o : AdmissionOutcome)
      → (evaluate_retail_pre_payment_admission h subject_key resource_type request_id config at
          db).0
        ≡ ok o
      → o.capability ≡ true
      → IsPermitted h subject_key resource_type config at o db
  unfolding evaluate_retail_pre_payment_admission
  evaluate-IsPermitted subject_key resource_type request_id config at db o e =
      let P : AdmissionOutcome → Db → Type 0 =
        λ x t. x.capability ≡ true → IsPermitted h subject_key resource_type config at x db in
      Yields-ok P
        (evaluate_retail_pre_payment_admission h subject_key resource_type request_id config at db)
        o
        (Yields-lift P (validate_request_id request_id) _ db (λ valid_id _.
          Yields-lift P (timestamp_epoch h at) _ db (λ epoch time.
            Yields-lift P (hash_retail_subject h.sha256 subject_key) _ db (λ subject hashed.
              evaluate_candidate-IsPermitted h
                (record {
                  request_id = valid_id;
                  resource_type = resource_type;
                  subject_hash = subject;
                  observed_at = at;
                })
                subject_key config epoch db (timestamp_epoch-reads h at epoch time)
                (hash_retail_subject-hashes h.sha256 subject_key subject hashed)))))
        e
