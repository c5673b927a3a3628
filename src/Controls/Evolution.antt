-- ===== src/Controls/Evolution.antt =====
-- Admission and claims (retail_context/production_controls.py) make only the writes of the store's
-- methods.
use sharpe_nova_os.Prelude.{ℕ, Bool, not, Option, none, some, String, ℤ}
use sharpe_nova_os.Exec.{Exec, runtime_error, raise_if, ◌>>=◌, ◌>>◌}
use sharpe_nova_os.Exec.Evolve.{
  Evolves, evolve_rules, Evolves-bind, Evolves-raise_if, Evolves-attempt, Evolves-if,
}
use sharpe_nova_os.Payment.Types.{PaymentReceipt, PaymentOutcome}
use sharpe_nova_os.Store.Db.{Db}
use sharpe_nova_os.Store.Mode.{is_healthy, get_service_mode}
use sharpe_nova_os.Store.RateLimit.{RateLimitDecision}
use sharpe_nova_os.Store.Methods.{
  Writes, is_healthy-Evolves, get_service_mode-Evolves, consume_rate_limit-Evolves,
  claim_payment-Evolves,
}
use sharpe_nova_os.Controls.Types.{ControlConfig, RateInfo, ControlHost}
use sharpe_nova_os.Controls.Audit.{report_event-Evolves, record_retail_operational_incident-Evolves}
use sharpe_nova_os.Controls.Admission.{
  Candidate, deny, deny_disabled, deny_unsupported, deny_rate, admit, decide, admit_resource,
  admit_in_mode, admit_checked, evaluate_candidate, evaluate_retail_pre_payment_admission,
}
use sharpe_nova_os.Controls.Claiming.{
  deny_delivery, report_conflict, deny_replay, grant_delivery, after_claim, claim_in_mode,
  claim_checked, claim_if, claim_settled_payment_for_delivery,
}

module _ {R : Db → Db → Type 0} {A : Type 0} (allow : Writes R) where
  when_healthy-Evolves :
      (k : String → Exec Db A)
      → ((mode : String) → Evolves R (k mode))
      → Evolves R (do
        healthy ← is_healthy
        raise_if (not healthy) (runtime_error "control_store_unavailable")
        mode ← get_service_mode
        k mode)
  when_healthy-Evolves k each = Evolves-bind allow.db.order _ _ (is_healthy-Evolves allow) (λ b.
      Evolves-bind allow.db.order _ _ (Evolves-raise_if allow.db.order _ _)
        (λ _. Evolves-bind allow.db.order _ _ (get_service_mode-Evolves allow) each))

module _ {R : Db → Db → Type 0} (allow : Writes R) (h : ControlHost) where
  module _ (q : Candidate) where
    deny-Evolves : (reason : String) (rate : Option RateInfo) → Evolves R (deny h q reason rate)
    unfolding deny
    deny-Evolves reason rate = search (evolve_rules, allow.db.order)

    deny_disabled-Evolves : Evolves R (deny_disabled h q)
    unfolding deny_disabled
    deny_disabled-Evolves =
        search
          (
            evolve_rules,
            allow.db.order,
            deny-Evolves,
            report_event-Evolves allow,
            record_retail_operational_incident-Evolves allow,
          )
          depth 9

    deny_unsupported-Evolves : Evolves R (deny_unsupported h q)
    unfolding deny_unsupported
    deny_unsupported-Evolves =
        search (evolve_rules, allow.db.order, deny-Evolves, report_event-Evolves allow) depth 8

    deny_rate-Evolves :
        (d : RateLimitDecision) (limit : ℕ) (start : ℤ) → Evolves R (deny_rate h q d limit start)
    unfolding deny_rate
    deny_rate-Evolves d limit start =
        search
          (
            evolve_rules,
            allow.db.order,
            deny-Evolves,
            report_event-Evolves allow,
            record_retail_operational_incident-Evolves allow,
          )
          depth 9

    admit-Evolves :
        (d : RateLimitDecision) (limit : ℕ) (start : ℤ) → Evolves R (admit h q d limit start)
    unfolding admit
    admit-Evolves d limit start =
        search (evolve_rules, allow.db.order, report_event-Evolves allow) depth 8

    admit_resource-Evolves :
        (start : ℤ) (limit : Option ℕ) → Evolves R (admit_resource h q start limit)
    unfolding admit_resource decide
    admit_resource-Evolves start none = deny_unsupported-Evolves
    admit_resource-Evolves start (some limit) =
        search
          (
            evolve_rules,
            allow.db.order,
            consume_rate_limit-Evolves allow,
            deny_rate-Evolves,
            admit-Evolves,
          )
          depth 8

    admit_in_mode-Evolves :
        (c : ControlConfig) (epoch : ℤ) (mode : String) → Evolves R (admit_in_mode h q c epoch mode)
    unfolding admit_in_mode
    admit_in_mode-Evolves c epoch mode =
        Evolves-if _ _ _ deny_disabled-Evolves (admit_resource-Evolves _ _)

    admit_checked-Evolves : (c : ControlConfig) (epoch : ℤ) → Evolves R (admit_checked h q c epoch)
    unfolding admit_checked
    admit_checked-Evolves c epoch =
        when_healthy-Evolves allow (admit_in_mode h q c epoch) (admit_in_mode-Evolves c epoch)

    evaluate_candidate-Evolves :
        (c : Option ControlConfig) (epoch : ℤ) → Evolves R (evaluate_candidate h q c epoch)
    unfolding evaluate_candidate
    evaluate_candidate-Evolves none epoch = deny-Evolves _ _
    evaluate_candidate-Evolves (some c) epoch =
        search (evolve_rules, allow.db.order, admit_checked-Evolves, deny-Evolves)

  pub evaluate-Evolves :
      (key resource id : String) (c : Option ControlConfig) (at : String)
      → Evolves R (evaluate_retail_pre_payment_admission h key resource id c at)
  unfolding evaluate_retail_pre_payment_admission
  evaluate-Evolves key resource id c at =
      search (evolve_rules, allow.db.order, evaluate_candidate-Evolves) depth 9

  module _ (r : PaymentReceipt) (id at : String) where
    deny_delivery-Evolves : (reason : Option String) → Evolves R (deny_delivery h r id at reason)
    unfolding deny_delivery
    deny_delivery-Evolves reason = search (evolve_rules, allow.db.order)

    report_conflict-Evolves :
        (reason : Option String) → Evolves R (report_conflict h r id at reason)
    unfolding report_conflict
    report_conflict-Evolves reason =
        search (evolve_rules, allow.db.order, record_retail_operational_incident-Evolves allow)

    deny_replay-Evolves : (reason : Option String) → Evolves R (deny_replay h r id at reason)
    unfolding deny_replay
    deny_replay-Evolves reason =
        search
          (
            evolve_rules,
            allow.db.order,
            report_event-Evolves allow,
            report_conflict-Evolves,
            deny_delivery-Evolves,
          )
          depth 8

    grant_delivery-Evolves : Evolves R (grant_delivery h r id at)
    unfolding grant_delivery
    grant_delivery-Evolves =
        search (evolve_rules, allow.db.order, report_event-Evolves allow) depth 8

    claim_in_mode-Evolves : (mode : String) → Evolves R (claim_in_mode h r id at mode)
    unfolding claim_in_mode after_claim
    claim_in_mode-Evolves mode =
        search
          (
            evolve_rules,
            allow.db.order,
            claim_payment-Evolves allow,
            deny_delivery-Evolves,
            deny_replay-Evolves,
            grant_delivery-Evolves,
          )
          depth 8

    claim_checked-Evolves : Evolves R (claim_checked h r id at)
    unfolding claim_checked
    claim_checked-Evolves =
        when_healthy-Evolves allow (claim_in_mode h r id at) claim_in_mode-Evolves

    claim_if-Evolves : (b : Bool) → Evolves R (claim_if h r id at b)
    unfolding claim_if
    claim_if-Evolves b =
        Evolves-if _ _ _ (deny_delivery-Evolves _)
          (Evolves-attempt allow.db.order _ _ claim_checked-Evolves (λ _. deny_delivery-Evolves _))

  pub claim_settled-Evolves :
      (p : PaymentOutcome) (id at : String)
      → Evolves R (claim_settled_payment_for_delivery h p id at)
  unfolding claim_settled_payment_for_delivery
  claim_settled-Evolves p id at = search (evolve_rules, allow.db.order, claim_if-Evolves) depth 8
