-- ===== src/Payment/Network.antt =====
-- The network that a receipt names (retail_context/x402_payment.py).
use sharpe_nova_os.Prelude.{
  ◌≡◌, refl, ap, Bool, true, false, not, Option, none, some, String, ◌==◌, opt_eq,
}
use sharpe_nova_os.Exec.{
  value_error, runtime_error, sqlite_error, validation_error, type_error, Result, ok, err, pure,
}
use sharpe_nova_os.Exec.Yields.{
  Yields, Yields-ok, Yields-raise, Yields-if, Yields-unless, Yields-bind, Yields-lift,
  Yields-raise_if,
}
use sharpe_nova_os.Text.{strip}
use sharpe_nova_os.Payment.Types.{
  PaymentRequirement, PaymentPayload, PaymentInput, VerifyResponse, RawSettlement, Facilitator,
  PaymentReceipt, settle_call, verify_call, PaymentOutcome, receipt_of, PaymentHost,
}
use sharpe_nova_os.Payment.Requirement.{
  payment_network, validate_retail_payment_requirement, build_retail_payment_requirement,
  upstream_requirements,
}
use sharpe_nova_os.Payment.Process.{
  Log, ask, Failure, parse_payload, payload_matches_requirement, denied_receipt, issue,
  failure_receipt, settled_receipt, reconcile_reference, reconcile_transaction, reconcile,
  settle_verified, after_verify, process_payload, process_retail_x402_payment,
}
use sharpe_nova_os.Payment.Completeness.{build-FromCatalog}

module _ (h : PaymentHost) (r : PaymentRequirement) where
  abbrev Names : PaymentOutcome → Log → Type 0
  Names o log = (receipt_of o).network ≡ r.network

  issue-Names :
      (receipt : PaymentReceipt) (capability : Bool) (log : Log)
      → receipt.network ≡ r.network
      → Yields Names (issue h r receipt capability log)
  unfolding issue pure
  issue-Names receipt capability log same =
      Yields-raise_if Names (not (h.valid_receipt receipt)) _ _ log (λ _. same)

  failure-Names : (f : Failure) (log : Log) → Yields Names (failure_receipt h r f log)
  unfolding failure_receipt denied_receipt
  failure-Names f log = issue-Names (denied_receipt h r f) false log refl

  reconcile_transaction-Names :
      (s : RawSettlement) (payer transaction : Option String) (log : Log)
      → Yields Names (reconcile_transaction h r s payer transaction log)
  unfolding reconcile_transaction reconcile_reference settled_receipt
  reconcile_transaction-Names s payer none log = failure-Names _ log
  reconcile_transaction-Names s payer (some t) log =
      Yields-if Names (strip t == "") _ _ log (λ _. failure-Names _ log)
        (λ _.
          Yields-unless Names (opt_eq s.network (some r.network)) _ _ log (λ _. failure-Names _ log)
            (λ _.
              Yields-unless Names (opt_eq s.amount (some r.amount_atomic)) _ _ log
                (λ _. failure-Names _ log)
                (λ _. issue-Names (settled_receipt h r payer (strip t)) true log refl)))

  reconcile-Names :
      (v : VerifyResponse) (raw : Option RawSettlement) (log : Log)
      → Yields Names (reconcile h r v raw log)
  unfolding reconcile
  reconcile-Names v none log = failure-Names _ log
  reconcile-Names v (some s) log =
      Yields-unless Names s.success _ _ log (λ _. failure-Names _ log)
        (λ _. reconcile_transaction-Names s _ s.transaction log)

  module _ (f : Facilitator) where
    after_verify-Names :
        (p : PaymentPayload) (answer : Option VerifyResponse) (log : Log)
        → Yields Names (after_verify h f r p answer log)
    unfolding after_verify settle_verified
    after_verify-Names p none log = failure-Names _ log
    after_verify-Names p (some v) log =
        Yields-unless Names v.is_valid _ _ log (λ _. failure-Names _ log)
          (λ _.
            Yields-bind Names
              (ask (settle_call p (upstream_requirements r)) (f.settle p (upstream_requirements r)))
              _ log (λ raw _. reconcile-Names v raw _))

    process_payload-Names :
        (parsed : Result PaymentPayload) (log : Log)
        → Yields Names (process_payload h f r parsed log)
    unfolding process_payload
    process_payload-Names (err (value_error reason)) log = failure-Names _ log
    process_payload-Names (err (runtime_error e)) log = Yields-raise Names _ log
    process_payload-Names (err sqlite_error) log = Yields-raise Names _ log
    process_payload-Names (err validation_error) log = Yields-raise Names _ log
    process_payload-Names (err type_error) log = Yields-raise Names _ log
    process_payload-Names (ok p) log =
        Yields-unless Names (payload_matches_requirement p r) _ _ log (λ _. failure-Names _ log)
          (λ _.
            Yields-bind Names
              (ask (verify_call p (upstream_requirements r)) (f.verify p (upstream_requirements r)))
              _ log (λ answer _. after_verify-Names p answer _))

    pub process-network :
        (input : PaymentInput) (log : Log) (o : PaymentOutcome)
        → (process_retail_x402_payment h f r input log).0 ≡ ok o
        → (receipt_of o).network ≡ r.network
    unfolding process_retail_x402_payment
    process-network input log o e =
        Yields-ok Names (process_retail_x402_payment h f r input log) o
          (Yields-lift Names (validate_retail_payment_requirement h r) _ log
            (λ _ _. process_payload-Names (parse_payload input) log))
          e

pub build-network :
    (h : PaymentHost) (resource_type resource_uri : String) (wallet env : Option String)
    (r : PaymentRequirement)
    → build_retail_payment_requirement h resource_type resource_uri wallet env ≡ ok r
    → r.network ≡ payment_network
build-network h resource_type resource_uri wallet env r e =
    ap (λ (k : PaymentRequirement). k.network)
      (build-FromCatalog h resource_type resource_uri wallet env r e).shape
