-- ===== src/Payment/Order.antt =====
-- The order of what is asked of the facilitator (retail_context/x402_payment.py).
use sharpe_nova_os.Prelude.{
  ◌≡◌, refl, Bool, true, false, not, Option, none, some, [], ◌∷◌, ◌++◌, arith, if◌then◌else◌,
}
use sharpe_nova_os.Exec.{Result, ok, err, value_error, proceed, ◌>>=◌}
use sharpe_nova_os.Payment.Types.{
  PaymentRequirement, PaymentPayload, PaymentInput, VerifyResponse, RawSettlement, Facilitator,
  verify_call, settle_call, PaymentHost,
}
use sharpe_nova_os.Payment.Requirement.{validate_retail_payment_requirement, upstream_requirements}
use sharpe_nova_os.Payment.Process.{
  Failure, not_attempted, verification_failed, Log, ask, parse_payload, payload_matches_requirement,
  issue, failure_receipt, reconcile_reference, reconcile_transaction, reconcile, settle_verified,
  after_verify, process_payload, process_retail_x402_payment,
}

-- Nothing is settled before it was verified as valid: a run asks nothing, or verifies, or verifies
-- with a valid answer and settles once, also where it raises.
pub data Asked (f : Facilitator) (r : PaymentRequirement) (before : Log) : Log → Type 0 where
  nothing : Asked f r before before
  verified :
      (p : PaymentPayload)
      → Asked f r before (before ++ verify_call p (upstream_requirements r) ∷ [])
  settled :
      (p : PaymentPayload) (v : VerifyResponse)
      → f.verify p (upstream_requirements r) ≡ some v
      → v.is_valid ≡ true
      → Asked f r before (
          (before ++ verify_call p (upstream_requirements r) ∷ [])
          ++ settle_call p (upstream_requirements r) ∷ [])

module _ (h : PaymentHost) (r : PaymentRequirement) where
  log-failure : (x : Failure) (log : Log) → (failure_receipt h r x log).1 ≡ log
  unfolding failure_receipt issue ◌>>=◌
  log-failure x log = ground arith

  log-reconcile :
      (v : VerifyResponse) (raw : Option RawSettlement) (log : Log)
      → (reconcile h r v raw log).1 ≡ log
  unfolding reconcile reconcile_transaction reconcile_reference failure_receipt issue ◌>>=◌
  log-reconcile v none log = ground arith
  log-reconcile v (some s) log = ground arith

  module _ (f : Facilitator) (p : PaymentPayload) (before : Log) where
    Asked-after_verify :
        (answer : Option VerifyResponse)
        → f.verify p (upstream_requirements r) ≡ answer
        → Asked f r before
            (after_verify h f r p answer (before ++ verify_call p (upstream_requirements r) ∷ [])).1
    unfolding after_verify settle_verified ask ◌>>=◌
    Asked-after_verify none e = rw log-failure (verified p)
    Asked-after_verify (some v) e = split v.is_valid refl
      where
        split :
            (b : Bool)
            → v.is_valid ≡ b
            → Asked f r before
                ((if not b
                    then failure_receipt h r (verification_failed v.payer)
                    else (ask
                          (settle_call p (upstream_requirements r))
                          (f.settle p (upstream_requirements r))
                        >>= λ raw. reconcile h r v raw))
                  (before ++ verify_call p (upstream_requirements r) ∷ [])).1
        split true valid = rw log-reconcile (settled p v e valid)
        split false valid = rw log-failure (verified p)

  Asked-process_payload :
      (f : Facilitator) (parsed : Result PaymentPayload) (before : Log)
      → Asked f r before (process_payload h f r parsed before).1
  unfolding process_payload ask ◌>>=◌
  Asked-process_payload f (err (value_error reason)) before = rw log-failure nothing
  Asked-process_payload f (err _) before = nothing
  Asked-process_payload f (ok p) before = split (payload_matches_requirement p r)
    where
      split :
          (b : Bool)
          → Asked f r before
              ((if not b
                  then failure_receipt h r (not_attempted "invalid_payment_payload")
                  else (ask
                        (verify_call p (upstream_requirements r))
                        (f.verify p (upstream_requirements r))
                      >>= λ answer. after_verify h f r p answer))
                before).1
      split true = Asked-after_verify f p before (f.verify p (upstream_requirements r)) refl
      split false = rw log-failure nothing

-- Whatever the facilitator answers and however the run ends, settlement is asked for at most once,
-- only after a verification of the same payload that answered as valid, and nothing else is asked.
pub process-Asked :
    (h : PaymentHost) (f : Facilitator) (r : PaymentRequirement) (input : PaymentInput) (log : Log)
    → Asked f r log (process_retail_x402_payment h f r input log).1
unfolding process_retail_x402_payment ◌>>=◌
process-Asked h f r input log = after (validate_retail_payment_requirement h r)
  where
    after :
        (v : Result Unit)
        → Asked f r log (proceed v (λ _. process_payload h f r (parse_payload input)) log).1
    after (ok _) = Asked-process_payload h r f (parse_payload input) log
    after (err e) = nothing
