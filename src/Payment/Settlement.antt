-- ===== src/Payment/Settlement.antt =====
-- What a payment that reaches a resource went through: soundness and completeness of the verify, settle
-- and reconcile flow of retail_context/x402_payment.py.
use mathlib.Core.List.{append_assoc}
use sharpe_nova_os.Prelude.{
  ◌≡◌, refl, Bool, true, false, Option, none, some, [], ◌∷◌, ◌++◌, arith, opt_eq→eq,
}
use sharpe_nova_os.Exec.{Result, ok, err, value_error, proceed, ◌>>=◌}
use sharpe_nova_os.Payment.Types.{
  PaymentRequirement, PaymentPayload, PaymentInput, VerifyResponse, RawSettlement, Facilitator,
  verify_call, settle_call, PaymentOutcome, outcome, other_mapping, PaymentHost,
}
use sharpe_nova_os.Payment.Requirement.{validate_retail_payment_requirement, upstream_requirements}
use sharpe_nova_os.Payment.Process.{
  Log, ask, parse_payload, payload_matches_requirement, issue, failure_receipt, reconcile_reference,
  reconcile_transaction, reconcile, settle_verified, after_verify, process_payload,
  process_retail_x402_payment,
}

-- The outcome carries the access capability.
abbrev pub is_granted : Result PaymentOutcome → Bool
is_granted (ok (outcome _ capability)) = capability
is_granted (ok (other_mapping _)) = false
is_granted (err _) = false

-- The settlement answers for this requirement.
pub record Reconciles (r : PaymentRequirement) (s : RawSettlement) : Type 0 where
  pub success : s.success ≡ true
  pub network : s.network ≡ some r.network
  pub amount : s.amount ≡ some r.amount_atomic

-- A payment was verified, then settled, and the settlement reconciled.
pub record IsPaid (f : Facilitator) (r : PaymentRequirement) (input : PaymentInput)
    (before after : Log) : Type 0 where
  pub parsed : PaymentPayload
  pub verification : VerifyResponse
  pub settlement : RawSettlement
  pub parses : parse_payload input ≡ ok parsed
  pub matches : payload_matches_requirement parsed r ≡ true
  pub verified : f.verify parsed (upstream_requirements r) ≡ some verification
  pub valid : verification.is_valid ≡ true
  pub settled : f.settle parsed (upstream_requirements r) ≡ some settlement
  pub reconciled : Reconciles r settlement
  pub asked :
      after
      ≡ before
        ++ verify_call parsed (upstream_requirements r)
          ∷ settle_call parsed (upstream_requirements r)
          ∷ []

module _ (h : PaymentHost) (r : PaymentRequirement) where
  reconcile-granted :
      (v : VerifyResponse) (raw : Option RawSettlement) (log : Log)
      → is_granted (reconcile h r v raw log).0 ≡ true
      → (s : RawSettlement) × (raw ≡ some s) × Reconciles r s × ((reconcile h r v raw log).1 ≡ log)
  unfolding reconcile reconcile_transaction reconcile_reference failure_receipt issue ◌>>=◌
  reconcile-granted v none log g = absurd (ground arith)
  reconcile-granted v (some s) log g = (
    s,
    refl,
    record {
      success = ground arith;
      network = opt_eq→eq s.network (some r.network) (ground arith);
      amount = opt_eq→eq s.amount (some r.amount_atomic) (ground arith);
    },
    ground arith,
  )

  module _ (f : Facilitator) (p : PaymentPayload) where
    after_verify-granted :
        (answer : Option VerifyResponse) (log : Log)
        → is_granted (after_verify h f r p answer log).0 ≡ true
        → (v : VerifyResponse) × (answer ≡ some v)
          × (v.is_valid ≡ true)
          × (s : RawSettlement) × (f.settle p (upstream_requirements r) ≡ some s)
          × Reconciles r s
          × ((after_verify h f r p answer log).1
              ≡ log ++ settle_call p (upstream_requirements r) ∷ [])
    unfolding after_verify settle_verified failure_receipt issue ask ◌>>=◌
    after_verify-granted none log g = absurd (ground arith)
    after_verify-granted (some v) log g =
        let asked = log ++ settle_call p (upstream_requirements r) ∷ [] in
        let valid : v.is_valid ≡ true = ground arith in
        let granted : is_granted (reconcile h r v (f.settle p (upstream_requirements r)) asked).0
            ≡ true =
          ground arith in
        let (s, e, reconciles, same) =
          reconcile-granted v (f.settle p (upstream_requirements r)) asked granted in
        (v, refl, valid, s, e, reconciles, ground (arith, same))

  process_payload-granted :
      (f : Facilitator) (input : PaymentInput) (parsed : Result PaymentPayload) (log : Log)
      → parse_payload input ≡ parsed
      → is_granted (process_payload h f r parsed log).0 ≡ true
      → IsPaid f r input log (process_payload h f r parsed log).1
  unfolding process_payload failure_receipt issue ask ◌>>=◌
  process_payload-granted f input (err (value_error reason)) log e g = absurd (ground arith)
  process_payload-granted f input (err _) log e g = absurd (ground arith)
  process_payload-granted f input (ok p) log e g =
      let asked = log ++ verify_call p (upstream_requirements r) ∷ [] in
      let granted : is_granted (after_verify h f r p (f.verify p (upstream_requirements r)) asked).0
          ≡ true =
        ground arith in
      let (v, answered, valid, s, settled, reconciles, same) =
        after_verify-granted f p (f.verify p (upstream_requirements r)) asked granted in
      record {
        parsed = p;
        verification = v;
        settlement = s;
        parses = e;
        matches = ground arith;
        verified = answered;
        valid = valid;
        settled = settled;
        reconciled = reconciles;
        asked = ground (
          arith,
          same,
          append_assoc log (verify_call p (upstream_requirements r) ∷ [])
              (settle_call p (upstream_requirements r) ∷ []),
        );
      }

-- A payment that is granted access was parsed and matched its requirement, was verified as valid,
-- was settled with success on the requirement's network and amount, and exactly these two requests
-- were made, in this order.
pub process-granted :
    (h : PaymentHost) (f : Facilitator) (r : PaymentRequirement) (input : PaymentInput) (log : Log)
    → is_granted (process_retail_x402_payment h f r input log).0 ≡ true
    → IsPaid f r input log (process_retail_x402_payment h f r input log).1
unfolding process_retail_x402_payment ◌>>=◌
process-granted h f r input log g = after (validate_retail_payment_requirement h r) g
  where
    after :
        (v : Result Unit)
        → is_granted (proceed v (λ _. process_payload h f r (parse_payload input)) log).0 ≡ true
        → IsPaid f r input log (proceed v (λ _. process_payload h f r (parse_payload input)) log).1
    after (ok _) g = process_payload-granted h r f input (parse_payload input) log refl g
    after (err e) g = cc
