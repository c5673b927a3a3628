-- ===== src/Service/Paid.antt =====
-- What the payment and the delivery of a request (retail_context/service.py) leave when the response is
-- a 200.
use sharpe_nova_os.Prelude.{
  ℕ, ◌≡◌, refl, true, false, Option, none, some, String, ◌==◌, arith, eqb, if◌then◌else◌,
}
use sharpe_nova_os.Exec.{
  Error, value_error, runtime_error, sqlite_error, validation_error, type_error, Result, ok, pure,
}
use sharpe_nova_os.Exec.Yields.{
  Yields, Yields-ok, Yields-raise, Yields-if, Yields-unless, Yields-attempt, Yields-bind,
  Yields-map,
}
use sharpe_nova_os.Payment.Types.{
  PaymentHost, PaymentRequirement, PaymentInput, payload, PaymentOutcome, outcome, other_mapping,
  receipt_of,
}
use sharpe_nova_os.Payment.Requirement.{build_retail_payment_requirement}
use sharpe_nova_os.Payment.Process.{Log, process_retail_x402_payment}
use sharpe_nova_os.Payment.Access.{payment_receipt_allows_resource_access}
use sharpe_nova_os.Payment.Settlement.{is_granted, IsPaid, process-granted}
use sharpe_nova_os.Store.Growth.{Grows-Writes}
use sharpe_nova_os.Controls.Claiming.{reference_text}
use sharpe_nova_os.Controls.Grants.{OnLedger, OnLedger-Grows}
use sharpe_nova_os.Delivery.{
  DeliveredResource, RuntimeCapability, claim_or_resume_retail_delivery,
  deliver_or_redeliver_retail_resource,
}
use sharpe_nova_os.Delivery.Evolution.{deliver-Evolves}
use sharpe_nova_os.Delivery.Capability.{claim_or_resume-Yields}
use sharpe_nova_os.Delivery.Redelivery.{IsDelivered, deliver-IsDelivered}
use sharpe_nova_os.Service.World.{World, on_store, on_facilitator}
use sharpe_nova_os.Service.Request.{
  PreparedRetailRequest, RuntimeConfig, Decoded, undecodable, other_version, decoded, Response,
  ServiceHost, resource_uri_of, for_delivery,
}
use sharpe_nova_os.Service.Handler.{
  error_response, served, recovery_response, claim_and_deliver, after_payment, pay, ask_payment,
}

-- The settlement of the payment is on the ledger under one claim, and the resource of this claim was
-- delivered.
pub record IsFulfilled (h : ServiceHost) (config : RuntimeConfig) (p : PreparedRetailRequest)
    (o : PaymentOutcome) (r : Response) (w : World) : Type 0 where
  pub claim_id : String
  pub resource : DeliveredResource
  pub ledger :
      OnLedger
        (receipt_of o).network
        (reference_text (receipt_of o).transaction_reference)
        claim_id
        w.store.payments
  pub delivered :
      IsDelivered h.control h.utf8_length claim_id p.rendered config.max_response_bytes resource
        w.store.payments
  pub response : r ≡ served o resource

-- A request was paid for, as its facilitator was asked between the two worlds, and fulfilled.
pub record IsPaidFor (h : ServiceHost) (config : RuntimeConfig) (p : PreparedRetailRequest)
    (r : Response) (asked_before : Log) (after : World) : Type 0 where
  pub requirement : PaymentRequirement
  pub built :
      build_retail_payment_requirement h.payment p.resource_type
        (resource_uri_of p)
        (some config.settlement_wallet)
        none
      ≡ ok requirement
  pub input : PaymentInput
  pub paid : IsPaid h.facilitator requirement input asked_before after.asked
  pub o : PaymentOutcome
  pub processed :
      (process_retail_x402_payment h.payment h.facilitator requirement input asked_before).0 ≡ ok o
  pub allowed : payment_receipt_allows_resource_access h.payment o ≡ true
  pub fulfilled : IsFulfilled h config p o r after

-- What is asked of the responses with status 200 only.
abbrev pub Only : (Response → World → Type 0) → Response → World → Type 0
Only P r t = r.status ≡ 200 → P r t

pub error-Only :
    (P : Response → World → Type 0) (status : ℕ) (reason : String) (c : Option String) (w : World)
    → eqb status 200 ≡ false
    → Yields (Only P) (pure (error_response status reason c) w)
unfolding pure
error-Only P status reason c w other e = absurd (ground arith)

pub recovery-Only :
    (P : Response → World → Type 0) (e : Error) (w : World)
    → Yields (Only P) (recovery_response e w)
unfolding recovery_response
recovery-Only P (value_error reason) w =
    error-Only P (if reason == "control_store_unavailable" then 503 else 409) reason none w
      (ground arith)
recovery-Only P (runtime_error _) w = Yields-raise (Only P) _ w
recovery-Only P sqlite_error w = Yields-raise (Only P) _ w
recovery-Only P validation_error w = Yields-raise (Only P) _ w
recovery-Only P type_error w = Yields-raise (Only P) _ w

allows-granted :
    (h : PaymentHost) (r : Result PaymentOutcome) (o : PaymentOutcome)
    → r ≡ ok o
    → payment_receipt_allows_resource_access h o ≡ true
    → is_granted r ≡ true
unfolding payment_receipt_allows_resource_access
allows-granted h r (outcome receipt capability) e a = rw e (ground arith)
allows-granted h r (other_mapping receipt) e a = cc

module _ (h : ServiceHost) (config : RuntimeConfig) (at : String) (elapsed : ℕ) where
  module _ (p : PreparedRetailRequest) where
    abbrev Fulfils : PaymentOutcome → World → Response → World → Type 0
    Fulfils o w r t = IsFulfilled h config p o r t × (t.asked ≡ w.asked)

    claim_and_deliver-Yields :
        (o : PaymentOutcome) (w : World)
        → Yields (Fulfils o w) (claim_and_deliver h config at elapsed p o w)
    unfolding claim_and_deliver on_store pure for_delivery
    claim_and_deliver-Yields o w =
        let claim = claim_or_resume_retail_delivery h.control o (for_delivery p) at in
        let deliver = λ (c : RuntimeCapability).
          deliver_or_redeliver_retail_resource h.control h.utf8_length c (for_delivery p) at elapsed
            config.max_response_bytes in
        let held = (claim w.store).1 in
        Yields-bind (Fulfils o w) (on_store claim) _ w (λ c e.
          Yields-bind (Fulfils o w) (on_store (deliver c)) _ _ (λ d e'. (
            record {
              claim_id = c.claim_id;
              resource = d;
              ledger =
                  OnLedger-Grows (receipt_of o).network
                    (reference_text (receipt_of o).transaction_reference) c.claim_id held
                    (deliver c held).1
                    ((deliver-Evolves Grows-Writes h.control h.utf8_length c (for_delivery p) at
                        elapsed config.max_response_bytes).at
                      held)
                    (Yields-ok _ (claim w.store) c
                      (claim_or_resume-Yields h.control o (for_delivery p) at w.store) e).1;
              delivered =
                  deliver-IsDelivered h.control h.utf8_length c (for_delivery p) at elapsed
                    config.max_response_bytes held d e';
              response = refl;
            },
            refl,
          )))

    abbrev pub PaidFor : Log → Response → World → Type 0
    PaidFor log = Only (λ r t. IsPaidFor h config p r log t)

    abbrev Accepts : PaymentOutcome → World → Response → World → Type 0
    Accepts o w r t = (payment_receipt_allows_resource_access h.payment o ≡ true) × Fulfils o w r t

    after_payment-Yields :
        (challenge : String) (o : PaymentOutcome) (w : World)
        → Yields (Only (Accepts o w)) (after_payment h config at elapsed p challenge o w)
    unfolding after_payment
    after_payment-Yields challenge o w =
        let allows = payment_receipt_allows_resource_access h.payment o in
        let Q : Response → World → Type 0 = Accepts o w in
        Yields-unless (Only Q) allows _ _ w (λ _. error-Only Q 402 _ (some challenge) w refl)
          (λ yes_.
            Yields-attempt (Only Q) (claim_and_deliver h config at elapsed p o) _ w
              (Yields-map (Fulfils o w) (Only Q) _ (λ r t f _. (yes_, f))
                (claim_and_deliver-Yields o w))
              (λ e. recovery-Only Q e _))

    pay-Yields :
        (r : PaymentRequirement) (challenge : String) (d : Decoded) (w : World)
        → build_retail_payment_requirement h.payment p.resource_type
            (resource_uri_of p)
            (some config.settlement_wallet)
            none
          ≡ ok r
        → Yields (PaidFor w.asked) (pay h config at elapsed p r challenge d w)
    unfolding pay on_facilitator
    pay-Yields r challenge undecodable w built = error-Only _ 400 _ none w refl
    pay-Yields r challenge other_version w built = error-Only _ 400 _ none w refl
    pay-Yields r challenge (decoded paid) w built =
        let process = process_retail_x402_payment h.payment h.facilitator r (payload paid) in
        Yields-bind (PaidFor w.asked) (on_facilitator process) _ w (λ o e.
          Yields-map (Only (Accepts o (record w { asked = (process w.asked).1 }))) (PaidFor w.asked)
            _
            (λ response t f status.
              let (allowed, (fulfilled, same)) = f status in
              record {
                requirement = r;
                built = built;
                input = payload paid;
                paid = rw same (
                    process-granted h.payment h.facilitator r (payload paid) w.asked
                      (allows-granted h.payment (process w.asked).0 o e allowed));
                o = o;
                processed = e;
                allowed = allowed;
                fulfilled = fulfilled;
              })
            (after_payment-Yields challenge o (record w { asked = (process w.asked).1 })))

    pub ask_payment-Yields :
        (r : PaymentRequirement) (challenge : String) (header : Option String) (w : World)
        → build_retail_payment_requirement h.payment p.resource_type
            (resource_uri_of p)
            (some config.settlement_wallet)
            none
          ≡ ok r
        → Yields (PaidFor w.asked) (ask_payment h config at elapsed p r challenge header w)
    unfolding ask_payment
    ask_payment-Yields r challenge none w built = error-Only _ 402 _ _ w refl
    ask_payment-Yields r challenge (some header) w built =
        Yields-if (PaidFor w.asked) (header == "") _ _ w (λ _. error-Only _ 402 _ _ w refl)
          (λ _. pay-Yields r challenge (h.decode_payment header) w built)
