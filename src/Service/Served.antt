-- ===== src/Service/Served.antt =====
-- What a response of 200 of the service (retail_context/service.py) rests on: the whole way of a paid
-- request.
use mathlib.Core.Path.{subst}
use sharpe_nova_os.Prelude.{
  ℕ, ◌≡◌, refl, sym, ap, ◌∙◌, ◌≤◌, Bool, true, ◌||◌, Option, none, some, String, arith, eqb, ltb,
}
use sharpe_nova_os.Exec.{ok, attempt}
use sharpe_nova_os.Exec.Evolve.{Evolves-attempt, Evolves-pure}
use sharpe_nova_os.Exec.Yields.{
  Yields, Yields-ok, Yields-if, Yields-unless, Yields-bind, Yields-lift, Yields-map,
}
use sharpe_nova_os.Payment.Requirement.{build_retail_payment_requirement}
use sharpe_nova_os.Payment.Challenge.{build_retail_payment_challenge}
use sharpe_nova_os.Payment.Process.{Log}
use sharpe_nova_os.Payment.Access.{is_truthy}
use sharpe_nova_os.Service.World.{World}
use sharpe_nova_os.Service.Request.{
  PreparedRetailRequest, RuntimeConfig, HttpRequest, Response, ServiceHost, compare_digest,
  resource_uri_of, request_id_of,
}
use sharpe_nova_os.Service.Admission.{ensure_runtime_admission}
use sharpe_nova_os.Service.Handler.{
  admission_error_status, token_matches, after_admitted, admission_unavailable, handle_prepared,
  handle_digest, handle_body, handle_allowed, handle_paid_resource,
}
use sharpe_nova_os.Service.Paid.{IsPaidFor, Only, error-Only, PaidFor, ask_payment-Yields}
use sharpe_nova_os.Service.Evolution.{same_log, order, ensure-Moves}

-- The way of a request that is answered by 200.
pub record IsServed (h : ServiceHost) (config : RuntimeConfig) (q : HttpRequest) (kind : String)
    (r : Response) (before after : World) : Type 0 where
  pub token : token_matches config.controlled_proof_access_token q.proof_token ≡ ok true
  pub size : q.body_bytes ≤ config.max_request_bytes
  pub p : PreparedRetailRequest
  pub prepared : h.prepare kind q.body ≡ some p
  pub digest : compare_digest q.request_digest p.request_digest ≡ ok true
  pub paid_for : IsPaidFor h config p r before.asked after

module _ (h : ServiceHost) (config : RuntimeConfig) (at : String) (elapsed : ℕ) where
  module _ (p : PreparedRetailRequest) where
    after_admitted-Yields :
        (header failure : Option String) (w : World)
        → Yields
            (PaidFor h config at elapsed p w.asked)
            (after_admitted h config at elapsed p header failure w)
    unfolding after_admitted admission_error_status
    after_admitted-Yields header (some reason) w =
        error-Only _ (admission_error_status reason) reason none w (ground arith)
    after_admitted-Yields header none w =
        Yields-lift (PaidFor h config at elapsed p w.asked)
          (build_retail_payment_requirement h.payment p.resource_type (resource_uri_of p)
            (some config.settlement_wallet) none)
          _ w
          (λ r built.
            Yields-lift (PaidFor h config at elapsed p w.asked)
              (build_retail_payment_challenge h.payment h.challenge r) _ w
              (λ c _.
                ask_payment-Yields h config at elapsed p r c.payment_required_header header w
                  built))

    handle_prepared-Yields :
        (header : Option String) (w : World)
        → Yields
            (PaidFor h config at elapsed p w.asked)
            (handle_prepared h config at elapsed p header w)
    unfolding handle_prepared admission_unavailable
    handle_prepared-Yields header w =
        let unavailable = admission_unavailable h config at elapsed p in
        let admit =
          attempt (ensure_runtime_admission h.control config p at (is_truthy header)) unavailable in
        let keeps =
          Evolves-attempt (order (request_id_of p) same_log) _ unavailable
            (ensure-Moves (request_id_of p) same_log h.control config p at (is_truthy header))
            (λ e. Evolves-pure (order (request_id_of p) same_log) _) in
        Yields-bind (PaidFor h config at elapsed p w.asked) admit _ w (λ failure _.
          subst
            (λ (log : Log).
              Yields (PaidFor h config at elapsed p log)
                (after_admitted h config at elapsed p header failure (admit w).1))
            (sym (keeps.at w).asked) (after_admitted-Yields header failure (admit w).1))

    handle_digest-Yields :
        (header : Option String) (same : Bool) (w : World)
        → Yields
            (Only (λ r t. (same ≡ true) × IsPaidFor h config p r w.asked t))
            (handle_digest h config at elapsed p header same w)
    unfolding handle_digest
    handle_digest-Yields header same w =
        Yields-unless _ same _ _ w (λ _. error-Only _ 400 _ none w refl)
          (λ yes_.
            Yields-map (PaidFor h config at elapsed p w.asked) _ _
              (λ r t f status. (yes_, f status)) (handle_prepared-Yields header w))

  module _ (q : HttpRequest) (kind : String) where
    -- What the body of a request adds.
    record IsPrepared (r : Response) (before after : World) : Type 0 where
      pub p : PreparedRetailRequest
      pub prepared : h.prepare kind q.body ≡ some p
      pub digest : compare_digest q.request_digest p.request_digest ≡ ok true
      pub paid_for : IsPaidFor h config p r before.asked after

    handle_body-Yields :
        (o : Option PreparedRetailRequest) (w : World)
        → h.prepare kind q.body ≡ o
        → Yields (Only (λ r t. IsPrepared r w t)) (handle_body h config at elapsed q o w)
    unfolding handle_body
    handle_body-Yields none w prepared = error-Only _ 400 _ none w refl
    handle_body-Yields (some p) w prepared =
        Yields-lift _ (compare_digest q.request_digest p.request_digest) _ w (λ same e.
          Yields-map (Only (λ r t. (same ≡ true) × IsPaidFor h config p r w.asked t))
            (Only (λ r t. IsPrepared r w t)) _
            (λ r t f status. record {
              p = p;
              prepared = prepared;
              digest = e ∙ ap ok (f status).0;
              paid_for = (f status).1;
            })
            (handle_digest-Yields p q.payment_header same w))

    handle_allowed-Yields :
        (allowed : Bool) (w : World)
        → Yields
            (Only (λ r t.
              (allowed ≡ true) × (q.body_bytes ≤ config.max_request_bytes) × IsPrepared r w t))
            (handle_allowed h config at elapsed q kind allowed w)
    unfolding handle_allowed
    handle_allowed-Yields allowed w =
        Yields-unless _ allowed _ _ w (λ _. error-Only _ 403 _ none w refl)
          (λ yes_.
            Yields-if _ (eqb q.body_bytes 0 || ltb config.max_request_bytes q.body_bytes) _ _ w
              (λ _. error-Only _ 400 _ none w refl)
              (λ fits.
                Yields-map (Only (λ r t. IsPrepared r w t)) _ _
                  (λ r t f status. (yes_, ground arith, f status))
                  (handle_body-Yields (h.prepare kind q.body) w refl)))

    handle-Yields :
        (w : World)
        → Yields
            (Only (λ r t. IsServed h config q kind r w t))
            (handle_paid_resource h config at elapsed q kind w)
    unfolding handle_paid_resource
    handle-Yields w =
        Yields-lift _ (token_matches config.controlled_proof_access_token q.proof_token) _ w
          (λ allowed e.
            Yields-map
              (Only (λ r t.
                (allowed ≡ true) × (q.body_bytes ≤ config.max_request_bytes) × IsPrepared r w t))
              (Only (λ r t. IsServed h config q kind r w t)) _
              (λ r t f status.
                let (yes_, size, made) = f status in
                record {
                  token = e ∙ ap ok yes_;
                  size = size;
                  p = made.p;
                  prepared = made.prepared;
                  digest = made.digest;
                  paid_for = made.paid_for;
                })
              (handle_allowed-Yields allowed w))

    -- A request that is answered by 200 carried the access token, a body within the size limit that
    -- was prepared into a resource request, and the digest of this resource request. Its payment
    -- was built for this resource, verified, settled and reconciled, and was accepted, the
    -- facilitator was asked for these two calls and no others, and the response is the delivered
    -- resource, whose settlement is on the ledger under the claim that is recorded as delivered
    -- with the response's digest.
    pub handle-IsServed :
        (w : World) (r : Response)
        → (handle_paid_resource h config at elapsed q kind w).0 ≡ ok r
        → r.status ≡ 200
        → IsServed h config q kind r w (handle_paid_resource h config at elapsed q kind w).1
    handle-IsServed w r e =
        Yields-ok (Only (λ r t. IsServed h config q kind r w t))
          (handle_paid_resource h config at elapsed q kind w) r (handle-Yields w) e
