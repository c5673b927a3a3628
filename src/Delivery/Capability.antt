-- ===== src/Delivery/Capability.antt =====
-- What a delivery capability rests on: `claim_or_resume_retail_delivery` of
-- retail_context/runtime_delivery.py, and how it changes the store.
use sharpe_nova_os.Prelude.{
  ◌≡◌, refl, true, not, Option, none, some, String, ◌==◌, opt_eq, arith, one_of, [], ◌∷◌,
}
use sharpe_nova_os.Exec.{ok, Exec, pure, attempt, ◌>>=◌}
use sharpe_nova_os.Exec.Evolve.{Evolves, evolve_rules}
use sharpe_nova_os.Exec.Yields.{
  Yields, Yields-ok, Yields-raise, Yields-if, Yields-unless, Yields-attempt, Yields-bind,
  Yields-raise_if, Yields-map,
}
use sharpe_nova_os.Payment.Types.{PaymentReceipt, PaymentOutcome, receipt_of}
use sharpe_nova_os.Payment.Access.{payment_receipt_allows_resource_access}
use sharpe_nova_os.Store.Db.{Db, PaymentRow, connection, require_table}
use sharpe_nova_os.Store.Claims.{find_settlement, get_payment_claim_by_settlement}
use sharpe_nova_os.Store.Methods.{Writes, get_payment_claim_by_settlement-Evolves}
use sharpe_nova_os.Controls.Types.{DeliveryOutcome, ControlHost}
use sharpe_nova_os.Controls.Claiming.{
  reference_text, claim_settled_payment_for_delivery, delivery_outcome_allows_resource_delivery,
}
use sharpe_nova_os.Controls.Evolution.{claim_settled-Evolves}
use sharpe_nova_os.Controls.Grants.{OnLedger, IsGranted, claim_settled-Grants}
use sharpe_nova_os.Delivery.{
  PreparedRequest, RuntimeCapability, claim_matches_outcome, unavailable, resume_claim,
  resume_consumed, after_initial, claim_or_resume_retail_delivery, capability_of,
}

module _ {R : Db → Db → Type 0} (allow : Writes R) (h : ControlHost) where
  resume_claim-Evolves :
      (r : PaymentReceipt) (p : PreparedRequest) (o : Option PaymentRow)
      → Evolves R (resume_claim r p o)
  unfolding resume_claim
  resume_claim-Evolves r p none = search (evolve_rules, allow.db.order)
  resume_claim-Evolves r p (some c) = search (evolve_rules, allow.db.order)

  resume_consumed-Evolves :
      (r : PaymentReceipt) (p : PreparedRequest) (reason : Option String)
      → Evolves R (resume_consumed r p reason)
  unfolding resume_consumed unavailable
  resume_consumed-Evolves r p reason =
      search
        (
          evolve_rules,
          allow.db.order,
          get_payment_claim_by_settlement-Evolves allow,
          resume_claim-Evolves,
        )
        depth 9

  after_initial-Evolves :
      (r : PaymentReceipt) (p : PreparedRequest) (o : DeliveryOutcome)
      → Evolves R (after_initial h r p o)
  unfolding after_initial
  after_initial-Evolves r p o = search (evolve_rules, allow.db.order, resume_consumed-Evolves)

  pub claim_or_resume-Evolves :
      (payment : PaymentOutcome) (p : PreparedRequest) (at : String)
      → Evolves R (claim_or_resume_retail_delivery h payment p at)
  unfolding claim_or_resume_retail_delivery unavailable
  claim_or_resume-Evolves payment p at =
      search (evolve_rules, allow.db.order, claim_settled-Evolves allow h, after_initial-Evolves)
        depth 14

-- The settlement's row stands in the payments table, under the claim of the capability.
abbrev pub Holds : PaymentReceipt → RuntimeCapability → Db → Type 0
Holds r c s = OnLedger r.network (reference_text r.transaction_reference) c.claim_id s.payments

abbrev lookup_settlement : String → String → Exec Db (Option PaymentRow)
lookup_settlement network reference =
    attempt (get_payment_claim_by_settlement network reference) unavailable

read_settlement :
    (network reference : String) (s : Db) (o : Option PaymentRow)
    → (lookup_settlement network reference s).0 ≡ ok o
    → find_settlement network reference (lookup_settlement network reference s).1.payments ≡ o
unfolding attempt get_payment_claim_by_settlement connection require_table unavailable ◌>>=◌
read_settlement network reference s o e = ground arith

module _ (h : ControlHost) (r : PaymentReceipt) (p : PreparedRequest) where
  resume_claim-Holds :
      (o : Option PaymentRow) (s : Db)
      → find_settlement r.network (reference_text r.transaction_reference) s.payments ≡ o
      → Yields (Holds r) (resume_claim r p o s)
  unfolding resume_claim pure
  resume_claim-Holds none s found = Yields-raise (Holds r) _ s
  resume_claim-Holds (some c) s found =
      Yields-unless (Holds r) (claim_matches_outcome c r p) _ _ s (λ _. Yields-raise (Holds r) _ s)
        (λ _.
          Yields-if (Holds r) (c.delivery_status == "failed") _ _ s
            (λ _. Yields-raise (Holds r) _ s)
            (λ _.
              Yields-unless (Holds r) (one_of c.delivery_status ("pending" ∷ "delivered" ∷ [])) _
                (pure (capability_of p c.claim_id c.delivery_status c.payment_receipt_id)) s
                (λ _. Yields-raise (Holds r) _ s)
                (λ _. record { row = c; found = found; same = refl })))

  resume_consumed-Holds :
      (reason : Option String) (s : Db) → Yields (Holds r) (resume_consumed r p reason s)
  unfolding resume_consumed
  resume_consumed-Holds reason s =
      let lookup = lookup_settlement r.network (reference_text r.transaction_reference) in
      Yields-unless (Holds r) (opt_eq reason (some "payment_already_consumed")) _ _ s
        (λ _. Yields-raise (Holds r) _ s)
        (λ _. Yields-bind (Holds r) lookup (resume_claim r p) s (λ o e.
          resume_claim-Holds o (lookup s).1
            (read_settlement r.network (reference_text r.transaction_reference) s o e)))

  granted-capability :
      (o : DeliveryOutcome)
      → delivery_outcome_allows_resource_delivery h o ≡ true
      → o.capability ≡ true
  unfolding delivery_outcome_allows_resource_delivery
  granted-capability o e = ground arith

  after_initial-Holds :
      (o : DeliveryOutcome) (before : Db) (s : Db)
      → (o.capability ≡ true → IsGranted r o before.payments s.payments)
      → Yields (Holds r) (after_initial h r p o s)
  unfolding after_initial pure
  after_initial-Holds o before s granted =
      Yields-if (Holds r) (delivery_outcome_allows_resource_delivery h o)
        (pure
          (capability_of p (reference_text o.body.claim_id) "pending" o.body.payment_receipt_id))
        _ s (λ allows. (granted (granted-capability o allows)).ledger)
        (λ _. resume_consumed-Holds _ s)

module _ (h : ControlHost) (payment : PaymentOutcome) (p : PreparedRequest) (at : String) where
  initial-IsGranted :
      (db : Db)
      → Yields
          (λ o s. o.capability ≡ true → IsGranted (receipt_of payment) o db.payments s.payments)
          (attempt (claim_settled_payment_for_delivery h payment p.request_id at) unavailable db)
  unfolding unavailable
  initial-IsGranted db =
      let m = claim_settled_payment_for_delivery h payment p.request_id at in
      Yields-attempt _ m _ db
        (Yields-map _ _ (m db) (λ o s g c. (g c).1)
          (claim_settled-Grants h payment p.request_id at db))
        (λ e. Yields-raise _ _ _)

  pub claim_or_resume-Yields :
      (db : Db)
      → Yields
          (λ c s.
            (payment_receipt_allows_resource_access h.payment payment ≡ true)
            × Holds (receipt_of payment) c s)
          (claim_or_resume_retail_delivery h payment p at db)
  unfolding claim_or_resume_retail_delivery
  claim_or_resume-Yields db =
      let initial =
        attempt (claim_settled_payment_for_delivery h payment p.request_id at) unavailable in
      Yields-raise_if _ (not (payment_receipt_allows_resource_access h.payment payment)) _ _ db
        (λ allowed.
          Yields-raise_if _ (not ((receipt_of payment).resource_type == p.resource_type)) _ _ db
            (λ _.
              Yields-raise_if _ (not ((receipt_of payment).resource_uri == p.resource_uri)) _ _ db
                (λ _. Yields-bind _ initial _ db (λ o e.
                  Yields-map (Holds (receipt_of payment)) _ _ (λ c s held. (ground arith, held))
                    (after_initial-Holds h (receipt_of payment) p o db (initial db).1
                      (Yields-ok _ (initial db) o (initial-IsGranted db) e))))))
