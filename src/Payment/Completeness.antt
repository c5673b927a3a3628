-- ===== src/Payment/Completeness.antt =====
-- A payment that is settled for a requirement of the catalogue reaches its resource
-- (retail_context/x402_payment.py).
use mathlib.Core.Path.{subst}
use sharpe_nova_os.Prelude.{
  ◌≡◌, refl, sym, true, false, Option, none, some, String, arith, ◌==◌, eq_refl, opt_eq_refl,
}
use sharpe_nova_os.Exec.{Result, ok, err, ◌>>=◌}
use sharpe_nova_os.Text.{strip}
use sharpe_nova_os.Payment.Types.{
  PaymentRequirement, PaymentPayload, PaymentInput, VerifyResponse, RawSettlement, Facilitator,
  PaymentOutcome, outcome, PaymentHost,
}
use sharpe_nova_os.Payment.Requirement.{
  Price, catalog_price, requirement_id, identity_fields, validate_retail_payment_requirement,
  priced, identified, validated, requirement_for, build_retail_payment_requirement,
  upstream_requirements,
}
use sharpe_nova_os.Payment.Process.{
  Log, ask, or_else, parse_payload, payload_matches_requirement, issue, settled_receipt,
  reconcile_reference, reconcile_transaction, reconcile, settle_verified, after_verify,
  process_payload, process_retail_x402_payment,
}
use sharpe_nova_os.Payment.Access.{
  receipt_is_permitted, price_matches, expected_receipt_id, payment_receipt_allows_resource_access,
}

-- A requirement as `build_retail_payment_requirement` makes it.
pub record FromCatalog (h : PaymentHost) (r : PaymentRequirement) : Type 0 where
  pub price : Price
  pub resource_type : String
  pub resource_uri : String
  pub wallet : String
  pub listed : catalog_price resource_type ≡ some price
  pub shape : r ≡ identified h (priced h price resource_type resource_uri wallet)
  pub valid : validate_retail_payment_requirement h r ≡ ok tt

module _ (h : PaymentHost) where
  validated-FromCatalog :
      (price : Price) (resource_type resource_uri wallet : String) (r : PaymentRequirement)
      → catalog_price resource_type ≡ some price
      → validated h (identified h (priced h price resource_type resource_uri wallet)) ≡ ok r
      → FromCatalog h r
  unfolding validated
  validated-FromCatalog price resource_type resource_uri wallet r listed e =
      let built = identified h (priced h price resource_type resource_uri wallet) in
      split (validate_retail_payment_requirement h built) refl e
    where
      split :
          (v : Result Unit)
          → validate_retail_payment_requirement h
              (identified h (priced h price resource_type resource_uri wallet))
            ≡ v
          → (elim v as (λ _. Result PaymentRequirement) [
            | ok _ ↦ ok (identified h (priced h price resource_type resource_uri wallet))
            | err x ↦ err x
          ])
            ≡ ok r
          → FromCatalog h r
      split (ok _) valid e =
          let same : identified h (priced h price resource_type resource_uri wallet) ≡ r = cc in
          record {
            price = price;
            resource_type = resource_type;
            resource_uri = resource_uri;
            wallet = wallet;
            listed = listed;
            shape = sym same;
            valid =
                subst (λ (k : PaymentRequirement). validate_retail_payment_requirement h k ≡ ok tt)
                  same valid;
          }
      split (err x) valid e = cc

  requirement_for-FromCatalog :
      (resource_type resource_uri : String) (price : Option Price) (wallet : Option String)
      (r : PaymentRequirement)
      → catalog_price resource_type ≡ price
      → requirement_for h resource_type resource_uri price wallet ≡ ok r
      → FromCatalog h r
  unfolding requirement_for
  requirement_for-FromCatalog resource_type resource_uri none wallet r listed e = cc
  requirement_for-FromCatalog resource_type resource_uri (some price) none r listed e = ground arith
  requirement_for-FromCatalog resource_type resource_uri (some price) (some wallet) r listed e =
      validated-FromCatalog price resource_type (strip resource_uri) (strip wallet) r listed
        (ground arith)

  -- A requirement that was built has the catalogue's price of its resource, the fixed terms of payment
  -- and its own identifier, and passes its validation.
  pub build-FromCatalog :
      (resource_type resource_uri : String) (wallet env : Option String) (r : PaymentRequirement)
      → build_retail_payment_requirement h resource_type resource_uri wallet env ≡ ok r
      → FromCatalog h r
  unfolding build_retail_payment_requirement
  build-FromCatalog resource_type resource_uri wallet env r e =
      requirement_for-FromCatalog resource_type resource_uri _ _ r refl e

  listed_receipt-allows :
      (price : Price) (resource_type resource_uri wallet : String) (payer : Option String)
      (reference : String)
      → catalog_price resource_type ≡ some price
      → (reference == "") ≡ false
      → let r = identified h (priced h price resource_type resource_uri wallet) in
        h.valid_receipt (settled_receipt h r payer reference) ≡ true
        → payment_receipt_allows_resource_access h
            (outcome (settled_receipt h r payer reference) true)
          ≡ true
  unfolding payment_receipt_allows_resource_access receipt_is_permitted price_matches
      settled_receipt expected_receipt_id requirement_id identity_fields
  listed_receipt-allows price resource_type resource_uri wallet payer reference listed nonempty
        accepted =
      rw (accepted, nonempty, listed) (simp eq_refl)

  -- The receipt of a settled payment passes the test of access.
  settled_receipt-allows :
      (r : PaymentRequirement) (payer : Option String) (reference : String)
      → FromCatalog h r
      → (reference == "") ≡ false
      → h.valid_receipt (settled_receipt h r payer reference) ≡ true
      → payment_receipt_allows_resource_access h
          (outcome (settled_receipt h r payer reference) true)
        ≡ true
  settled_receipt-allows r payer reference c nonempty = rw c.shape (
      listed_receipt-allows c.price c.resource_type c.resource_uri c.wallet payer reference c.listed
        nonempty)

-- The facilitator and the payer did their part for this requirement.
pub record IsSettledBy (f : Facilitator) (r : PaymentRequirement) (p : PaymentPayload)
    (v : VerifyResponse) (s : RawSettlement) (transaction : String) : Type 0 where
  pub matches : payload_matches_requirement p r ≡ true
  pub verified : f.verify p (upstream_requirements r) ≡ some v
  pub valid : v.is_valid ≡ true
  pub settled : f.settle p (upstream_requirements r) ≡ some s
  pub success : s.success ≡ true
  pub reference : s.transaction ≡ some transaction
  pub named : (strip transaction == "") ≡ false
  pub network : s.network ≡ some r.network
  pub amount : s.amount ≡ some r.amount_atomic

module _ (h : PaymentHost) (f : Facilitator) (r : PaymentRequirement) where
  settled_outcome :
      (p : PaymentPayload) (v : VerifyResponse) (s : RawSettlement) (transaction : String)
      (input : PaymentInput) (log : Log)
      → validate_retail_payment_requirement h r ≡ ok tt
      → parse_payload input ≡ ok p
      → IsSettledBy f r p v s transaction
      → h.valid_receipt (settled_receipt h r (or_else s.payer v.payer) (strip transaction)) ≡ true
      → (process_retail_x402_payment h f r input log).0
        ≡ ok (outcome (settled_receipt h r (or_else s.payer v.payer) (strip transaction)) true)
  unfolding process_retail_x402_payment process_payload after_verify settle_verified reconcile
      reconcile_transaction reconcile_reference issue ask ◌>>=◌
  settled_outcome p v s transaction input log valid parses done accepted =
      ground (arith, opt_eq_refl s.network, opt_eq_refl s.amount)

  -- For a requirement of the catalogue, a payload that matches it, a valid verification and a
  -- successful settlement with a transaction on the network and amount of the requirement give an
  -- outcome that may reach the resource, provided that the schema accepts its receipt.
  pub process-allows :
      (p : PaymentPayload) (v : VerifyResponse) (s : RawSettlement) (transaction : String)
      (input : PaymentInput) (log : Log)
      → FromCatalog h r
      → parse_payload input ≡ ok p
      → IsSettledBy f r p v s transaction
      → h.valid_receipt (settled_receipt h r (or_else s.payer v.payer) (strip transaction)) ≡ true
      → (out : PaymentOutcome) × ((process_retail_x402_payment h f r input log).0 ≡ ok out)
        × (payment_receipt_allows_resource_access h out ≡ true)
  process-allows p v s transaction input log c parses done accepted = (
    outcome (settled_receipt h r (or_else s.payer v.payer) (strip transaction)) true,
    settled_outcome p v s transaction input log c.valid parses done accepted,
    settled_receipt-allows h r (or_else s.payer v.payer) (strip transaction) c done.named accepted,
  )
