-- ===== src/Payment/Terms.antt =====
-- The terms of a requirement that `build_retail_payment_requirement` of retail_context/x402_payment.py
-- builds, written out.
use sharpe_nova_os.Prelude.{
  ◌≡◌, refl, ◌⊎◌, inl, inr, true, false, Option, none, some, String, arith, ◌==◌, eq_iff,
  Bool-cases,
}
use sharpe_nova_os.Exec.{ok}
use sharpe_nova_os.Text.{strip}
use sharpe_nova_os.Payment.Types.{PaymentRequirement, PaymentHost}
use sharpe_nova_os.Payment.Requirement.{
  Price, catalog_price, requirement_id, validate_retail_payment_requirement, priced, identified,
  validated, settlement_wallet_of, requirement_for, build_retail_payment_requirement,
}

-- The two prices, in atomic units of USDC and as they are displayed.
pub record CostsOf (resource_type amount display : String) : Type 0 where
  pub known :
      ((resource_type ≡ "state_ping") × (amount ≡ "2000") × (display ≡ "0.002"))
      ⊎ ((resource_type ≡ "context_delta") × (amount ≡ "20000") × (display ≡ "0.02"))

-- What the payer is asked for.
pub record HasTerms (r : PaymentRequirement) : Type 0 where
  pub version : r.x402_version ≡ 2
  pub scheme : r.scheme ≡ "exact"
  pub network : r.network ≡ "eip155:8453"
  pub asset : r.asset ≡ "0x833589fCD6eDb6E08f4c7C32D4f71b54bdA02913"
  pub timeout : r.max_timeout_seconds ≡ 60
  pub model : r.pricing_model ≡ "pay_per_context_resource"
  pub authority : r.authority_effect ≡ "none"
  pub access : r.access_effect ≡ "context_resource_access_only"
  pub displayed_network : r.display_network ≡ "base"
  pub displayed_asset : r.display_asset ≡ "USDC"
  pub decimals : r.asset_decimals ≡ 6

pub record IsRequirementFor (h : PaymentHost) (resource_type resource_uri : String)
    (wallet env : Option String) (r : PaymentRequirement) : Type 0 where
  pub of_type : r.resource_type ≡ resource_type
  pub of_uri : r.resource_uri ≡ strip resource_uri
  pub uri_named : (r.resource_uri == "") ≡ false
  pub payee : String
  pub chosen : (wallet ≡ some payee) ⊎ ((wallet ≡ none) × (env ≡ some payee))
  pub paid_to : r.settlement_wallet ≡ strip payee
  pub payee_named : (r.settlement_wallet == "") ≡ false
  pub costs : CostsOf resource_type r.amount_atomic r.display_price_usdc
  pub terms : HasTerms r
  pub accepted : h.valid_requirement r ≡ true
  pub identity : r.payment_requirement_id ≡ requirement_id h r

catalog_price-CostsOf :
    (resource_type : String) (price : Price)
    → catalog_price resource_type ≡ some price
    → CostsOf resource_type price.amount_atomic price.display_price_usdc
unfolding catalog_price
catalog_price-CostsOf resource_type price e = elim (Bool-cases (resource_type == "state_ping")) [
  | inl ping ↦ record {
    known = inl (
      ground (arith, eq_iff resource_type "state_ping"),
      ground (arith, ping, e),
      ground (arith, ping, e),
    );
  }
  | inr other ↦ elim (Bool-cases (resource_type == "context_delta")) [
    | inl delta ↦ record {
      known = inr (
        ground (arith, eq_iff resource_type "context_delta"),
        ground (arith, other, delta, e),
        ground (arith, other, delta, e),
      );
    }
    | inr neither ↦ absurd (ground (arith, other, neither, e))
  ]
]

settlement_wallet_of-chosen :
    (h : PaymentHost) (wallet env : Option String) (payee : String)
    → settlement_wallet_of h wallet env ≡ some payee
    → (wallet ≡ some payee) ⊎ ((wallet ≡ none) × (env ≡ some payee))
unfolding settlement_wallet_of
settlement_wallet_of-chosen h (some wallet) env payee e = inl e
settlement_wallet_of-chosen h none env payee e = inr (refl, e)

module _ (h : PaymentHost) where
  validated-same :
      (x r : PaymentRequirement)
      → validated h x ≡ ok r
      → (x ≡ r) × (h.valid_requirement x ≡ true) × (x.payment_requirement_id ≡ requirement_id h x)
  unfolding validated validate_retail_payment_requirement
  validated-same x r e = elim (Bool-cases (h.valid_requirement x)) [
    | inl valid ↦ elim (Bool-cases (x.payment_requirement_id == requirement_id h x)) [
      | inl own ↦ (
        ground (arith, valid, own, e),
        valid,
        ground (arith, own, eq_iff x.payment_requirement_id (requirement_id h x)),
      )
      | inr other ↦ absurd (ground (arith, valid, other, e))
    ]
    | inr refused ↦ absurd (ground (arith, refused, e))
  ]

  requirement_for-IsRequirementFor :
      (resource_type resource_uri : String) (wallet env : Option String) (r : PaymentRequirement)
      (price : Option Price) (payee : Option String)
      → catalog_price resource_type ≡ price
      → settlement_wallet_of h wallet env ≡ payee
      → requirement_for h resource_type resource_uri price payee ≡ ok r
      → IsRequirementFor h resource_type resource_uri wallet env r
  unfolding requirement_for
  requirement_for-IsRequirementFor resource_type resource_uri wallet env r none payee listed chosen
        e =
      cc
  requirement_for-IsRequirementFor resource_type resource_uri wallet env r (some price) none listed
        chosen e =
      absurd (ground (arith, e))
  requirement_for-IsRequirementFor resource_type resource_uri wallet env r (some price) (some payee)
        listed chosen e =
      elim (Bool-cases (strip resource_uri == "")) [
        | inl blank ↦ absurd (ground (arith, blank, e))
        | inr named ↦ elim (Bool-cases (strip payee == "")) [
          | inl blank ↦ absurd (ground (arith, named, blank, e))
          | inr payable ↦
              let (same, valid, own) =
                validated-same
                  (identified h (priced h price resource_type (strip resource_uri) (strip payee))) r
                  (ground (arith, named, payable, e)) in
              rw (← same) (record {
                of_type = refl;
                of_uri = refl;
                uri_named = named;
                payee = payee;
                chosen = settlement_wallet_of-chosen h wallet env payee chosen;
                paid_to = refl;
                payee_named = payable;
                costs = catalog_price-CostsOf resource_type price listed;
                terms = record {
                  version = refl;
                  scheme = refl;
                  network = refl;
                  asset = refl;
                  timeout = refl;
                  model = refl;
                  authority = refl;
                  access = refl;
                  displayed_network = refl;
                  displayed_asset = refl;
                  decimals = refl;
                };
                accepted = valid;
                identity = own;
              })
        ]
      ]

  -- A requirement that was built is for the given resource type and the stripped URI, is paid to the
  -- stripped wallet that was given, or else to the environment's, costs 2000 atomic units for a state
  -- ping and 20000 for a context delta, has the fixed terms of payment (the `exact` scheme for USDC on
  -- Base, a timeout of 60 seconds, no authority), carries its own identifier and passes the schema.
  pub build-IsRequirementFor :
      (resource_type resource_uri : String) (wallet env : Option String) (r : PaymentRequirement)
      → build_retail_payment_requirement h resource_type resource_uri wallet env ≡ ok r
      → IsRequirementFor h resource_type resource_uri wallet env r
  unfolding build_retail_payment_requirement
  build-IsRequirementFor resource_type resource_uri wallet env r e =
      requirement_for-IsRequirementFor resource_type resource_uri wallet env r _ _ refl refl e
