-- ===== src/Payment/Requirement.antt =====
-- Payment requirements: `build_retail_payment_requirement`, `validate_retail_payment_requirement`,
-- `_requirement_identity_fields` and `_upstream_requirements` of retail_context/x402_payment.py.
use sharpe_nova_os.Prelude.{ℕ, not, Option, none, some, [], ◌∷◌, String, ◌==◌, if◌then◌else◌, pos}
use sharpe_nova_os.Exec.{Result, ok, err, value_error, validation_error}
use sharpe_nova_os.Text.{strip}
use sharpe_nova_os.Text.Json.{Json, int, str, obj, end, field}
use sharpe_nova_os.Telemetry.{stable_operational_id}
use sharpe_nova_os.Payment.Types.{
  PaymentRequirement, NovaMetadata, PaymentRequirements, PaymentHost,
}

abbrev pub x402_version_2 : ℕ
x402_version_2 = 2

abbrev pub payment_scheme : String
payment_scheme = "exact"

abbrev pub payment_network : String
payment_network = "eip155:8453"

abbrev pub payment_asset : String
payment_asset = "0x833589fCD6eDb6E08f4c7C32D4f71b54bdA02913"

abbrev pub max_timeout : ℕ
max_timeout = 60

abbrev pub pricing_model_name : String
pricing_model_name = "pay_per_context_resource"

abbrev pub access_effect_name : String
access_effect_name = "context_resource_access_only"

pub record Price : Type 0 where
  pub display_price_usdc : String
  pub amount_atomic : String

-- `RETAIL_RESOURCE_PRICE_CATALOG.get`
unfoldable pub catalog_price : String → Option Price
catalog_price resource_type =
    if resource_type == "state_ping"
    then some (record { display_price_usdc = "0.002"; amount_atomic = "2000" })
    else if resource_type == "context_delta"
    then some (record { display_price_usdc = "0.02"; amount_atomic = "20000" })
    else none

-- `_requirement_identity_fields`
unfoldable pub identity_fields : PaymentRequirement → Json
identity_fields r = obj (
    field "x402_version" (int (pos r.x402_version)) (
      field "scheme" (str r.scheme) (
        field "network" (str r.network) (
          field "asset" (str r.asset) (
            field "amount_atomic" (str r.amount_atomic) (
              field "settlement_wallet" (str r.settlement_wallet) (
                field "max_timeout_seconds" (int (pos r.max_timeout_seconds)) (
                  field "resource_type" (str r.resource_type) (
                    field "resource_uri" (str r.resource_uri) (
                      field "pricing_model" (str r.pricing_model) (
                        field "authority_effect" (str r.authority_effect)
                          (field "access_effect" (str r.access_effect) end))))))))))))

module _ (h : PaymentHost) where
  unfoldable pub requirement_id : PaymentRequirement → String
  requirement_id r = stable_operational_id h.sha256 "payment-requirement" (identity_fields r ∷ [])

  unfoldable pub validate_retail_payment_requirement : PaymentRequirement → Result (Unit {0})
  validate_retail_payment_requirement r =
      if not (h.valid_requirement r)
      then err validation_error
      else if r.payment_requirement_id == requirement_id r
      then ok tt
      else err (value_error "invalid_payment_requirement")

  -- The requirement before its identifier is filled in.
  abbrev pub priced : Price → String → String → String → PaymentRequirement
  priced price resource_type resource_uri pay_to = record {
    payment_requirement_id = "";
    x402_version = x402_version_2;
    scheme = payment_scheme;
    network = payment_network;
    asset = payment_asset;
    amount_atomic = price.amount_atomic;
    settlement_wallet = pay_to;
    max_timeout_seconds = max_timeout;
    resource_type = resource_type;
    resource_uri = resource_uri;
    pricing_model = pricing_model_name;
    authority_effect = "none";
    access_effect = access_effect_name;
    display_network = "base";
    display_asset = "USDC";
    asset_decimals = 6;
    display_price_usdc = price.display_price_usdc;
  }

  abbrev pub identified : PaymentRequirement → PaymentRequirement
  identified r = record r { payment_requirement_id = requirement_id r }

  unfoldable pub validated : PaymentRequirement → Result PaymentRequirement
  validated r = elim (validate_retail_payment_requirement r) [ ok _ ↦ ok r | err e ↦ err e ]

  -- `_settlement_wallet`: the argument, or else the environment's entry.
  unfoldable pub settlement_wallet_of : Option String → Option String → Option String
  settlement_wallet_of (some wallet) env = some wallet
  settlement_wallet_of none env = env

  unfoldable pub requirement_for :
      String → String → Option Price → Option String → Result PaymentRequirement
  requirement_for resource_type resource_uri none wallet = err (value_error "resource_not_payable")
  requirement_for resource_type resource_uri (some price) none =
      if strip resource_uri == ""
      then err (value_error "resource_not_payable")
      else err (value_error "settlement_wallet_not_configured")
  requirement_for resource_type resource_uri (some price) (some wallet) =
      if strip resource_uri == ""
      then err (value_error "resource_not_payable")
      else if strip wallet == ""
      then err (value_error "settlement_wallet_not_configured")
      else validated (identified (priced price resource_type (strip resource_uri) (strip wallet)))

  unfoldable pub build_retail_payment_requirement :
      String → String → Option String → Option String → Result PaymentRequirement
  build_retail_payment_requirement resource_type resource_uri wallet env =
      requirement_for resource_type resource_uri (catalog_price resource_type)
        (settlement_wallet_of wallet env)

abbrev pub nova_of : PaymentRequirement → NovaMetadata
nova_of r = record {
  payment_requirement_id = r.payment_requirement_id;
  resource_type = r.resource_type;
  resource_uri = r.resource_uri;
  pricing_model = pricing_model_name;
  authority_effect = "none";
  access_effect = access_effect_name;
}

-- `_upstream_requirements`, of a requirement that was validated.
abbrev pub upstream_requirements : PaymentRequirement → PaymentRequirements
upstream_requirements r = record {
  scheme = r.scheme;
  network = r.network;
  asset = r.asset;
  amount = r.amount_atomic;
  pay_to = r.settlement_wallet;
  max_timeout_seconds = r.max_timeout_seconds;
  extra = some (nova_of r);
}
