-- ===== src/Payment/Access.antt =====
-- `payment_receipt_allows_resource_access` of retail_context/x402_payment.py.
use sharpe_nova_os.Prelude.{Bool, true, false, not, ◌&&◌, Option, none, some, [], ◌∷◌, String, ◌==◌}
use sharpe_nova_os.Text.Json.{str, opt_str}
use sharpe_nova_os.Telemetry.{stable_operational_id}
use sharpe_nova_os.Payment.Types.{
  PaymentRequirement, PaymentReceipt, PaymentOutcome, outcome, other_mapping, PaymentHost,
}
use sharpe_nova_os.Payment.Requirement.{
  Price, x402_version_2, max_timeout, access_effect_name, catalog_price, requirement_id,
}

-- `bool(text)`
abbrev pub is_truthy : Option String → Bool
is_truthy none = false
is_truthy (some s) = not (s == "")

abbrev pub is_none : Option String → Bool
is_none none = true
is_none (some _) = false

unfoldable pub receipt_is_permitted : PaymentReceipt → Bool
receipt_is_permitted r =
    r.payment_verification_status == "verified"
    && r.settlement_status == "settled"
    && r.access_status == "permitted"
    && r.authority_effect == "none"
    && r.access_effect == access_effect_name
    && is_none r.failure_reason
    && is_truthy r.transaction_reference

-- The fields of the requirement that a receipt names; the others are not part of its identity.
abbrev pub requirement_of_receipt : PaymentReceipt → PaymentRequirement
requirement_of_receipt r = record {
  payment_requirement_id = "";
  x402_version = x402_version_2;
  scheme = "exact";
  network = r.network;
  asset = r.asset;
  amount_atomic = r.amount_atomic;
  settlement_wallet = r.settlement_wallet;
  max_timeout_seconds = max_timeout;
  resource_type = r.resource_type;
  resource_uri = r.resource_uri;
  pricing_model = r.pricing_model;
  authority_effect = r.authority_effect;
  access_effect = r.access_effect;
  display_network = "";
  display_asset = "";
  asset_decimals = 6;
  display_price_usdc = "";
}

unfoldable pub price_matches : Option Price → PaymentReceipt → Bool
price_matches none r = false
price_matches (some p) r = p.amount_atomic == r.amount_atomic

module _ (h : PaymentHost) where
  unfoldable pub expected_receipt_id : PaymentReceipt → String
  expected_receipt_id r = stable_operational_id h.sha256 "payment-receipt" (
      str (requirement_id h (requirement_of_receipt r))
      ∷ opt_str r.transaction_reference
      ∷ opt_str r.payer
      ∷ str r.network
      ∷ str r.amount_atomic
      ∷ [])

  unfoldable pub payment_receipt_allows_resource_access : PaymentOutcome → Bool
  payment_receipt_allows_resource_access (other_mapping r) = false
  payment_receipt_allows_resource_access (outcome r capability) =
      capability
      && h.valid_receipt r
      && receipt_is_permitted r
      && price_matches (catalog_price r.resource_type) r
      && r.payment_requirement_id == requirement_id h (requirement_of_receipt r)
      && r.payment_receipt_id == expected_receipt_id r
