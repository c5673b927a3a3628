-- ===== src/Tests/Payment.antt =====
-- Runs of the payment flow (retail_context/x402_payment.py).
use sharpe_nova_os.Prelude.{◌≡◌, refl, true, none, some, []}
use sharpe_nova_os.Exec.{ok, ◌>>=◌}
use sharpe_nova_os.Text.{strip}
use sharpe_nova_os.Telemetry.{stable_operational_id}
use sharpe_nova_os.Payment.Types.{
  PaymentRequirement, PaymentPayload, payload, VerifyResponse, RawSettlement, Facilitator,
  PaymentOutcome, PaymentHost,
}
use sharpe_nova_os.Payment.Requirement.{
  catalog_price, requirement_id, identity_fields, validate_retail_payment_requirement, validated,
  settlement_wallet_of, requirement_for, build_retail_payment_requirement, upstream_requirements,
  nova_of,
}
use sharpe_nova_os.Payment.Process.{
  parse_payload, payload_matches_requirement, ask, settled_receipt, issue, reconcile_reference,
  reconcile_transaction, reconcile, settle_verified, after_verify, process_payload,
  process_retail_x402_payment,
}
use sharpe_nova_os.Payment.Access.{payment_receipt_allows_resource_access}
use sharpe_nova_os.Payment.Settlement.{is_granted, IsPaid, process-granted}
use sharpe_nova_os.Payment.Order.{Asked, process-Asked}
use sharpe_nova_os.Payment.Terms.{IsRequirementFor, build-IsRequirementFor}
use sharpe_nova_os.Payment.Completeness.{build-FromCatalog, IsSettledBy, process-allows}

-- A stand-in for SHA-256 and schemas that accept.
abbrev host : PaymentHost
host = record {
  sha256 = λ _. "0123456789abcdef01234567";
  valid_requirement = λ _. true;
  valid_receipt = λ _. true;
}

abbrev pub requirement : PaymentRequirement
requirement = record {
  payment_requirement_id = "payment-requirement-0123456789abcdef01234567";
  x402_version = 2;
  scheme = "exact";
  network = "eip155:8453";
  asset = "0x833589fCD6eDb6E08f4c7C32D4f71b54bdA02913";
  amount_atomic = "2000";
  settlement_wallet = "wallet-1";
  max_timeout_seconds = 60;
  resource_type = "state_ping";
  resource_uri = "/ping";
  pricing_model = "pay_per_context_resource";
  authority_effect = "none";
  access_effect = "context_resource_access_only";
  display_network = "base";
  display_asset = "USDC";
  asset_decimals = 6;
  display_price_usdc = "0.002";
}

abbrev paid : PaymentPayload
paid = record {
  x402_version = 2;
  accepted = upstream_requirements requirement;
  resource_url = some "/ping";
  nova = some (nova_of requirement);
}

abbrev pub verification : VerifyResponse
verification = record { is_valid = true; payer = some "payer-1" }

abbrev pub settlement : RawSettlement
settlement = record {
  success = true;
  payer = none;
  transaction = some "0xabc";
  network = some "eip155:8453";
  amount = some "2000";
}

abbrev facilitator : Facilitator
facilitator = record { verify = λ _ _. some verification; settle = λ _ _. some settlement }

built :
    build_retail_payment_requirement host "state_ping" "/ping" (some "wallet-1") none
    ≡ ok requirement
unfolding build_retail_payment_requirement requirement_for catalog_price settlement_wallet_of
    validated validate_retail_payment_requirement requirement_id identity_fields
    stable_operational_id strip
built = refl

build-IsRequirementFor_example :
    IsRequirementFor host "state_ping" "/ping" (some "wallet-1") none requirement
build-IsRequirementFor_example =
    build-IsRequirementFor host "state_ping" "/ping" (some "wallet-1") none requirement built

parsed : parse_payload (payload paid) ≡ ok paid
unfolding parse_payload
parsed = refl

settled : IsSettledBy facilitator requirement paid verification settlement "0xabc"
unfolding payload_matches_requirement strip
settled = record {
  matches = refl;
  verified = refl;
  valid = refl;
  settled = refl;
  success = refl;
  reference = refl;
  named = refl;
  network = refl;
  amount = refl;
}

process-allows_example :
    (out : PaymentOutcome) × ((process_retail_x402_payment host facilitator requirement
        (payload paid)
        []).0
      ≡ ok out)
    × (payment_receipt_allows_resource_access host out ≡ true)
process-allows_example =
    process-allows host facilitator requirement paid verification settlement "0xabc" (payload paid)
      [] (build-FromCatalog host "state_ping" "/ping" (some "wallet-1") none requirement built)
      parsed settled refl

granted :
    is_granted (process_retail_x402_payment host facilitator requirement (payload paid) []).0 ≡ true
unfolding process_retail_x402_payment validate_retail_payment_requirement requirement_id
    identity_fields stable_operational_id parse_payload process_payload payload_matches_requirement
    after_verify settle_verified reconcile reconcile_transaction reconcile_reference settled_receipt
    issue ask strip ◌>>=◌
granted = refl

process-granted_example :
    IsPaid facilitator requirement
      (payload paid)
      []
      (process_retail_x402_payment host facilitator requirement (payload paid) []).1
process-granted_example = process-granted host facilitator requirement (payload paid) [] granted

process-Asked_example :
    Asked facilitator requirement []
      (process_retail_x402_payment host facilitator requirement (payload paid) []).1
process-Asked_example = process-Asked host facilitator requirement (payload paid) []
