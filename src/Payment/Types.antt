-- ===== src/Payment/Types.antt =====
-- The records of retail_context/x402_payment.py, and what it is given: the answers of the facilitator
-- and of the x402 and jsonschema packages.
use sharpe_nova_os.Prelude.{ℕ, Bool, true, false, ◌&&◌, Option, none, some, String, ◌==◌, eqb}

pub record PaymentRequirement : Type 0 where
  pub payment_requirement_id : String
  pub x402_version : ℕ
  pub scheme : String
  pub network : String
  pub asset : String
  pub amount_atomic : String
  pub settlement_wallet : String
  pub max_timeout_seconds : ℕ
  pub resource_type : String
  pub resource_uri : String
  pub pricing_model : String
  pub authority_effect : String
  pub access_effect : String
  pub display_network : String
  pub display_asset : String
  pub asset_decimals : ℕ
  pub display_price_usdc : String

-- `extra["nova"]` of the upstream requirement, and `extensions["nova"]` of a payload.
pub record NovaMetadata : Type 0 where
  pub payment_requirement_id : String
  pub resource_type : String
  pub resource_uri : String
  pub pricing_model : String
  pub authority_effect : String
  pub access_effect : String

-- `x402.schemas.PaymentRequirements`. The extra data are the Nova metadata, or something else.
pub record PaymentRequirements : Type 0 where
  pub scheme : String
  pub network : String
  pub asset : String
  pub amount : String
  pub pay_to : String
  pub max_timeout_seconds : ℕ
  pub extra : Option NovaMetadata

-- `x402.schemas.PaymentPayload`, as far as the program reads it.
pub record PaymentPayload : Type 0 where
  pub x402_version : ℕ
  pub accepted : PaymentRequirements
  pub resource_url : Option String
  pub nova : Option NovaMetadata

-- `PaymentPayload | Mapping`: a mapping comes with its version entry (the default where it has none)
-- and with what `PaymentPayload.model_validate` makes of it.
pub data PaymentInput : Type 0 where
  payload : PaymentPayload → PaymentInput
  mapping : ℕ → Option PaymentPayload → PaymentInput

pub record VerifyResponse : Type 0 where
  pub is_valid : Bool
  pub payer : Option String

-- The entries that the program reads of a settlement answer; `success` says that the entry is `True`.
pub record RawSettlement : Type 0 where
  pub success : Bool
  pub payer : Option String
  pub transaction : Option String
  pub network : Option String
  pub amount : Option String

-- `RetailX402Facilitator`; `none` is an exception, or an answer that `model_validate` refuses.
pub record Facilitator : Type 0 where
  pub verify : PaymentPayload → PaymentRequirements → Option VerifyResponse
  pub settle : PaymentPayload → PaymentRequirements → Option RawSettlement

-- What the program asks of the facilitator, in order.
pub data FacilitatorCall : Type 0 where
  verify_call settle_call : PaymentPayload → PaymentRequirements → FacilitatorCall

pub record PaymentReceipt : Type 0 where
  pub payment_receipt_id : String
  pub payment_requirement_id : String
  pub resource_type : String
  pub resource_uri : String
  pub pricing_model : String
  pub payment_verification_status : String
  pub settlement_status : String
  pub access_status : String
  pub payer : Option String
  pub network : String
  pub asset : String
  pub amount_atomic : String
  pub settlement_wallet : String
  pub transaction_reference : Option String
  pub failure_reason : Option String
  pub authority_effect : String
  pub access_effect : String

-- `RetailPaymentOutcome`, with its private access capability or without, or any other mapping with
-- the entries of a receipt, such as a receipt that was read back.
pub data PaymentOutcome : Type 0 where
  outcome : PaymentReceipt → Bool → PaymentOutcome
  other_mapping : PaymentReceipt → PaymentOutcome

abbrev pub receipt_of : PaymentOutcome → PaymentReceipt
receipt_of (outcome r _) = r
receipt_of (other_mapping r) = r

-- SHA-256, and validation against specs/retail_x402_payment_v0_1.schema.json by jsonschema.
pub record PaymentHost : Type 0 where
  pub sha256 : String → String
  pub valid_requirement : PaymentRequirement → Bool
  pub valid_receipt : PaymentReceipt → Bool

abbrev pub nova_eq : NovaMetadata → NovaMetadata → Bool
nova_eq a b =
    a.payment_requirement_id == b.payment_requirement_id
    && a.resource_type == b.resource_type
    && a.resource_uri == b.resource_uri
    && a.pricing_model == b.pricing_model
    && a.authority_effect == b.authority_effect
    && a.access_effect == b.access_effect

abbrev pub opt_nova_eq : Option NovaMetadata → Option NovaMetadata → Bool
opt_nova_eq none none = true
opt_nova_eq (some a) (some b) = nova_eq a b
opt_nova_eq _ _ = false

abbrev pub requirements_eq : PaymentRequirements → PaymentRequirements → Bool
requirements_eq a b =
    a.scheme == b.scheme
    && a.network == b.network
    && a.asset == b.asset
    && a.amount == b.amount
    && a.pay_to == b.pay_to
    && eqb a.max_timeout_seconds b.max_timeout_seconds
    && opt_nova_eq a.extra b.extra
