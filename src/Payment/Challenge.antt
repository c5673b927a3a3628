-- ===== src/Payment/Challenge.antt =====
-- `build_retail_payment_challenge` of retail_context/x402_payment.py. The encoding of the header, and the
-- schema's validation of the challenge, are given.
use Prim.Native.String.{◌++◌}
use sharpe_nova_os.Prelude.{Bool, List, [], ◌∷◌, String, if◌then◌else◌}
use sharpe_nova_os.Exec.{Result, ok, err, validation_error}
use sharpe_nova_os.Payment.Types.{
  PaymentRequirement, NovaMetadata, PaymentRequirements, PaymentHost,
}
use sharpe_nova_os.Payment.Requirement.{
  x402_version_2, validate_retail_payment_requirement, nova_of, upstream_requirements,
}
use sharpe_nova_os.Prelude.{ℕ}

-- `x402.schemas.PaymentRequired`, with its one resource and its one offer.
pub record PaymentRequired : Type 0 where
  pub x402_version : ℕ
  pub resource_url : String
  pub description : String
  pub mime_type : String
  pub accepts : List PaymentRequirements
  pub nova : NovaMetadata

-- `RetailPaymentChallenge`
pub record PaymentChallenge : Type 0 where
  pub payment_required : PaymentRequired
  pub payment_required_header : String
  pub metadata : NovaMetadata

-- `encode_payment_required_header`, and validation of a challenge by the schema.
pub record ChallengeHost : Type 0 where
  pub encode_payment_required : PaymentRequired → String
  pub valid_challenge : PaymentChallenge → Bool

unfoldable pub payment_required_of : PaymentRequirement → PaymentRequired
payment_required_of r = record {
  x402_version = x402_version_2;
  resource_url = r.resource_uri;
  description = "Nova retail " ++ r.resource_type ++ " context resource";
  mime_type = "application/json";
  accepts = upstream_requirements r ∷ [];
  nova = nova_of r;
}

module _ (h : PaymentHost) (c : ChallengeHost) (r : PaymentRequirement) where
  unfoldable pub challenge_of : PaymentChallenge
  challenge_of = record {
    payment_required = payment_required_of r;
    payment_required_header = c.encode_payment_required (payment_required_of r);
    metadata = nova_of r;
  }

  unfoldable pub challenge_if_valid : Result (Unit {0}) → Result PaymentChallenge
  challenge_if_valid (err e) = err e
  challenge_if_valid (ok _) =
      if c.valid_challenge challenge_of then ok challenge_of else err validation_error

  unfoldable pub build_retail_payment_challenge : Result PaymentChallenge
  build_retail_payment_challenge = challenge_if_valid (validate_retail_payment_requirement h r)
