-- ===== src/Service/Request.antt =====
-- `PreparedRetailRequest` of retail_context/request_binding.py, and the records of the service.
use Prim.Native.String.{◌++◌, slice, ◌∷◌, []}
use Prim.Native.Char.{code}
use sharpe_nova_os.Prelude.{ℕ, Bool, true, ◌&&◌, Option, String, leb, ◌==◌, if◌then◌else◌}
use sharpe_nova_os.Exec.{Result, ok, err, type_error}
use sharpe_nova_os.Payment.Types.{PaymentPayload, Facilitator}
use sharpe_nova_os.Payment.Challenge.{ChallengeHost}
use sharpe_nova_os.Controls.Types.{ControlConfig, ControlHost}
use sharpe_nova_os.Delivery.{PreparedRequest}

-- `rendered` is the canonical JSON of `build_resource()`, or `none` where building it raises.
pub record PreparedRetailRequest : Type 0 where
  pub resource_type : String
  pub request_digest : String
  pub subject_key : String
  pub source_binding_digest : String
  pub rendered : Option String

module _ (p : PreparedRetailRequest) where
  abbrev slug : String
  slug = if p.resource_type == "state_ping" then "state-ping" else "context-delta"

  abbrev base_uri : String
  base_uri = "/retail/v1/context/" ++ slug ++ "/" ++ p.request_digest

  unfoldable pub resource_uri_of : String
  resource_uri_of =
      if p.resource_type == "state_ping"
      then base_uri ++ "?source_binding=" ++ p.source_binding_digest
      else base_uri

  unfoldable pub request_id_of : String
  request_id_of = "retail-request-" ++ slice p.request_digest 0 24

  -- What delivery reads of it.
  unfoldable pub for_delivery : PreparedRequest
  for_delivery = record {
    request_id = request_id_of;
    resource_type = p.resource_type;
    resource_uri = resource_uri_of;
    rendered = p.rendered;
  }

-- `RetailRuntimeConfig`, as far as the handler reads it.
pub record RuntimeConfig : Type 0 where
  pub controlled_proof_access_token : String
  pub settlement_wallet : String
  pub max_request_bytes : ℕ
  pub max_response_bytes : ℕ
  pub retry_max_requests : ℕ
  pub production_controls : ControlConfig

-- One `POST` of a context resource, with the length of its body in bytes.
pub record HttpRequest : Type 0 where
  pub proof_token : Option String
  pub body : String
  pub body_bytes : ℕ
  pub request_digest : String
  pub payment_header : Option String

-- What `decode_payment_signature_header` gives.
pub data Decoded : Type 0 where
  undecodable : Decoded
  other_version : Decoded
  decoded : PaymentPayload → Decoded

-- The response: an error with its reason, or a resource.
pub record Response : Type 0 where
  pub status : ℕ
  pub error : Option String
  pub body : Option String
  pub payment_required : Option String
  pub delivery_mode : Option String
  pub response_digest : Option String
  pub settled_transaction : Option String

-- What the service is given: the hosts of its parts, the facilitator, the preparation of a resource
-- request from a body, the decoding of a payment header, and the length of a text in bytes.
pub record ServiceHost : Type 0 where
  pub control : ControlHost
  pub open control use *
  pub challenge : ChallengeHost
  pub facilitator : Facilitator
  pub prepare : String → String → Option PreparedRetailRequest
  pub decode_payment : String → Decoded
  pub utf8_length : String → ℕ

pub is_ascii : String → Bool
is_ascii [] = true
is_ascii (c ∷ s) = leb (code c) 127 && is_ascii s

-- `hmac.compare_digest` of two texts, which must be ASCII.
unfoldable pub compare_digest : String → String → Result Bool
unfolding is_ascii
compare_digest a b = if is_ascii a && is_ascii b then ok (a == b) else err type_error
