-- ===== src/Client/Requests.antt =====
-- codebase/transports/src/relay_client.rs: registration, enrollment and bundles. Of a JSON answer the parser
-- is a port; so are the bundles, a type `B`.
use safechat.Prelude.{ℕ, Bool, some, List, [], ◌∷◌, ◌++◌, Result, ok_or}
use safechat.Prelude.Bytes.{Bytes, codes}
use safechat.Prelude.Programs.{pure, lift, get, modify, ◌>>=◌, ◌>>◌}
use safechat.Protocol.{Submit, Message}
use safechat.Transport.{Base64}
use safechat.Client.{
  ClientHost, World, Action, Json, Member, random_bytes, register_domain, enrollment_request_domain,
}
use safechat.Client.Calls.{build_post, send_with_retry, parse_json, with_context, signed_json}
use safechat.Protocol

pub record ContactResponse : Type 0 where
  pub request_id : Bytes
  pub sender_id : Bytes
  pub sender_name : Bytes
  pub sender_fingerprint : Bytes
  pub bundle : Bytes
  pub status : Bytes

pub record RelayRegistration : Type 0 where
  pub access_token : Bytes
  pub device_id : Bytes
  pub api_version : Bytes

pub record EnrollmentResponse : Type 0 where
  pub accepted : Bool
  pub client_id : Bytes
  pub expires_at : ℕ

pub record RelayBundle : Type 0 where
  pub device_id : Bytes
  pub bundle : Bytes

pub record RelayMessageStatus : Type 0 where
  pub message_id : Bytes
  pub status : Bytes

-- `serde_json::from_slice` at each type, and any value at all.
pub record Parsers : Type 0 where
  pub challenge : Bytes → Result Bytes Bytes
  pub registration : Bytes → Result Bytes RelayRegistration
  pub enrollment : Bytes → Result Bytes EnrollmentResponse
  pub relay_bundle : Bytes → Result Bytes RelayBundle
  pub message_status : Bytes → Result Bytes RelayMessageStatus
  pub contact : Bytes → Result Bytes ContactResponse
  pub contacts : Bytes → Result Bytes (List ContactResponse)
  pub value : Bytes → Result Bytes (Unit {0})

-- `SignalPreKeyBundle`
pub record BundlePort (B : Type 0) : Type 0 where
  pub name : B → Bytes
  pub address : B → Bytes
  pub identity_key : B → Result Bytes Bytes
  pub encode : B → Result Bytes Bytes
  pub decode : Bytes → Result Bytes B

pub record Ports (K N B : Type 0) : Type 0 where
  pub host : ClientHost K N
  pub parsers : Parsers
  pub bundles : BundlePort B
  pub hex : Bytes → Bytes
  pub error_text : Protocol.Error → Bytes

abbrev pub field : Bytes → Bytes → Bytes × Member
field name value = (name, Member.text value)

abbrev pub post : Bytes
post = codes "POST"

abbrev pub get_method : Bytes
get_method = codes "GET"

unfoldable pub decode : Base64 → Bytes → Result Bytes Bytes
decode base64 value = ok_or (base64.decode value) (codes "invalid base64")

module _ {K N B : Type 0} (ports : Ports K N B) where
  abbrev base64 : Base64
  base64 = ports.host.base64

  abbrev new_token : Bytes → World K N → World K N
  new_token token w = record w { client = record w.client { access_token = some token } }

  unfoldable pub set_client_id : Bytes → World K N → World K N
  set_client_id client_id w = record w {
    client = record w.client { config = record w.client.config { client_id = client_id } };
  }

  -- The bytes that a registration signs.
  unfoldable pub registration_bytes : Bytes → Bytes → Bytes → Bytes → Bytes
  registration_bytes client_id address bundle challenge =
      register_domain
      ++ (client_id ++ (0 ∷ (address ++ (0 ∷ (ports.host.sha256 bundle ++ challenge)))))

  unfoldable pub register : B → Action K N RelayRegistration
  unfolding ◌>>=◌ send_with_retry build_post parse_json with_context decode random_bytes
      registration_bytes
  register bundle = do
    config ← get (λ (w : World K N). w.client.config)
    let question = Json.object (
        field (codes "client_id") config.client_id
        ∷ field (codes "enrollment_secret") config.enrollment_secret
        ∷ [])
    answer ←
        send_with_retry ports.host (build_post ports.host (codes "/v1/devices/challenge") question)
    challenge_text ←
        with_context (codes "requesting relay enrollment challenge")
          (parse_json ports.host ports.parsers.challenge answer)
    challenge ← lift (decode base64 challenge_text)
    bundle_bytes ← lift (ports.bundles.encode bundle)
    let address = ports.bundles.address bundle
    pair ← get (λ (w : World K N). w.client.identity_pair)
    randomness ← random_bytes
    let signed = registration_bytes config.client_id address bundle_bytes challenge
    signature ← lift (ports.host.calculate_signature pair signed randomness)
    let body = Json.object (
        field (codes "client_id") config.client_id
        ∷ field (codes "device_address") address
        ∷ field (codes "identity_key") (base64.encode (ports.host.public_identity pair))
        ∷ field (codes "bundle") (base64.encode bundle_bytes)
        ∷ field (codes "signature") (base64.encode signature)
        ∷ [])
    response ←
        send_with_retry ports.host (build_post ports.host (codes "/v1/devices/register") body)
    registration ←
        with_context (codes "registering device with relay")
          (parse_json ports.host ports.parsers.registration response)
    modify (new_token registration.access_token)
    pure registration

  unfoldable pub enrollment_bytes : Bytes → Bytes → Bytes → Bytes → Bytes
  enrollment_bytes address fingerprint secret_hash bundle =
      enrollment_request_domain
      ++ (address ++ (0 ∷ (fingerprint ++ (0 ∷ (secret_hash ++ (0 ∷ ports.host.sha256 bundle))))))

  unfoldable pub submit_enrollment_request : B → Bytes → Action K N EnrollmentResponse
  unfolding ◌>>=◌ send_with_retry build_post parse_json with_context random_bytes enrollment_bytes
      set_client_id
  submit_enrollment_request bundle fingerprint = do
    bundle_bytes ← lift (ports.bundles.encode bundle)
    client ← get (λ (w : World K N). w.client)
    let address = ports.bundles.address bundle
    let secret_hash = ports.hex (ports.host.sha256 client.config.enrollment_secret)
    randomness ← random_bytes
    let signed = enrollment_bytes address fingerprint secret_hash bundle_bytes
    signature ← lift (ports.host.calculate_signature client.identity_pair signed randomness)
    let identity = ports.host.public_identity client.identity_pair
    let body = Json.object (
        field (codes "device_address") address
        ∷ field (codes "identity_key") (base64.encode identity)
        ∷ field (codes "fingerprint") fingerprint
        ∷ field (codes "bundle") (base64.encode bundle_bytes)
        ∷ field (codes "enrollment_secret_hash") secret_hash
        ∷ field (codes "signature") (base64.encode signature)
        ∷ [])
    answer ←
        send_with_retry ports.host
          (build_post ports.host (codes "/v1/devices/enrollment-requests") body)
    response ←
        with_context (codes "submitting relay enrollment request")
          (parse_json ports.host ports.parsers.enrollment answer)
    modify (set_client_id response.client_id)
    pure response

  unfoldable pub publish_bundle : B → Action K N RelayBundle
  unfolding ◌>>=◌ signed_json
  publish_bundle bundle = do
    encoded ← lift (ports.bundles.encode bundle)
    client_id ← get (λ (w : World K N). w.client.config.client_id)
    signed_json ports.host ports.parsers.relay_bundle (codes "PUT")
        (codes "/v1/devices/" ++ (client_id ++ codes "/bundle"))
        (Json.object (field (codes "bundle") (base64.encode encoded) ∷ []))

  unfoldable pub fetch_bundle : Bytes → Action K N RelayBundle
  unfolding signed_json
  fetch_bundle device_id =
      signed_json ports.host ports.parsers.relay_bundle get_method
        (codes "/v1/devices/" ++ (device_id ++ codes "/bundle")) Json.null

  unfoldable pub fetch_bundle_by_address : Bytes → Action K N RelayBundle
  unfolding signed_json
  fetch_bundle_by_address address =
      signed_json ports.host ports.parsers.relay_bundle get_method
        (codes "/v1/devices/by-address/" ++ (address ++ codes "/bundle")) Json.null

  unfoldable pub decode_bundle : RelayBundle → Action K N B
  unfolding ◌>>=◌ decode
  decode_bundle bundle = do
    bytes ← lift (decode base64 bundle.bundle)
    lift (ports.bundles.decode bytes)
