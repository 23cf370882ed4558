-- ===== src/Client.antt =====
-- codebase/transports/src/relay_client.rs: the client of the relay: its configuration and state, the
-- requests that it signs, and their repetition. HTTP, JSON and signatures are ports.
pub mod Config
pub mod Calls
pub mod Requests
pub mod Messages
pub mod Contacts
pub mod Peers
pub mod Bounds
pub mod Verified
pub mod Tests
use safechat.Prelude.{
  ℕ, zero, suc, ◌+◌, ◌*◌, ◌^◌, ℤ, Bool, true, false, ◌&&◌, ◌||◌, not, Option, none, some, List, [],
  ◌∷◌, ◌++◌, Result, ok, err, ltb, leb, ◌==◌, length, if◌then◌else◌,
}
use Prim.Native.Nat.{min}
use safechat.Prelude.Bytes.{Bytes, bytes_eq, codes, to_be_bytes}
use safechat.Prelude.Text.{split, decimal}
use safechat.Prelude.Programs.{
  Program, pure, lift, get, modify, raise_if, raise, context, attempt, within, ◌>>=◌, ◌>>◌,
}
use safechat.Transport.{Base64}

abbrev pub register_domain : Bytes
register_domain = codes "safechat-relay-register-v1" ++ (0 ∷ [])

abbrev pub request_domain : Bytes
request_domain = codes "safechat-relay-request-v1" ++ (0 ∷ [])

abbrev pub enrollment_request_domain : Bytes
enrollment_request_domain = codes "safechat-relay-enrollment-request-v1" ++ (0 ∷ [])

abbrev pub max_request_attempts : ℕ
max_request_attempts = 4

pub record RelayClientConfig : Type 0 where
  pub base_url : Bytes
  pub client_id : Bytes
  pub enrollment_secret : Bytes
  pub ca_certificate_pem : Option Bytes
  pub allow_insecure_http : Bool

unfoldable pub new_client_config : Bytes → Bytes → Bytes → RelayClientConfig
new_client_config base_url client_id enrollment_secret = record {
  base_url = base_url;
  client_id = client_id;
  enrollment_secret = enrollment_secret;
  ca_certificate_pem = none;
  allow_insecure_http = false;
}

unfoldable pub with_ca_certificate : RelayClientConfig → Bytes → RelayClientConfig
with_ca_certificate config certificate = record config { ca_certificate_pem = some certificate }

unfoldable pub allowing_insecure_http : RelayClientConfig → Bool → RelayClientConfig
allowing_insecure_http config allowed = record config { allow_insecure_http = allowed }

pub record RelayClient (K : Type 0) : Type 0 where
  pub config : RelayClientConfig
  pub identity_pair : K
  pub access_token : Option Bytes

-- Header names are in lower case, in the order in which they are added.
pub record HttpRequest : Type 0 where
  pub method : Bytes
  pub url : Bytes
  pub headers : List (Bytes × Bytes)
  pub body : Bytes

-- Reading the body may fail.
pub record Response : Type 0 where
  pub status : ℕ
  pub body : Result Bytes Bytes

-- A member of an object that the client writes.
pub data Member : Type 0 where
  text : Bytes → Member
  boolean : Bool → Member

-- A JSON value that the client writes.
pub data Json : Type 0 where
  null : Json
  object : List (Bytes × Member) → Json

-- `K` is a key pair and `N` the network.
pub record ClientHost (K N : Type 0) : Type 0 where
  pub base64 : Base64
  pub sha256 : Bytes → Bytes
  pub calculate_signature : K → Bytes → Bytes → Result Bytes Bytes
  pub public_identity : K → Bytes
  pub execute : HttpRequest → Program N Response
  pub parse_url : Bytes → Result Bytes Bytes
  pub to_vec : Json → Result Bytes Bytes
  pub from_utf8_lossy : Bytes → Bytes
  pub status_text : ℕ → Bytes

-- The client, the network, the random source and the clock as streams, and for how long the client
-- has slept, the last time first.
pub record World (K N : Type 0) : Type 0 where
  pub client : RelayClient K
  pub net : N
  pub random : ℕ → Bytes
  pub draws : ℕ
  pub clock : ℕ → ℕ
  pub readings : ℕ
  pub requests : List HttpRequest
  pub slept : List ℕ

abbrev pub Action : Type 0 → Type 0 → Type 0 → Type 0
Action K N A = Program (World K N) A

unfoldable pub retryable_status : ℕ → Bool
retryable_status status =
    status == 408 || status == 425 || status == 429 || leb 500 status && ltb status 600

-- In milliseconds; the product does not saturate.
unfoldable pub retry_delay : ℕ → ℕ
retry_delay attempt = 250 * 2 ^ min attempt 3

-- `path.split('?').next().unwrap_or(path)`
abbrev first_or : Bytes → List Bytes → Bytes
first_or path [] = path
first_or path (part ∷ parts) = part

unfoldable pub signed_path : Bytes → Bytes
unfolding split
signed_path path = first_or path (split 63 path)

module _ {K N : Type 0} where
  -- `OsRng`
  unfoldable pub random_bytes : Action K N Bytes
  random_bytes w = (ok (w.random w.draws), record w { draws = suc w.draws })

  -- `now()`
  unfoldable pub now : Action K N ℕ
  now w = (ok (w.clock w.readings), record w { readings = suc w.readings })

  unfoldable pub sleep : ℕ → Action K N (Unit {0})
  sleep delay w = (ok tt, record w { slept = delay ∷ w.slept })
