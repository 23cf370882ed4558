-- ===== src/Client/Config.antt =====
-- codebase/transports/src/relay_client.rs: `RelayClient::new`.
use safechat.Prelude.{
  ℕ, Bool, false, ◌&&◌, ◌||◌, not, Option, none, some, [], ◌∷◌, ◌++◌, Result, ok, map_err, bail_if,
  ◌==◌, if◌then◌else◌, ◌>>=◌, ◌>>◌,
}
use safechat.Prelude.Bytes.{Bytes, bytes_eq, codes}
use safechat.Client.{RelayClient, RelayClientConfig}

-- What `RelayClient::new` uses of `Url`, of the certificates and of the HTTP client's builder, whose
-- arguments are whether it is HTTPS only and the certificate.
pub record UrlPort (U : Type 0) : Type 0 where
  pub parse : Bytes → Result Bytes U
  pub scheme : U → Bytes
  pub path : U → Bytes
  pub set_path : Bytes → U → U
  pub to_string : U → Bytes
  pub certificate : Bytes → Result Bytes (Unit {0})
  pub build : Bool → Option Bytes → Result Bytes (Unit {0})

-- `text.ends_with('/')`
abbrev ends_with_slash : Bytes → Bool
ends_with_slash [] = false
ends_with_slash (b ∷ []) = b == 47
ends_with_slash (b ∷ bs) = ends_with_slash bs

-- `text.trim_end_matches('/')`
abbrev keep_slash : ℕ → Bytes → Bytes
keep_slash b [] = if b == 47 then [] else b ∷ []
keep_slash b (c ∷ rest) = b ∷ c ∷ rest

unfoldable pub trim_end_slashes : Bytes → Bytes
trim_end_slashes [] = []
trim_end_slashes (b ∷ bs) = let rest = trim_end_slashes bs in keep_slash b rest

module _ {U : Type 0} (urls : UrlPort U) where
  -- Only HTTPS, or plain HTTP where it is asked for.
  unfoldable pub is_allowed_scheme : RelayClientConfig → U → Bool
  unfolding bytes_eq
  is_allowed_scheme config base =
      bytes_eq (urls.scheme base) (codes "https")
      || config.allow_insecure_http && bytes_eq (urls.scheme base) (codes "http")

  abbrev with_slash : U → U
  with_slash base =
      if ends_with_slash (urls.path base)
      then base
      else urls.set_path (urls.path base ++ (47 ∷ [])) base

  abbrev checked : Option Bytes → Result Bytes (Unit {0})
  checked none = ok tt
  checked (some certificate) =
      map_err (λ _. codes "loading relay CA certificate") (urls.certificate certificate)

  unfoldable pub new_client : {K : Type 0} → RelayClientConfig → K → Result Bytes (RelayClient K)
  unfolding is_allowed_scheme trim_end_slashes
  new_client config identity_pair = do
    base ← map_err (λ _. codes "invalid relay URL") (urls.parse config.base_url)
    bail_if (not (is_allowed_scheme config base))
        (codes "relay URL must use HTTPS unless insecure HTTP is explicitly enabled")
    checked config.ca_certificate_pem
    map_err (λ _. codes "creating relay HTTPS client")
        (urls.build (not config.allow_insecure_http) config.ca_certificate_pem)
    let base_url = trim_end_slashes (urls.to_string (with_slash base))
    ok (record {
      config = record config { base_url = base_url };
      identity_pair = identity_pair;
      access_token = none;
    })
