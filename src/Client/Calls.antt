-- ===== src/Client/Calls.antt =====
-- codebase/transports/src/relay_client.rs: how a request is built, signed and sent again, and how
-- its answer is read.
use safechat.Prelude.{
  ℕ, zero, suc, ◌+◌, Bool, true, false, ◌&&◌, not, List, [], ◌∷◌, ◌++◌, Result, ok, err, map_err,
  ltb, ◌==◌, length, if◌then◌else◌,
}
use safechat.Prelude.Bytes.{Bytes, bytes_eq, codes, to_be_bytes}
use safechat.Prelude.Text.{decimal}
use safechat.Prelude.Programs.{pure, lift, get, raise_if, raise, context, attempt, ◌>>=◌, ◌>>◌}
use safechat.Protocol.{max_body}
use safechat.Client.{
  ClientHost, HttpRequest, Response, World, Action, Json, retryable_status, retry_delay,
  signed_path, random_bytes, now, sleep, max_request_attempts, request_domain,
}

abbrev pub with_headers : Bytes → Bytes → List (Bytes × Bytes) → Bytes → HttpRequest
with_headers method url headers body = record {
  method = method;
  url = url;
  headers = headers;
  body = body;
}

module _ {K N : Type 0} where
  -- `.context(reason)` on a result.
  unfoldable pub with_context : {A : Type 0} → Bytes → Action K N A → Action K N A
  with_context reason call w = let (r, w') = call w in (map_err (λ _. reason) r, w')

module _ {K N : Type 0} (host : ClientHost K N) where
  -- `send()` of a request that is built.
  unfoldable pub transmit : HttpRequest → Action K N Response
  transmit request w =
      let (r, net) = host.execute request w.net in
      (r, record w { net = net; requests = request ∷ w.requests })

  abbrev failed_with : ℕ → Bytes → Bytes
  failed_with status body =
      codes "relay request failed with "
      ++ (host.status_text status ++ (codes ": " ++ host.from_utf8_lossy body))

  unfoldable pub random_nonce : Action K N Bytes
  unfolding ◌>>=◌ random_bytes
  random_nonce = do bytes ← random_bytes; pure (host.base64.encode bytes)

  -- What one round of the retry loop makes of an answer; `again` is the rest of the loop.
  unfoldable pub settle : ℕ → Action K N Response → Result Bytes Response → Action K N Response
  unfolding ◌>>=◌ sleep retryable_status retry_delay
  settle attempt' again (ok response) =
      if retryable_status response.status && not (attempt' + 1 == max_request_attempts)
      then sleep (retry_delay attempt') >> again
      else pure response
  settle attempt' again (err error) =
      if ltb (attempt' + 1) max_request_attempts
      then sleep (retry_delay attempt') >> again
      else raise (codes "relay request failed after retries")

  -- One round, for a request that is built.
  unfoldable pub round : ℕ → Action K N Response → HttpRequest → Action K N Response
  unfolding ◌>>=◌ transmit settle
  round attempt' again request = attempt (transmit request) >>= settle attempt' again

  -- The rounds from an attempt on; the first argument is how many are left.
  unfoldable pub retry_from : ℕ → ℕ → Action K N HttpRequest → Action K N Response
  unfolding ◌>>=◌ round
  retry_from zero attempt' build = raise (codes "relay retry loop always returns")
  retry_from (suc left) attempt' build =
      let again = retry_from left (attempt' + 1) build in build >>= round attempt' again

  unfoldable pub send_with_retry : Action K N HttpRequest → Action K N Response
  unfolding retry_from
  send_with_retry build = retry_from max_request_attempts 0 build

  unfoldable pub request_url : Bytes → Action K N Bytes
  unfolding ◌>>=◌
  request_url path = do
    base_url ← get (λ (w : World K N). w.client.config.base_url)
    lift (host.parse_url (base_url ++ path))

  -- The bytes that are signed.
  unfoldable pub signed_bytes : Bytes → Bytes → Bytes → Bytes → ℕ → Bytes
  signed_bytes method path body nonce timestamp =
      request_domain
      ++ (method
          ++ (0 ∷ (path ++ (0 ∷ (host.sha256 body ++ (nonce ++ (0 ∷ to_be_bytes 8 timestamp)))))))

  -- The four headers of a signed request.
  unfoldable pub signature_headers : Bytes → Bytes → ℕ → Bytes → List (Bytes × Bytes)
  unfolding decimal
  signature_headers token nonce timestamp signature =
      (codes "authorization", codes "Bearer " ++ token)
      ∷ (codes "x-safechat-nonce", nonce)
      ∷ (codes "x-safechat-timestamp", decimal timestamp)
      ∷ (codes "x-safechat-signature", host.base64.encode signature)
      ∷ []

  -- One signed request, with further headers and the body that is sent.
  unfoldable pub build_signed :
      Bytes → Bytes → Bytes → Bytes → List (Bytes × Bytes) → Action K N HttpRequest
  unfolding ◌>>=◌ random_nonce now random_bytes request_url signed_bytes signature_headers
      signed_path
  build_signed token method path body further = do
    nonce ← random_nonce
    timestamp ← now
    pair ← get (λ (w : World K N). w.client.identity_pair)
    randomness ← random_bytes
    let signed = signed_bytes method (signed_path path) body nonce timestamp
    signature ← lift (host.calculate_signature pair signed randomness)
    url ← request_url path
    pure (
        with_headers method url (signature_headers token nonce timestamp signature ++ further) body)

  -- A request without a signature, with a JSON body.
  unfoldable pub build_post : Bytes → Json → Action K N HttpRequest
  unfolding ◌>>=◌ request_url
  build_post path value = do
    url ← request_url path
    body ← lift (host.to_vec value)
    pure (record {
      method = codes "POST";
      url = url;
      headers = (codes "content-type", codes "application/json") ∷ [];
      body = body;
    })

  -- `parse_json`, of which `parse` is `serde_json::from_slice`.
  unfoldable pub parse_json : {T : Type 0} → (Bytes → Result Bytes T) → Response → Action K N T
  unfolding ◌>>=◌
  parse_json parse response = do
    body ← lift (map_err (λ _. codes "reading relay response") response.body)
    raise_if (ltb max_body (length body)) (codes "relay response is too large")
    raise_if (not (response.status == 200)) (failed_with response.status body)
    lift (parse body)

  abbrev json_headers : Bytes → List (Bytes × Bytes)
  json_headers [] = []
  json_headers (b ∷ bs) = (codes "content-type", codes "application/json") ∷ []

  -- `GET` has no body.
  unfoldable pub json_body : Bytes → Json → Result Bytes Bytes
  unfolding bytes_eq
  json_body method value = if bytes_eq method (codes "GET") then ok [] else host.to_vec value

  unfoldable pub signed_json :
      {T : Type 0} → (Bytes → Result Bytes T) → Bytes → Bytes → Json → Action K N T
  unfolding ◌>>=◌ json_body build_signed send_with_retry parse_json
  signed_json parse method path value = do
    body ← lift (json_body method value)
    access_token ← get (λ (w : World K N). w.client.access_token)
    token ← context access_token (codes "relay client is not registered")
    response ← send_with_retry (build_signed token method path body (json_headers body))
    parse_json parse response

  abbrev octets : Bytes
  octets = codes "application/octet-stream"

  abbrev binary_headers : Bool → List (Bytes × Bytes)
  binary_headers true = (codes "accept", octets) ∷ (codes "content-type", octets) ∷ []
  binary_headers false = (codes "accept", octets) ∷ []

  unfoldable pub signed_binary : Bytes → Bytes → Bytes → Bool → Action K N Bytes
  unfolding ◌>>=◌ build_signed send_with_retry
  signed_binary method path body send_body = do
    access_token ← get (λ (w : World K N). w.client.access_token)
    token ← context access_token (codes "relay client is not registered")
    response ← send_with_retry (build_signed token method path body (binary_headers send_body))
    bytes ← lift (map_err (λ _. codes "reading relay response") response.body)
    raise_if (not (response.status == 200)) (failed_with response.status bytes)
    pure bytes
