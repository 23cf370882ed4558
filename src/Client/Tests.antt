-- ===== src/Client/Tests.antt =====
-- A relay that is busy and one that answers, with a client of each.
use safechat.Prelude.{ℕ, ◌≡◌, refl, ◌⊎◌, some, List, [], ◌∷◌, Result, ok, err, length}
use safechat.Prelude.Bytes.{Bytes, codes}
use safechat.Prelude.Programs.{Program}
use safechat.Transport.{Base64}
use safechat.Client.{ClientHost, HttpRequest, Response, World, new_client_config}
use safechat.Client.Calls.{send_with_retry, build_signed}
use safechat.Client.Requests.{Ports, Parsers, BundlePort}
use safechat.Client.Peers.{RelayTransport, fetch_peer_bundle, fetch_peer_bundle_by_id}
use safechat.Client.Bounds.{Spent, send_signed-Spent}
use safechat.Client.Verified.{IsCached, IsOf, Holds, fetch_peer_bundle-IsOf}

abbrev plain : Base64
plain = record { encode = λ bytes. bytes; decode = λ bytes. some bytes }

-- The network is the answers to come; when none is left, the request fails.
abbrev answer_next : HttpRequest → Program (List Response) Response
answer_next request [] = (err (codes "timeout"), [])
answer_next request (r ∷ rs) = (ok r, rs)

abbrev host : ClientHost Bytes (List Response)
host = record {
  base64 = plain;
  sha256 = λ bytes. [];
  calculate_signature = λ pair signed randomness. ok pair;
  public_identity = λ pair. pair;
  execute = answer_next;
  parse_url = λ url. ok url;
  to_vec = λ value. ok (codes "{}");
  from_utf8_lossy = λ bytes. bytes;
  status_text = λ status. [];
}

abbrev answer : ℕ → Bytes → Response
answer status body = record { status = status; body = ok body }

abbrev world : List Response → World Bytes (List Response)
world answers = record {
  client = record {
    config = new_client_config (codes "https://relay") (codes "me") (codes "s");
    identity_pair = codes "k";
    access_token = some (codes "t");
  };
  net = answers;
  random = λ n. n ∷ [];
  draws = 0;
  clock = λ n. n;
  readings = 0;
  requests = [];
  slept = [];
}

abbrev busy : World Bytes (List Response)
busy = world (answer 503 [] ∷ answer 503 [] ∷ answer 429 [] ∷ answer 503 [] ∷ answer 200 [] ∷ [])

abbrev send_poll : Program (World Bytes (List Response)) Response
send_poll =
    send_with_retry host (build_signed host (codes "t") (codes "GET") (codes "/v1/messages") [] [])

-- The fourth refusal is returned.
busy_is_returned : (send_poll busy).0 ≡ ok (answer 503 [])
unfolding send_with_retry build_signed
busy_is_returned = refl

busy_is_asked_4_times : length (send_poll busy).1.requests ≡ 4
unfolding send_with_retry build_signed
busy_is_asked_4_times = refl

busy_delays : (send_poll busy).1.slept ≡ 1000 ∷ 500 ∷ 250 ∷ []
unfolding send_with_retry build_signed
busy_delays = refl

recovers : (send_poll (world (answer 503 [] ∷ answer 200 [] ∷ []))).0 ≡ ok (answer 200 [])
unfolding send_with_retry build_signed
recovers = refl

send_signed-Spent_example : Spent 4 1750 busy (send_poll busy).0 (send_poll busy).1
send_signed-Spent_example =
    send_signed-Spent host (codes "t") (codes "GET") (codes "/v1/messages") [] [] busy

abbrev parsers : Parsers
parsers = record {
  challenge = λ body. ok body;
  registration = λ body. err [];
  enrollment = λ body. err [];
  relay_bundle = λ body. ok (record { device_id = []; bundle = body });
  message_status = λ body. err [];
  contact = λ body. err [];
  contacts = λ body. err [];
  value = λ body. ok tt;
}

-- A bundle is its address and its key.
abbrev pair_bundles : BundlePort (ℕ × ℕ)
pair_bundles = record {
  name = λ b. [];
  address = λ b. b.0 ∷ [];
  identity_key = λ b. ok (b.1 ∷ []);
  encode = λ b. ok (b.0 ∷ b.1 ∷ []);
  decode = read;
}
  where
    read : Bytes → Result Bytes (ℕ × ℕ)
    read (a ∷ k ∷ []) = ok (a, k)
    read bytes = err (codes "no bundle")

abbrev ports : Ports Bytes (List Response) (ℕ × ℕ)
ports = record {
  host = host;
  parsers = parsers;
  bundles = pair_bundles;
  hex = λ bytes. bytes;
  error_text = λ error. [];
}

abbrev transport : List Response → RelayTransport Bytes (List Response) (ℕ × ℕ)
transport answers = record {
  world = world answers;
  peer_ids = [];
  peer_bundles = [];
  instants = λ n. n;
  elapsed = 0;
}

abbrev peer : ℕ × ℕ
peer = (1, 7)

abbrev honest : RelayTransport Bytes (List Response) (ℕ × ℕ)
honest = transport (answer 200 (1 ∷ 7 ∷ []) ∷ [])

abbrev lying : RelayTransport Bytes (List Response) (ℕ × ℕ)
lying = transport (answer 200 (1 ∷ 8 ∷ []) ∷ [])

fetched : (fetch_peer_bundle ports peer honest).0 ≡ ok peer
unfolding fetch_peer_bundle
fetched = refl

-- Another identity key is refused,
refused :
    (fetch_peer_bundle ports peer lying).0
    ≡ err (codes "relay peer bundle does not match the locally verified identity")
unfolding fetch_peer_bundle
refused = refl

-- but not when the bundle was first fetched by an id: then the cache gives it out.
unchecked :
    (fetch_peer_bundle ports peer (fetch_peer_bundle_by_id ports (codes "id") lying).1).0
    ≡ ok (1, 8)
unfolding fetch_peer_bundle fetch_peer_bundle_by_id
unchecked = refl

fetch_peer_bundle-IsOf_example :
    IsCached ports peer honest peer
    ⊎ (IsOf ports peer peer × Holds ports peer (fetch_peer_bundle ports peer honest).1 peer)
fetch_peer_bundle-IsOf_example = fetch_peer_bundle-IsOf ports peer honest peer fetched
