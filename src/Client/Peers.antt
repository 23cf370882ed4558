-- ===== src/Client/Peers.antt =====
-- codebase/transports/src/relay_transport.rs: the relay ids of peers and the bundles fetched for
-- them, over the client. A monotonic reading is in nanoseconds. A map is a list, latest entry first.
use safechat.Prelude.{
  ℕ, suc, ◌-◌, ◌*◌, Bool, not, Option, none, some, List, [], ◌∷◌, ok, ltb, if◌then◌else◌,
}
use safechat.Prelude.Bytes.{Bytes, bytes_eq, codes}
use safechat.Prelude.Programs.{
  Program, pure, lift, get, modify, raise_if, raise, within, ◌>>=◌, ◌>>◌,
}
use safechat.Client.{World, Action}
use safechat.Client.Requests.{Ports, fetch_bundle, decode_bundle}

abbrev pub peer_bundle_cache_ttl : ℕ
peer_bundle_cache_ttl = 60 * 1000000000

pub record CachedBundle (B : Type 0) : Type 0 where
  pub key : Bytes
  pub fetched_at : ℕ
  pub bundle : B

-- `RelayTransport`, the world of its client included, and the monotonic clock as a stream.
pub record RelayTransport (K N B : Type 0) : Type 0 where
  pub world : World K N
  pub peer_ids : List (Bytes × Bytes)
  pub peer_bundles : List (CachedBundle B)
  pub instants : ℕ → ℕ
  pub elapsed : ℕ

unfoldable pub find_id : Bytes → List (Bytes × Bytes) → Option Bytes
unfolding bytes_eq
find_id name [] = none
find_id name ((key, id) ∷ ids) =
    let rest = find_id name ids in if bytes_eq key name then some id else rest

unfoldable pub find_cached : {B : Type 0} → Bytes → List (CachedBundle B) → Option (CachedBundle B)
unfolding bytes_eq
find_cached key [] = none
find_cached key (c ∷ cs) =
    let rest = find_cached key cs in if bytes_eq c.key key then some c else rest

abbrev pub Call : Type 0 → Type 0 → Type 0 → Type 0 → Type 0
Call K N B A = Program (RelayTransport K N B) A

abbrev pub is_fresh : {B : Type 0} → CachedBundle B → ℕ → Bool
is_fresh c time = ltb (time - c.fetched_at) peer_bundle_cache_ttl

module _ {K N B : Type 0} where
  -- A call of the client.
  abbrev pub on_client : {A : Type 0} → Action K N A → Call K N B A
  on_client call =
      within (λ (t : RelayTransport K N B). t.world) (λ w t. record t { world = w }) call

  -- `Instant::now()`
  unfoldable pub instant : Call K N B ℕ
  instant t = (ok (t.instants t.elapsed), record t { elapsed = suc t.elapsed })

  unfoldable pub set_peer_id : Bytes → Bytes → RelayTransport K N B → RelayTransport K N B
  set_peer_id name id t = record t { peer_ids = (name, id) ∷ t.peer_ids }

  unfoldable pub put_bundle : Bytes → ℕ → B → RelayTransport K N B → RelayTransport K N B
  put_bundle key fetched_at bundle t = record t {
    peer_bundles = record { key = key; fetched_at = fetched_at; bundle = bundle } ∷ t.peer_bundles;
  }

  unfoldable pub cache_bundle : Bytes → B → Call K N B B
  unfolding ◌>>=◌ instant put_bundle
  cache_bundle key bundle = do time ← instant; modify (put_bundle key time bundle); pure bundle

  -- The cached bundle of an address that is not too old; the clock is read only for a cached one.
  unfoldable pub fresh_bundle : Option (CachedBundle B) → Call K N B (Option B)
  unfolding ◌>>=◌ instant
  fresh_bundle none = pure none
  fresh_bundle (some c) = do time ← instant; pure (if is_fresh c time then some c.bundle else none)

module _ {K N B : Type 0} (ports : Ports K N B) where
  abbrev id_or : Option Bytes → Bytes → Bytes
  id_or none address = address
  id_or (some id) address = id

  unfoldable pub recipient_for : B → RelayTransport K N B → Bytes
  unfolding find_id
  recipient_for peer t =
      id_or (find_id (ports.bundles.name peer) t.peer_ids) (ports.bundles.address peer)

  unfoldable pub sender_id_for : B → RelayTransport K N B → Option Bytes
  unfolding find_id
  sender_id_for peer t = find_id (ports.bundles.name peer) t.peer_ids

  abbrev pub unmatched : Bytes
  unmatched = codes "relay peer bundle does not match the locally verified identity"

  -- The check of a bundle that was fetched for a peer.
  unfoldable pub check_bundle : B → B → Call K N B (Unit {0})
  unfolding ◌>>=◌ bytes_eq
  check_bundle peer fetched =
      if bytes_eq (ports.bundles.address fetched) (ports.bundles.address peer)
      then (do
        found ← lift (ports.bundles.identity_key fetched)
        expected ← lift (ports.bundles.identity_key peer)
        raise_if (not (bytes_eq found expected)) unmatched)
      else raise unmatched

  -- The bundle that the relay has under an id, checked against the peer's and cached.
  unfoldable pub fetch_checked : B → Bytes → Call K N B B
  unfolding ◌>>=◌ fetch_bundle decode_bundle check_bundle cache_bundle
  fetch_checked peer id = do
    answer ← on_client (fetch_bundle ports id)
    fetched ← on_client (decode_bundle ports answer)
    check_bundle peer fetched
    cache_bundle (ports.bundles.address peer) fetched

  unfoldable pub fetch_from_relay : B → Call K N B B
  unfolding ◌>>=◌ recipient_for fetch_checked
  fetch_from_relay peer = get (recipient_for peer) >>= fetch_checked peer

  abbrev pub or_fetch : B → Option B → Call K N B B
  or_fetch peer none = fetch_from_relay peer
  or_fetch peer (some bundle) = pure bundle

  unfoldable pub fetch_unless_fresh : B → Option (CachedBundle B) → Call K N B B
  unfolding ◌>>=◌ fresh_bundle fetch_from_relay
  fetch_unless_fresh peer cached = fresh_bundle cached >>= or_fetch peer

  unfoldable pub fetch_peer_bundle : B → Call K N B B
  unfolding ◌>>=◌ find_cached fetch_unless_fresh
  fetch_peer_bundle peer =
      get (λ (t : RelayTransport K N B). find_cached (ports.bundles.address peer) t.peer_bundles)
      >>= fetch_unless_fresh peer

  -- The bundle is not checked.
  unfoldable pub fetch_peer_bundle_by_id : Bytes → Call K N B B
  unfolding ◌>>=◌ fetch_bundle decode_bundle cache_bundle
  fetch_peer_bundle_by_id client_id = do
    answer ← on_client (fetch_bundle ports client_id)
    fetched ← on_client (decode_bundle ports answer)
    cache_bundle (ports.bundles.address fetched) fetched
