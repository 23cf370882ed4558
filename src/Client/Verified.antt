-- ===== src/Client/Verified.antt =====
-- codebase/transports/src/relay_transport.rs: which bundle `fetch_peer_bundle` returns.
use safechat.Prelude.{
  ℕ, suc, ◌≡◌, refl, sym, ap, ◌∙◌, subst, ◌⊎◌, inl, inr, Bool, true, false, not, Option, none, some,
  List, ◌∷◌, ok, if◌then◌else◌, arith,
}
use safechat.Prelude.Bytes.{Bytes, bytes_eq_iff, bytes_eq_refl}
use safechat.Prelude.Programs.{Program, raise, raise_if, ◌>>=◌}
use safechat.Prelude.Programs.Returns.{Returns, returns, bind-ok, lift-ok}
use safechat.Prelude.Programs.Ensures.{ok-injective}
use safechat.Client.Requests.{Ports, fetch_bundle, decode_bundle}
use safechat.Client.Peers.{
  CachedBundle, RelayTransport, find_cached, cache_bundle, is_fresh, on_client, instant, put_bundle,
  fresh_bundle, recipient_for, check_bundle, unmatched, fetch_checked, fetch_unless_fresh,
  fetch_from_relay, or_fetch, fetch_peer_bundle,
}

find_cached-newest :
    {B : Type 0} (key : Bytes) (time : ℕ) (b : B) (cs : List (CachedBundle B))
    → find_cached key (record { key = key; fetched_at = time; bundle = b } ∷ cs)
      ≡ some (record { key = key; fetched_at = time; bundle = b })
unfolding find_cached
find_cached-newest key time b cs = rw (bytes_eq_refl key) refl

not-false : (b : Bool) → not b ≡ false → b ≡ true
not-false true e = refl
not-false false e = cc

-- A test that fails otherwise.
if-ok :
    {W B C : Type 0} {c : Bool} (m : Program W B) (x : Bytes) {w : W} {b : B} {w' : W}
    → Returns (if c then m else raise x) w b w'
    → (c ≡ true → Returns m w b w' → C)
    → C
unfolding ◌>>=◌
if-ok {c = true} m x e next = next refl e
if-ok {c = false} m x e next = ground arith

raise_if-tt :
    {W : Type 0} (c : Bool) (x : Bytes) (w w' : W) → Returns (raise_if c x) w tt w' → c ≡ false
unfolding ◌>>=◌
raise_if-tt true x w w' e = ground arith
raise_if-tt false x w w' e = refl

module _ {K N B : Type 0} (ports : Ports K N B) (peer : B) where
  -- A bundle with the address and the identity key of the peer.
  abbrev pub IsOf : B → Type 0
  IsOf b =
      (key : Bytes) × (ports.bundles.address b ≡ ports.bundles.address peer)
      × (ports.bundles.identity_key b ≡ ok key)
      × (ports.bundles.identity_key peer ≡ ok key)

  -- The cached bundle that is returned without asking the relay.
  abbrev pub IsCached : RelayTransport K N B → B → Type 0
  IsCached t b =
      (c : CachedBundle B) × (find_cached (ports.bundles.address peer) t.peer_bundles ≡ some c)
      × (is_fresh c (t.instants t.elapsed) ≡ true)
      × (b ≡ c.bundle)

  -- The bundle that the cache holds for the peer.
  abbrev pub Holds : RelayTransport K N B → B → Type 0
  Holds t b =
      (c : CachedBundle B) × (find_cached (ports.bundles.address peer) t.peer_bundles ≡ some c)
      × (c.bundle ≡ b)

  checked-IsOf :
      (b : B) (t u : RelayTransport K N B) → Returns (check_bundle ports peer b) t tt u → IsOf b
  unfolding check_bundle
  checked-IsOf b t u e = if-ok _ (unmatched ports) e λ same e1. lift-ok _ e1 λ found f e2.
      lift-ok _ e2 λ expected g e3.
        let alike = raise_if-tt _ (unmatched ports) _ _ e3 in
        (
          found,
          (bytes_eq_iff _ _).0 same,
          f,
          g ∙ ap ok (sym ((bytes_eq_iff found expected).0 (not-false _ alike))),
        )

  cached-Holds :
      (b c : B) (t u : RelayTransport K N B)
      → Returns (cache_bundle (ports.bundles.address peer) b) t c u
      → (b ≡ c) × Holds u c
  unfolding cache_bundle instant put_bundle ◌>>=◌
  cached-Holds b c t u e =
      let newest = find_cached-newest (ports.bundles.address peer) _ b t.peer_bundles in
      let same = ok-injective b c (ap (λ p. p.0) e) in
      (same, subst (λ v. Holds v c) (ap (λ p. p.1) e) (_, newest, same))

  fetched-IsOf :
      (id : Bytes) (b : B) (t : RelayTransport K N B)
      → (fetch_checked ports peer id t).0 ≡ ok b
      → IsOf b × Holds (fetch_checked ports peer id t).1 b
  unfolding fetch_checked
  fetched-IsOf id b t e =
      bind-ok _ (on_client (fetch_bundle ports id)) (returns (fetch_checked ports peer id) t b e)
        λ answer f1 e2. bind-ok _ (on_client (decode_bundle ports answer)) e2 λ fetched f2 e3.
          bind-ok _ (check_bundle ports peer fetched) e3 λ done f3 e4.
            let (same, holds) = cached-Holds fetched b _ _ e4 in
            let check = returns (check_bundle ports peer fetched) _ done f3 in
            (subst IsOf same (checked-IsOf fetched _ _ check), holds)

  -- The two ends of the age test of a cached bundle.
  by_age :
      (c : CachedBundle B) (t v : RelayTransport K N B) (b : B) (fresh : Bool)
      → find_cached (ports.bundles.address peer) t.peer_bundles ≡ some c
      → is_fresh c (t.instants t.elapsed) ≡ fresh
      → (or_fetch ports peer (if fresh then some c.bundle else none) v).0 ≡ ok b
      → IsCached t b
        ⊎ (IsOf b × Holds (or_fetch ports peer (if fresh then some c.bundle else none) v).1 b)
  unfolding fetch_from_relay ◌>>=◌
  by_age c t v b true found young e = inl (c, found, young, sym (ok-injective _ _ e))
  by_age c t v b false found old e = inr (fetched-IsOf (recipient_for ports peer v) b v e)

  unless_fresh-IsOf :
      (cached : Option (CachedBundle B)) (t : RelayTransport K N B) (b : B)
      → find_cached (ports.bundles.address peer) t.peer_bundles ≡ cached
      → (fetch_unless_fresh ports peer cached t).0 ≡ ok b
      → IsCached t b ⊎ (IsOf b × Holds (fetch_unless_fresh ports peer cached t).1 b)
  unfolding fetch_unless_fresh fresh_bundle fetch_from_relay instant ◌>>=◌
  unless_fresh-IsOf none t b found e = inr (fetched-IsOf (recipient_for ports peer t) b t e)
  unless_fresh-IsOf (some c) t b found e =
      by_age c t (record t { elapsed = suc t.elapsed }) b _ found refl e

  -- A bundle that is returned is the cached one, when that was fetched less than 60 seconds ago;
  -- otherwise it has the address and the identity key of the peer, and the cache now holds it.
  pub fetch_peer_bundle-IsOf :
      (t : RelayTransport K N B) (b : B)
      → (fetch_peer_bundle ports peer t).0 ≡ ok b
      → IsCached t b ⊎ (IsOf b × Holds (fetch_peer_bundle ports peer t).1 b)
  unfolding fetch_peer_bundle ◌>>=◌
  fetch_peer_bundle-IsOf t b e = unless_fresh-IsOf _ t b refl e
