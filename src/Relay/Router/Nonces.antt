-- ===== src/Relay/Router/Nonces.antt =====
-- The nonces of codebase/relay/src/auth.rs across calls.
use safechat.Prelude.{
  ℕ, suc, ◌+◌, ◌≤◌, ◌<◌, ◌≡◌, ap, ◌≢◌, Bool, true, false, ◌&&◌, Option, none, some, List, [], ◌∷◌,
  arith, ok, leb,
}
use safechat.Prelude.Bytes.{Bytes, bytes_eq_refl}
use safechat.Relay.{Db, NonceRow, MessageRow}
use safechat.Relay.Sql.{
  exists, delete, insert_or_ignore, exists-delete, exists-append, exists-last, exists_mono,
}
use safechat.Relay.Host.{Host}
use safechat.Relay.Service.{World, ◌>>=◌}
use safechat.Relay.Service.Keeps.{Keeps, Stable, keeps_rules}
use safechat.Relay.Auth.{is_nonce, is_expired, record_nonce, verify_signature}
use safechat.Relay.Messages.{insert_message, store_message}
use safechat.Relay.Router.{Call, serve}
use safechat.Relay.Router.Frame.{Rules, serve-After}

-- The nonce of the device is recorded, and does not expire before `until`.
abbrev pub is_held : Bytes → Bytes → ℕ → NonceRow → Bool
is_held device nonce until row = is_nonce device nonce row && leb until row.expires_at

-- The nonce is held, as long as the clock has been read at `until` at the latest.
pub record Held (c : ℕ → ℕ) (device nonce : Bytes) (until k : ℕ) (db : Db) : Type 0 where
  pub held :
      ((i : ℕ) → i < k → c i ≤ until) → exists (is_held device nonce until) db.request_nonces ≡ true

module _ (c : ℕ → ℕ) (device nonce : Bytes) (until : ℕ) where
  Held-Stable : Stable (Held c device nonce until)
  Held-Stable k db h = record { held = λ early. h.held (λ i lt. early i (omega arith)) }

  not_expired :
      (purge : ℕ) (row : NonceRow)
      → purge ≤ until
      → is_held device nonce until row ≡ true
      → is_expired purge row ≡ false
  not_expired purge row le h = ground arith

  -- Another nonce may be added; no unexpired one goes.
  insert_held :
      (p : NonceRow → Bool) (row : NonceRow) (rows : List NonceRow)
      → exists (is_held device nonce until) rows ≡ true
      → exists (is_held device nonce until) (insert_or_ignore p row rows) ≡ true
  unfolding insert_or_ignore
  insert_held p row rows h =
      ground (arith, exists-append (is_held device nonce until) rows (row ∷ []))

  purge_early :
      (w : World)
      → w.clock ≡ c
      → ((i : ℕ) → i < suc (suc w.readings) → c i ≤ until)
      → w.clock w.readings ≤ until
  purge_early w e early = rw e (early w.readings (omega arith))

  record_nonce-Keeps : (d n : Bytes) → Keeps c (Held c device nonce until) (record_nonce d n)
  unfolding record_nonce ◌>>=◌
  record_nonce-Keeps d n = record {
    at = λ w e h. record {
      same_clock = e;
      holds = record {
        held = λ early.
            insert_held (is_nonce d n) _
              (delete (is_expired (w.clock w.readings)) w.db.request_nonces)
              (exists-delete (is_held device nonce until) (is_expired (w.clock w.readings))
                w.db.request_nonces
                (λ row is. not_expired (w.clock w.readings) row (purge_early w e early) is)
                (h.held (λ i lt. early i (omega arith))));
      };
      forward = omega arith;
    };
  }

  messages_rule :
      (k : ℕ) (db : Db) (ms : List MessageRow) (i : ℕ)
      → Held c device nonce until k db
      → Held c device nonce until k (record db { messages = ms; last_server_id = i })
  messages_rule k db ms i h = record { held = h.held }

  insert_message-Held :
      {Key : Type 0} (host : Host Key) (known : Option MessageRow) (s r m : Bytes) (e : Option ℕ)
      (t : Bytes) (at : ℕ)
      → Keeps c (Held c device nonce until) (insert_message host known s r m e t at)
  unfolding insert_message
  insert_message-Held host none s r m e t at = search (keeps_rules, messages_rule) depth 40
  insert_message-Held host (some x) s r m e t at = search keeps_rules

  store_message-Held :
      {Key : Type 0} (host : Host Key) (s r m : Bytes) (e : Option ℕ) (t : Bytes)
      → Keeps c (Held c device nonce until) (store_message host s r m e t)
  unfolding store_message
  store_message-Held host s r m e t =
      search (keeps_rules, Held-Stable, insert_message-Held) depth 40

  Held-Rules : {Key : Type 0} (host : Host Key) → Rules host c (Held c device nonce until)
  Held-Rules host = record {
    stable = Held-Stable;
    allowlist = λ k db x h. record { held = h.held };
    enrollments = λ k db x h. record { held = h.held };
    challenges = λ k db x h. record { held = h.held };
    devices = λ k db x h. record { held = h.held };
    contacts = λ k db x h. record { held = h.held };
    nonces = record_nonce-Keeps;
    store = store_message-Held host;
    purge = λ time k db h. record { held = h.held };
    acks = λ id r time k db h. record { held = h.held };
  }

-- A nonce that was not there is inserted.
ok_nonce :
    (d n : Bytes) (purge stamp : ℕ) (rows : List NonceRow)
    → let kept = delete (is_expired purge) rows in
      exists (is_nonce d n) kept ≡ false
      → exists (is_held d n (stamp + 600)) (
          insert_or_ignore
            (is_nonce d n)
            (record { client_id = d; nonce = n; expires_at = stamp + 600 })
            kept)
        ≡ true
unfolding insert_or_ignore
ok_nonce d n purge stamp rows e = rw e (
    exists-last (is_held d n (stamp + 600)) (delete (is_expired purge) rows) _
      (ground (arith, bytes_eq_refl d, bytes_eq_refl n)))

-- What a verified request leaves: the time was within five minutes of the timestamp, and the nonce
-- is held for ten minutes from the moment of its insertion.
verify_signature_ok :
    {Key : Type 0} (host : Host Key) (d m p b n : Bytes) (t : ℕ) (s : Bytes) (w w' : World)
    → verify_signature host d m p b n t s w ≡ (ok tt, w')
    → (t ≤ w.clock w.readings + 300)
      × (w'.clock ≡ w.clock)
      × (w'.readings ≡ w.readings + 3)
      × (exists (is_held d n (w.clock (w.readings + 2) + 600)) w'.db.request_nonces ≡ true)
unfolding verify_signature record_nonce ◌>>=◌
verify_signature_ok host d m p b n t s w w' e =
    ground (
      arith,
      ok_nonce d n (w.clock (w.readings + 1)) (w.clock (w.readings + 2)) w.db.request_nonces,
    )

-- A held nonce is refused.
held_refused :
    {Key : Type 0} (host : Host Key) (d m p b n : Bytes) (t : ℕ) (s : Bytes) (until : ℕ) (w : World)
    → exists (is_held d n until) w.db.request_nonces ≡ true
    → w.clock (suc w.readings) ≤ until
    → (verify_signature host d m p b n t s w).0 ≢ ok tt
unfolding verify_signature record_nonce ◌>>=◌
held_refused host d m p b n t s until w held early = ground (arith, known)
  where
    purge : ℕ
    purge = w.clock (suc w.readings)

    known : exists (is_nonce d n) (delete (is_expired purge) w.db.request_nonces) ≡ true
    known =
        exists_mono (is_held d n until) (is_nonce d n) _ (λ row h. ground arith)
          (exists-delete (is_held d n until) (is_expired purge) w.db.request_nonces
            (λ row h. not_expired w.clock d n until purge row early h) held)

verify_signature_time :
    {Key : Type 0} (host : Host Key) (d m p b n : Bytes) (t : ℕ) (s : Bytes) (w : World)
    → (verify_signature host d m p b n t s w).0 ≡ ok tt
    → w.clock w.readings ≤ t + 300
unfolding verify_signature ◌>>=◌
verify_signature_time host d m p b n t s w e = ground arith

-- The request that a device signed is good for one use: after it has been accepted, and whatever
-- calls follow, the same nonce and timestamp are not accepted from that device again, provided
-- that the clock does not go back and does not advance between the test of the timestamp and the
-- purge of old nonces.
pub replay_refused :
    {Key : Type 0} (host : Host Key) (admin : Option Bytes) (d n : Bytes) (t : ℕ)
    (m p b s m' p' b' s' : Bytes) (calls : List Call) (w w' : World)
    → ((i j : ℕ) → i ≤ j → w.clock i ≤ w.clock j)
    → verify_signature host d m p b n t s w ≡ (ok tt, w')
    → let later = serve host admin calls w' in
      later.clock (suc later.readings) ≡ later.clock later.readings
      → (verify_signature host d m' p' b' n t s' later).0 ≢ ok tt
replay_refused host admin d n t m p b s m' p' b' s' calls w w' mono first still accepted =
    let until = w.clock (w.readings + 2) + 600 in
    let (sent, clock_is, reads, held) = verify_signature_ok host d m p b n t s w w' first in
    let later = serve host admin calls w' in
    let after =
      serve-After host w.clock (Held w.clock d n until) (Held-Rules w.clock d n until host) admin
        calls w' clock_is (record { held = λ _. held }) in
    let at_same : (i : ℕ) → later.clock i ≡ w.clock i = λ i. ap (λ f. f i) after.same_clock in
    let now_early : w.clock later.readings ≤ until = omega (
      arith,
      at_same later.readings,
      verify_signature_time host d m' p' b' n t s' later accepted,
      mono w.readings (w.readings + 2) (omega arith),
    ) in
    held_refused host d m' p' b' n t s' until later
      (after.holds.held (λ i lt. omega (arith, mono i later.readings (omega arith))))
      (omega (arith, at_same later.readings)) accepted
