-- ===== src/Relay/Router/Retention.antt =====
-- How long a message is kept by codebase/relay/src/messages.rs.
use safechat.Prelude.{
  ℕ, ◌≡◌, refl, Bool, true, false, ◌&&◌, Option, none, some, List, [], ◌∷◌, ◌++◌, arith, ◌==◌, ◌∙◌,
}
use safechat.Prelude.Bytes.{Bytes, bytes_eq}
use safechat.Relay.{Db, MessageRow}
use safechat.Relay.Sql.{exists, exists-append, exists-delete}
use safechat.Relay.Host.{Host}
use safechat.Relay.Service.{World, ◌>>=◌}
use safechat.Relay.Service.Keeps.{Keeps, Stable, keeps_rules}
use safechat.Relay.Auth.{record_nonce}
use safechat.Relay.Messages.{
  is_message, is_null, is_past, is_acked, is_expired, insert_message, store_message,
}
use safechat.Relay.Messages.Keys.{exists-update}
use safechat.Relay.Router.{Call, serve}
use safechat.Relay.Router.Frame.{Rules, serve-After}

-- The message with this key, id and ciphertext, which has no expiry.
abbrev pub is_lasting : Bytes → Bytes → Bytes → ℕ → Bytes → MessageRow → Bool
is_lasting sender recipient message_id server_id ciphertext row =
    is_message sender recipient message_id row
    && (row.server_id == server_id
        && (bytes_eq row.ciphertext ciphertext && is_null row.expires_at))

pub record Lasts (s r m : Bytes) (id : ℕ) (t : Bytes) (k : ℕ) (db : Db) : Type 0 where
  pub stored : exists (is_lasting s r m id t) db.messages ≡ true

module _ (c : ℕ → ℕ) (s r m : Bytes) (id : ℕ) (t : Bytes) where
  Lasts-Stable : Stable (Lasts s r m id t)
  Lasts-Stable k db h = record { stored = h.stored }

  record_nonce-Lasts : (d n : Bytes) → Keeps c (Lasts s r m id t) (record_nonce d n)
  unfolding record_nonce ◌>>=◌
  record_nonce-Lasts d n = record {
    at = λ w e h. record {
      same_clock = e;
      holds = record { stored = h.stored };
      forward = omega arith;
    };
  }

  append_rule :
      (k i : ℕ) (db : Db) (row : MessageRow)
      → Lasts s r m id t k db
      → Lasts s r m id t k (record db { messages = db.messages ++ (row ∷ []); last_server_id = i })
  append_rule k i db row h = record {
    stored = ground (arith, h.stored, exists-append (is_lasting s r m id t) db.messages (row ∷ []));
  }

  insert_message-Lasts :
      {Key : Type 0} (host : Host Key) (known : Option MessageRow) (s' r' m' : Bytes) (e : Option ℕ)
      (t' : Bytes) (at : ℕ)
      → Keeps c (Lasts s r m id t) (insert_message host known s' r' m' e t' at)
  unfolding insert_message
  insert_message-Lasts host none s' r' m' e t' at = search (keeps_rules, append_rule) depth 40
  insert_message-Lasts host (some x) s' r' m' e t' at = search keeps_rules

  store_message-Lasts :
      {Key : Type 0} (host : Host Key) (s' r' m' : Bytes) (e : Option ℕ) (t' : Bytes)
      → Keeps c (Lasts s r m id t) (store_message host s' r' m' e t')
  unfolding store_message
  store_message-Lasts host s' r' m' e t' =
      search (keeps_rules, Lasts-Stable, insert_message-Lasts) depth 40

  lasting_unexpired :
      (time : ℕ) (row : MessageRow) → is_lasting s r m id t row ≡ true → is_expired time row ≡ false
  lasting_unexpired time row is = null_unexpired row.expires_at (ground arith)
    where
      null_unexpired : (e : Option _) → is_null e ≡ true → is_past e time ≡ false
      null_unexpired none h = refl
      null_unexpired (some x) h = ground arith

  Lasts-Rules : {Key : Type 0} (host : Host Key) → Rules host c (Lasts s r m id t)
  Lasts-Rules host = record {
    stable = Lasts-Stable;
    allowlist = λ k db x h. record { stored = h.stored };
    enrollments = λ k db x h. record { stored = h.stored };
    challenges = λ k db x h. record { stored = h.stored };
    devices = λ k db x h. record { stored = h.stored };
    contacts = λ k db x h. record { stored = h.stored };
    nonces = record_nonce-Lasts;
    store = store_message-Lasts host;
    purge = λ time k db h. record {
      stored =
          exists-delete (is_lasting s r m id t) (is_expired time) db.messages
            (lasting_unexpired time) h.stored;
    };
    acks = λ id' r' time k db h. record {
      stored =
          exists-update (is_lasting s r m id t) (is_acked id' r') _ db.messages (λ x. refl)
          ∙ h.stored;
    };
  }

-- A stored message without an expiry is never deleted or altered in its key, id and ciphertext, whatever
-- calls run: acknowledgements, revocations of its sender or recipient and purges among them.
pub message_lasts :
    {Key : Type 0} (host : Host Key) (admin : Option Bytes) (calls : List Call) (w : World)
    (s r m : Bytes) (id : ℕ) (t : Bytes)
    → exists (is_lasting s r m id t) w.db.messages ≡ true
    → exists (is_lasting s r m id t) (serve host admin calls w).db.messages ≡ true
message_lasts host admin calls w s r m id t h =
    (serve-After host w.clock (Lasts s r m id t) (Lasts-Rules w.clock s r m id t host) admin calls w
      refl (record { stored = h })).holds.stored
