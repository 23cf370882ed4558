-- ===== src/Relay/Router/Mailbox.antt =====
-- The table of messages across calls: the order of ids and the uniqueness of keys.
use safechat.Prelude.{ℕ, suc, ◌≡◌, refl, Option, none, some, List, arith}
use safechat.Prelude.Bytes.{Bytes}
use safechat.Relay.{Db, DeviceRow, MessageRow, not_found}
use safechat.Relay.Sql.{query_row}
use safechat.Relay.Host.{Host}
use safechat.Relay.Service.{World, ◌>>=◌, or_raise, query, now}
use safechat.Relay.Service.Keeps.{After, Keeps}
use safechat.Relay.Auth.{record_nonce}
use safechat.Relay.Messages.{
  is_message, is_addressed, is_acked, is_expired, insert_message, store_message,
}
use safechat.Relay.Messages.Ids.{Ascends, Ascends-append, Ascends-delete, Ascends-update}
use safechat.Relay.Messages.Keys.{
  Unique, Unique-append, Unique-delete, Unique-update, query_row-none,
}
use safechat.Relay.Router.{Call, serve}
use safechat.Relay.Router.Frame.{Rules, serve-After}

-- The ids of the messages rise strictly and none is above the counter; no key occurs twice.
pub record InOrder (k : ℕ) (db : Db) : Type 0 where
  pub rising : Ascends 0 db.messages db.last_server_id
  pub keyed : Unique db.messages

module _ (c : ℕ → ℕ) where
  record_nonce-InOrder : (d n : Bytes) → Keeps c InOrder (record_nonce d n)
  unfolding record_nonce ◌>>=◌
  record_nonce-InOrder d n = record {
    at = λ w e h. record {
      same_clock = e;
      holds = record { rising = h.rising; keyed = h.keyed };
      forward = omega arith;
    };
  }

  insert_message-After :
      {Key : Type 0} (host : Host Key) (s r m : Bytes) (e : Option ℕ) (t : Bytes)
      (known : Option MessageRow) (at : ℕ) (w : World)
      → query_row (is_message s r m) w.db.messages ≡ known
      → w.clock ≡ c
      → InOrder w.readings w.db
      → After c InOrder w (insert_message host known s r m e t at w).1
  unfolding insert_message ◌>>=◌
  insert_message-After host s r m e t (some row) at w is same h = record {
    same_clock = same;
    holds = h;
    forward = omega arith;
  }
  insert_message-After host s r m e t none at w is same h = record {
    same_clock = same;
    holds = record {
      rising = Ascends-append 0 w.db.messages w.db.last_server_id _ h.rising (omega arith);
      keyed =
          Unique-append w.db.messages _ (query_row-none (is_message s r m) w.db.messages is)
            h.keyed;
    };
    forward = omega arith;
  }

  -- `store_message` once the device has been looked up.
  store_found-After :
      {Key : Type 0} (host : Host Key) (s m : Bytes) (e : Option ℕ) (t : Bytes)
      (device : Option DeviceRow) (w : World)
      → w.clock ≡ c
      → InOrder w.readings w.db
      → After c InOrder w
          ((or_raise device not_found >>= λ d. now >>= λ at.
              query (λ db. query_row (is_message s d.client_id m) db.messages) >>= λ known.
              insert_message host known s d.client_id m e t at)
            w).1
  unfolding ◌>>=◌
  store_found-After host s m e t none w same h = record {
    same_clock = same;
    holds = h;
    forward = omega arith;
  }
  store_found-After host s m e t (some d) w same h =
      let later = record w { readings = suc w.readings } in
      let after =
        insert_message-After host s d.client_id m e t _ (w.clock w.readings) later refl same
          (record { rising = h.rising; keyed = h.keyed }) in
      record {
        same_clock = after.same_clock;
        holds = after.holds;
        forward = omega (arith, after.forward);
      }

  store_message-InOrder :
      {Key : Type 0} (host : Host Key) (s r m : Bytes) (e : Option ℕ) (t : Bytes)
      → Keeps c InOrder (store_message host s r m e t)
  unfolding store_message ◌>>=◌
  store_message-InOrder host s r m e t = record {
    at = λ w same h.
        store_found-After host s m e t (query_row (is_addressed r) w.db.devices) w same h;
  }

  InOrder-Rules : {Key : Type 0} (host : Host Key) → Rules host c InOrder
  InOrder-Rules host = record {
    stable = λ k db h. record { rising = h.rising; keyed = h.keyed };
    allowlist = λ k db x h. record { rising = h.rising; keyed = h.keyed };
    enrollments = λ k db x h. record { rising = h.rising; keyed = h.keyed };
    challenges = λ k db x h. record { rising = h.rising; keyed = h.keyed };
    devices = λ k db x h. record { rising = h.rising; keyed = h.keyed };
    contacts = λ k db x h. record { rising = h.rising; keyed = h.keyed };
    nonces = record_nonce-InOrder;
    store = store_message-InOrder host;
    purge = λ time k db h. record {
      rising = Ascends-delete (is_expired time) 0 db.messages db.last_server_id h.rising;
      keyed = Unique-delete (is_expired time) db.messages h.keyed;
    };
    acks = λ id r time k db h. record {
      rising =
          Ascends-update (is_acked id r) _ 0 db.messages db.last_server_id (λ m. refl) h.rising;
      keyed = Unique-update (is_acked id r) _ db.messages (λ m. (refl, refl, refl)) h.keyed;
    };
  }

-- Whatever calls run, the ids of the stored messages keep rising strictly in the order of storing,
-- none above the counter, and no two stored messages have one sender, recipient and message id.
pub messages-InOrder :
    {Key : Type 0} (host : Host Key) (admin : Option Bytes) (calls : List Call) (w : World)
    → InOrder w.readings w.db
    → let later = serve host admin calls w in InOrder later.readings later.db
messages-InOrder host admin calls w h =
    (serve-After host w.clock InOrder (InOrder-Rules w.clock host) admin calls w refl h).holds
