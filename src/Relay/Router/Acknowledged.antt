-- ===== src/Relay/Router/Acknowledged.antt =====
-- The effect of an acknowledgement in codebase/relay/src/messages.rs on later pages.
use safechat.Prelude.{
  ℕ, ℤ, pos, suc, ◌≤◌, ◌≡◌, refl, sym, subst, Bool, true, false, ◌&&◌, Option, none, some, List, [],
  ◌∷◌, ◌++◌, arith, ◌==◌,
}
use safechat.Prelude.Bytes.{Bytes, bytes_eq, codes}
use safechat.Prelude.Text.{signed_decimal}
use safechat.Relay.{Db, MessageRow}
use safechat.Relay.Sql.{exists, count, update, select, limit}
use safechat.Relay.Host.{Host, Headers}
use safechat.Relay.Service.{World, ◌>>=◌}
use safechat.Relay.Service.Keeps.{Keeps, Stable, keeps_rules}
use safechat.Relay.Service.Returns.{
  Returns, returns, bind-ok, checked-ok, or_raise-ok, raise_if-ok, now-ok, query-ok, execute-ok,
  last_raise_if-ok, last_raise_if-world,
}
use safechat.Relay.Auth.{record_nonce, authenticate_request}
use safechat.Relay.Auth.Genuine.{Genuine, authenticate-Genuine}
use safechat.Relay.Auth.Untouched.{authenticate_same}
use safechat.Relay.Messages.{
  is_pending, is_null, is_acked, is_expired, insert_message, store_message, acknowledge,
}
use safechat.Relay.Messages.Ids.{Ascends}
use safechat.Relay.Messages.Keys.{exists_false-delete}
use safechat.Relay.Messages.Delivery.{page}
use safechat.Relay.Router.{Call, serve}
use safechat.Relay.Router.Frame.{Rules, serve-After}
use safechat.Relay.Router.Mailbox.{InOrder}

-- `format!("/v1/messages/{server_id}/ack")`
abbrev pub ack_path : ℕ → Bytes
ack_path id = codes "/v1/messages/" ++ (signed_decimal (pos id) ++ codes "/ack")

-- The row with this id for this device, unacknowledged.
abbrev pub is_open : Bytes → ℕ → MessageRow → Bool
is_open device id row =
    bytes_eq row.recipient device && (row.server_id == id && is_null row.acknowledged_at)

pub record Closed (device : Bytes) (id k : ℕ) (db : Db) : Type 0 where
  pub none_open : exists (is_open device id) db.messages ≡ false
  pub given : id ≤ db.last_server_id

exists_false-update :
    {A : Type 0} (p q : A → Bool) (f : A → A) (xs : List A)
    → ((x : A) → p x ≡ false → p (f x) ≡ false)
    → exists p xs ≡ false
    → exists p (update q f xs) ≡ false
unfolding exists update
exists_false-update p q f [] keeps e = refl
exists_false-update p q f (x ∷ xs) keeps e =
    ground (arith, keeps x, exists_false-update p q f xs keeps)

exists_false-append :
    {A : Type 0} (p : A → Bool) (xs : List A) (y : A)
    → exists p xs ≡ false
    → p y ≡ false
    → exists p (xs ++ (y ∷ [])) ≡ false
unfolding exists
exists_false-append p [] y e h = ground arith
exists_false-append p (x ∷ xs) y e h = ground (arith, exists_false-append p xs y)

module _ (c : ℕ → ℕ) (device : Bytes) (id : ℕ) where
  Closed-Stable : Stable (Closed device id)
  Closed-Stable k db h = record { none_open = h.none_open; given = h.given }

  record_nonce-Closed : (d n : Bytes) → Keeps c (Closed device id) (record_nonce d n)
  unfolding record_nonce ◌>>=◌
  record_nonce-Closed d n = record {
    at = λ w e h. record {
      same_clock = e;
      holds = record { none_open = h.none_open; given = h.given };
      forward = omega arith;
    };
  }

  fresh_closed :
      (last : ℕ) (r : Bytes) → id ≤ last → (bytes_eq r device && (suc last == id && true)) ≡ false
  fresh_closed last r le = ground arith

  insert_message-Closed :
      {Key : Type 0} (host : Host Key) (known : Option MessageRow) (s r m : Bytes) (e : Option ℕ)
      (t : Bytes) (at : ℕ)
      → Keeps c (Closed device id) (insert_message host known s r m e t at)
  unfolding insert_message ◌>>=◌
  insert_message-Closed host none s r m e t at = record {
    at = λ w same h. record {
      same_clock = same;
      holds = record {
        none_open =
            exists_false-append (is_open device id) w.db.messages _ h.none_open
              (fresh_closed w.db.last_server_id r h.given);
        given = omega (arith, h.given);
      };
      forward = omega arith;
    };
  }
  insert_message-Closed host (some x) s r m e t at = search keeps_rules

  store_message-Closed :
      {Key : Type 0} (host : Host Key) (s r m : Bytes) (e : Option ℕ) (t : Bytes)
      → Keeps c (Closed device id) (store_message host s r m e t)
  unfolding store_message
  store_message-Closed host s r m e t =
      search (keeps_rules, Closed-Stable, insert_message-Closed) depth 40

  acked_closed :
      (time : ℕ) (row : MessageRow)
      → is_open device id row ≡ false
      → is_open device id (record row { acknowledged_at = some time }) ≡ false
  acked_closed time row h = ground arith

  Closed-Rules : {Key : Type 0} (host : Host Key) → Rules host c (Closed device id)
  Closed-Rules host = record {
    stable = Closed-Stable;
    allowlist = λ k db x h. record { none_open = h.none_open; given = h.given };
    enrollments = λ k db x h. record { none_open = h.none_open; given = h.given };
    challenges = λ k db x h. record { none_open = h.none_open; given = h.given };
    devices = λ k db x h. record { none_open = h.none_open; given = h.given };
    contacts = λ k db x h. record { none_open = h.none_open; given = h.given };
    nonces = record_nonce-Closed;
    store = store_message-Closed host;
    purge = λ time k db h. record {
      none_open = exists_false-delete (is_open device id) (is_expired time) db.messages h.none_open;
      given = h.given;
    };
    acks = λ id' r' time k db h. record {
      none_open =
          exists_false-update (is_open device id) (is_acked id' r') _ db.messages
            (acked_closed time) h.none_open;
      given = h.given;
    };
  }

exists_false-limit :
    {A : Type 0} (p : A → Bool) (n : ℕ) (xs : List A)
    → exists p xs ≡ false
    → exists p (limit n xs) ≡ false
unfolding exists limit
exists_false-limit p ℕ.zero xs e = refl
exists_false-limit p (suc n) [] e = refl
exists_false-limit p (suc n) (x ∷ xs) e = ground (arith, exists_false-limit p n xs)

closed_select :
    (device : Bytes) (id : ℕ) (cursor : ℤ) (rows : List MessageRow)
    → exists (is_open device id) rows ≡ false
    → exists (λ m. m.server_id == id) (select (is_pending device cursor) rows) ≡ false
unfolding exists select
closed_select device id cursor [] e = refl
closed_select device id cursor (row ∷ rows) e = ground (arith, closed_select device id cursor rows)

-- No page of a device has a message that is closed for it.
closed_page :
    (device : Bytes) (id : ℕ) (db : Db) (cursor : ℤ) (time : ℕ)
    → exists (is_open device id) db.messages ≡ false
    → exists (λ m. m.server_id == id) (page db device cursor time) ≡ false
closed_page device id db cursor time e =
    exists_false-limit _ 100 _
      (closed_select device id cursor _ (exists_false-delete _ (is_expired time) db.messages e))

Ascends-le : (low : ℕ) (rows : List MessageRow) (high : ℕ) → Ascends low rows high → low ≤ high
Ascends-le low [] high a = a
Ascends-le low (row ∷ rows) high a = omega (arith, a.0, Ascends-le row.server_id rows high a.1)

Ascends-acked :
    (device : Bytes) (id low : ℕ) (rows : List MessageRow) (high : ℕ)
    → Ascends low rows high
    → (count (is_acked (pos id) device) rows == 0) ≡ false
    → id ≤ high
unfolding count
Ascends-acked device id low [] high a e = ground arith
Ascends-acked device id low (row ∷ rows) high a e = ground (
  arith,
  Ascends-le row.server_id rows high a.1,
  Ascends-acked device id row.server_id rows high a.1,
)

acked_rows :
    (device : Bytes) (id time : ℕ) (rows : List MessageRow)
    → exists
        (is_open device id)
        (update (is_acked (pos id) device) (λ m. record m { acknowledged_at = some time }) rows)
      ≡ false
unfolding exists update
acked_rows device id time [] = refl
acked_rows device id time (row ∷ rows) = ground (arith, acked_rows device id time rows)

module _ {Key : Type 0} (host : Host Key) where
  acknowledge-Closed :
      (headers : Headers) (id : ℕ) (body : Bytes) (w : World) (u : Unit {0}) (w' : World)
      → InOrder w.readings w.db
      → Returns (acknowledge host headers (pos id) body) w u w'
      → (device : Bytes) × (Genuine host headers (codes "POST") (ack_path id) body w device)
        × Closed device id w'.readings w'.db
  unfolding acknowledge
  acknowledge-Closed headers id body w u w' order e = checked-ok _ e λ _ _ e.
      checked-ok _ e λ _ _ e. bind-ok _ _ e λ device sent e. or_raise-ok _ _ e λ _ _ e.
        raise_if-ok _ _ e λ _ e. now-ok _ e λ e. query-ok _ _ e λ e. execute-ok _ _ e λ e.
          let auth = authenticate_request host headers (codes "POST") (ack_path id) body none in
          let v = (auth w).1 in
          let kept = authenticate_same host headers (codes "POST") (ack_path id) body none w in
          let rising : Ascends 0 v.db.messages v.db.last_server_id =
            subst (λ db. Ascends 0 db.messages db.last_server_id) (sym kept) order.rising in
          let some_row = last_raise_if-ok _ _ _ u w' e in
          let same = last_raise_if-world _ _ _ u w' e in
          (
            device,
            (authenticate-Genuine host headers _ _ body none w device v
                (returns auth w device sent)).0,
            subst (λ z. Closed device id z.readings z.db) same
                (record {
                  none_open = acked_rows device id (v.clock v.readings) v.db.messages;
                  given =
                      Ascends-acked device id 0 v.db.messages v.db.last_server_id rising some_row;
                }),
          )

  -- After an acknowledgement that returns, which an active device signed, no page of messages for
  -- that device has the message with the acknowledged id, for any cursor and time, whatever calls
  -- run in between. The stored ids must rise in storing order before it, as they do in a new relay.
  pub acknowledged_gone :
      (admin : Option Bytes) (headers : Headers) (id : ℕ) (body : Bytes) (calls : List Call)
      (w : World) (u : Unit {0}) (w' : World) (cursor : ℤ) (time : ℕ)
      → InOrder w.readings w.db
      → Returns (acknowledge host headers (pos id) body) w u w'
      → (device : Bytes) × Genuine host headers (codes "POST") (ack_path id) body w device
        × (exists (λ m. m.server_id == id) (page (serve host admin calls w').db device cursor time)
            ≡ false)
  acknowledged_gone admin headers id body calls w u w' cursor time order e =
      let (device, genuine, closed) = acknowledge-Closed headers id body w u w' order e in
      let after =
        serve-After host w'.clock (Closed device id) (Closed-Rules w'.clock device id host) admin
          calls w' refl closed in
      (
        device,
        genuine,
        closed_page device id (serve host admin calls w').db cursor time after.holds.none_open,
      )
