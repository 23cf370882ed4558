-- ===== src/Relay/Messages/Delivery.antt =====
-- codebase/relay/src/messages.rs: what a device is given when it collects its messages.
use safechat.Prelude.{
  ℕ, ℤ, pos, zero, suc, true, false, leb_ℤ, ◌≡◌, refl, ap, Bool, Option, none, some, List, [], ◌∷◌,
  map, ok, arith, as_u64, All, subst, ◌↔◌,
}
use mathlib.Core.Option
use safechat.Prelude.Bytes.{Bytes, bytes_eq, bytes_eq_iff, codes}
use safechat.Protocol.{Message}
use safechat.Protocol.Writer.{encode_messages}
use safechat.Protocol.Reader.{decode_messages}
use safechat.Protocol.RoundTrip.{IsMessage, decode_messages-encode_messages}
use safechat.Relay.{Db, DeviceRow, MessageRow}
use safechat.Relay.Sql.{query_row, select, limit, delete}
use safechat.Relay.Host.{Host, Headers, Base64RoundTrips}
use safechat.Relay.Service.{World}
use safechat.Relay.Service.Returns.{
  Returns, returns, bind-ok, query-ok, now-ok, checked-ok, execute-ok, last_or_raise-ok,
}
use safechat.Relay.Validation.{binary_message, binary_messages, encode_binary_messages}
use safechat.Relay.Auth.{authenticate_request}
use safechat.Relay.Auth.Genuine.{Genuine, authenticate-Genuine}
use safechat.Relay.Auth.Untouched.{authenticate_same, authenticate_clock}
use safechat.Relay.Messages.{
  is_pending, is_expired, is_past, is_null, cursor_or_zero, to_response, pending_messages, receive,
}

-- The message that stands for a stored row on the wire.
abbrev pub wire_message : List DeviceRow → MessageRow → Message
wire_message devices row = record {
  server_id = pos row.server_id;
  sender = row.sender;
  sender_address =
      Option.map (λ d. d.device_address) (query_row (λ d. bytes_eq d.client_id row.sender) devices);
  message_id = row.client_message_id;
  accepted_at = row.accepted_at;
  expires_at = Option.map as_u64 row.expires_at;
  ciphertext = row.ciphertext;
}

-- The unexpired rows for the device after the cursor that it has not acknowledged, the first
-- hundred of them.
abbrev pub page : Db → Bytes → ℤ → ℕ → List MessageRow
page db device cursor time =
    limit 100 (select (is_pending device cursor) (delete (is_expired time) db.messages))

-- The row has an expiry, and it is not after the time.
abbrev pub Expired : ℕ → MessageRow → Type 0
Expired time row = (at : ℤ) × (row.expires_at ≡ some at) × (leb_ℤ at (pos time) ≡ true)

-- The row is for the device, comes after the cursor, and has not been acknowledged.
abbrev pub Waiting : Bytes → ℤ → MessageRow → Type 0
Waiting device cursor row =
    (row.recipient ≡ device)
    × (leb_ℤ (pos row.server_id) cursor ≡ false)
    × (row.acknowledged_at ≡ none)

is_expired_iff : (time : ℕ) (row : MessageRow) → (is_expired time row ≡ true) ↔ Expired time row
is_expired_iff time row = (to_expired row.expires_at, λ (at, is, past). rw is past)
  where
    to_expired :
        (o : Option ℤ)
        → is_past o time ≡ true
        → (at : ℤ) × (o ≡ some at) × (leb_ℤ at (pos time) ≡ true)
    to_expired none h = cc
    to_expired (some at) h = (at, refl, h)

is_pending_iff :
    (device : Bytes) (cursor : ℤ) (row : MessageRow)
    → (is_pending device cursor row ≡ true) ↔ Waiting device cursor row
is_pending_iff device cursor row = (
  λ h. (
    (bytes_eq_iff row.recipient device).0 (ground arith),
    ground arith,
    to_none row.acknowledged_at (ground arith),
  ),
  λ (recipient, after, unread).
      let same : bytes_eq row.recipient device ≡ true =
        (bytes_eq_iff row.recipient device).1 recipient in
      rw (same, after, unread) refl,
)
  where
    to_none : (o : Option ℕ) → is_null o ≡ true → o ≡ none
    to_none none h = refl
    to_none (some at) h = cc

-- The request was signed by an active device, nothing expired is left in the table, and the frame
-- of the answer decodes to that device's page. The time is the last reading of the clock.
pub record Delivered {Key : Type 0} (host : Host Key) (headers : Headers) (cursor : Option ℤ)
    (w : World) (body : Bytes) (w' : World) : Type 0 where
  pub device : Bytes
  pub time : ℕ
  pub last_reading : ℕ
  pub read_last : suc last_reading ≡ w'.readings
  pub time_is : time ≡ w.clock last_reading
  pub genuine : Genuine host headers (codes "GET") (codes "/v1/messages") [] w device
  pub expired_is : (row : MessageRow) → (is_expired time row ≡ true) ↔ Expired time row
  pub pending_is :
      (row : MessageRow)
      → (is_pending device (cursor_or_zero cursor) row ≡ true)
        ↔ Waiting device (cursor_or_zero cursor) row
  pub purged : w'.db.messages ≡ delete (is_expired time) w.db.messages
  pub decodes :
      decode_messages body
      ≡ ok (map (wire_message w.db.devices) (page w.db device (cursor_or_zero cursor) time))

module _ (P : MessageRow → Type 0) where
  All-delete : (d : MessageRow → Bool) (rows : List MessageRow) → All P rows → All P (delete d rows)
  unfolding delete
  All-delete d [] a = a
  All-delete d (row ∷ rows) a = ground (arith, a.0, All-delete d rows a.1)

  All-select : (p : MessageRow → Bool) (rows : List MessageRow) → All P rows → All P (select p rows)
  unfolding select
  All-select p [] a = a
  All-select p (row ∷ rows) a = ground (arith, a.0, All-select p rows a.1)

  All-limit : (n : ℕ) (rows : List MessageRow) → All P rows → All P (limit n rows)
  unfolding limit
  All-limit zero rows a = tt
  All-limit (suc n) [] a = a
  All-limit (suc n) (row ∷ rows) a = (a.0, All-limit n rows a.1)

All-wire :
    (devices : List DeviceRow) (rows : List MessageRow)
    → All (λ row. IsMessage (wire_message devices row)) rows
    → All IsMessage (map (wire_message devices) rows)
All-wire devices [] a = tt
All-wire devices (row ∷ rows) a = (a.0, All-wire devices rows a.1)

module _ {Key : Type 0} (host : Host Key) (round : Base64RoundTrips host) where
  binary_messages-to_response :
      (devices : List DeviceRow) (rows : List MessageRow)
      → binary_messages host (map (to_response host devices) rows)
        ≡ some (map (wire_message devices) rows)
  unfolding binary_messages binary_message to_response
  binary_messages-to_response devices [] = refl
  binary_messages-to_response devices (row ∷ rows) =
      ground (arith, round row.ciphertext, binary_messages-to_response devices rows)

  encode_ok :
      (devices : List DeviceRow) (rows : List MessageRow) (body : Bytes)
      → encode_binary_messages host (map (to_response host devices) rows) ≡ some body
      → encode_messages (map (wire_message devices) rows) ≡ ok body
  unfolding encode_binary_messages
  encode_ok devices rows body e = ground (arith, binary_messages-to_response devices rows)

  decodes_page :
      (devices : List DeviceRow) (rows : List MessageRow) (body : Bytes)
      → All (λ row. IsMessage (wire_message devices row)) rows
      → encode_binary_messages host (map (to_response host devices) rows) ≡ some body
      → decode_messages body ≡ ok (map (wire_message devices) rows)
  decodes_page devices rows body texts e =
      decode_messages-encode_messages (map (wire_message devices) rows) body
        (All-wire devices rows texts) (encode_ok devices rows body e)

  -- When `receive` answers, the request was signed by an active device, nothing that has expired by
  -- the last reading of the clock is left in the table, and the frame of the answer decodes to that
  -- device's page: the first hundred stored messages, in the order of storing, that are addressed to
  -- it, have an id above the cursor and have not been acknowledged. It is assumed that base64 decodes what it encodes, and that the
  -- stored texts are UTF-8 and the stored numbers fit their 64 bits.
  pub receive_page :
      (headers : Headers) (cursor : Option ℤ) (w : World) (body : Bytes) (w' : World)
      → All (λ row. IsMessage (wire_message w.db.devices row)) w.db.messages
      → Returns (receive host headers cursor) w body w'
      → Delivered host headers cursor w body w'
  unfolding receive pending_messages
  receive_page headers cursor w body w' texts e = checked-ok _ e λ _ _ e.
      bind-ok _ _ e λ device sent e. now-ok _ e λ e. execute-ok _ _ e λ e. query-ok _ _ e λ e.
        last_or_raise-ok _ _ e λ encoded same.
          let auth =
            authenticate_request host headers (codes "GET") (codes "/v1/messages") [] none in
          let v = (auth w).1 in
          let kept =
            authenticate_same host headers (codes "GET") (codes "/v1/messages") [] none w in
          let time = v.clock v.readings in
          let listed =
            subst
              (λ db.
                encode_binary_messages host
                  (map (to_response host db.devices) (page db device (cursor_or_zero cursor) time))
                ≡ some body)
              kept encoded in
          record {
            device = device;
            time = time;
            last_reading = v.readings;
            read_last = ap (λ (u : World). u.readings) same;
            time_is =
                ap (λ clock. clock v.readings)
                  (authenticate_clock host headers (codes "GET") (codes "/v1/messages") [] none w);
            genuine =
                (authenticate-Genuine host headers _ _ _ none w device v
                  (returns auth w device sent)).0;
            expired_is = is_expired_iff time;
            pending_is = is_pending_iff device (cursor_or_zero cursor);
            purged = cc (same, kept);
            decodes =
                decodes_page w.db.devices (page w.db device (cursor_or_zero cursor) time) body
                  (All-limit _ 100 _ (All-select _ _ _ (All-delete _ _ w.db.messages texts)))
                  listed;
          }
