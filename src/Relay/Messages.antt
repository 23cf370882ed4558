-- ===== src/Relay/Messages.antt =====
-- codebase/relay/src/messages.rs: submission, retrieval, acknowledgement and status.
pub mod Ids
pub mod Keys
pub mod Delivery
pub mod Resend
use safechat.Prelude.{
  ℕ, suc, Bool, true, false, ◌&&◌, ◌||◌, not, Option, none, some, List, [], ◌∷◌, ◌++◌, map, ltb,
  if◌then◌else◌, length, ℤ, pos, negsuc, leb_ℤ, as_i64, as_u64, ◌==◌,
}
use mathlib.Core.Option
use safechat.Prelude.Bytes.{Bytes, bytes_eq, codes}
use safechat.Prelude.Text.{signed_decimal}
use safechat.Protocol
use safechat.Protocol.{max_ciphertext_bytes, max_message_id_bytes}
use safechat.Relay.{
  Db, DeviceRow, MessageRow, ApiError, bad_request, unauthorized, not_found, payload_too_large,
  internal, not_acknowledged, not_json,
}
use safechat.Relay.Sql.{select, query_row, delete, update, count, exists, insert_or_ignore, limit}
use safechat.Relay.Host.{Host, Headers}
use safechat.Relay.Service.{
  World, Action, ◌>>=◌, ◌>>◌, pure, raise_if, or_raise, query, execute, now, checked,
}
use safechat.Relay.Validation.{
  MessageResponse, require_binary_accept, decode_message_request, encode_binary_messages,
  validate_json_accept, validate_text, require_json_content,
}
use safechat.Relay.Auth.{authenticate_request}

-- The unique key (sender, recipient, client_message_id).
abbrev pub is_message : Bytes → Bytes → Bytes → MessageRow → Bool
is_message sender recipient id row =
    bytes_eq row.sender sender
    && (bytes_eq row.recipient recipient && bytes_eq row.client_message_id id)

-- devices WHERE client_id = ?1 OR device_address = ?1
abbrev pub is_addressed : Bytes → DeviceRow → Bool
is_addressed name d = bytes_eq d.client_id name || bytes_eq d.device_address name

-- `expires_at IS NOT NULL AND expires_at <= ?1`
abbrev pub is_past : Option ℤ → ℕ → Bool
is_past none time = false
is_past (some at) time = leb_ℤ at (pos time)

abbrev pub is_expired : ℕ → MessageRow → Bool
is_expired time row = is_past row.expires_at time

abbrev pub is_null : {A : Type 0} → Option A → Bool
is_null none = true
is_null (some a) = false

-- `recipient = ?1 AND server_id > ?2 AND acknowledged_at IS NULL`
abbrev pub is_pending : Bytes → ℤ → MessageRow → Bool
is_pending recipient cursor row =
    bytes_eq row.recipient recipient
    && (not (leb_ℤ (pos row.server_id) cursor) && is_null row.acknowledged_at)

abbrev pub eq_ℤ : ℤ → ℤ → Bool
eq_ℤ (pos a) (pos b) = a == b
eq_ℤ (pos a) (negsuc b) = false
eq_ℤ (negsuc a) (pos b) = false
eq_ℤ (negsuc a) (negsuc b) = a == b

-- `server_id = ?2 AND recipient = ?3`
abbrev pub is_acked : ℤ → Bytes → MessageRow → Bool
is_acked server_id recipient row =
    eq_ℤ (pos row.server_id) server_id && bytes_eq row.recipient recipient

unfoldable pub cursor_or_zero : Option ℤ → ℤ
cursor_or_zero none = pos 0
cursor_or_zero (some cursor) = cursor

module _ {Key : Type 0} (host : Host Key) where
  -- A row of the SELECT that `send`, `receive` and the events share: LEFT JOIN devices.
  unfoldable pub to_response : List DeviceRow → MessageRow → MessageResponse
  to_response devices row = record {
    server_id = pos row.server_id;
    sender = row.sender;
    sender_address =
        Option.map (λ d. d.device_address)
          (query_row (λ d. bytes_eq d.client_id row.sender) devices);
    message_id = row.client_message_id;
    ciphertext = host.b64 row.ciphertext;
    accepted_at = row.accepted_at;
    expires_at = Option.map as_u64 row.expires_at;
  }

  -- `send` after INSERT OR IGNORE: on a key that is known the stored message is the answer, and
  -- otherwise the new one.
  unfoldable pub insert_message :
      Option MessageRow → Bytes → Bytes → Bytes → Option ℕ → Bytes → ℕ → Action MessageResponse
  insert_message (some existing) sender recipient message_id expires_at ciphertext accepted_at =
      query (λ db. to_response db.devices existing)
  insert_message none sender recipient message_id expires_at ciphertext accepted_at = do
    execute λ db. record db {
      messages =
          db.messages
          ++ (record {
            server_id = suc db.last_server_id;
            sender = sender;
            recipient = recipient;
            client_message_id = message_id;
            ciphertext = ciphertext;
            accepted_at = accepted_at;
            expires_at = Option.map as_i64 expires_at;
            acknowledged_at = none;
          }
              ∷ []);
      last_server_id = suc db.last_server_id;
    }
    id ← query (λ db. db.last_server_id)
    pure (record {
      server_id = pos id;
      sender = sender;
      sender_address = none;
      message_id = message_id;
      ciphertext = host.b64 ciphertext;
      accepted_at = accepted_at;
      expires_at = expires_at;
    })

  -- The part of `send` under the database lock.
  unfoldable pub store_message : Bytes → Bytes → Bytes → Option ℕ → Bytes → Action MessageResponse
  store_message sender recipient message_id expires_at ciphertext = do
    device ← query (λ db. query_row (is_addressed recipient) db.devices)
    device ← or_raise device not_found
    accepted_at ← now
    known ← query (λ db. query_row (is_message sender device.client_id message_id) db.messages)
    insert_message known sender device.client_id message_id expires_at ciphertext accepted_at

  unfoldable pub send : Headers → Bytes → Action Bytes
  send headers body = do
    checked (require_binary_accept host headers)
    sender ← authenticate_request host headers (codes "POST") (codes "/v1/messages") body none
    request ← checked (decode_message_request host headers body)
    raise_if (ltb max_ciphertext_bytes (length request.ciphertext)) payload_too_large
    response ←
        store_message sender request.recipient request.message_id request.expires_at
          request.ciphertext
    or_raise (encode_binary_messages host (response ∷ [])) internal

  -- The SELECT of `receive` and of a poll on the events socket.
  unfoldable pub pending_messages : Db → Bytes → ℤ → List MessageResponse
  pending_messages db recipient cursor =
      map (to_response db.devices) (limit 100 (select (is_pending recipient cursor) db.messages))

  unfoldable pub receive : Headers → Option ℤ → Action Bytes
  receive headers cursor = do
    checked (require_binary_accept host headers)
    recipient ← authenticate_request host headers (codes "GET") (codes "/v1/messages") [] none
    time ← now
    execute (λ db. record db { messages = delete (is_expired time) db.messages })
    messages ← query (λ db. pending_messages db recipient (cursor_or_zero cursor))
    or_raise (encode_binary_messages host messages) internal

  -- `DeliveryStatus` on the wire: "read" or "sent".
  unfoldable pub status : Headers → Bytes → Action Bytes
  status headers message_id = do
    checked (validate_json_accept host headers)
    checked (validate_text message_id max_message_id_bytes)
    sender ← authenticate_request host headers (codes "GET") (codes "/v1/messages/status") [] none
    row ← query (λ db.
        query_row (λ m. bytes_eq m.sender sender && bytes_eq m.client_message_id message_id)
          db.messages)
    row ← or_raise row not_found
    pure (if is_null row.acknowledged_at then codes "sent" else codes "read")

  unfoldable pub acknowledge : Headers → ℤ → Bytes → Action (Unit {0})
  acknowledge headers server_id body = do
    checked (require_json_content host headers)
    checked (validate_json_accept host headers)
    recipient ←
        authenticate_request host headers (codes "POST")
          (codes "/v1/messages/" ++ (signed_decimal server_id ++ codes "/ack")) body none
    acknowledged ← or_raise (host.parse_ack body) (bad_request not_json)
    raise_if (not acknowledged) (bad_request not_acknowledged)
    time ← now
    changed ← query (λ db. count (is_acked server_id recipient) db.messages)
    execute (λ db. record db {
      messages =
          update (is_acked server_id recipient) (λ m. record m { acknowledged_at = some time })
            db.messages;
    })
    raise_if (changed == 0) not_found
