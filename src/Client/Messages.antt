-- ===== src/Client/Messages.antt =====
-- codebase/transports/src/relay_client.rs: the requests about messages, and `MessageTransport` of
-- the client.
use safechat.Prelude.{
  ℕ, ℤ, true, false, Option, none, some, List, [], ◌∷◌, ◌++◌, map, Result, ok, err, if◌then◌else◌,
}
use safechat.Prelude.Bytes.{Bytes, bytes_eq, codes}
use safechat.Prelude.Text.{signed_decimal, parse_i64}
use safechat.Prelude.Programs.{pure, lift, context, ◌>>=◌}
use safechat.Protocol.{Submit, Message}
use safechat.Protocol.Reader.{decode_messages}
use safechat.Protocol.Writer.{encode_submit}
use safechat.Transport.{TransportMessage, DeliveryStatus}
use safechat.Client.{Action, Json, Member}
use safechat.Client.Calls.{signed_json, signed_binary}
use safechat.Protocol
use safechat.Client.Requests.{Ports, RelayMessageStatus, post, get_method}

unfoldable pub transport_message : Message → TransportMessage
unfolding signed_decimal
transport_message m = record {
  transport_id = signed_decimal m.server_id;
  sender = m.sender;
  sender_address = m.sender_address;
  message_id = m.message_id;
  ciphertext = m.ciphertext;
  accepted_at = m.accepted_at;
  expires_at = m.expires_at;
}

unfoldable pub delivery_status : Bytes → Result Bytes DeliveryStatus
unfolding bytes_eq
delivery_status status =
    if bytes_eq status (codes "sent")
    then ok DeliveryStatus.sent
    else (if bytes_eq status (codes "read")
        then ok DeliveryStatus.read
        else err (codes "relay returned unknown delivery status " ++ status))

abbrev first_message : List Message → Option Message
first_message [] = none
first_message (m ∷ ms) = some m

module _ {K N B : Type 0} (ports : Ports K N B) where
  -- An error of the frames as a text.
  abbrev of_frame : {A : Type 0} → Result Protocol.Error A → Result Bytes A
  of_frame (ok a) = ok a
  of_frame (err e) = err (ports.error_text e)

  unfoldable pub send_message : Bytes → Bytes → Bytes → Option ℕ → Action K N Message
  unfolding ◌>>=◌ encode_submit signed_binary decode_messages
  send_message recipient message_id ciphertext expires_at = do
    let submit : Submit = record {
      recipient = recipient;
      message_id = message_id;
      expires_at = expires_at;
      ciphertext = ciphertext;
    }
    body ← lift (of_frame (encode_submit submit))
    response ← signed_binary ports.host post (codes "/v1/messages") body true
    messages ← lift (of_frame (decode_messages response))
    context (first_message messages) (codes "relay returned no sent message")

  unfoldable pub receive_messages : ℤ → Action K N (List Message)
  unfolding ◌>>=◌ signed_decimal signed_binary decode_messages
  receive_messages cursor = do
    let path = codes "/v1/messages?cursor=" ++ signed_decimal cursor
    response ← signed_binary ports.host get_method path [] false
    lift (of_frame (decode_messages response))

  unfoldable pub acknowledge_id : ℤ → Action K N (Unit {0})
  unfolding signed_decimal signed_json
  acknowledge_id server_id =
      signed_json ports.host ports.parsers.value post
        (codes "/v1/messages/" ++ (signed_decimal server_id ++ codes "/ack"))
        (Json.object ((codes "acknowledged", Member.boolean true) ∷ []))

  unfoldable pub message_status : Bytes → Action K N RelayMessageStatus
  unfolding signed_json
  message_status message_id =
      signed_json ports.host ports.parsers.message_status get_method
        (codes "/v1/messages/status?message_id=" ++ message_id) Json.null

  -- `MessageTransport` of the client.
  unfoldable pub send : Bytes → Bytes → Bytes → Option ℕ → Action K N (Unit {0})
  unfolding ◌>>=◌ send_message
  send recipient message_id ciphertext expires_at = do
    message ← send_message recipient message_id ciphertext expires_at
    pure tt

  unfoldable pub receive : ℤ → Action K N (List TransportMessage)
  unfolding ◌>>=◌ receive_messages transport_message
  receive cursor = do messages ← receive_messages cursor; pure (map transport_message messages)

  unfoldable pub acknowledge : TransportMessage → Action K N (Unit {0})
  unfolding ◌>>=◌ parse_i64 acknowledge_id
  acknowledge message = do
    server_id ←
        context (parse_i64 message.transport_id)
          (codes "relay returned an invalid transport message ID")
    acknowledge_id server_id

  unfoldable pub status : Bytes → Action K N DeliveryStatus
  unfolding ◌>>=◌ message_status delivery_status
  status message_id = do answer ← message_status message_id; lift (delivery_status answer.status)
