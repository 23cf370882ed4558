-- ===== src/Chat/Poll.antt =====
-- codebase/application/src/chat_service.rs: `poll`, its three parts in order: receipts, the outbox,
-- and incoming messages.
use safechat.Prelude.{
  Bool, true, false, ◌&&◌, ◌||◌, not, Option, none, some, List, [], ◌∷◌, ◌++◌, Result, ok, err,
  if◌then◌else◌,
}
use safechat.Prelude.Bytes.{Bytes, bytes_eq, codes}
use safechat.Prelude.Utf8.{is_utf8}
use safechat.Prelude.Text.{trim, contains_text}
use safechat.Prelude.Programs.{pure, get, modify, context, attempt, raise, ◌>>=◌, ◌>>◌}
use safechat.History.{
  HistoryEntry, new_entry, with_message_id, with_peer, with_ciphertext, with_delivery_status,
}
use safechat.Transport.{
  TransportMessage, DeliveryStatus, MessageTransport, Base64, encode_text, decode_text,
}
use safechat.Chat.{
  ChatEvent, DecodedMessage, ChatService, World, Action, you, is_empty, any_id, mark_sent, on_state,
  on_transport, now, with_entries, push, save, advance_cursor,
}
use safechat.Prelude.{ℕ}

abbrev is_mine_in : Bytes → HistoryEntry → Bool
is_mine_in status entry = bytes_eq entry.sender you && bytes_eq entry.delivery_status status

unfoldable pub awaits_receipt : HistoryEntry → Bool
awaits_receipt entry = is_mine_in (codes "sent") entry && not (is_empty entry.message_id)

module _ {T : Type 0} (transport : MessageTransport T) where
  abbrev pub settle_entry :
      HistoryEntry → Result Bytes DeliveryStatus × T → HistoryEntry × List ChatEvent × T
  settle_entry e (ok DeliveryStatus.read, t) =
      (record e { delivery_status = codes "read" }, ChatEvent.read e.timestamp e.text ∷ [], t)
  settle_entry e (_, t) = (e, [], t)

  -- One round of the loop over the entries: an error of the status call is passed over.
  unfoldable pub refresh_entry : HistoryEntry → T → HistoryEntry × List ChatEvent × T
  unfolding awaits_receipt
  refresh_entry e t =
      if awaits_receipt e then settle_entry e (transport.status e.message_id t) else (e, [], t)

  unfoldable pub refresh_entries : List HistoryEntry → T → List HistoryEntry × List ChatEvent × T
  unfolding refresh_entry
  refresh_entries [] t = ([], [], t)
  refresh_entries (e ∷ es) t =
      let (e', event, t1) = refresh_entry e t in
      let (es', events, t2) = refresh_entries es t1 in (e' ∷ es', event ++ events, t2)

abbrev pub is_none : {A : Type 0} → List A → Bool
is_none [] = true
is_none (x ∷ xs) = false

-- Message id, recipient and ciphertext of the entries to submit again.
unfoldable pub outbox : List HistoryEntry → List (Bytes × Bytes × Bytes)
outbox [] = []
outbox (e ∷ es) =
    let rest = outbox es in
    if is_mine_in (codes "queued") e
    then (e.message_id, e.transport_recipient, e.ciphertext) ∷ rest
    else rest

unfoldable pub received_entry : Base64 → ℕ → Bytes → Bytes → Bytes → Bytes → Bytes → HistoryEntry
unfolding new_entry with_message_id with_peer with_ciphertext with_delivery_status encode_text
received_entry base64 timestamp name text message_id peer_address ciphertext =
    with_delivery_status
      (with_ciphertext
        (with_peer (with_message_id (new_entry timestamp name text) message_id) peer_address)
        (trim (encode_text base64 ciphertext)))
      (codes "received")

-- `String::from_utf8`
unfoldable pub from_utf8 : Bytes → Option Bytes
unfolding is_utf8
from_utf8 s = if is_utf8 s then some s else none

abbrev is_address : Option Bytes → Bytes → Bool
is_address none address = false
is_address (some a) address = bytes_eq a address

module _ {S B T H : Type 0} (service : ChatService S B T H) where
  unfoldable pub refreshed : World S T H → Result Bytes (List ChatEvent) × World S T H
  unfolding refresh_entries
  refreshed w =
      let (entries, events, t) = refresh_entries service.transport w.history.entries w.transport in
      (ok events, record w { history = record w.history { entries = entries }; transport = t })

  -- The receipts: the history is saved when one of them changed it.
  unfoldable pub refresh_receipts : Action S T H (List ChatEvent)
  unfolding ◌>>=◌ save refreshed
  refresh_receipts = do
    events ← refreshed
    if is_none events then pure tt else save service
    pure events

  -- After the submission of a queued message: an error is passed over.
  unfoldable pub after_submission : Bytes → Result Bytes (Unit {0}) → Action S T H (Unit {0})
  unfolding ◌>>=◌ save mark_sent
  after_submission message_id (err reason) = pure tt
  after_submission message_id (ok done) = do
    modify (with_entries (mark_sent message_id))
    save service

  -- One round of the retry loop: a ciphertext that does not decode is passed over.
  unfoldable pub submit_decoded : Bytes → Bytes → Result Bytes Bytes → Action S T H (Unit {0})
  unfolding ◌>>=◌ after_submission
  submit_decoded message_id recipient (err reason) = pure tt
  submit_decoded message_id recipient (ok envelope) = do
    result ← attempt (on_transport (service.transport.send recipient message_id envelope none))
    after_submission message_id result

  unfoldable pub retry : Bytes × Bytes × Bytes → Action S T H (Unit {0})
  unfolding decode_text submit_decoded
  retry (message_id, recipient, ciphertext) =
      submit_decoded message_id recipient (decode_text service.base64 ciphertext)

  unfoldable pub retry_all : List (Bytes × Bytes × Bytes) → Action S T H (Unit {0})
  unfolding ◌>>=◌ retry
  retry_all [] = pure tt
  retry_all (q ∷ queued) = do retry q; retry_all queued

  unfoldable pub record_text : B → Bytes → Bytes → Bytes → Action S T H (List ChatEvent)
  unfolding ◌>>=◌ save now received_entry
  record_text peer ciphertext id text = do
    timestamp ← now
    let name = service.signal.name peer
    let address = service.signal.address peer
    modify (push (received_entry service.base64 timestamp name text id address ciphertext))
    save service
    pure (ChatEvent.received timestamp name text ∷ [])

  unfoldable pub record_new : B → Bytes → DecodedMessage → Action S T H (List ChatEvent)
  unfolding ◌>>=◌ record_text from_utf8
  record_new peer ciphertext decoded = do
    text ← context (from_utf8 decoded.plaintext) (codes "decrypted message is not UTF-8 text")
    record_text peer ciphertext decoded.id text

  -- A message that decrypts is recorded unless its id is in the history already.
  unfoldable pub record_message : B → Bytes → DecodedMessage → Action S T H (List ChatEvent)
  unfolding ◌>>=◌ any_id record_new
  record_message peer ciphertext decoded = do
    known ← get (λ (w : World S T H). any_id decoded.id w.history.entries)
    if known then pure [] else record_new peer ciphertext decoded

  -- The acknowledgement and the cursor, with the events to report and whether the cursor moved.
  unfoldable pub conclude : TransportMessage → List ChatEvent → Action S T H (List ChatEvent × Bool)
  unfolding ◌>>=◌ advance_cursor
  conclude message events = do
    on_transport (service.transport.acknowledge message)
    changed ← advance_cursor message.transport_id
    pure (events, changed)

  unfoldable pub accept_message :
      B → TransportMessage → DecodedMessage → Action S T H (List ChatEvent × Bool)
  unfolding ◌>>=◌ record_message conclude
  accept_message peer message decoded = do
    events ← record_message peer message.ciphertext decoded
    conclude message events

  unfoldable pub is_from : B → Option Bytes → TransportMessage → Bool
  is_from peer relay_sender_id message =
      is_address message.sender_address (service.signal.address peer)
      || is_address relay_sender_id message.sender

  -- An error that names an old counter is a message that was decrypted before.
  unfoldable pub after_decryption :
      B → TransportMessage → Result Bytes DecodedMessage → Action S T H (List ChatEvent × Bool)
  unfolding ◌>>=◌ accept_message conclude contains_text
  after_decryption peer message (ok decoded) = accept_message peer message decoded
  after_decryption peer message (err reason) =
      if contains_text (codes "old counter") reason
      then conclude message (ChatEvent.stale message.transport_id ∷ [])
      else raise reason

  unfoldable pub open_message : B → TransportMessage → Action S T H (List ChatEvent × Bool)
  unfolding ◌>>=◌ after_decryption
  open_message peer message = do
    let address = service.signal.address peer
    result ← attempt (on_state (service.signal.decrypt_message_from address message.ciphertext))
    after_decryption peer message result

  -- One round of the loop over the received messages.
  unfoldable pub handle_message :
      B → Option Bytes → TransportMessage → Action S T H (List ChatEvent × Bool)
  unfolding is_from open_message
  handle_message peer relay_sender_id message =
      if is_from peer relay_sender_id message then open_message peer message else pure ([], false)

  unfoldable pub handle_all :
      B → Option Bytes → List TransportMessage → Action S T H (List ChatEvent × Bool)
  unfolding ◌>>=◌ handle_message
  handle_all peer relay_sender_id [] = pure ([], false)
  handle_all peer relay_sender_id (m ∷ messages) = do
    first ← handle_message peer relay_sender_id m
    rest ← handle_all peer relay_sender_id messages
    pure (first.0 ++ rest.0, first.1 || rest.1)

  -- From the call of `receive` on, with the events so far.
  unfoldable pub receive_new : B → Option Bytes → List ChatEvent → Action S T H (List ChatEvent)
  unfolding ◌>>=◌ handle_all save
  receive_new peer relay_sender_id receipts = do
    cursor ← get (λ (w : World S T H). w.history.transport_cursor)
    messages ← on_transport (service.transport.receive cursor)
    handled ← handle_all peer relay_sender_id messages
    if is_none receipts && not handled.1 then pure tt else save service
    pure (receipts ++ handled.0)

  unfoldable pub poll : B → Option Bytes → Action S T H (List ChatEvent)
  unfolding ◌>>=◌ refresh_receipts retry_all receive_new outbox
  poll peer relay_sender_id = do
    receipts ← refresh_receipts
    queued ← get (λ (w : World S T H). outbox w.history.entries)
    retry_all queued
    receive_new peer relay_sender_id receipts
