-- ===== src/Ui/Chat.antt =====
-- codebase/slint-ui/src/ui_service/chat.rs: histories as the front end shows them, and the actions on
-- a conversation. What opens files, the relay and the Signal state is a port.
use Prim.Native.Nat.{min}
use safechat.Prelude.{
  ℕ, ◌-◌, Bool, true, false, Option, none, some, List, [], ◌∷◌, ◌++◌, Result, map, ltb, length,
  if◌then◌else◌,
}
use safechat.Prelude.Bytes.{Bytes, bytes_eq, codes}
use safechat.Prelude.Text.{trim}
use safechat.Prelude.Programs.{Program, pure, lift, get, modify, context, ◌>>=◌, ◌>>◌}
use safechat.History.{
  HistoryEntry, HistoryFile, slice, page, new_entry, with_message_id, with_peer, with_ciphertext,
  with_delivery_status, with_transport_recipient,
}
use safechat.History
use safechat.Transport.{Base64, encode_text, decode_text, decode_bundle}
use safechat.Chat.{
  ChatEvent, DecodedMessage, ChatService, World, Action, you, any_id, on_state, on_transport,
  on_store, now,
}
use safechat.Chat.Send.{send_text}
use safechat.Chat.Poll.{poll, from_utf8}
use safechat.Ui.{ConversationMessage, ProfileReadyData}

abbrev pub history_page_size : ℕ
history_page_size = 40

pub record HistoryPage : Type 0 where
  pub messages : List ConversationMessage
  pub cursor : ℕ
  pub has_more : Bool

-- The closure that both renderers map over the entries.
unfoldable pub render_entry : HistoryEntry → ConversationMessage
unfolding bytes_eq
render_entry entry =
    let mine = bytes_eq entry.sender you in
    record {
      sender = if mine then codes "You" else entry.sender;
      text = entry.text;
      timestamp = entry.timestamp;
      outgoing = mine;
      status = entry.delivery_status;
      ciphertext = entry.ciphertext;
    }

unfoldable pub render_core_page : History.HistoryPage → HistoryPage
unfolding render_entry
render_core_page shown = record {
  messages = map render_entry shown.entries;
  cursor = shown.cursor;
  has_more = shown.has_more;
}

abbrev pub render_end : HistoryFile → Option ℕ → ℕ
render_end history none = min (length history.entries) (length history.entries)
render_end history (some before) = min before (length history.entries)

unfoldable pub render_history_page : HistoryFile → Option ℕ → HistoryPage
unfolding render_entry
render_history_page history before =
    let end = render_end history before in
    let start = end - history_page_size in
    record {
      messages = map render_entry (slice start end history.entries);
      cursor = start;
      has_more = ltb 0 start;
    }

pub record ProfileSession : Type 0 where
  pub profile : Bytes
  pub password : Bytes

-- `ServicePorts` and the libraries below it; the history port is by profile, password and peer.
pub record ServicePorts (S B T H : Type 0) : Type 0 where
  pub chat : ChatService S B T H
  pub decode_signal_bundle : Bytes → Result Bytes B
  pub initialize : Bytes → Bytes → Bytes → Action S T H ProfileReadyData
  pub verify_contact : Bytes → Bytes → Bytes → Bytes → Action S T H (Bytes × Bytes)
  pub load : Bytes → Bytes → Bytes → Program H HistoryFile
  pub save : Bytes → Bytes → Bytes → HistoryFile → Program H (Unit {0})
  pub delete : Bytes → Bytes → Bytes → Program H (Unit {0})
  pub open_state : Bytes → Bytes → Program S (Unit {0})
  pub open_relay_transport : ProfileSession → Program T (Unit {0})
  pub open_history_store : ProfileSession → Program H (Unit {0})
  pub sender_id_for : B → T → Option Bytes
  pub recipient_for : B → T → Bytes
  pub fetch_peer_bundle : B → Program T B

unfoldable pub copied_entry : Base64 → ℕ → Bytes → Bytes → Bytes → Bytes → HistoryEntry
unfolding new_entry with_message_id with_peer with_ciphertext with_delivery_status
    with_transport_recipient
copied_entry base64 timestamp text message_id address encoded =
    with_transport_recipient
      (with_delivery_status
        (with_ciphertext
          (with_peer (with_message_id (new_entry timestamp you text) message_id) address) encoded)
        (codes "copied"))
      address

unfoldable pub pasted_entry : ℕ → Bytes → Bytes → Bytes → Bytes → Bytes → HistoryEntry
unfolding new_entry with_message_id with_peer with_ciphertext with_delivery_status
pasted_entry timestamp name text message_id address encoded =
    with_delivery_status
      (with_ciphertext
        (with_peer (with_message_id (new_entry timestamp name text) message_id) address) encoded)
      (codes "received")

abbrev pub pushed : HistoryFile → HistoryEntry → HistoryFile
pushed history entry = record history { entries = history.entries ++ (entry ∷ []) }

module _ {S B T H : Type 0} (ports : ServicePorts S B T H) where
  unfoldable pub peer_bundle_from_encoded : Bytes → Action S T H B
  unfolding ◌>>=◌ decode_bundle
  peer_bundle_from_encoded encoded = do
    bytes ← lift (decode_bundle ports.chat.base64 (trim encoded))
    lift (ports.decode_signal_bundle bytes)

  unfoldable pub conversation_id : Bytes → Action S T H Bytes
  unfolding ◌>>=◌ peer_bundle_from_encoded
  conversation_id encoded_peer = do
    peer ← peer_bundle_from_encoded encoded_peer
    pure (ports.chat.signal.address peer)

  -- `load_page` of the port, with one page before a position or the newest.
  unfoldable pub load_rendered : ProfileSession → Bytes → Option ℕ → Action S T H HistoryPage
  unfolding ◌>>=◌ conversation_id page render_core_page
  load_rendered session encoded_peer before = do
    conversation ← conversation_id encoded_peer
    history ← on_store (ports.load session.profile session.password conversation)
    pure (render_core_page (page history before history_page_size))

  unfoldable pub load_chat_history : ProfileSession → Bytes → Action S T H HistoryPage
  unfolding load_rendered
  load_chat_history session encoded_peer = load_rendered session encoded_peer none

  unfoldable pub load_older_chat_history : ProfileSession → Bytes → ℕ → Action S T H HistoryPage
  unfolding load_rendered
  load_older_chat_history session encoded_peer before =
      load_rendered session encoded_peer (some before)

  unfoldable pub perform_paste_send :
      ProfileSession → Bytes → Bytes → Action S T H (HistoryPage × Bytes × Bytes)
  unfolding ◌>>=◌ peer_bundle_from_encoded copied_entry encode_text now render_history_page
  perform_paste_send session encoded_peer plaintext = do
    peer ← peer_bundle_from_encoded encoded_peer
    on_state (ports.open_state session.profile session.password)
    let conversation = ports.chat.signal.address peer
    history ← on_store (ports.load session.profile session.password conversation)
    encrypted ← on_state (ports.chat.signal.encrypt_message_for peer plaintext)
    let encoded = trim (encode_text ports.chat.base64 encrypted.1)
    timestamp ← now
    let entry = copied_entry ports.chat.base64 timestamp plaintext encrypted.0 conversation encoded
    let extended = pushed history entry
    on_store (ports.save session.profile session.password conversation extended)
    pure (
      render_history_page extended none,
      codes "Encrypted message ready. Click the message to copy its ciphertext.",
      encoded,
    )

  -- A pasted message whose id is new is recorded and saved.
  unfoldable pub record_pasted :
      ProfileSession → B → Bytes → DecodedMessage → HistoryFile → Action S T H HistoryFile
  unfolding ◌>>=◌ pasted_entry now from_utf8
  record_pasted session peer encoded message history = do
    text ← context (from_utf8 message.plaintext) (codes "decrypted message is not UTF-8 text")
    timestamp ← now
    let address = ports.chat.signal.address peer
    let name = ports.chat.signal.name peer
    let extended =
        pushed history (pasted_entry timestamp name text message.id address (trim encoded))
    on_store (ports.save session.profile session.password address extended)
    pure extended

  unfoldable pub record_unless_known :
      ProfileSession → B → Bytes → DecodedMessage → HistoryFile → Action S T H HistoryFile
  unfolding any_id record_pasted
  record_unless_known session peer encoded message history =
      if any_id message.id history.entries
      then pure history
      else record_pasted session peer encoded message history

  unfoldable pub perform_paste_receive :
      ProfileSession → Bytes → Bytes → Action S T H (HistoryPage × Bytes)
  unfolding ◌>>=◌ peer_bundle_from_encoded decode_text record_unless_known render_history_page
  perform_paste_receive session encoded_peer encoded_ciphertext = do
    peer ← peer_bundle_from_encoded encoded_peer
    on_state (ports.open_state session.profile session.password)
    envelope ← lift (decode_text ports.chat.base64 (trim encoded_ciphertext))
    let address = ports.chat.signal.address peer
    message ← on_state (ports.chat.signal.decrypt_message_from address envelope)
    history ← on_store (ports.load session.profile session.password address)
    extended ← record_unless_known session peer encoded_ciphertext message history
    pure (render_history_page extended none, codes "Encrypted message received.")

  abbrev service_for : Bytes → ChatService S B T H
  service_for conversation = record ports.chat { conversation = conversation }

  -- `plaintext` is sent first, when there is one.
  unfoldable pub send_first : B → Option Bytes → Action S T H (Option ChatEvent)
  unfolding ◌>>=◌ send_text
  send_first peer none = pure none
  send_first peer (some text) = do
    recipient ← get (λ (w : World S T H). ports.recipient_for peer w.transport)
    encryption_peer ← on_transport (ports.fetch_peer_bundle peer)
    event ←
        send_text (service_for (ports.chat.signal.address peer)) peer encryption_peer recipient text
    pure (some event)

  abbrev is_received : ChatEvent → Bool
  is_received (ChatEvent.received timestamp sender text) = true
  is_received _ = false

  unfoldable pub any_received : List ChatEvent → Bool
  any_received [] = false
  any_received (e ∷ events) = let rest = any_received events in if is_received e then true else rest

  unfoldable pub action_status : Option ChatEvent → List ChatEvent → Bytes
  unfolding any_received
  action_status (some (ChatEvent.sent timestamp text)) events = codes "Message sent."
  action_status (some _) events = codes "Chat is up to date."
  action_status none events =
      if any_received events then codes "New message received." else codes "Chat is up to date."

  unfoldable pub perform_chat_action :
      ProfileSession → Bytes → Option Bytes → Action S T H (HistoryPage × Bytes)
  unfolding ◌>>=◌ peer_bundle_from_encoded send_first poll action_status render_history_page
  perform_chat_action session encoded_peer plaintext = do
    peer ← peer_bundle_from_encoded encoded_peer
    on_state (ports.open_state session.profile session.password)
    on_transport (ports.open_relay_transport session)
    on_store (ports.open_history_store session)
    let conversation = ports.chat.signal.address peer
    history ← on_store (ports.chat.history_store.load conversation)
    modify (λ w. record w { history = history })
    sender_id ← get (λ (w : World S T H). ports.sender_id_for peer w.transport)
    event ← send_first peer plaintext
    events ← poll (service_for conversation) peer sender_id
    history ← get (λ (w : World S T H). w.history)
    pure (render_history_page history none, action_status event events)
