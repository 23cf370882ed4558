-- ===== src/Chat/Send.antt =====
-- codebase/application/src/chat_service.rs: `send_text`.
use safechat.Prelude.{none}
use safechat.Prelude.Bytes.{Bytes, codes}
use safechat.Prelude.Text.{trim}
use safechat.Prelude.Programs.{pure, modify, ◌>>=◌, ◌>>◌}
use safechat.History.{
  HistoryEntry, new_entry, with_message_id, with_peer, with_ciphertext, with_delivery_status,
  with_transport_recipient,
}
use safechat.Transport.{Base64, encode_text}
use safechat.Chat.{
  ChatEvent, ChatService, Action, you, mark_sent, on_state, on_transport, now, with_entries, push,
  save,
}
use safechat.Prelude.{ℕ}

unfoldable pub queued_entry : Base64 → ℕ → Bytes → Bytes → Bytes → Bytes → Bytes → HistoryEntry
unfolding new_entry with_message_id with_peer with_ciphertext with_delivery_status
    with_transport_recipient encode_text
queued_entry base64 timestamp text message_id peer_address envelope recipient =
    with_transport_recipient
      (with_delivery_status
        (with_ciphertext
          (with_peer (with_message_id (new_entry timestamp you text) message_id) peer_address)
          (trim (encode_text base64 envelope)))
        (codes "queued"))
      recipient

module _ {S B T H : Type 0} (service : ChatService S B T H) where
  unfoldable pub mark_and_save : Bytes → ℕ → Bytes → Action S T H ChatEvent
  unfolding ◌>>=◌ save mark_sent
  mark_and_save message_id timestamp text = do
    modify (with_entries (mark_sent message_id))
    save service
    pure (ChatEvent.sent timestamp text)

  unfoldable pub submit_and_mark : Bytes → Bytes → Bytes → ℕ → Bytes → Action S T H ChatEvent
  unfolding ◌>>=◌ mark_and_save
  submit_and_mark recipient message_id envelope timestamp text = do
    on_transport (service.transport.send recipient message_id envelope none)
    mark_and_save message_id timestamp text

  -- From the encrypted message on.
  unfoldable pub queue_and_submit : B → Bytes → Bytes → Bytes × Bytes → Action S T H ChatEvent
  unfolding ◌>>=◌ save now queued_entry submit_and_mark
  queue_and_submit peer recipient plaintext (message_id, envelope) = do
    timestamp ← now
    let text = service.from_utf8_lossy plaintext
    let peer_address = service.signal.address peer
    let entry =
        queued_entry service.base64 timestamp text message_id peer_address envelope recipient
    modify (push entry)
    save service
    submit_and_mark recipient message_id envelope timestamp text

  unfoldable pub send_text : B → B → Bytes → Bytes → Action S T H ChatEvent
  unfolding ◌>>=◌ queue_and_submit
  send_text peer encryption_peer recipient plaintext = do
    encrypted ← on_state (service.signal.encrypt_message_for encryption_peer plaintext)
    queue_and_submit peer recipient plaintext encrypted
