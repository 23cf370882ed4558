-- ===== src/Ui/Service.antt =====
-- codebase/slint-ui/src/ui_service.rs: `handle_command`, one command of the worker on the session
-- that it keeps.
use safechat.Prelude.{Bool, true, false, Option, none, some, []}
use safechat.Prelude.Bytes.{Bytes, codes}
use safechat.Prelude.Programs.{Program, pure, get, modify, context, within, ◌>>=◌, ◌>>◌}
use safechat.Chat.{World, Action, on_store}
use safechat.Ui.{TransportKind, Command, Event}
use safechat.Ui.Chat.{
  HistoryPage, ProfileSession, ServicePorts, conversation_id, load_chat_history,
  load_older_chat_history, perform_paste_send, perform_paste_receive, perform_chat_action,
}

-- The worker's session, and what the ports act on.
pub record Worker (S T H : Type 0) : Type 0 where
  pub session : Option ProfileSession
  pub world : World S T H

abbrev pub on_world : {S T H A : Type 0} → Action S T H A → Program (Worker S T H) A
on_world = within (λ (w : Worker _ _ _). w.world) (λ v w. record w { world = v })

unfoldable pub require_session : {S T H : Type 0} → Program (Worker S T H) ProfileSession
unfolding ◌>>=◌
require_session = do
  session ← get (λ (w : Worker _ _ _). w.session)
  context session (codes "profile is not unlocked")

abbrev pub shown : HistoryPage → Bytes → Bool → Event
shown page status prepend = Event.chat_updated (record {
  messages = page.messages;
  status = status;
  history_cursor = page.cursor;
  has_more = page.has_more;
  prepend = prepend;
})

module _ {S B T H : Type 0} (ports : ServicePorts S B T H) where
  unfoldable pub handle_initialize : Bytes → Bytes → Bytes → Program (Worker S T H) (Option Event)
  unfolding ◌>>=◌
  handle_initialize profile password confirmation = do
    ready ← on_world (ports.initialize profile password confirmation)
    let opened : ProfileSession = record { profile = ready.profile; password = password }
    modify (λ w. record w { session = some opened })
    pure (some (Event.profile_ready ready))

  -- `require_session(session).and_then(action)`, shown with a status.
  unfoldable pub with_page :
      (ProfileSession → Action S T H HistoryPage)
      → Bytes
      → Bool
      → Program (Worker S T H) (Option Event)
  unfolding ◌>>=◌ require_session
  with_page action status prepend = do
    active ← require_session
    page ← on_world (action active)
    pure (some (shown page status prepend))

  unfoldable pub with_page_and_status :
      (ProfileSession → Action S T H (HistoryPage × Bytes)) → Program (Worker S T H) (Option Event)
  unfolding ◌>>=◌ require_session
  with_page_and_status action = do
    active ← require_session
    result ← on_world (action active)
    pure (some (shown result.0 result.1 false))

  unfoldable pub handle_delete : Bytes → Program (Worker S T H) (Option Event)
  unfolding ◌>>=◌ require_session conversation_id
  handle_delete peer = do
    active ← require_session
    peer_address ← on_world (conversation_id ports peer)
    on_world (on_store (ports.delete active.profile active.password peer_address))
    pure (
        some (
          shown (record { messages = []; cursor = 0; has_more = false })
            (codes "Chat history deleted.") false))

  unfoldable pub handle_paste_send : Bytes → Bytes → Program (Worker S T H) (Option Event)
  unfolding ◌>>=◌ require_session perform_paste_send
  handle_paste_send peer text = do
    active ← require_session
    result ← on_world (perform_paste_send ports active peer text)
    pure (some (shown result.0 result.1 false))

  unfoldable pub handle_verify :
      Bytes → Bytes → Bytes → Bytes → Program (Worker S T H) (Option Event)
  unfolding ◌>>=◌
  handle_verify profile password bundle fingerprint = do
    result ← on_world (ports.verify_contact profile password bundle fingerprint)
    pure (some (Event.contact_added result.0 bundle result.1))

  unfoldable pub handle_command : Command → Program (Worker S T H) (Option Event)
  unfolding handle_initialize handle_verify with_page with_page_and_status handle_delete
      handle_paste_send load_chat_history load_older_chat_history perform_chat_action
      perform_paste_receive
  handle_command (Command.initialize profile password confirmation) =
      handle_initialize profile password confirmation
  handle_command (Command.verify_contact profile password bundle fingerprint) =
      handle_verify profile password bundle fingerprint
  handle_command (Command.load_history peer) =
      with_page (λ active. load_chat_history ports active peer) (codes "Chat history loaded.") false
  handle_command (Command.load_older_history peer before) =
      with_page (λ active. load_older_chat_history ports active peer before)
        (codes "Older messages loaded.") true
  handle_command (Command.delete_history peer) = handle_delete peer
  handle_command (Command.send peer TransportKind.copy_paste text) = handle_paste_send peer text
  handle_command (Command.send peer TransportKind.relay text) =
      with_page_and_status (λ active. perform_chat_action ports active peer (some text))
  handle_command (Command.receive_pasted peer ciphertext) =
      with_page_and_status (λ active. perform_paste_receive ports active peer ciphertext)
  handle_command (Command.poll peer) =
      with_page_and_status (λ active. perform_chat_action ports active peer none)
