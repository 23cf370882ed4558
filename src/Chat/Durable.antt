-- ===== src/Chat/Durable.antt =====
-- codebase/application/src/chat_service.rs: that `send_text` saves before it submits.
use safechat.Prelude.{ℕ, suc, ◌≡◌, refl, ap, none, [], ◌∷◌, ◌++◌, ok, ◌⊎◌, inl, inr}
use safechat.Prelude.Bytes.{Bytes}
use safechat.Prelude.Programs.{Program, modify, ◌>>=◌}
use safechat.Prelude.Programs.Keeps.{Keeps, Keeps-modify, Keeps-within, keeps_rules, >>=-at}
use safechat.History.{HistoryFile}
use safechat.Chat.{
  ChatService, World, with_entries, on_state, on_transport, on_store, mark_sent, now, save,
}
use safechat.Chat.Send.{queued_entry, mark_and_save, queue_and_submit, submit_and_mark, send_text}

module _ {S B T H : Type 0} (service : ChatService S B T H) where
  -- The history with the entry that is about to be submitted.
  abbrev pub with_queued : B → Bytes → Bytes → Bytes → Bytes → World S T H → HistoryFile
  with_queued peer recipient plaintext id envelope w = record w.history {
    entries =
        w.history.entries
        ++ (queued_entry service.base64 (w.clock w.readings) (service.from_utf8_lossy plaintext) id
              (service.signal.address peer) envelope recipient
            ∷ []);
  }

  -- One submission, of an entry that was saved before it.
  pub record Submitted (peer : B) (recipient plaintext : Bytes) (w w' : World S T H) : Type 0 where
    pub id : Bytes
    pub envelope : Bytes
    pub saved : H
    pub was_saved :
        service.history_store.save service.conversation
          (with_queued peer recipient plaintext id envelope w)
          w.store
        ≡ (ok tt, saved)
    pub submitted : w'.transport ≡ (service.transport.send recipient id envelope none w.transport).1
    pub accepted_or_as_saved :
        ((service.transport.send recipient id envelope none w.transport).0 ≡ ok tt)
        ⊎ ((w'.store ≡ saved) × (w'.history ≡ with_queued peer recipient plaintext id envelope w))

  abbrev SameTransport : T → World S T H → Type 0
  SameTransport t w = w.transport ≡ t

  SameTransport-mark :
      (t : T) (id : Bytes) → Keeps (SameTransport t) (modify (with_entries (mark_sent id)))
  SameTransport-mark t id = Keeps-modify _ (λ w h. h)

  SameTransport-on_store :
      (t : T) (call : Program H (Unit {0})) → Keeps (SameTransport t) (on_store call)
  SameTransport-on_store t call = Keeps-within _ _ call (λ w s h. h)

  mark_and_save-SameTransport :
      (t : T) (id : Bytes) (timestamp : ℕ) (text : Bytes)
      → Keeps (SameTransport t) (mark_and_save service id timestamp text)
  unfolding mark_and_save save
  mark_and_save-SameTransport t id timestamp text =
      search (keeps_rules, SameTransport-mark, SameTransport-on_store) depth 12

  submit_and_mark-Submitted :
      (peer : B) (recipient plaintext id envelope : Bytes) (w : World S T H) (s : S) (saved : H)
      → service.history_store.save service.conversation
          (with_queued peer recipient plaintext id envelope w)
          w.store
        ≡ (ok tt, saved)
      → Submitted peer recipient plaintext w
          (submit_and_mark service recipient id envelope
            (w.clock w.readings)
            (service.from_utf8_lossy plaintext)
            (record w {
              state = s;
              history = with_queued peer recipient plaintext id envelope w;
              store = saved;
              readings = suc w.readings;
            })).1
  unfolding submit_and_mark
  submit_and_mark-Submitted peer recipient plaintext id envelope w s saved e =
      >>=-at (Submitted peer recipient plaintext w)
        (λ _. mark_and_save service id (w.clock w.readings) (service.from_utf8_lossy plaintext)) _
        (on_transport (service.transport.send recipient id envelope none))
        (record {
          id = id;
          envelope = envelope;
          saved = saved;
          was_saved = e;
          submitted = refl;
          accepted_or_as_saved = inr (refl, refl);
        })
        (λ done sent. record {
          id = id;
          envelope = envelope;
          saved = saved;
          was_saved = e;
          submitted = (mark_and_save-SameTransport _ id _ _).at _ refl;
          accepted_or_as_saved = inl sent;
        })

  queue_and_submit_durable :
      (peer : B) (recipient plaintext id envelope : Bytes) (w : World S T H) (s : S)
      → let w' =
          (queue_and_submit service peer recipient plaintext
            (id, envelope)
            (record w { state = s })).1 in
        (w'.transport ≡ w.transport) ⊎ Submitted peer recipient plaintext w w'
  unfolding queue_and_submit now save ◌>>=◌
  queue_and_submit_durable peer recipient plaintext id envelope w s =
      >>=-at (λ w'. (w'.transport ≡ w.transport) ⊎ Submitted peer recipient plaintext w w')
        (λ _.
          submit_and_mark service recipient id envelope (w.clock w.readings)
            (service.from_utf8_lossy plaintext))
        _ (save service) (inl refl)
        (λ done e.
          let (r, saved) =
            service.history_store.save service.conversation
              (with_queued peer recipient plaintext id envelope w) w.store in
          inr (
            submit_and_mark-Submitted peer recipient plaintext id envelope w s saved
              (ap (λ x. (x, saved)) e)))

  -- Whatever comes of it, sending a text leaves the transport alone or submits one message, whose
  -- entry is the last of a history that was saved before; when the transport fails, that history is
  -- what the store and the caller are left with.
  pub send_text_durable :
      (peer encryption_peer : B) (recipient plaintext : Bytes) (w : World S T H)
      → let w' = (send_text service peer encryption_peer recipient plaintext w).1 in
        (w'.transport ≡ w.transport) ⊎ Submitted peer recipient plaintext w w'
  unfolding send_text
  send_text_durable peer encryption_peer recipient plaintext w =
      >>=-at (λ w'. (w'.transport ≡ w.transport) ⊎ Submitted peer recipient plaintext w w')
        (queue_and_submit service peer recipient plaintext) w
        (on_state (service.signal.encrypt_message_for encryption_peer plaintext)) (inl refl)
        (λ (id, envelope) made. queue_and_submit_durable peer recipient plaintext id envelope w _)
