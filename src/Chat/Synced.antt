-- ===== src/Chat/Synced.antt =====
-- codebase/application/src/chat_service.rs: that a poll which returns has saved what it changed.
use safechat.Prelude.{
  ◌≡◌, ℕ, subst, refl, ap, ◌∙◌, ℤ, pos, negsuc, Bool, true, false, ◌&&◌, ◌||◌, not, Option, none,
  List, [], ◌∷◌, ◌++◌, Result, ok, err, arith, Bool-cases, inl, inr, ◌⊎◌, if◌then◌else◌,
}
use safechat.Prelude.Bytes.{Bytes, codes}
use safechat.Prelude.Programs.{Program, pure, get, modify, attempt, context, ◌>>=◌}
use safechat.Prelude.Programs.Ensures.{
  Ensures, Ensures-pure, Ensures-raise, Ensures-if, Ensures-get, Ensures-any, Ensures-context,
  Ensures-modify, Ensures-within, Ensures-attempt_within, ok-injective, Ensures-stronger,
  Ensures->>=,
}
use safechat.History.{HistoryEntry}
use safechat.Transport.{TransportMessage, DeliveryStatus, MessageTransport, decode_text}
use safechat.Chat.{
  push, mark_sent, with_entries, ChatEvent, DecodedMessage, ChatService, World, any_id, differs,
  advanced, now, save, advance_cursor, on_state, on_transport,
}
use safechat.Chat.Poll.{
  outbox, received_entry, from_utf8, is_none, settle_entry, awaits_receipt, refresh_entry,
  refresh_entries, refreshed, refresh_receipts, after_submission, submit_decoded, retry, retry_all,
  record_text, record_new, record_message, conclude, accept_message, is_from, after_decryption,
  open_message, handle_message, handle_all, receive_new, poll,
}

-- Without an event the entries are as they were.
module _ {T : Type 0} (transport : MessageTransport T) where
  settle_entry-quiet :
      (e : HistoryEntry) (r : Result Bytes DeliveryStatus) (t : T)
      → (settle_entry transport e (r, t)).1 ≡ []
      → (settle_entry transport e (r, t)).0 ≡ e
  settle_entry-quiet e (ok DeliveryStatus.read) t h = cc
  settle_entry-quiet e (ok DeliveryStatus.sent) t h = refl
  settle_entry-quiet e (err x) t h = refl

  if-quiet :
      (e : HistoryEntry) (b : Bool) (x y : HistoryEntry × List ChatEvent × T)
      → (x.1 ≡ [] → x.0 ≡ e)
      → (y.1 ≡ [] → y.0 ≡ e)
      → (if b then x else y).1 ≡ []
      → (if b then x else y).0 ≡ e
  if-quiet e true x y h k = h
  if-quiet e false x y h k = k

  refresh_entry-quiet :
      (e : HistoryEntry) (t : T)
      → (refresh_entry transport e t).1 ≡ []
      → (refresh_entry transport e t).0 ≡ e
  unfolding refresh_entry
  refresh_entry-quiet e t =
      let (r, t') = transport.status e.message_id t in
      if-quiet e (awaits_receipt e) (settle_entry transport e (r, t')) (e, [], t)
        (settle_entry-quiet e r t') (λ _. refl)

  append-nil_inv : (as' bs : List ChatEvent) → as' ++ bs ≡ [] → (as' ≡ []) × (bs ≡ [])
  append-nil_inv [] bs h = (refl, h)
  append-nil_inv (a ∷ as') bs h = cc

  refresh_entries-quiet :
      (es : List HistoryEntry) (t : T)
      → (refresh_entries transport es t).1 ≡ []
      → (refresh_entries transport es t).0 ≡ es
  unfolding refresh_entries
  refresh_entries-quiet [] t h = refl
  refresh_entries-quiet (e ∷ es) t h =
      let t1 = (refresh_entry transport e t).2 in
      let parts =
        append-nil_inv (refresh_entry transport e t).1 (refresh_entries transport es t1).1 h in
      let one = refresh_entry-quiet e t parts.0 in
      let more = refresh_entries-quiet es t1 parts.1 in cc

is_none-nil : (events : List ChatEvent) → is_none events ≡ true → events ≡ []
is_none-nil [] h = refl
is_none-nil (e ∷ events) h = cc

or_false : (b : Bool) → (b || false) ≡ b
or_false true = refl
or_false false = refl

or_assoc : (a b c : Bool) → ((a || b) || c) ≡ (a || (b || c))
or_assoc true b c = refl
or_assoc false b c = refl

differs-equal : (a b : ℤ) → differs a b ≡ false → a ≡ b
differs-equal (pos a) (pos b) h = ap pos (ground arith)
differs-equal (pos a) (negsuc b) h = cc
differs-equal (negsuc a) (pos b) h = cc
differs-equal (negsuc a) (negsuc b) h = ap negsuc (ground arith)

module _ {S B T H : Type 0} (service : ChatService S B T H) (before : World S T H) where
  -- The history is what was saved last, or nothing was changed.
  abbrev pub Synced : World S T H → Type 0
  Synced w =
      ((w.history ≡ before.history) × (w.store ≡ before.store))
      ⊎ ((s : H) × (service.history_store.save service.conversation w.history s ≡ (ok tt, w.store)))

  -- What is not saved is flagged.
  abbrev Flagged : Bool → World S T H → Type 0
  Flagged b w = (b ≡ true) ⊎ Synced w

  save-Synced : {P : World S T H → Type 0} → Ensures P (save service) (λ _. Synced)
  unfolding save ◌>>=◌
  save-Synced = Ensures-any _ (λ w a p e. inr (
    w.store,
    ap (λ r. (r, (service.history_store.save service.conversation w.history w.store).1)) e,
  ))

  save_unless-Synced :
      (b : Bool)
      → Ensures (λ w. b ≡ true → Synced w) (if b then pure tt else save service) (λ _. Synced)
  save_unless-Synced true = Ensures-pure tt (λ w h. h refl)
  save_unless-Synced false = save-Synced

  transport-Synced :
      {A : Type 0} (call : Program T A) → Ensures Synced (on_transport call) (λ _. Synced)
  transport-Synced call =
      Ensures-within (λ (w : World S T H). w.transport) (λ t w. record w { transport = t }) call
        (λ w t h. h)

  attempt_transport-Synced :
      {A : Type 0} (call : Program T A) → Ensures Synced (attempt (on_transport call)) (λ _. Synced)
  attempt_transport-Synced call =
      Ensures-attempt_within (λ (w : World S T H). w.transport) (λ t w. record w { transport = t })
        call (λ w t h. h)

  attempt_state-Synced :
      {A : Type 0} (call : Program S A) → Ensures Synced (attempt (on_state call)) (λ _. Synced)
  attempt_state-Synced call =
      Ensures-attempt_within (λ (w : World S T H). w.state) (λ s w. record w { state = s }) call
        (λ w s h. h)

  after_submission-Synced :
      (id : Bytes) (r : Result Bytes (Unit {0}))
      → Ensures Synced (after_submission service id r) (λ _. Synced)
  unfolding after_submission
  after_submission-Synced id (err reason) = Ensures-pure tt (λ w h. h)
  after_submission-Synced id (ok done) =
      Ensures->>= {R = λ _ _. Unit} (modify (with_entries (mark_sent id))) (λ _. save service)
        (Ensures-modify _ (λ w h. tt)) (λ _. save-Synced)

  submit_decoded-Synced :
      (id recipient : Bytes) (r : Result Bytes Bytes)
      → Ensures Synced (submit_decoded service id recipient r) (λ _. Synced)
  unfolding submit_decoded
  submit_decoded-Synced id recipient (err reason) = Ensures-pure tt (λ w h. h)
  submit_decoded-Synced id recipient (ok envelope) =
      Ensures->>= {R = λ _. Synced}
        (attempt (on_transport (service.transport.send recipient id envelope none)))
        (after_submission service id) (attempt_transport-Synced _) (after_submission-Synced id)

  retry_all-Synced :
      (queued : List (Bytes × Bytes × Bytes))
      → Ensures Synced (retry_all service queued) (λ _. Synced)
  unfolding retry_all retry
  retry_all-Synced [] = Ensures-pure tt (λ w h. h)
  retry_all-Synced ((id, recipient, ciphertext) ∷ queued) =
      Ensures->>= {R = λ _. Synced} (retry service (id, recipient, ciphertext)) _
        (submit_decoded-Synced id recipient (decode_text service.base64 ciphertext))
        (λ _. retry_all-Synced queued)

  refresh_receipts-Synced : Ensures Synced (refresh_receipts service) (λ _. Synced)
  unfolding refresh_receipts refreshed
  refresh_receipts-Synced =
      Ensures->>= {R = λ events w. is_none events ≡ true → Synced w} (refreshed service) _
        (Ensures-any _ (λ w a h e none.
          let quiet =
            refresh_entries-quiet service.transport w.history.entries w.transport
              (ok-injective _ a e ∙ is_none-nil a none) in
          rw quiet h))
        (λ events.
          Ensures->>= {R = λ _. Synced} (if is_none events then pure tt else save service) _
            (save_unless-Synced (is_none events)) (λ _. Ensures-pure events (λ w h. h)))

  record_text-Synced :
      {P : World S T H → Type 0} (peer : B) (ciphertext id text : Bytes)
      → Ensures P (record_text service peer ciphertext id text) (λ _. Synced)
  unfolding record_text
  record_text-Synced peer ciphertext id text =
      let name = service.signal.name peer in
      let entry : ℕ → HistoryEntry = λ timestamp.
        received_entry service.base64 timestamp name text id (service.signal.address peer)
          ciphertext in
      Ensures->>= {R = λ _ _. Unit} now _ (Ensures-any _ (λ w a p e. tt)) (λ timestamp.
        Ensures->>= {R = λ _ _. Unit} (modify (push (entry timestamp))) _
          (Ensures-modify _ (λ w p. tt))
          (λ _.
            Ensures->>= {R = λ _. Synced} (save service) _ save-Synced
              (λ _. Ensures-pure (ChatEvent.received timestamp name text ∷ []) (λ w h. h))))

  record_message-Synced :
      (peer : B) (ciphertext : Bytes) (decoded : DecodedMessage)
      → Ensures Synced (record_message service peer ciphertext decoded) (λ _. Synced)
  unfolding record_message record_new
  record_message-Synced peer ciphertext decoded =
      Ensures->>= {R = λ _. Synced} (get (λ w. any_id decoded.id w.history.entries)) _
        (Ensures-get _ (λ w h. h))
        (λ known. Ensures-if known (Ensures-pure [] (λ w h. h)) (
          Ensures->>= {R = λ _. Synced}
            (context (from_utf8 decoded.plaintext) (codes "decrypted message is not UTF-8 text")) _
            (Ensures-context _ _ (λ a w e h. h)) (record_text-Synced peer ciphertext decoded.id)))

  -- A cursor that is not said to have moved is where it was.
  advance_cursor-Flagged :
      (id : Bytes) → Ensures Synced (advance_cursor id) (λ changed. Flagged changed)
  unfolding advance_cursor ◌>>=◌
  advance_cursor-Flagged id = record {
    at = λ w h changed e.
        let is_changed = ok-injective _ changed e in
        elim (Bool-cases changed) [
          | inl yes' ↦ inl yes'
          | inr no' ↦
              let same =
                differs-equal (advanced w.history.transport_cursor id) w.history.transport_cursor
                  (is_changed ∙ no') in
              inr (rw same h)
        ];
  }

  conclude-Flagged :
      (message : TransportMessage) (events : List ChatEvent)
      → Ensures Synced (conclude service message events) (λ r. Flagged r.1)
  unfolding conclude
  conclude-Flagged message events =
      Ensures->>= {R = λ _. Synced} (on_transport (service.transport.acknowledge message)) _
        (transport-Synced _)
        (λ _.
          Ensures->>= {R = λ changed. Flagged changed} (advance_cursor message.transport_id) _
            (advance_cursor-Flagged message.transport_id)
            (λ changed. Ensures-pure (events, changed) (λ w h. h)))

  after_decryption-Flagged :
      (peer : B) (message : TransportMessage) (r : Result Bytes DecodedMessage)
      → Ensures Synced (after_decryption service peer message r) (λ r. Flagged r.1)
  unfolding after_decryption accept_message
  after_decryption-Flagged peer message (ok decoded) =
      Ensures->>= {R = λ _. Synced} (record_message service peer message.ciphertext decoded)
        (conclude service message) (record_message-Synced peer message.ciphertext decoded)
        (conclude-Flagged message)
  after_decryption-Flagged peer message (err reason) =
      Ensures-if _ (conclude-Flagged message _) (Ensures-raise reason)

  open_message-Flagged :
      (peer : B) (message : TransportMessage)
      → Ensures Synced (open_message service peer message) (λ r. Flagged r.1)
  unfolding open_message
  open_message-Flagged peer message =
      let call =
        service.signal.decrypt_message_from (service.signal.address peer) message.ciphertext in
      Ensures->>= {R = λ _. Synced} (attempt (on_state call))
        (after_decryption service peer message) (attempt_state-Synced call)
        (after_decryption-Flagged peer message)

  Flagged-Synced : (w : World S T H) → Flagged false w → Synced w
  Flagged-Synced w (inl e) = cc
  Flagged-Synced w (inr h) = h

  handle_message-Flagged :
      (peer : B) (id : Option Bytes) (message : TransportMessage) (c : Bool)
      → Ensures (Flagged c) (handle_message service peer id message) (λ r. Flagged (c || r.1))
  unfolding handle_message
  handle_message-Flagged peer id message true = Ensures-any _ (λ w a p e. inl refl)
  handle_message-Flagged peer id message false = Ensures-stronger Flagged-Synced (
      Ensures-if (is_from service peer id message) (open_message-Flagged peer message)
        (Ensures-pure ([], false) (λ w h. inr h)))

  handle_all-Flagged :
      (peer : B) (id : Option Bytes) (messages : List TransportMessage) (c : Bool)
      → Ensures (Flagged c) (handle_all service peer id messages) (λ r. Flagged (c || r.1))
  unfolding handle_all
  handle_all-Flagged peer id [] c = Ensures-pure ([], false) (λ w h. rw (or_false c) h)
  handle_all-Flagged peer id (m ∷ messages) c =
      Ensures->>= {R = λ first. Flagged (c || first.1)} (handle_message service peer id m) _
        (handle_message-Flagged peer id m c)
        (λ first.
          Ensures->>= {R = λ rest. Flagged ((c || first.1) || rest.1)}
            (handle_all service peer id messages) _
            (handle_all-Flagged peer id messages (c || first.1))
            (λ rest. Ensures-pure _ (λ w h. rw (← or_assoc c first.1 rest.1) h)))

  finish-Synced :
      (receipts : List ChatEvent) (handled : List ChatEvent × Bool)
      → Ensures
          (Flagged handled.1)
          (if is_none receipts && not handled.1 then pure tt else save service)
          (λ _. Synced)
  finish-Synced receipts handled =
      Ensures-stronger (λ w h e. Flagged-Synced w (subst (λ b. Flagged b w) (unflagged e) h))
        (save_unless-Synced (is_none receipts && not handled.1))
    where
      unflagged : is_none receipts && not handled.1 ≡ true → handled.1 ≡ false
      unflagged e = ground arith

  receive_new-Synced :
      (peer : B) (id : Option Bytes) (receipts : List ChatEvent)
      → Ensures Synced (receive_new service peer id receipts) (λ _. Synced)
  unfolding receive_new
  receive_new-Synced peer id receipts =
      Ensures->>= {R = λ _. Synced} (get (λ (w : World S T H). w.history.transport_cursor)) _
        (Ensures-get _ (λ w h. h))
        (λ cursor.
          Ensures->>= {R = λ _. Synced} (on_transport (service.transport.receive cursor)) _
            (transport-Synced (service.transport.receive cursor))
            (λ messages.
              Ensures->>= {R = λ handled. Flagged handled.1} (handle_all service peer id messages) _
                (Ensures-stronger (λ w h. inr h) (handle_all-Flagged peer id messages false))
                (λ handled.
                  Ensures->>= {R = λ _. Synced}
                    (if is_none receipts && not handled.1 then pure tt else save service) _
                    (finish-Synced receipts handled)
                    (λ _. Ensures-pure (receipts ++ handled.0) (λ w h. h)))))

  Ensures-poll :
      (peer : B) (id : Option Bytes) → Ensures Synced (poll service peer id) (λ _. Synced)
  unfolding poll
  Ensures-poll peer id =
      Ensures->>= {R = λ _. Synced} (refresh_receipts service) _ refresh_receipts-Synced
        (λ receipts.
          Ensures->>= {R = λ _. Synced} (get (λ (w : World S T H). outbox w.history.entries)) _
            (Ensures-get _ (λ w h. h))
            (λ queued.
              Ensures->>= {R = λ _. Synced} (retry_all service queued) _ (retry_all-Synced queued)
                (λ _. receive_new-Synced peer id receipts)))

  -- When a poll returns, the history that the caller has is the one that was saved last, or neither
  -- the history nor the store has changed.
  pub poll-Synced :
      (peer : B) (relay_sender_id : Option Bytes) (events : List ChatEvent)
      → (poll service peer relay_sender_id before).0 ≡ ok events
      → Synced (poll service peer relay_sender_id before).1
  poll-Synced peer relay_sender_id events e =
      (Ensures-poll peer relay_sender_id).at before (inl (refl, refl)) events e
