-- ===== src/Chat/Rules.antt =====
-- codebase/application/src/chat_service.rs: what a poll can do to the history: change delivery
-- statuses, add an entry with a new id, and move the cursor. A statement that these keep is kept.
use safechat.Prelude.{
  ◌≡◌, refl, Bool, true, false, Option, List, [], ◌∷◌, ◌++◌, Result, ok, err, Bool-cases,
  if◌then◌else◌, inl, inr,
}
use safechat.Prelude.Bytes.{Bytes}
use safechat.Prelude.Programs.{Program, pure, modify, ◌>>=◌}
use safechat.Prelude.Programs.Keeps.{
  Keeps, Keeps-modify, Keeps-within, Keeps->>=, context-at, Keeps-raise, Keeps-pure, keeps_rules,
}
use safechat.History.{HistoryEntry, HistoryFile}
use safechat.Transport.{TransportMessage, DeliveryStatus, MessageTransport}
use safechat.Chat.{
  with_entries, with_cursor, tick, on_state, on_transport, on_store, Action, ChatEvent,
  DecodedMessage, ChatService, World, any_id, has_id, mark_sent, advanced, now, save,
  advance_cursor,
}
use safechat.Chat.Poll.{
  received_entry, awaits_receipt, refresh_entry, refresh_entries, refresh_receipts, submit_decoded,
  after_submission, after_decryption, refreshed, settle_entry, retry, retry_all, record_text,
  record_new, record_message, conclude, accept_message, open_message, handle_message, handle_all,
  receive_new, poll, from_utf8,
}

-- The same entries, but for their delivery statuses.
abbrev pub SameButStatus : HistoryEntry → HistoryEntry → Type 0
SameButStatus e e' = record e { delivery_status = e'.delivery_status } ≡ e'

abbrev pub Updates : List HistoryEntry → List HistoryEntry → Type 0
Updates [] [] = Unit
Updates [] (e' ∷ es') = ⊥
Updates (e ∷ es) [] = ⊥
Updates (e ∷ es) (e' ∷ es') = SameButStatus e e' × Updates es es'

pub Updates-refl : (es : List HistoryEntry) → Updates es es
Updates-refl [] = tt
Updates-refl (e ∷ es) = (refl, Updates-refl es)

pub mark_sent-Updates : (id : Bytes) (es : List HistoryEntry) → Updates es (mark_sent id es)
unfolding mark_sent
mark_sent-Updates id [] = tt
mark_sent-Updates id (e ∷ es) = elim (Bool-cases (has_id id e)) [
  | inl h ↦ rw h (refl, Updates-refl es)
  | inr h ↦ rw h (refl, mark_sent-Updates id es)
]

module _ {T : Type 0} (transport : MessageTransport T) where
  settle_entry-SameButStatus :
      (e : HistoryEntry) (r : Result Bytes DeliveryStatus) (t : T)
      → SameButStatus e (settle_entry transport e (r, t)).0
  settle_entry-SameButStatus e (ok DeliveryStatus.read) t = refl
  settle_entry-SameButStatus e (ok DeliveryStatus.sent) t = refl
  settle_entry-SameButStatus e (err x) t = refl

  if-SameButStatus :
      (e : HistoryEntry) (b : Bool) (x y : HistoryEntry × List ChatEvent × T)
      → SameButStatus e x.0
      → SameButStatus e y.0
      → SameButStatus e (if b then x else y).0
  if-SameButStatus e true x y h k = h
  if-SameButStatus e false x y h k = k

  refresh_entry-SameButStatus :
      (e : HistoryEntry) (t : T) → SameButStatus e (refresh_entry transport e t).0
  unfolding refresh_entry
  refresh_entry-SameButStatus e t =
      let (r, t') = transport.status e.message_id t in
      if-SameButStatus e (awaits_receipt e) _ (e, [], t) (settle_entry-SameButStatus e r t') refl

  refresh_entries-Updates :
      (es : List HistoryEntry) (t : T) → Updates es (refresh_entries transport es t).0
  unfolding refresh_entries
  refresh_entries-Updates [] t = tt
  refresh_entries-Updates (e ∷ es) t =
      (refresh_entry-SameButStatus e t, refresh_entries-Updates es (refresh_entry transport e t).2)

pub record Stable (P : HistoryFile → Type 0) : Type 0 where
  pub updated :
      (h : HistoryFile) (es : List HistoryEntry)
      → Updates h.entries es
      → P h
      → P (record h { entries = es })
  pub pushed :
      (h : HistoryFile) (e : HistoryEntry)
      → any_id e.message_id h.entries ≡ false
      → P h
      → P (record h { entries = h.entries ++ (e ∷ []) })
  pub moved :
      (h : HistoryFile) (id : Bytes)
      → P h
      → P (record h { transport_cursor = advanced h.transport_cursor id })

module _ {S B T H : Type 0} (service : ChatService S B T H) (P : HistoryFile → Type 0)
    (stable : Stable P) where
  abbrev Holds : World S T H → Type 0
  Holds w = P w.history

  Keeps-on_state : {A : Type 0} (call : Program S A) → Keeps Holds (on_state {T = T} {H = H} call)
  Keeps-on_state call = Keeps-within _ _ call (λ w s h. h)

  Keeps-on_transport :
      {A : Type 0} (call : Program T A) → Keeps Holds (on_transport {S = S} {H = H} call)
  Keeps-on_transport call = Keeps-within _ _ call (λ w t h. h)

  Keeps-on_store : {A : Type 0} (call : Program H A) → Keeps Holds (on_store {S = S} {T = T} call)
  Keeps-on_store call = Keeps-within _ _ call (λ w s h. h)

  ruleset port_rules = (keeps_rules, Keeps-on_state, Keeps-on_transport, Keeps-on_store)

  Keeps-mark : (id : Bytes) → Keeps Holds (modify (with_entries (mark_sent id)))
  Keeps-mark id = Keeps-modify _ (λ w h. stable.updated w.history _ (mark_sent-Updates id _) h)

  Keeps-move : (id : Bytes) → Keeps Holds (modify (with_cursor id))
  Keeps-move id = Keeps-modify _ (λ w h. stable.moved w.history id h)

  Keeps-tick : Keeps Holds (modify (tick))
  Keeps-tick = Keeps-modify _ (λ w h. h)

  ruleset step_rules = (port_rules, Keeps-mark, Keeps-move, Keeps-tick)

  Keeps-now : Keeps Holds (now)
  unfolding now
  Keeps-now = search step_rules depth 12

  Keeps-save : Keeps Holds (save service)
  unfolding save
  Keeps-save = search step_rules depth 12

  Keeps-save-unless : (b : Bool) → Keeps Holds (if b then pure tt else save service)
  Keeps-save-unless true = Keeps-pure tt
  Keeps-save-unless false = Keeps-save

  Keeps-advance_cursor : (id : Bytes) → Keeps Holds (advance_cursor id)
  unfolding advance_cursor
  Keeps-advance_cursor id = search step_rules depth 12

  Keeps-refreshed : Keeps Holds (refreshed service)
  unfolding refreshed
  Keeps-refreshed = record {
    at = λ w h.
        stable.updated w.history _
          (refresh_entries-Updates service.transport w.history.entries w.transport) h;
  }

  Keeps-refresh_receipts : Keeps Holds (refresh_receipts service)
  unfolding refresh_receipts
  Keeps-refresh_receipts = search (step_rules, Keeps-refreshed, Keeps-save-unless) depth 12

  Keeps-after_submission :
      (id : Bytes) (r : Result Bytes (Unit {0})) → Keeps Holds (after_submission service id r)
  unfolding after_submission
  Keeps-after_submission id (err reason) = Keeps-pure tt
  Keeps-after_submission id (ok done) = search (step_rules, Keeps-save) depth 12

  Keeps-submit_decoded :
      (id recipient : Bytes) (r : Result Bytes Bytes)
      → Keeps Holds (submit_decoded service id recipient r)
  unfolding submit_decoded
  Keeps-submit_decoded id recipient (err reason) = Keeps-pure tt
  Keeps-submit_decoded id recipient (ok envelope) =
      search (step_rules, Keeps-after_submission) depth 12

  Keeps-if :
      {A : Type 0} {m n : Action S T H A} (b : Bool)
      → Keeps Holds m
      → Keeps Holds n
      → Keeps Holds (if b then m else n)
  Keeps-if true k l = k
  Keeps-if false k l = l

  Keeps-retry : (q : Bytes × Bytes × Bytes) → Keeps Holds (retry service q)
  unfolding retry
  Keeps-retry (id, recipient, ciphertext) = Keeps-submit_decoded id recipient _

  Keeps-retry_all : (queued : List (Bytes × Bytes × Bytes)) → Keeps Holds (retry_all service queued)
  unfolding retry_all
  Keeps-retry_all [] = Keeps-pure tt
  Keeps-retry_all (q ∷ queued) =
      Keeps->>= (retry service q) _ (Keeps-retry q) (λ _. Keeps-retry_all queued)

  -- A record of a message whose id is new.
  record_text-Holds :
      (peer : B) (ciphertext id text : Bytes) (w : World S T H)
      → any_id id w.history.entries ≡ false
      → Holds w
      → Holds (record_text service peer ciphertext id text w).1
  unfolding record_text ◌>>=◌ now received_entry
  record_text-Holds peer ciphertext id text w new h =
      (Keeps->>= (save service) (λ _. pure _) Keeps-save (λ _. Keeps-pure _)).at _
        (stable.pushed w.history _ new h)

  record_new-Holds :
      (peer : B) (ciphertext : Bytes) (decoded : DecodedMessage) (w : World S T H)
      → any_id decoded.id w.history.entries ≡ false
      → Holds w
      → Holds (record_new service peer ciphertext decoded w).1
  unfolding record_new
  record_new-Holds peer ciphertext decoded w new h =
      context-at Holds (record_text service peer ciphertext decoded.id) w
        (from_utf8 decoded.plaintext) _ h
        (λ text e. record_text-Holds peer ciphertext decoded.id text w new h)

  Keeps-record_message :
      (peer : B) (ciphertext : Bytes) (decoded : DecodedMessage)
      → Keeps Holds (record_message service peer ciphertext decoded)
  unfolding record_message ◌>>=◌
  Keeps-record_message peer ciphertext decoded = record {
    at = λ w h. elim (Bool-cases (any_id decoded.id w.history.entries)) [
      | inl e ↦ rw e h
      | inr e ↦ rw e (record_new-Holds peer ciphertext decoded w e h)
    ];
  }

  Keeps-conclude :
      (message : TransportMessage) (events : List ChatEvent)
      → Keeps Holds (conclude service message events)
  unfolding conclude
  Keeps-conclude message events = search (step_rules, Keeps-advance_cursor) depth 12

  Keeps-after_decryption :
      (peer : B) (message : TransportMessage) (r : Result Bytes DecodedMessage)
      → Keeps Holds (after_decryption service peer message r)
  unfolding after_decryption accept_message
  Keeps-after_decryption peer message (ok decoded) =
      search (step_rules, Keeps-record_message, Keeps-conclude) depth 12
  Keeps-after_decryption peer message (err reason) =
      Keeps-if _ (Keeps-conclude message _) (Keeps-raise reason)

  Keeps-open_message :
      (peer : B) (message : TransportMessage) → Keeps Holds (open_message service peer message)
  unfolding open_message
  Keeps-open_message peer message = search (step_rules, Keeps-after_decryption) depth 12

  Keeps-handle_message :
      (peer : B) (relay_sender_id : Option Bytes) (message : TransportMessage)
      → Keeps Holds (handle_message service peer relay_sender_id message)
  unfolding handle_message
  Keeps-handle_message peer relay_sender_id message =
      Keeps-if _ (Keeps-open_message peer message) (Keeps-pure _)

  Keeps-handle_all :
      (peer : B) (relay_sender_id : Option Bytes) (messages : List TransportMessage)
      → Keeps Holds (handle_all service peer relay_sender_id messages)
  unfolding handle_all
  Keeps-handle_all peer relay_sender_id [] = Keeps-pure _
  Keeps-handle_all peer relay_sender_id (m ∷ messages) =
      Keeps->>= (handle_message service peer relay_sender_id m) _
        (Keeps-handle_message peer relay_sender_id m)
        (λ first.
          Keeps->>= (handle_all service peer relay_sender_id messages) _
            (Keeps-handle_all peer relay_sender_id messages) (λ rest. Keeps-pure _))

  Keeps-receive_new :
      (peer : B) (relay_sender_id : Option Bytes) (receipts : List ChatEvent)
      → Keeps Holds (receive_new service peer relay_sender_id receipts)
  unfolding receive_new
  Keeps-receive_new peer relay_sender_id receipts =
      search (step_rules, Keeps-handle_all, Keeps-save-unless) depth 12

  pub Keeps-poll :
      (peer : B) (relay_sender_id : Option Bytes) → Keeps Holds (poll service peer relay_sender_id)
  unfolding poll
  Keeps-poll peer relay_sender_id =
      search (step_rules, Keeps-refresh_receipts, Keeps-retry_all, Keeps-receive_new) depth 12
