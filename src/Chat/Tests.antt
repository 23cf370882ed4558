-- ===== src/Chat/Tests.antt =====
-- codebase/application/src/chat_service.rs: sending, polling and their failures on concrete ports.
use safechat.Prelude.{
  ℕ, zero, suc, ◌≡◌, refl, Bool, true, false, none, some, List, [], ◌∷◌, ◌++◌, ok, err, ◌⊎◌,
}
use safechat.Prelude.Bytes.{Bytes, codes, bytes_eq}
use safechat.Prelude.Text.{parse_i64, contains_text, strip_prefix}
use safechat.Prelude.Utf8.{is_utf8}
use safechat.Prelude.Programs.{Program}
use safechat.History.{HistoryFile, HistoryStore, empty}
use safechat.Transport.{TransportMessage, DeliveryStatus, MessageTransport}
use safechat.Transport.Tests.{counted, counted_laws}
use safechat.Chat.{ChatEvent, SignalPort, ChatService, World, advance_to}
use safechat.Chat.Send.{send_text}
use safechat.Chat.Poll.{poll, from_utf8, outbox, retry}
use safechat.Chat.Append.{Extends, poll-Extends}
use safechat.Chat.Durable.{Submitted, send_text_durable}
use safechat.Chat.Synced.{Synced, poll-Synced}
use safechat.Chat.Outbox.{Resubmits, failed_send_retried}

-- A session that has one message to decrypt: a second time its counter is old.
abbrev pub toy_signal : SignalPort ℕ Bytes
toy_signal = record {
  name = λ peer. peer;
  address = λ peer. peer;
  encrypt_message_for = λ peer plaintext n. (ok (codes "id1", plaintext), suc n);
  decrypt_message_from = λ address ciphertext n. elim n [
    | zero ↦ (ok (record { id = codes "id7"; plaintext = ciphertext }), 1)
    | suc m ↦ (err (codes "message with old counter 0 / 0"), suc m)
  ];
}

-- A transport that works or not, and the ids that it was given.
abbrev pub Wire : Type 0
Wire = Bool × List Bytes

abbrev pub log_or_fail : Bytes → Program Wire (Unit {0})
log_or_fail id (true, log) = (ok tt, (true, id ∷ log))
log_or_fail id (false, log) = (err (codes "transport unavailable"), (false, log))

abbrev pub incoming : TransportMessage
incoming = record {
  transport_id = codes "42";
  sender = codes "bob-client";
  sender_address = some (codes "bob.1");
  message_id = [];
  ciphertext = codes "hi";
  accepted_at = 1;
  expires_at = none;
}

abbrev pub toy_transport : MessageTransport Wire
toy_transport = record {
  send = λ recipient id ciphertext expires. log_or_fail id;
  receive = λ cursor t. (ok (incoming ∷ []), t);
  acknowledge = λ message. log_or_fail message.transport_id;
  status = λ id t. (ok DeliveryStatus.read, t);
}

-- A store that works or not, and what was saved.
abbrev pub Disk : Type 0
Disk = Bool × HistoryFile

abbrev pub save_or_fail : HistoryFile → Program Disk (Unit {0})
save_or_fail history (true, old) = (ok tt, (true, history))
save_or_fail history (false, old) = (err (codes "disk full"), (false, old))

abbrev pub toy_store : HistoryStore Disk
toy_store = record {
  load = λ conversation d. (ok d.1, d);
  save = λ conversation history. save_or_fail history;
}

abbrev pub toy : ChatService ℕ Bytes Wire Disk
toy = record {
  signal = toy_signal;
  transport = toy_transport;
  history_store = toy_store;
  base64 = counted;
  from_utf8_lossy = λ s. s;
  conversation = codes "bob.1";
}

abbrev pub start : Bool → Bool → World ℕ Wire Disk
start wire_works disk_works = record {
  state = 0;
  transport = (wire_works, []);
  store = (disk_works, empty);
  history = empty;
  clock = λ n. n;
  readings = 5;
}

abbrev pub bob : Bytes
bob = codes "bob.1"

-- A failed submission leaves a queued entry, and the next poll submits it with its id.
abbrev after_failure : World ℕ Wire Disk
after_failure = (send_text toy bob bob bob (codes "hey") (start false true)).1

abbrev repaired : World ℕ Wire Disk → World ℕ Wire Disk
repaired w = record w { transport = (true, w.transport.1) }

failure_is_saved : after_failure.store.1 ≡ after_failure.history
unfolding send_text
failure_is_saved = refl

retried : (poll toy bob none (repaired after_failure)).1.transport.1 ≡ codes "42" ∷ codes "id1" ∷ []
unfolding send_text poll counted empty bytes_eq advance_to parse_i64
retried = refl

-- A message is decrypted, and cannot be saved; the history is loaded again. The next poll takes
-- the message for an old one and acknowledges it: it is in no history.
abbrev reopened : World ℕ Wire Disk → World ℕ Wire Disk
reopened w = record w { store = (true, w.store.1); history = w.store.1 }

abbrev after_lost_save : World ℕ Wire Disk
after_lost_save = reopened (poll toy bob none (start true false)).1

message_is_lost :
    let (r, w) = poll toy bob none after_lost_save in
    (r ≡ ok (ChatEvent.stale (codes "42") ∷ []))
    × (w.history.entries ≡ [])
    × (w.transport.1 ≡ codes "42" ∷ [])
unfolding poll counted empty bytes_eq advance_to parse_i64 from_utf8 is_utf8 contains_text
    strip_prefix
message_is_lost = (refl, refl, refl)

poll-Extends_example : Extends empty (poll toy bob none (start true true)).1.history
poll-Extends_example = poll-Extends toy bob none (start true true)

poll-Synced_example : Synced toy (start true true) (poll toy bob none (start true true)).1
poll-Synced_example =
    poll-Synced toy (start true true) bob none
      (ChatEvent.received 5 (codes "bob.1") (codes "hi") ∷ [])
      (unfold poll counted empty bytes_eq advance_to parse_i64 from_utf8 is_utf8 in refl)

send_text_durable_example :
    (after_failure.transport ≡ (start false true).transport)
    ⊎ Submitted toy bob bob (codes "hey") (start false true) after_failure
send_text_durable_example = send_text_durable toy bob bob bob (codes "hey") (start false true)

failed_send_retried_example :
    let (r, w') = send_text toy bob bob bob (codes "hey") (start false true) in
    (r ≡ err (codes "transport unavailable"))
    × ((queued : Bytes × Bytes × Bytes) × (outbox w'.history.entries
          ≡ outbox (start false true).history.entries ++ (queued ∷ []))
        × Resubmits toy
            (codes "id1")
            bob
            (codes "hey")
            (start true true)
            (retry toy queued (start true true)).1)
failed_send_retried_example =
    failed_send_retried toy counted_laws bob bob bob (codes "hey") (codes "id1") (codes "hey")
      (codes "transport unavailable") (start false true) (start true true) refl refl refl
