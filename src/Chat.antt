-- ===== src/Chat.antt =====
-- codebase/application/src/chat_service.rs: `ChatService`. The Signal state, the transport and the
-- history store are ports; a clock reading is the next of a stream.
pub mod Send
pub mod Poll
pub mod Rules
pub mod Durable
pub mod Append
pub mod Synced
pub mod Outbox
pub mod Tests
use safechat.Prelude.{
  ℕ, suc, ℤ, Bool, true, false, ◌&&◌, ◌||◌, not, Option, none, some, List, [], ◌∷◌, ◌++◌, Result,
  ok, err, leb_ℤ, if◌then◌else◌,
}
use safechat.Prelude.Bytes.{Bytes, bytes_eq, codes}
use safechat.Prelude.Text.{parse_i64}
use safechat.Prelude.Programs.{Program, within, get, modify, ◌>>=◌, ◌>>◌}
use safechat.History.{HistoryEntry, HistoryFile, HistoryStore}
use safechat.Transport.{MessageTransport, Base64}

pub data ChatEvent : Type 0 where
  sent : ℕ → Bytes → ChatEvent
  read : ℕ → Bytes → ChatEvent
  received : ℕ → Bytes → Bytes → ChatEvent
  stale : Bytes → ChatEvent

-- A decrypted `SafeChatMessage`, with its id as `MessageId::encode` writes it.
pub record DecodedMessage : Type 0 where
  pub id : Bytes
  pub plaintext : Bytes

-- What the service uses of `SqliteSignalState`, on a state `S` and bundles `B`.
pub record SignalPort (S B : Type 0) : Type 0 where
  pub name : B → Bytes
  pub address : B → Bytes
  pub encrypt_message_for : B → Bytes → Program S (Bytes × Bytes)
  pub decrypt_message_from : Bytes → Bytes → Program S DecodedMessage

pub record ChatService (S B T H : Type 0) : Type 0 where
  pub signal : SignalPort S B
  pub transport : MessageTransport T
  pub history_store : HistoryStore H
  pub base64 : Base64
  pub from_utf8_lossy : Bytes → Bytes
  pub conversation : Bytes

-- What the service and its callers share.
pub record World (S T H : Type 0) : Type 0 where
  pub state : S
  pub transport : T
  pub store : H
  pub history : HistoryFile
  pub clock : ℕ → ℕ
  pub readings : ℕ

abbrev pub you : Bytes
you = codes "you"

abbrev pub is_empty : Bytes → Bool
is_empty [] = true
is_empty (b ∷ bs) = false

abbrev pub has_id : Bytes → HistoryEntry → Bool
has_id id entry = bytes_eq entry.message_id id

-- `iter().any(|entry| entry.message_id == id)`
unfoldable pub any_id : Bytes → List HistoryEntry → Bool
any_id id [] = false
any_id id (e ∷ es) = has_id id e || any_id id es

-- The first entry with an id becomes "sent".
unfoldable pub mark_sent : Bytes → List HistoryEntry → List HistoryEntry
mark_sent id [] = []
mark_sent id (e ∷ es) =
    let rest = mark_sent id es in
    if has_id id e then (record e { delivery_status = codes "sent" }) ∷ es else e ∷ rest

-- `transport_id.parse::<i64>()` and `max`, on the cursor.
unfoldable pub advance_to : ℤ → Option ℤ → ℤ
advance_to cursor none = cursor
advance_to cursor (some n) = if leb_ℤ cursor n then n else cursor

abbrev pub advanced : ℤ → Bytes → ℤ
advanced cursor transport_id = advance_to cursor (parse_i64 transport_id)

abbrev pub differs : ℤ → ℤ → Bool
differs a b = not (leb_ℤ a b && leb_ℤ b a)

abbrev pub Action : Type 0 → Type 0 → Type 0 → Type 0 → Type 0
Action S T H A = Program (World S T H) A

module _ {S T H : Type 0} where
  -- Calls of the ports.
  abbrev pub on_state : {A : Type 0} → Program S A → Action S T H A
  on_state = within (λ (w : World S T H). w.state) (λ s w. record w { state = s })

  abbrev pub on_transport : {A : Type 0} → Program T A → Action S T H A
  on_transport = within (λ (w : World S T H). w.transport) (λ t w. record w { transport = t })

  abbrev pub on_store : {A : Type 0} → Program H A → Action S T H A
  on_store = within (λ (w : World S T H). w.store) (λ h w. record w { store = h })

  abbrev pub tick : World S T H → World S T H
  tick w = record w { readings = suc w.readings }

  -- `now()`
  unfoldable pub now : Action S T H ℕ
  unfolding ◌>>=◌
  now = do
    timestamp ← get (λ (w : World S T H). w.clock w.readings)
    modify tick
    get (λ _. timestamp)

  abbrev pub with_entries : (List HistoryEntry → List HistoryEntry) → World S T H → World S T H
  with_entries f w = record w { history = record w.history { entries = f w.history.entries } }

  -- `history.entries.push(entry)`
  abbrev pub push : HistoryEntry → World S T H → World S T H
  push entry = with_entries (λ es. es ++ (entry ∷ []))

  abbrev pub with_cursor : Bytes → World S T H → World S T H
  with_cursor transport_id w = record w {
    history = record w.history {
      transport_cursor = advanced w.history.transport_cursor transport_id;
    };
  }

  -- Whether the cursor has changed.
  unfoldable pub advance_cursor : Bytes → Action S T H Bool
  unfolding ◌>>=◌
  advance_cursor transport_id = do
    previous ← get (λ (w : World S T H). w.history.transport_cursor)
    modify (with_cursor transport_id)
    get (λ (w : World S T H). differs w.history.transport_cursor previous)

  -- `self.history_store.save(&self.conversation, history)?`
  unfoldable pub save : {B : Type 0} → ChatService S B T H → Action S T H (Unit {0})
  unfolding ◌>>=◌
  save service = do
    history ← get (λ (w : World S T H). w.history)
    on_store (service.history_store.save service.conversation history)
