-- ===== src/Ui.antt =====
-- codebase/slint-ui/src/ui_service/contracts.rs and model.rs: the commands and events that the
-- front end and its worker exchange.
pub mod State
pub mod Chat
pub mod Scroll
pub mod Profile
pub mod Names
pub mod Service
pub mod Worker
pub mod Live
pub mod Front
pub mod Idle
pub mod Sessions
pub mod Tests
use safechat.Prelude.{ℕ, Bool, true, false, Option, none, some, List, if◌then◌else◌}
use safechat.Prelude.Bytes.{Bytes, bytes_eq, codes}

pub data TransportKind : Type 0 where
  copy_paste relay : TransportKind

-- `Display for TransportKind`
unfoldable pub transport_name : TransportKind → Bytes
transport_name TransportKind.copy_paste = codes "Copy/paste"
transport_name TransportKind.relay = codes "Relay"

unfoldable pub parse_transport : Bytes → Option TransportKind
unfolding bytes_eq
parse_transport value =
    if bytes_eq value (codes "Copy/paste")
    then some TransportKind.copy_paste
    else if bytes_eq value (codes "Relay")
    then some TransportKind.relay
    else none

pub record ConversationMessage : Type 0 where
  pub sender : Bytes
  pub text : Bytes
  pub timestamp : ℕ
  pub outgoing : Bool
  pub status : Bytes
  pub ciphertext : Bytes

pub data Command : Type 0 where
  initialize : Bytes → Bytes → Bytes → Command
  verify_contact : Bytes → Bytes → Bytes → Bytes → Command
  load_history : Bytes → Command
  delete_history : Bytes → Command
  load_older_history : Bytes → ℕ → Command
  send : Bytes → TransportKind → Bytes → Command
  receive_pasted : Bytes → Bytes → Command
  poll : Bytes → Command

pub data Operation : Type 0 where
  profile contact history chat relay : Operation

-- `Display for Operation`
unfoldable pub operation_name : Operation → Bytes
operation_name Operation.profile = codes "profile"
operation_name Operation.contact = codes "contact"
operation_name Operation.history = codes "history"
operation_name Operation.chat = codes "chat"
operation_name Operation.relay = codes "relay"

unfoldable pub operation : Command → Operation
operation (Command.initialize name password confirmation) = Operation.profile
operation (Command.verify_contact name password bundle fingerprint) = Operation.contact
operation (Command.load_history peer) = Operation.history
operation (Command.load_older_history peer before) = Operation.history
operation (Command.delete_history peer) = Operation.history
operation (Command.send peer TransportKind.relay text) = Operation.relay
operation (Command.send peer TransportKind.copy_paste text) = Operation.chat
operation (Command.poll peer) = Operation.relay
operation (Command.receive_pasted peer ciphertext) = Operation.chat

-- What `Event::ChatUpdated` carries.
pub record ChatUpdate : Type 0 where
  pub messages : List ConversationMessage
  pub status : Bytes
  pub history_cursor : ℕ
  pub has_more : Bool
  pub prepend : Bool

-- What `Event::ProfileReady` carries, and `ports::ProfileReadyData`.
pub record ProfileReadyData : Type 0 where
  pub profile : Bytes
  pub fingerprint : Bytes
  pub bundle : Bytes
  pub contact : Option (Bytes × Bytes)

pub data Event : Type 0 where
  profile_ready : ProfileReadyData → Event
  contact_added : Bytes → Bytes → Bytes → Event
  chat_updated : ChatUpdate → Event
  error : Operation → Bytes → Event
