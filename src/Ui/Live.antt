-- ===== src/Ui/Live.antt =====
-- codebase/slint-ui/src/ui_service: that every command is answered by one event of its kind.
use safechat.Prelude.{◌≡◌, Bool, true, false, Option, none, some}
use safechat.Prelude.Bytes.{Bytes}
use safechat.Prelude.Programs.{Program}
use safechat.Prelude.Programs.Ensures.{Ensures}
use safechat.Ui.{Command, Operation, operation, Event}
use safechat.Ui.Chat.{ServicePorts}
use safechat.Ui.Service.{Worker}
use safechat.Ui.Worker.{sanitized}

abbrev pub is_older : Command → Bool
is_older (Command.load_older_history peer before) = true
is_older _ = false

-- The commands about a conversation.
abbrev pub is_chat : Command → Bool
is_chat (Command.initialize profile password confirmation) = false
is_chat (Command.verify_contact profile password bundle fingerprint) = false
is_chat _ = true

-- The event is one that the command can be answered with.
abbrev pub Answers : Command → Event → Type 0
Answers c (Event.profile_ready ready) = operation c ≡ Operation.profile
Answers c (Event.contact_added name bundle status) = operation c ≡ Operation.contact
Answers c (Event.chat_updated update) = (is_chat c ≡ true) × (update.prepend ≡ is_older c)
Answers c (Event.error op message) = (op ≡ operation c) × (message ≡ sanitized)

abbrev AnswersSome : Command → Option Event → Type 0
AnswersSome c none = ⊥
AnswersSome c (some e) = Answers c e

module _ {S B T H : Type 0} (ports : ServicePorts S B T H) where
  -- Any state before, and a condition on the value alone.
  abbrev Gives : {A : Type 0} → Program (Worker S T H) A → (A → Type 0) → Type 0
  Gives m Q = Ensures (λ (w : Worker S T H). Unit {0}) m (λ a w. Q a)
