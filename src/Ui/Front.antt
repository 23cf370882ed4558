-- ===== src/Ui/Front.antt =====
-- codebase/slint-ui/src/ui_service and main.rs: the front end and the worker as steps. The front end
-- prepares its state and queues a command; the worker takes the oldest command and answers it with an
-- event, which the front end applies.
use safechat.Prelude.{◌≡◌, Bool, true, false, ◌&&◌, not, List, [], ◌∷◌, ◌++◌}
use safechat.Prelude.Bytes.{Bytes}
use safechat.Ui.{TransportKind, Command, Event}
use safechat.Ui.State.{
  UiState, from_profiles, prepare, apply, select_transport, return_to_existing_chat,
}
use safechat.Ui.Worker.{submit, try_submit}
use safechat.Ui.Live.{Answers}
use safechat.Prelude.{ok, err}

-- `taken` are the commands that the worker has taken and whose event the front end has not applied
-- yet, the oldest first. `dropped` says that a poll was refused, and that every event applied since
-- was that of a ready profile.
pub record Front : Type 0 where
  pub state : UiState
  pub queue : List Command
  pub taken : List Command
  pub dropped : Bool

-- What the handlers of slint-ui/src/main.rs do when `submit` fails.
unfoldable pub after_refusal : Command → Bytes → UiState → UiState
after_refusal (Command.initialize profile password confirmation) status s = record s {
  status = status;
}
after_refusal (Command.verify_contact profile password bundle fingerprint) status s = record s {
  status = status;
}
after_refusal _ status s = record s {
  status = status;
  chat_loading = false;
  history_loading = false;
}

abbrev pub is_poll : Command → Bool
is_poll (Command.poll peer) = true
is_poll _ = false

abbrev is_relay : TransportKind → Bool
is_relay TransportKind.relay = true
is_relay TransportKind.copy_paste = false

abbrev is_empty : Bytes → Bool
is_empty [] = true
is_empty (b ∷ bs) = false

-- When the timer of main.rs polls, but for its three seconds.
unfoldable pub may_poll : UiState → Bool
may_poll s =
    s.profile_ready
    && s.conversation_selected
    && is_relay s.selected_transport
    && not s.chat_loading
    && not (is_empty s.contact_bundle)

abbrev pub is_profile : Event → Bool
is_profile (Event.profile_ready ready) = true
is_profile _ = false

pub data Step : Front → Front → Type 0 where
  submitted :
      (f : Front) (q : List Command) (c : Command)
      → submit c f.queue ≡ ok q
      → Step f (record f { state = prepare c f.state; queue = q })
  refused :
      (f : Front) (c : Command) (reason status : Bytes)
      → is_poll c ≡ false
      → submit c f.queue ≡ err reason
      → Step f (record f { state = after_refusal c status (prepare c f.state) })
  poll_refused :
      (f : Front)
      → may_poll f.state ≡ true
      → (try_submit (Command.poll f.state.contact_bundle) f.queue).0 ≡ false
      → Step f (record f {
        state = prepare (Command.poll f.state.contact_bundle) f.state;
        dropped = true;
      })
  taken :
      (f : Front) (c : Command) (q : List Command)
      → f.queue ≡ c ∷ q
      → Step f (record f { queue = q; taken = f.taken ++ (c ∷ []) })
  answered :
      (f : Front) (c : Command) (cs : List Command) (e : Event)
      → f.taken ≡ c ∷ cs
      → Answers c e
      → Step f
          (record f { state = apply e f.state; taken = cs; dropped = f.dropped && is_profile e })
  chosen :
      (f : Front) (t : TransportKind) → Step f (record f { state = select_transport t f.state })
  returned : (f : Front) → Step f (record f { state = return_to_existing_chat f.state })

pub data Reach : Front → Front → Type 0 where
  here : {f : Front} → Reach f f
  next : {f g h : Front} → Reach f g → Step g h → Reach f h

-- The start: nothing is queued.
abbrev pub launched : List Bytes → Front
launched profiles = record {
  state = from_profiles profiles;
  queue = [];
  taken = [];
  dropped = false;
}
