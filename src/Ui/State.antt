-- ===== src/Ui/State.antt =====
-- codebase/slint-ui/src/ui_service/state.rs: `UiState` and its transitions. Texts outside ASCII are
-- their UTF-8 bytes.
use safechat.Prelude.{
  ℕ, ◌+◌, ◌%◌, ◌^◌, Bool, true, false, not, Option, none, some, List, [], ◌∷◌, ◌++◌, if◌then◌else◌,
}
use safechat.Prelude.Bytes.{Bytes, bytes_eq, codes}
use safechat.Ui.{
  TransportKind, transport_name, ConversationMessage, Command, operation_name, ChatUpdate, Event,
}

-- `scroll_generation` is an `i32`, kept as its 32-bit pattern.
pub record UiState : Type 0 where
  pub language : Bytes
  pub status : Bytes
  pub profiles : List Bytes
  pub profile_name : Bytes
  pub selected_profile : Bytes
  pub profile_exists : Bool
  pub creating_profile : Bool
  pub profile_ready : Bool
  pub fingerprint : Bytes
  pub public_bundle : Bytes
  pub contact_name : Bytes
  pub contact_bundle : Bytes
  pub contact_added : Bool
  pub conversation_selected : Bool
  pub chat_loading : Bool
  pub history_loading : Bool
  pub loading_text : Bytes
  pub messages : List ConversationMessage
  pub selected_transport : TransportKind
  pub new_chat_open : Bool
  pub profile_info_open : Bool
  pub history_cursor : ℕ
  pub history_has_more : Bool
  pub scroll_to_latest : Bool
  pub scroll_generation : ℕ

-- "…"
abbrev ellipsis : Bytes
ellipsis = 0xe2 ∷ 0x80 ∷ 0xa6 ∷ []

abbrev first_or_empty : List Bytes → Bytes
first_or_empty [] = []
first_or_empty (p ∷ ps) = p

abbrev is_empty : Bytes → Bool
is_empty [] = true
is_empty (b ∷ bs) = false

abbrev decrypting : Bytes
decrypting = codes "Decrypting chat history" ++ ellipsis

unfoldable pub from_profiles : List Bytes → UiState
from_profiles profiles =
    let selected_profile = first_or_empty profiles in
    record {
      language = codes "en";
      status = codes "Ready";
      profile_exists = not (is_empty selected_profile);
      creating_profile = is_empty selected_profile;
      profile_name = selected_profile;
      selected_profile = selected_profile;
      profiles = profiles;
      profile_ready = false;
      fingerprint = [];
      public_bundle = [];
      contact_name = [];
      contact_bundle = [];
      contact_added = false;
      conversation_selected = false;
      chat_loading = false;
      history_loading = false;
      loading_text = decrypting;
      messages = [];
      selected_transport = TransportKind.copy_paste;
      new_chat_open = false;
      profile_info_open = false;
      history_cursor = 0;
      history_has_more = false;
      scroll_to_latest = false;
      scroll_generation = 0;
    }

abbrev selected : UiState → UiState
selected state = record state {
  new_chat_open = false;
  conversation_selected = true;
  chat_loading = true;
  history_loading = true;
  loading_text = decrypting;
  status = codes "Conversation selected.";
}

-- The two fields that say that the chat is busy, and the text for it.
abbrev busy : Bool → Bytes → UiState → UiState
busy with_history text state = record state {
  chat_loading = true;
  history_loading = with_history;
  loading_text = text;
  status = text;
}

unfoldable pub prepare : Command → UiState → UiState
prepare (Command.initialize name password confirmation) state = record state {
  status = codes "Unlocking encrypted profile" ++ ellipsis;
}
prepare (Command.verify_contact name password bundle fingerprint) state = record state {
  status = codes "Verifying contact" ++ ellipsis;
}
prepare (Command.load_history peer) state = selected state
prepare (Command.poll peer) state = selected state
prepare (Command.load_older_history peer before) state = record state {
  chat_loading = true;
  history_loading = true;
  loading_text = decrypting;
  status = codes "Conversation selected.";
}
prepare (Command.delete_history peer) state =
    busy true (codes "Deleting chat history" ++ ellipsis) state
prepare (Command.send peer transport text) state =
    busy false (codes "Encrypting and sending" ++ ellipsis) state
prepare (Command.receive_pasted peer ciphertext) state =
    busy false (codes "Decrypting pasted message" ++ ellipsis) state

abbrev pub with_contact : Option (Bytes × Bytes) → UiState → UiState
with_contact none state = state
with_contact (some (name, bundle)) state = record state {
  contact_name = name;
  contact_bundle = bundle;
  contact_added = true;
}

abbrev pub without_contact : UiState → UiState
without_contact state = record state {
  contact_name = [];
  contact_bundle = [];
  contact_added = false;
  conversation_selected = false;
  new_chat_open = false;
}

-- `wrapping_add(1)`
unfoldable pub next_generation : ℕ → ℕ
next_generation n = (n + 1) % 2 ^ 32

-- The assignments for a new or an older page.
abbrev pub with_page : ChatUpdate → ℕ → UiState → UiState
with_page update generation state = record state {
  messages = if update.prepend then update.messages ++ state.messages else update.messages;
  history_cursor = update.history_cursor;
  history_has_more = update.has_more;
  scroll_to_latest = not update.prepend;
  scroll_generation = if update.prepend then state.scroll_generation else generation;
  chat_loading = false;
  history_loading = false;
  status = update.status;
}

unfoldable pub apply_update : ChatUpdate → UiState → UiState
unfolding bytes_eq next_generation
apply_update update state =
    let updated = with_page update (next_generation state.scroll_generation) state in
    if bytes_eq update.status (codes "Chat history deleted.")
    then without_contact updated
    else updated

unfoldable pub apply : Event → UiState → UiState
unfolding apply_update operation_name
apply (Event.profile_ready ready) state =
    record (with_contact ready.contact (record state {
      profile_name = ready.profile;
      selected_profile = ready.profile;
      profile_exists = true;
      profile_ready = true;
      fingerprint = ready.fingerprint;
      public_bundle = ready.bundle;
    })) { status = codes "Profile ready. Verify fingerprints through a separate trusted channel." }
apply (Event.contact_added name bundle status) state = record state {
  contact_name = name;
  contact_bundle = bundle;
  contact_added = true;
  conversation_selected = false;
  chat_loading = false;
  history_loading = false;
  new_chat_open = false;
  status = status;
}
apply (Event.chat_updated update) state = apply_update update state
apply (Event.error operation message) state = record state {
  chat_loading = false;
  history_loading = false;
  status = operation_name operation ++ codes " failed: " ++ message;
}

unfoldable pub select_transport : TransportKind → UiState → UiState
unfolding transport_name
select_transport transport state = record state {
  selected_transport = transport;
  status = codes "Selected transport: " ++ transport_name transport;
}

unfoldable pub return_to_existing_chat : UiState → UiState
return_to_existing_chat state = record state { new_chat_open = false; conversation_selected = true }
