-- ===== src/Ui/Tests.antt =====
-- codebase/slint-ui/src/ui_service: commands, scrolling and profiles on concrete ports.
use safechat.Prelude.{
  ◌++◌, ℕ, suc, ◌≡◌, refl, true, false, none, some, [], ◌∷◌, ok, err, ◌⊎◌, drop, map,
}
use safechat.Prelude.Bytes.{Bytes, bytes_eq, codes}
use safechat.Prelude.Text.{component, is_dash, trim, trim_start, is_space}
use safechat.History.{HistoryFile, empty, new_entry}
use safechat.Transport.Tests.{counted}
use safechat.Chat.Tests.{Wire, Disk, toy, start, save_or_fail}
use safechat.Ui.{
  TransportKind, transport_name, parse_transport, Command, Operation, operation, Event,
}
use safechat.Ui.State.{UiState, from_profiles, prepare, apply}
use safechat.Ui.Chat.{ServicePorts, render_entry}
use safechat.Ui.Service.{Worker, handle_command}
use safechat.Ui.Scroll.{scroll, scroll_shows}
use safechat.Ui.Worker.{submit}
use safechat.Ui.Front.{Front, Step, Reach, launched}
use safechat.Ui.Idle.{answered_idle}
use safechat.Ui.Sessions.{locked, Unlocked, session_changes}
use safechat.Ui.Profile.{
  ProfileHost, normalize, validate_profile_name, profile_directory, verify_add_contact,
}
use safechat.Ui.Names.{IsBundleOf, IsTrusted, verify_add_contact-Verified}

parsed_back : (kind : TransportKind) → parse_transport (transport_name kind) ≡ some kind
unfolding parse_transport transport_name bytes_eq
parsed_back TransportKind.copy_paste = refl
parsed_back TransportKind.relay = refl

-- Two conversations whose names differ have one file name.
names_collide : component is_dash (codes "a.b.1") ≡ component is_dash (codes "a_b.1")
unfolding component
names_collide = refl

abbrev two : HistoryFile
two = record empty {
  entries = new_entry 1 (codes "you") (codes "hi") ∷ new_entry 2 (codes "bob") (codes "ho") ∷ [];
}

abbrev fresh : UiState
fresh = from_profiles []

scroll_shows_example :
    let after = scroll two 0 fresh in
    (after.messages ≡ map render_entry (drop 0 two.entries))
    × (after.history_cursor ≡ 0)
    × (after.history_has_more ≡ false)
unfolding empty
scroll_shows_example = scroll_shows two 0 fresh

abbrev load : Command
load = Command.load_history (codes "bob")

-- A history is asked for, and an error answers.
abbrev answered_front : Front
answered_front = record {
  state =
      apply
        (Event.error Operation.history
          (codes "operation failed; see the application log for details"))
        (prepare load fresh);
  queue = [];
  taken = [];
  dropped = false;
}

load_answered : Reach (launched []) answered_front
unfolding submit operation
load_answered =
    Reach.next
      (Reach.next (Reach.next Reach.here (Step.submitted (launched []) (load ∷ []) load refl)) (
        Step.taken (record (launched []) { state = prepare load fresh; queue = load ∷ [] }) load []
          refl))
      (Step.answered (record (launched []) { state = prepare load fresh; taken = load ∷ [] }) load
        []
        (Event.error Operation.history
          (codes "operation failed; see the application log for details"))
        refl (refl, refl))

answered_idle_example :
    (answered_front.state.chat_loading ≡ false) × (answered_front.state.history_loading ≡ false)
answered_idle_example = answered_idle [] answered_front load_answered refl refl refl

-- A profile that is ready does not end the loading that a refused poll has begun.
refused_poll_lasts :
    (apply
      (Event.profile_ready
        (record { profile = codes "alice"; fingerprint = []; bundle = []; contact = none }))
      (prepare (Command.poll (codes "bob")) fresh)).chat_loading
    ≡ true
unfolding apply prepare
refused_poll_lasts = refl

abbrev toy_ports : ServicePorts ℕ Bytes Wire Disk
toy_ports = record {
  chat = toy;
  decode_signal_bundle = λ bytes. ok bytes;
  initialize = λ profile password confirmation w.
      (ok (record { profile = profile; fingerprint = []; bundle = []; contact = none }), w);
  verify_contact = λ profile password bundle fingerprint w. (ok (bundle, []), w);
  load = λ profile password peer d. (ok d.1, d);
  save = λ profile password peer history. save_or_fail history;
  delete = λ profile password peer. save_or_fail empty;
  open_state = λ profile password n. (ok tt, n);
  open_relay_transport = λ session t. (ok tt, t);
  open_history_store = λ session d. (ok tt, d);
  sender_id_for = λ peer t. none;
  recipient_for = λ peer t. peer;
  fetch_peer_bundle = λ peer t. (ok peer, t);
}

abbrev locked_worker : Worker ℕ Wire Disk
locked_worker = record { session = none; world = start true true }

locked_example :
    handle_command toy_ports load locked_worker
    ≡ (err (codes "profile is not unlocked"), locked_worker)
locked_example =
    locked toy_ports load (start true true) (unfold operation in λ e. cc)
      (unfold operation in λ e. cc)

abbrev unlock : Command
unlock = Command.initialize (codes "alice") (codes "pw") (codes "pw")

session_changes_example :
    let w' = (handle_command toy_ports unlock locked_worker).1 in
    (w'.session ≡ none) ⊎ Unlocked toy_ports unlock locked_worker w'
session_changes_example = session_changes toy_ports unlock locked_worker

-- A host whose file system counts what is done to it.
abbrev toy_host : ProfileHost ℕ (Unit {0}) Bytes (Unit {0})
toy_host = record {
  base64 = counted;
  to_lowercase = λ s. s;
  join = λ root name. root ++ (47 ∷ name);
  data_directory = ok (codes "/data");
  create_dir_all = λ path n. (ok tt, suc n);
  exists = λ path n. true;
  is_file = λ path n. false;
  write = λ path text n. (ok tt, suc n);
  read_to_string = λ path n. (ok [], n);
  open_state = λ database password n. (ok tt, n);
  initialize_state = λ database profile device password n. (ok tt, suc n);
  export_bundle = λ state n. (ok [], n);
  local_identity_fingerprint = λ state n. (ok [], n);
  encode_signal_bundle = λ bundle. ok bundle;
  decode_signal_bundle = λ bytes. ok bytes;
  identity_fingerprint = λ bundle. ok (codes "ab:cd");
  name = λ bundle. codes "bob";
  address = λ bundle. codes "bob.1";
  trust_bundle = λ state bundle n. (ok tt, suc n);
  read_dir = λ path n. (ok [], n);
  parse_object = λ text. ok tt;
  empty_object = tt;
  language_of = λ j. none;
  with_language = λ language j. tt;
  object_text = λ j. [];
}

-- A name with a drive is accepted.
drive_is_accepted : validate_profile_name (codes "C:x") ≡ ok (codes "C:x")
unfolding validate_profile_name trim trim_start is_space
drive_is_accepted = refl

verify_add_contact-Verified_example :
    (bundle : Bytes) × (fingerprint : Bytes) × (directory : Bytes) × ((profile_directory toy_host
        (codes "alice")
        0).0
      ≡ ok directory)
    × IsBundleOf toy_host (codes "ABC") bundle
    × (toy_host.identity_fingerprint bundle ≡ ok fingerprint)
    × (normalize toy_host (codes "abcd") ≡ normalize toy_host fingerprint)
    × IsTrusted toy_host directory
        (codes "pw")
        (codes "ABC")
        bundle
        (profile_directory toy_host (codes "alice") 0).1
        (verify_add_contact toy_host (codes "alice") (codes "pw") (codes "ABC") (codes "abcd") 0).1
unfolding trim trim_start is_space counted
verify_add_contact-Verified_example =
    verify_add_contact-Verified toy_host (codes "alice") (codes "pw") (codes "ABC") (codes "abcd") 0
      (codes "bob", codes "Verified and added bob.") (unfold verify_add_contact in refl)
