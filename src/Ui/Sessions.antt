-- ===== src/Ui/Sessions.antt =====
-- codebase/slint-ui/src/ui_service.rs: who opens a session, and what is done without one.
use safechat.Prelude.{
  ◌≡◌, refl, Bool, Option, none, some, ok, err, ◌≢◌, ◌⊎◌, inl, inr, Result-cases,
}
use safechat.Prelude.Bytes.{Bytes, codes}
use safechat.Prelude.Programs.{◌>>=◌}
use safechat.Prelude.Programs.Keeps.{Keeps, Keeps-within, keeps_rules}
use safechat.Chat.{Action, World}
use safechat.Ui.{TransportKind, Command, Operation, operation, ProfileReadyData}
use safechat.Ui.Chat.{HistoryPage, ProfileSession, ServicePorts}
use safechat.Ui.Service.{
  Worker, on_world, require_session, handle_initialize, handle_verify, with_page,
  with_page_and_status, handle_delete, handle_paste_send, handle_command,
}

module _ {S B T H : Type 0} (ports : ServicePorts S B T H) where
  -- While no profile is unlocked, every command but unlocking one and verifying a contact is refused,
  -- and nothing is called or changed.
  pub locked :
      (c : Command) (v : World S T H)
      → operation c ≢ Operation.profile
      → operation c ≢ Operation.contact
      → let w : Worker S T H = record { session = none; world = v } in
        handle_command ports c w ≡ (err (codes "profile is not unlocked"), w)
  unfolding handle_command with_page with_page_and_status handle_delete handle_paste_send
      require_session operation
  locked (Command.initialize profile password confirmation) v h k = absurd (h refl)
  locked (Command.verify_contact profile password bundle fingerprint) v h k = absurd (k refl)
  locked (Command.load_history peer) v h k = refl
  locked (Command.load_older_history peer before) v h k = refl
  locked (Command.delete_history peer) v h k = refl
  locked (Command.send peer TransportKind.copy_paste text) v h k = refl
  locked (Command.send peer TransportKind.relay text) v h k = refl
  locked (Command.receive_pasted peer ciphertext) v h k = refl
  locked (Command.poll peer) v h k = refl

module _ {S B T H : Type 0} (ports : ServicePorts S B T H) (session : Option ProfileSession) where
  abbrev Same : Worker S T H → Type 0
  Same w = w.session ≡ session

  Same-on_world : {A : Type 0} (call : Action S T H A) → Keeps Same (on_world call)
  Same-on_world call =
      Keeps-within (λ (w : Worker S T H). w.world) (λ v w. record w { world = v }) call (λ w v h. h)

  ruleset same_rules = (keeps_rules, Same-on_world)

  Same-require_session : Keeps Same require_session
  unfolding require_session
  Same-require_session = search same_rules depth 12

  Same-with_page :
      (action : ProfileSession → Action S T H HistoryPage) (status : Bytes) (prepend : Bool)
      → Keeps Same (with_page ports action status prepend)
  unfolding with_page
  Same-with_page action status prepend = search (same_rules, Same-require_session) depth 12

  Same-with_page_and_status :
      (action : ProfileSession → Action S T H (HistoryPage × Bytes))
      → Keeps Same (with_page_and_status ports action)
  unfolding with_page_and_status
  Same-with_page_and_status action = search (same_rules, Same-require_session) depth 12

  Same-handle_delete : (peer : Bytes) → Keeps Same (handle_delete ports peer)
  unfolding handle_delete
  Same-handle_delete peer = search (same_rules, Same-require_session) depth 12

  Same-handle_paste_send : (peer text : Bytes) → Keeps Same (handle_paste_send ports peer text)
  unfolding handle_paste_send
  Same-handle_paste_send peer text = search (same_rules, Same-require_session) depth 12

  Same-handle_verify :
      (profile password bundle fingerprint : Bytes)
      → Keeps Same (handle_verify ports profile password bundle fingerprint)
  unfolding handle_verify
  Same-handle_verify profile password bundle fingerprint = search same_rules depth 12

-- The command unlocked a profile: its session is the one that the profile port answered with, and
-- the password of the command.
pub record Unlocked {S B T H : Type 0} (ports : ServicePorts S B T H) (c : Command)
    (w w' : Worker S T H) : Type 0 where
  pub profile : Bytes
  pub password : Bytes
  pub confirmation : Bytes
  pub ready : ProfileReadyData
  pub command : c ≡ Command.initialize profile password confirmation
  pub answer : (ports.initialize profile password confirmation w.world).0 ≡ ok ready
  pub session : w'.session ≡ some (record { profile = ready.profile; password = password })

module _ {S B T H : Type 0} (ports : ServicePorts S B T H) where
  initialize-session :
      (profile password confirmation : Bytes) (w : Worker S T H)
      → let w' = (handle_initialize ports profile password confirmation w).1 in
        (w'.session ≡ w.session)
        ⊎ Unlocked ports (Command.initialize profile password confirmation) w w'
  unfolding handle_initialize ◌>>=◌
  initialize-session profile password confirmation w =
      elim (Result-cases (ports.initialize profile password confirmation w.world).0) [
        | inl (ready, made) ↦ rw made (
            inr (record {
              profile = profile;
              password = password;
              confirmation = confirmation;
              ready = ready;
              command = refl;
              answer = made;
              session = refl;
            }))
        | inr (reason, failed) ↦ rw failed (inl refl)
      ]

  -- A command leaves the session as it was, whether it is answered or fails, unless it unlocks a
  -- profile.
  pub session_changes :
      (c : Command) (w : Worker S T H)
      → let w' = (handle_command ports c w).1 in (w'.session ≡ w.session) ⊎ Unlocked ports c w w'
  unfolding handle_command
  session_changes (Command.initialize profile password confirmation) w =
      initialize-session profile password confirmation w
  session_changes (Command.verify_contact profile password bundle fingerprint) w =
      inl ((Same-handle_verify ports w.session profile password bundle fingerprint).at w refl)
  session_changes (Command.load_history peer) w =
      inl ((Same-with_page ports w.session _ _ _).at w refl)
  session_changes (Command.load_older_history peer before) w =
      inl ((Same-with_page ports w.session _ _ _).at w refl)
  session_changes (Command.delete_history peer) w =
      inl ((Same-handle_delete ports w.session peer).at w refl)
  session_changes (Command.send peer TransportKind.copy_paste text) w =
      inl ((Same-handle_paste_send ports w.session peer text).at w refl)
  session_changes (Command.send peer TransportKind.relay text) w =
      inl ((Same-with_page_and_status ports w.session _).at w refl)
  session_changes (Command.receive_pasted peer ciphertext) w =
      inl ((Same-with_page_and_status ports w.session _).at w refl)
  session_changes (Command.poll peer) w =
      inl ((Same-with_page_and_status ports w.session _).at w refl)
