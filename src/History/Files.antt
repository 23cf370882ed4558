-- ===== src/History/Files.antt =====
-- codebase/core/src/profile_store.rs: encrypted files. The file system, `age` and the JSON of the
-- records are ports: a state `F` with one operation for each call, and ciphers that may fail.
use safechat.Prelude.{
  Bool, true, false, not, Option, none, some, [], ◌∷◌, ◌++◌, Result, ok, err, ◌==◌, if◌then◌else◌,
}
use safechat.Prelude.Bytes.{Bytes, codes}
use safechat.Prelude.Utf8.{is_utf8}
use safechat.Prelude.Text.{trim, component, is_dash}
use safechat.Prelude.Programs.{
  Program, pure, lift, get, raise_if, attempt, raise, context, ◌>>=◌, ◌>>◌,
}
use safechat.History.{HistoryFile, HistoryStore, empty, profile_version}

pub record RelayConfig : Type 0 where
  pub base_url : Bytes
  pub allow_insecure_http : Bool
  pub enrollment_secret : Bytes

unfoldable pub new_relay_config : Bytes → Bytes → RelayConfig
new_relay_config base_url enrollment_secret = record {
  base_url = base_url;
  allow_insecure_http = false;
  enrollment_secret = enrollment_secret;
}

unfoldable pub with_insecure_http : RelayConfig → Bool → RelayConfig
with_insecure_http config allowed = record config { allow_insecure_http = allowed }

-- How a removal failed.
pub data RemoveError : Type 0 where
  not_found : RemoveError
  other : Bytes → RemoveError

-- `F` is a file system, `I` an age identity and `M` the map of peer ids.
pub record FileHost (F I M : Type 0) : Type 0 where
  pub exists : Bytes → F → Bool
  pub read : Bytes → Program F Bytes
  pub create_new : Bytes → Program F (Unit {0})
  pub write : Bytes → Bytes → Program F (Unit {0})
  pub remove : Bytes → F → Option RemoveError × F
  pub rename : Bytes → Bytes → Program F (Unit {0})
  pub set_private : Bytes → Program F (Unit {0})
  pub create_dir_all : Bytes → Program F (Unit {0})
  pub parent : Bytes → Option Bytes
  pub temporary : Bytes → Bytes
  pub join : Bytes → Bytes → Bytes
  pub generate : Program F I
  pub encrypt_for_password : Bytes → Bytes → Program F Bytes
  pub decrypt_with_password : Bytes → Bytes → Result Bytes Bytes
  pub encrypt_for_identity : I → Bytes → Program F Bytes
  pub decrypt_with_identity : I → Bytes → Result Bytes Bytes
  pub identity_text : I → Bytes
  pub parse_identity : Bytes → Result Bytes I
  pub history_to_json : HistoryFile → Result Bytes Bytes
  pub history_from_json : Bytes → Result Bytes HistoryFile
  pub config_to_json : RelayConfig → Result Bytes Bytes
  pub config_from_json : Bytes → Result Bytes RelayConfig
  pub peers_to_json : M → Result Bytes Bytes
  pub peers_from_json : Bytes → Result Bytes M
  pub no_peers : M

unfoldable pub from_utf8 : Bytes → Result Bytes Bytes
unfolding is_utf8
from_utf8 s = if is_utf8 s then ok s else err (codes "invalid utf-8")

-- A file that is not there is not an error.
abbrev pub unless_missing : {F : Type 0} → Option RemoveError × F → Result Bytes (Unit {0}) × F
unless_missing (none, f) = (ok tt, f)
unless_missing (some RemoveError.not_found, f) = (ok tt, f)
unless_missing (some (RemoveError.other reason), f) = (err reason, f)

-- `Ok(f(r?))`
abbrev pub map_ok : {A B : Type 0} → (A → B) → Result Bytes A → Result Bytes B
map_ok f (ok a) = ok (f a)
map_ok f (err e) = err e

abbrev is_empty : Bytes → Bool
is_empty [] = true
is_empty (b ∷ bs) = false

module _ {F I M : Type 0} (host : FileHost F I M) where
  unfoldable pub decrypt_file : Bytes → Bytes → Program F Bytes
  unfolding ◌>>=◌
  decrypt_file path password = do
    input ← host.read path
    lift (host.decrypt_with_password password input)

  unfoldable pub decrypt_file_with_identity : Bytes → I → Program F Bytes
  unfolding ◌>>=◌
  decrypt_file_with_identity path identity = do
    input ← host.read path
    lift (host.decrypt_with_identity identity input)

  unfoldable pub remove_stale_temporary : Bytes → Program F (Unit {0})
  remove_stale_temporary path f = unless_missing (host.remove path f)

  -- A new, empty temporary file.
  unfoldable pub create_temporary : Bytes → Program F (Unit {0})
  unfolding ◌>>=◌ remove_stale_temporary
  create_temporary path = do
    remove_stale_temporary (host.temporary path)
    host.create_new (host.temporary path)

  -- The ciphertext goes to the temporary file, which then takes the place of the old one.
  unfoldable pub replace_file : Bytes → Bytes → Program F (Unit {0})
  unfolding ◌>>=◌
  replace_file path ciphertext = do
    host.write (host.temporary path) ciphertext
    host.rename (host.temporary path) path
    host.set_private path

  unfoldable pub save_encrypted : Bytes → Bytes → Bytes → Program F (Unit {0})
  unfolding ◌>>=◌ create_temporary replace_file
  save_encrypted path password plaintext = do
    create_temporary path
    ciphertext ← host.encrypt_for_password password plaintext
    replace_file path ciphertext

  unfoldable pub save_history_with_identity : Bytes → I → HistoryFile → Program F (Unit {0})
  unfolding ◌>>=◌ create_temporary replace_file
  save_history_with_identity path identity history = do
    parent ← context (host.parent path) (codes "chat history has no parent directory")
    host.create_dir_all parent
    create_temporary path
    plaintext ← lift (host.history_to_json history)
    ciphertext ← host.encrypt_for_identity identity plaintext
    replace_file path ciphertext

  unfoldable pub save_history : Bytes → Bytes → HistoryFile → Program F (Unit {0})
  unfolding ◌>>=◌ save_encrypted
  save_history path password history = do
    parent ← context (host.parent path) (codes "chat history has no parent directory")
    host.create_dir_all parent
    plaintext ← lift (host.history_to_json history)
    save_encrypted path password plaintext

  unfoldable pub history_key_path : Bytes → Bytes
  history_key_path root = host.join root (codes ".history-key.age")

  unfoldable pub load_identity : Bytes → Bytes → Program F I
  unfolding ◌>>=◌ decrypt_file from_utf8
  load_identity path password = do
    plaintext ← decrypt_file path password
    encoded ← lift (from_utf8 plaintext)
    lift (host.parse_identity (trim encoded))

  unfoldable pub create_identity : Bytes → Bytes → Program F I
  unfolding ◌>>=◌ save_encrypted
  create_identity path password = do
    identity ← host.generate
    save_encrypted path password (host.identity_text identity)
    pure identity

  unfoldable pub load_or_create : Bool → Bytes → Bytes → Program F I
  unfolding load_identity create_identity
  load_or_create true path password = load_identity path password
  load_or_create false path password = create_identity path password

  unfoldable pub load_or_create_history_identity : Bytes → Bytes → Program F I
  unfolding ◌>>=◌ load_or_create history_key_path
  load_or_create_history_identity root password = do
    present ← get (host.exists (history_key_path root))
    load_or_create present (history_key_path root) password

  -- A history that the password does not open is opened with the history key, if there is one.
  unfoldable pub decrypt_with_history_key : Bytes → Bytes → Bytes → Bytes → Program F Bytes
  unfolding ◌>>=◌ load_or_create_history_identity decrypt_file_with_identity history_key_path
  decrypt_with_history_key path password passphrase_error root = do
    present ← get (host.exists (history_key_path root))
    raise_if (not present) passphrase_error
    identity ← load_or_create_history_identity root password
    decrypt_file_with_identity path identity

  unfoldable pub after_passphrase :
      Bytes → Bytes → Option Bytes → Result Bytes Bytes → Program F Bytes
  unfolding decrypt_with_history_key
  after_passphrase path password root (ok plaintext) = pure plaintext
  after_passphrase path password none (err passphrase_error) = raise passphrase_error
  after_passphrase path password (some root) (err passphrase_error) =
      decrypt_with_history_key path password passphrase_error root

  unfoldable pub decrypt_history_file : Bytes → Bytes → Program F Bytes
  unfolding ◌>>=◌ decrypt_file after_passphrase
  decrypt_history_file path password = do
    opened ← attempt (decrypt_file path password)
    after_passphrase path password (host.parent path) opened

  unfoldable pub load_present_history : Bytes → Bytes → Program F HistoryFile
  unfolding ◌>>=◌ decrypt_history_file
  load_present_history path password = do
    plaintext ← decrypt_history_file path password
    history ← lift (host.history_from_json plaintext)
    raise_if (not (history.version == profile_version)) (codes "unsupported chat history version")
    pure history

  unfoldable pub load_history : Bytes → Bytes → Program F HistoryFile
  unfolding ◌>>=◌ load_present_history empty
  load_history path password = do
    present ← get (host.exists path)
    if present then load_present_history path password else pure empty

  unfoldable pub load_relay_token : Bytes → Bytes → Program F Bytes
  unfolding ◌>>=◌ decrypt_file from_utf8
  load_relay_token path password = do
    plaintext ← decrypt_file path password
    token ← lift (from_utf8 plaintext)
    raise_if (is_empty (trim token)) (codes "saved relay session is empty")
    pure (trim token)

  unfoldable pub save_relay_token : Bytes → Bytes → Bytes → Program F (Unit {0})
  unfolding save_encrypted
  save_relay_token path password token = save_encrypted path password token

  -- The file is decrypted and parsed when it is there.
  unfoldable pub load_parsed : {A : Type 0} → (Bytes → Result Bytes A) → Bytes → Bytes → Program F A
  unfolding ◌>>=◌ decrypt_file
  load_parsed parse path password = do
    plaintext ← decrypt_file path password
    lift (parse plaintext)

  abbrev parse_some : Bytes → Result Bytes (Option RelayConfig)
  parse_some text = map_ok some (host.config_from_json text)

  unfoldable pub load_relay_config : Bytes → Bytes → Program F (Option RelayConfig)
  unfolding ◌>>=◌ load_parsed
  load_relay_config path password = do
    present ← get (host.exists path)
    if present then load_parsed parse_some path password else pure none

  unfoldable pub save_relay_config : Bytes → Bytes → RelayConfig → Program F (Unit {0})
  unfolding ◌>>=◌ save_encrypted
  save_relay_config path password config = do
    plaintext ← lift (host.config_to_json config)
    save_encrypted path password plaintext

  unfoldable pub load_relay_peer_ids : Bytes → Bytes → Program F M
  unfolding ◌>>=◌ load_parsed
  load_relay_peer_ids path password = do
    present ← get (host.exists path)
    if present then load_parsed host.peers_from_json path password else pure host.no_peers

  unfoldable pub save_relay_peer_ids : Bytes → Bytes → M → Program F (Unit {0})
  unfolding ◌>>=◌ save_encrypted
  save_relay_peer_ids path password peer_ids = do
    plaintext ← lift (host.peers_to_json peer_ids)
    save_encrypted path password plaintext

-- `EncryptedHistoryStore`
pub record EncryptedHistoryStore (I : Type 0) : Type 0 where
  pub root : Bytes
  pub password : Bytes
  pub identity : I

module _ {F I M : Type 0} (host : FileHost F I M) where
  unfoldable pub open_store : Bytes → Bytes → Program F (EncryptedHistoryStore I)
  unfolding ◌>>=◌ load_or_create_history_identity
  open_store root password = do
    host.create_dir_all root
    identity ← load_or_create_history_identity host root password
    pure (record { root = root; password = password; identity = identity })

  unfoldable pub path_for : EncryptedHistoryStore I → Bytes → Bytes
  unfolding component
  path_for store conversation =
      host.join store.root (component is_dash conversation ++ codes ".age")

  unfoldable pub delete_history : EncryptedHistoryStore I → Bytes → Program F (Unit {0})
  unfolding path_for
  delete_history store conversation f = unless_missing (host.remove (path_for store conversation) f)

  unfoldable pub encrypted_history_store : EncryptedHistoryStore I → HistoryStore F
  unfolding path_for load_history save_history_with_identity
  encrypted_history_store store = record {
    load = λ conversation. load_history host (path_for store conversation) store.password;
    save = λ conversation history.
        save_history_with_identity host (path_for store conversation) store.identity history;
  }
