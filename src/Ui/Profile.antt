-- ===== src/Ui/Profile.antt =====
-- codebase/slint-ui/src/ui_service/profile.rs: profiles as directories below the data directory, and
-- the contacts that are verified for them. The file system, the Signal state and the preferences'
-- JSON are ports.
use safechat.Prelude.{
  ℕ, Bool, true, false, ◌&&◌, ◌||◌, not, Option, none, some, List, [], ◌∷◌, ◌++◌, Result, ok, err,
  ◌==◌, if◌then◌else◌,
}
use safechat.Prelude.Bytes.{Bytes, bytes_eq, codes}
use safechat.Prelude.Text.{trim, contains, component, is_dash}
use safechat.Prelude.Programs.{Program, pure, lift, get, raise_if, attempt, ◌>>=◌, ◌>>◌}
use safechat.Transport.{Base64, decode_bundle}
use safechat.Ui.{ProfileReadyData}

abbrev pub is_empty : Bytes → Bool
is_empty [] = true
is_empty (b ∷ bs) = false

abbrev pub is_path_like : Bytes → Bool
is_path_like name =
    is_empty name
    || bytes_eq name (codes ".")
    || bytes_eq name (codes "..")
    || contains 47 name
    || contains 92 name

abbrev pub bad_name : Bytes
bad_name = codes "profile name must be a simple non-empty name"

unfoldable pub validate_profile_name : Bytes → Result Bytes Bytes
unfolding bytes_eq contains
validate_profile_name name = if is_path_like (trim name) then err bad_name else ok (trim name)

abbrev is_ascii_whitespace : ℕ → Bool
is_ascii_whitespace b = b == 32 || b == 9 || b == 10 || b == 12 || b == 13

unfoldable pub strip_separators : Bytes → Bytes
strip_separators [] = []
strip_separators (b ∷ bs) =
    let rest = strip_separators bs in if is_ascii_whitespace b || b == 58 then rest else b ∷ rest

-- `Path::extension`: what follows the last dot of the file name, which does not begin with it. The
-- number is the character before.
unfoldable pub has_extension : Bytes → ℕ → Bytes → Bool
unfolding bytes_eq
has_extension extension before [] = false
has_extension extension before (b ∷ bs) =
    let rest = has_extension extension b bs in
    b == 46 && bytes_eq bs extension && not (before == 47) || rest

-- `Path::join`, which depends on the platform, and the file system with the databases in it, `F`, an opened state `S`, a bundle `B`, and a
-- preferences object `J`.
pub record ProfileHost (F S B J : Type 0) : Type 0 where
  pub base64 : Base64
  pub to_lowercase : Bytes → Bytes
  pub join : Bytes → Bytes → Bytes
  pub data_directory : Result Bytes Bytes
  pub create_dir_all : Bytes → Program F (Unit {0})
  pub exists : Bytes → F → Bool
  pub is_file : Bytes → F → Bool
  pub write : Bytes → Bytes → Program F (Unit {0})
  pub read_to_string : Bytes → Program F Bytes
  pub open_state : Bytes → Bytes → Program F S
  pub initialize_state : Bytes → Bytes → ℕ → Bytes → Program F S
  pub export_bundle : S → Program F B
  pub local_identity_fingerprint : S → Program F Bytes
  pub encode_signal_bundle : B → Result Bytes Bytes
  pub decode_signal_bundle : Bytes → Result Bytes B
  pub identity_fingerprint : B → Result Bytes Bytes
  pub name : B → Bytes
  pub address : B → Bytes
  pub trust_bundle : S → B → Program F (Unit {0})
  pub read_dir : Bytes → Program F (List Bytes)
  pub parse_object : Bytes → Result Bytes J
  pub empty_object : J
  pub language_of : J → Option Bytes
  pub with_language : Bytes → J → J
  pub object_text : J → Bytes

module _ {F S B J : Type 0} (host : ProfileHost F S B J) where
  unfoldable pub normalize : Bytes → Bytes
  unfolding strip_separators
  normalize value = host.to_lowercase (strip_separators value)

  unfoldable pub profile_directory : Bytes → Program F Bytes
  unfolding ◌>>=◌ validate_profile_name
  profile_directory profile = do
    name ← lift (validate_profile_name profile)
    root ← lift host.data_directory
    host.create_dir_all (host.join root name)
    pure (host.join root name)

  unfoldable pub profile_database : Bytes → Program F Bytes
  unfolding ◌>>=◌ profile_directory
  profile_database profile = do
    directory ← profile_directory profile
    pure (host.join directory (codes "identity.db"))

  unfoldable pub chat_history_file : Bytes → Bytes → Program F Bytes
  unfolding ◌>>=◌ profile_directory component
  chat_history_file profile peer = do
    directory ← profile_directory profile
    pure
        (host.join (host.join directory (codes "lobbies")) (component is_dash peer ++ codes ".age"))

  abbrev open_or_initialize : Bool → Bytes → Bytes → Bytes → Program F S
  open_or_initialize true database profile password = host.open_state database password
  open_or_initialize false database profile password =
      host.initialize_state database profile 1 password

  unfoldable pub initialize_profile : Bytes → Bytes → Bytes → Program F (Bytes × Bytes)
  unfolding ◌>>=◌ profile_database bytes_eq
  initialize_profile profile password confirmation = do
    raise_if (is_empty password) (codes "password must not be empty")
    database ← profile_database profile
    existing ← get (host.exists database)
    raise_if (not existing && not (bytes_eq password confirmation)) (codes "passwords do not match")
    state ← open_or_initialize existing database profile password
    bundle ← host.export_bundle state
    fingerprint ← host.local_identity_fingerprint state
    encoded ← lift (host.encode_signal_bundle bundle)
    pure (fingerprint, host.base64.encode encoded)

  unfoldable pub peer_bundle_from_encoded : Bytes → Program F B
  unfolding ◌>>=◌ decode_bundle
  peer_bundle_from_encoded encoded = do
    bytes ← lift (decode_bundle host.base64 (trim encoded))
    lift (host.decode_signal_bundle bytes)

  -- From the check of the fingerprint on.
  unfoldable pub trust_and_save : Bytes → Bytes → Bytes → B → Program F (Bytes × Bytes)
  unfolding ◌>>=◌ component
  trust_and_save directory password encoded_bundle bundle = do
    state ← host.open_state (host.join directory (codes "identity.db")) password
    host.trust_bundle state bundle
    let peers = host.join directory (codes "peers")
    host.create_dir_all peers
    let filename = component (λ _. false) (host.address bundle) ++ codes ".bundle"
    host.write (host.join peers filename) (trim encoded_bundle)
    let bundle_name = host.name bundle
    pure (bundle_name, codes "Verified and added " ++ (bundle_name ++ codes "."))

  unfoldable pub verify_add_contact : Bytes → Bytes → Bytes → Bytes → Program F (Bytes × Bytes)
  unfolding ◌>>=◌ profile_directory peer_bundle_from_encoded normalize bytes_eq trust_and_save
  verify_add_contact profile password encoded_bundle expected_fingerprint = do
    directory ← profile_directory profile
    bundle ← peer_bundle_from_encoded encoded_bundle
    actual ← lift (host.identity_fingerprint bundle)
    raise_if (not (bytes_eq (normalize expected_fingerprint) (normalize actual)))
        (codes "fingerprint does not match the public bundle")
    trust_and_save directory password encoded_bundle bundle

  unfoldable pub read_contact : Bytes → Program F (Option (Bytes × Bytes))
  unfolding ◌>>=◌ peer_bundle_from_encoded
  read_contact path = do
    encoded ← host.read_to_string path
    bundle ← peer_bundle_from_encoded encoded
    pure (some (host.name bundle, trim encoded))

  -- The loop of `load_saved_contact`: the first file whose extension is `bundle`.
  unfoldable pub first_contact : List Bytes → Program F (Option (Bytes × Bytes))
  unfolding has_extension read_contact
  first_contact [] = pure none
  first_contact (path ∷ paths) =
      let rest = first_contact paths in
      if has_extension (codes "bundle") 47 path then read_contact path else rest

  unfoldable pub load_saved_contact : Bytes → Program F (Option (Bytes × Bytes))
  unfolding ◌>>=◌ profile_directory first_contact
  load_saved_contact profile = do
    directory ← profile_directory profile
    let peers = host.join directory (codes "peers")
    present ← get (host.exists peers)
    if present then host.read_dir peers >>= first_contact else pure none

  abbrev ok_or_none : {A : Type 0} → Result Bytes (Option A) → Option A
  ok_or_none (ok o) = o
  ok_or_none (err reason) = none

  -- `FileProfileStore::initialize`
  unfoldable pub initialize : Bytes → Bytes → Bytes → Program F ProfileReadyData
  unfolding ◌>>=◌ initialize_profile load_saved_contact
  initialize profile password confirmation = do
    made ← initialize_profile profile password confirmation
    contact ← attempt (load_saved_contact profile)
    pure (record {
      profile = trim profile;
      fingerprint = made.0;
      bundle = made.1;
      contact = ok_or_none contact;
    })

  unfoldable pub read_preferences : Bytes → Program F J
  unfolding ◌>>=◌
  read_preferences path = do text ← host.read_to_string path; lift (host.parse_object text)

  unfoldable pub load_preferences : Bytes → Program F J
  unfolding ◌>>=◌ profile_directory read_preferences
  load_preferences profile = do
    directory ← profile_directory profile
    let path = host.join directory (codes "preferences.json")
    present ← get (host.is_file path)
    if present then read_preferences path else pure host.empty_object

  unfoldable pub load_language : Bytes → Program F (Option Bytes)
  unfolding ◌>>=◌ load_preferences
  load_language profile = do
    preferences ← load_preferences profile
    pure (host.language_of preferences)

  unfoldable pub save_language : Bytes → Bytes → Program F (Unit {0})
  unfolding ◌>>=◌ load_preferences profile_directory
  save_language profile language = do
    preferences ← load_preferences profile
    directory ← profile_directory profile
    host.write (host.join directory (codes "preferences.json"))
        (host.object_text (host.with_language language preferences))
