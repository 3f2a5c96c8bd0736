-- ===== src/Sftp/Auth.antt =====
-- The SSH connection handler `SftpHandler` (sftp/src/handler.rs): password and public key
-- authentication, session channels and the sftp subsystem. The user library is shared by all
-- connections; it is part of the state, with the audit entries that were sent. What the world
-- answers to one request is a `Host`; a key is a value of `PublicKey`, a type of the library russh.
-- The result `none` is a panic. The lock of the library is taken for each of the reload, the lookup
-- and the check of the password by itself; here a login is one step.
pub mod KeyPath
pub mod Steps
pub mod Soundness
pub mod Connection
mod Tests
use wftpd_linux.Base.{
  ℕ, Bool, true, false, not, Option, none, some, List, [], ◌∷◌, ◌++◌, Text, text, text_eq, trim,
  is_empty, if◌then◌else◌, ◌==◌, any,
}
use wftpd_linux.Outcome.{Result, ok, err}
use wftpd_linux.Users.{User, is_safe_username}
use wftpd_linux.Users.Manager.{UserManager, get_user, authenticate}
use wftpd_linux.Users.Manager.Loading.{UsersFile, reload}
use wftpd_linux.Os.{IoResult, Metadata, FileLogInfo, Prog, ret}
use wftpd_linux.Paths.{PathBuf, components, join}
use wftpd_linux.Sftp.Session.{Session, new}

pub record SftpHandler : Type 0 where
  pub user_manager : UserManager
  pub audited : List FileLogInfo
  pub client_ip : Text
  pub keys_dir : PathBuf
  pub authenticated : Bool
  pub username : Option Text
  pub home_dir : Option Text
  pub open_channels : List ℕ

unfoldable pub new_handler : UserManager → Text → PathBuf → SftpHandler
new_handler m client_ip keys_dir = record {
  user_manager = m;
  audited = [];
  client_ip = client_ip;
  keys_dir = keys_dir;
  authenticated = false;
  username = none;
  home_dir = none;
  open_channels = [];
}

-- The answers of the file system and the clock while one request is handled. `canonicalize` gives
-- the text of the path, with replacement characters.
pub record Host : Type 0 where
  pub users_file : UsersFile
  pub metadata : Text → IoResult Metadata
  pub canonicalize : Text → IoResult Text
  pub read_to_string : PathBuf → IoResult Text
  pub now : ℕ

-- `audit`; each call of it names the user.
abbrev pub audit : SftpHandler → Text → Text → Text → SftpHandler
audit h message user result = record h {
  audited =
      h.audited
      ++ record {
        username = user;
        client_ip = h.client_ip;
        operation = text "SFTP";
        file_path = message;
        file_size = 0;
        protocol = text "SFTP";
        success = text_eq result (text "LOGIN");
        message = result;
      }
        ∷ [];
}

abbrev pub reject : SftpHandler → Text → Text → SftpHandler × Bool
reject h user via =
    (audit h (via ++ text " auth failed for user " ++ user) user (text "AUTH_FAIL"), false)

abbrev pub home_of : Option User → Option Text
home_of none = none
home_of (some u) = if u.enabled then some u.home_dir else none

abbrev pub set_home : SftpHandler → Text → Text → SftpHandler
set_home h user canon = record h {
  home_dir = some canon;
  username = some user;
  authenticated = true;
}

abbrev pub home_from : SftpHandler → Text → Text → IoResult Text → Result Text SftpHandler
home_from h user home (ok canon) = ok (set_home h user canon)
home_from h user home (err e) =
    err (text "cannot canonicalize home directory '" ++ home ++ text "': " ++ e.message)

abbrev pub directory_from :
    Host → SftpHandler → Text → Text → IoResult Metadata → Result Text SftpHandler
directory_from w h user home (ok metadata) =
    if metadata.is_dir
    then home_from h user home (w.canonicalize home)
    else err (text "home path '" ++ home ++ text "' is not a directory")
directory_from w h user home (err e) = err (
    text "home directory '" ++ home ++ text "' does not exist or cannot be accessed: " ++ e.message)

-- `validate_and_set_home_dir`
unfoldable pub validate_and_set_home_dir :
    Host → SftpHandler → Text → Text → Result Text SftpHandler
validate_and_set_home_dir w h user home =
    if is_empty (trim home)
    then err (text "home directory not configured for user '" ++ user ++ text "'")
    else directory_from w h user home (w.metadata home)

-- The end of both authentications, which differ in the text for the audit log.
abbrev pub enter : SftpHandler → Text → Text → Result Text SftpHandler → SftpHandler × Bool
enter h user how (ok h') = (audit h' (text "User " ++ user ++ how) user (text "LOGIN"), true)
enter h user how (err e) = (audit h (text "Login failed: " ++ e) user (text "AUTH_FAIL"), false)

module _ (parse : Text → Option UserManager) where
  -- `resolve_user`: the home directory of an enabled user of the library, as it is on disk now.
  unfoldable pub resolve_user : Host → SftpHandler → Text → Option (SftpHandler × Option Text)
  resolve_user w h user =
      if not (is_safe_username user)
      then some (h, none)
      else elim (reload parse h.user_manager w.users_file) [
        | none ↦ none
        | some m ↦ some (record h { user_manager = m }, home_of (get_user m user))
      ]

module _ (verify_password : Text → Text → Bool) where
  abbrev pub checked_password : Host → SftpHandler → Text → Text → Text → SftpHandler × Bool
  checked_password w h user password home =
      let (m, good, saved) = authenticate verify_password h.user_manager w.now user password in
      let h = record h { user_manager = m } in
      if good
      then enter h user (text " logged in") (validate_and_set_home_dir w h user home)
      else reject h user (text "password")

  abbrev pub password_of : Host → Text → Text → SftpHandler × Option Text → SftpHandler × Bool
  password_of w user password (h, none) = reject h user (text "password")
  password_of w user password (h, some home) = checked_password w h user password home

module _ (parse : Text → Option UserManager) (verify_password : Text → Text → Bool) where
  unfoldable pub auth_password : Host → SftpHandler → Text → Text → Option (SftpHandler × Bool)
  auth_password w h user password = elim (resolve_user parse w h user) [
    | none ↦ none
    | some found ↦ some (password_of verify_password w user password found)
  ]

abbrev pub user_pubkey_path : SftpHandler → Text → PathBuf
user_pubkey_path h user = join h.keys_dir (components (user ++ text ".pub"))

module _ {PublicKey : Type 0} (key_eq : PublicKey → PublicKey → Bool)
    (parse_public_key_base64 : Text → Option PublicKey) where
  abbrev pub stored_key : IoResult Text → Option PublicKey
  stored_key (ok stored) = parse_public_key_base64 (trim stored)
  stored_key (err e) = none

  abbrev pub key_ok : PublicKey → Option PublicKey → Bool
  key_ok key none = false
  key_ok key (some stored) = key_eq key stored

  abbrev pub publickey_of : Host → Text → PublicKey → SftpHandler × Option Text → SftpHandler × Bool
  publickey_of w user key (h, none) = reject h user (text "public key")
  publickey_of w user key (h, some home) =
      if key_ok key (stored_key (w.read_to_string (user_pubkey_path h user)))
      then enter h user (text " logged in via public key") (validate_and_set_home_dir w h user home)
      else reject h user (text "public key")

module _ {PublicKey : Type 0} (parse : Text → Option UserManager)
    (key_eq : PublicKey → PublicKey → Bool)
    (parse_public_key_base64 : Text → Option PublicKey) where
  unfoldable pub auth_publickey :
      Host → SftpHandler → Text → PublicKey → Option (SftpHandler × Bool)
  auth_publickey w h user key = elim (resolve_user parse w h user) [
    | none ↦ none
    | some found ↦ some (publickey_of key_eq parse_public_key_base64 w user key found)
  ]

unfoldable pub channel_open_session : SftpHandler → ℕ → SftpHandler
channel_open_session h channel = record h { open_channels = channel ∷ h.open_channels }

abbrev without : ℕ → List ℕ → List ℕ
without c [] = []
without c (d ∷ ds) = let rest = without c ds in if d == c then rest else d ∷ rest

abbrev pub or_default : Option Text → Text
or_default none = []
or_default (some t) = t

-- `subsystem_request`: the handler of the file operations that is started, or `none` for a
-- `channel_failure`.
unfoldable pub subsystem_request : SftpHandler → ℕ → Text → SftpHandler × Option (Prog Session)
subsystem_request h channel name =
    if not (text_eq name (text "sftp"))
    then (h, none)
    else if not h.authenticated
    then (h, none)
    else if not (any (λ c. c == channel) h.open_channels)
    then (h, none)
    else (
      record h { open_channels = without channel h.open_channels },
      some (new (or_default h.username) (or_default h.home_dir) h.client_ip),
    )
