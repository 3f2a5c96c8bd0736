-- ===== src/Sftp/Auth/Tests.antt =====
-- A connection that logs in with a password, and one that logs in with a key.
use wftpd_linux.Base.{
  char_len, ◌≡◌, refl, true, false, Option, none, some, [], ◌∷◌, Text, text, text_eq, trim, any,
  ◌==◌, ℕ,
}
use wftpd_linux.Base.Dict.{lookup, insert}
use wftpd_linux.Outcome.{ok}
use wftpd_linux.Users.{User, full, is_safe_username}
use wftpd_linux.Users.Manager.{UserManager, new_user, authenticate}
use wftpd_linux.Users.Manager.Loading.{missing, reload}
use wftpd_linux.Os.{Metadata, after}
use wftpd_linux.Paths.{components, join}
use wftpd_linux.Sftp.Session.{new}
use wftpd_linux.Sftp.Auth.{
  SftpHandler, Host, new_handler, audit, set_home, auth_password, auth_publickey, resolve_user,
  validate_and_set_home_dir, channel_open_session, subsystem_request,
}
use wftpd_linux.Sftp.Auth.Soundness.{
  Outcome, IsStoredKey, auth_password-Outcome, auth_publickey-Outcome,
}
use wftpd_linux.Sftp.Auth.Connection.{Reached, accepted, by_password, by_channel, subsystem-Reached}

abbrev alice : User
alice = new_user 7 (text "alice") (text "/home/alice") full false (text "secret")

abbrev library_after : Option ℕ → UserManager
library_after last = record { users = (text "alice", record alice { last_login = last }) ∷ [] }

abbrev no_json : Text → Option UserManager
no_json s = none

abbrev directory : Metadata
directory = record {
  len = 0;
  mode = 0o755;
  uid = 1000;
  gid = 1000;
  atime = after 0;
  mtime = after 0;
  is_dir = true;
  is_file = false;
  is_symlink = false;
}

-- A key is its text.
abbrev host : Host
host = record {
  users_file = missing;
  metadata = λ path. ok directory;
  canonicalize = λ path. ok path;
  read_to_string = λ path. ok (text "key");
  now = 9;
}

abbrev start : SftpHandler
start = new_handler (library_after none) (text "10.0.0.1") (components (text "/keys"))

abbrev by_secret : SftpHandler
by_secret =
    audit
      (set_home (record start { user_manager = library_after (some 9) }) (text "alice")
        (text "/home/alice"))
      (text "User alice logged in") (text "alice") (text "LOGIN")

password_run :
    auth_password no_json text_eq host start (text "alice") (text "secret") ≡ some (by_secret, true)
unfolding auth_password char_len resolve_user validate_and_set_home_dir is_safe_username reload
    authenticate lookup insert trim new_handler
password_run = refl

auth_password-Outcome_example :
    Outcome
      (λ m u. text_eq (text "secret") u.password_hash ≡ true)
      no_json
      host
      start
      (text "alice")
      (by_secret, true)
auth_password-Outcome_example =
    auth_password-Outcome no_json text_eq host start (text "alice") (text "secret")
      (by_secret, true) password_run

abbrev by_key : SftpHandler
by_key =
    audit (set_home start (text "alice") (text "/home/alice"))
      (text "User alice logged in via public key") (text "alice") (text "LOGIN")

key_run :
    auth_publickey no_json text_eq some host start (text "alice") (text "key") ≡ some (by_key, true)
unfolding auth_publickey char_len resolve_user validate_and_set_home_dir is_safe_username reload
    lookup trim new_handler join
key_run = refl

auth_publickey-Outcome_example :
    Outcome
      (λ m u. IsStoredKey text_eq some host start (text "alice") (text "key"))
      no_json
      host
      start
      (text "alice")
      (by_key, true)
auth_publickey-Outcome_example =
    auth_publickey-Outcome text_eq some no_json host start (text "alice") (text "key")
      (by_key, true) key_run

abbrev opened : SftpHandler
opened = channel_open_session by_secret 3

opened-Reached : Reached no_json text_eq text_eq some opened
opened-Reached = by_channel by_secret 3 (
    by_password start by_secret host (text "alice") (text "secret") true
      (accepted (library_after none) (text "10.0.0.1") (components (text "/keys"))) password_run)

subsystem_run :
    subsystem_request opened 3 (text "sftp")
    ≡ (by_secret, some (new (text "alice") (text "/home/alice") (text "10.0.0.1")))
unfolding subsystem_request channel_open_session new_handler
subsystem_run = refl

subsystem-Reached_example :
    (text_eq (text "sftp") (text "sftp") ≡ true)
    × (opened.authenticated ≡ true)
    × (any (λ c. c == 3) opened.open_channels ≡ true)
    × ((user : Text) × (home : Text) × (is_safe_username user ≡ true)
        × (opened.username ≡ some user)
        × (opened.home_dir ≡ some home)
        × (new (text "alice") (text "/home/alice") (text "10.0.0.1")
            ≡ new user home opened.client_ip))
subsystem-Reached_example =
    subsystem-Reached no_json text_eq text_eq some opened by_secret 3 (text "sftp")
      (new (text "alice") (text "/home/alice") (text "10.0.0.1")) opened-Reached subsystem_run
