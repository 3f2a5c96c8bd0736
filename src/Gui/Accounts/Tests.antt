-- ===== src/Gui/Accounts/Tests.antt =====
-- The dialog of a user at a concrete form.
use wftpd_linux.Base.{◌≡◌, ◌≢◌, refl, ap, ◌⊎◌, true, false, none, some, [], ◌∷◌, Text, text, trim}
use wftpd_linux.Base.Dict.{insert, lookup, contains_key}
use wftpd_linux.Outcome.{Result, ok, err}
use wftpd_linux.Disk.Tests.{text_ne, memory, memory-IsDisk}
use wftpd_linux.Paths.Names.{with_extension, split_last}
use wftpd_linux.Config.{Config, default_config}
use wftpd_linux.Users.Manager.{UserManager, empty_manager, new_user, add_user}
use wftpd_linux.Users.Manager.Loading.{load}
use wftpd_linux.Daemon.Requests.{Status, Setup, temp_users_path}
use wftpd_linux.Gui.{System, answered}
use wftpd_linux.Gui.Forms.{PermissionForm, collect_permissions}
use wftpd_linux.Gui.Accounts.{UserForm, Desktop, changed_users, submit_user_dialog}
use wftpd_linux.Gui.Accounts.UsersFile.{LeavesUsers}
use wftpd_linux.Gui.Accounts.Sync.{Lossless, InStep, submit_user_dialog-InStep}

abbrev all_permissions : PermissionForm
all_permissions = record {
  read_cb = true;
  write_cb = true;
  delete_cb = true;
  list_cb = true;
  mkdir_cb = true;
  rmdir_cb = true;
  rename_cb = true;
  append_cb = true;
  quota_cb = false;
  speed_limit_cb = true;
  quota_spin = 0;
  speed_limit_spin = 100;
}

abbrev form : UserForm
form = record {
  edit_username = none;
  username = text "alice";
  password = text "secret";
  home_dir = text "/home/alice";
  permissions = all_permissions;
}

abbrev with_alice : UserManager
with_alice = record {
  users =
      (
        text "alice",
        new_user 7 (text "alice") (text "/home/alice") (collect_permissions all_permissions) false
            (text "secret"),
      )
      ∷ [];
}

abbrev setup : Setup
setup = record {
  fs = memory;
  toml = record { to_string_pretty = λ c. err []; from_str = λ s. err [] };
  parse_users = λ s. some with_alice;
  config_path = text "/etc/config.toml";
  users_path = text "/etc/users.json";
}

abbrev display : Status → Text
display e = text "error"

abbrev desktop : Desktop setup display
desktop = record {
  group_exists = λ w. true;
  chgrp = λ w d. w;
  setfacl = λ w d. w;
  to_string = λ m. ok (text "alice");
  audit_path = text "/var/audit.log";
  audit_dir = none;
  timestamp = text "t";
}

abbrev usual : Config
usual = default_config (text "/state/ssh/key") (text "/state/logs")

abbrev start : System setup display
start = record {
  app = record { config = usual; user_manager = empty_manager };
  shared = record { config = usual; user_manager = empty_manager };
  world = (text "/home/alice", []) ∷ [];
}

users_apart : text "/etc/users.json" ≢ temp_users_path setup
unfolding with_extension split_last
users_apart = text_ne (text "/etc/users.json") (temp_users_path setup) refl

leaves : LeavesUsers setup display desktop
leaves = record {
  chgrp = λ w d. refl;
  setfacl = λ w d. refl;
  chmod = λ w d. refl;
  append = λ w s.
      memory-IsDisk.write_others w (text "/var/audit.log") _ (text "/etc/users.json")
        (text_ne (text "/etc/users.json") (text "/var/audit.log") refl);
}

abbrev plain : Text → Result Text Text
plain secret = ok secret

alice_added :
    changed_users
      (λ p. contains_key p start.world)
      (λ p. contains_key p start.world)
      plain
      empty_manager
      7
      form
    ≡ ok with_alice
unfolding changed_users contains_key lookup add_user trim insert
alice_added = refl

lossless :
    (m : UserManager)
    → changed_users
        (λ p. contains_key p start.world)
        (λ p. contains_key p start.world)
        plain
        empty_manager
        7
        form
      ≡ ok m
    → Lossless setup display desktop m
unfolding load trim
lossless m e = let same : with_alice ≡ m = cc (alice_added, e) in (text "alice", refl, ap some same)

submit_user_dialog-InStep_example :
    let r =
      changed_users
        (λ p. contains_key p start.world)
        (λ p. contains_key p start.world)
        plain
        empty_manager
        7
        form in
    let out = submit_user_dialog setup display desktop plain 7 answered form start in
    ((e : Text) × (r ≡ err e) × (out ≡ (false, start)))
    ⊎ ((m : UserManager) × (r ≡ ok m)
        × (out.0 ≡ true)
        × InStep setup display desktop memory-IsDisk leaves m start out.1)
submit_user_dialog-InStep_example =
    submit_user_dialog-InStep setup display desktop memory-IsDisk leaves plain 7 answered form start
      users_apart lossless
