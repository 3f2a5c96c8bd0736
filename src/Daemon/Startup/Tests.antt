-- ===== src/Daemon/Startup/Tests.antt =====
-- The start of the daemon on files in memory.
use wftpd_linux.Base.{◌≡◌, ◌≢◌, refl, some, List, [], ◌∷◌, Text, text}
use wftpd_linux.Base.Dict.{Dict}
use wftpd_linux.Outcome.{ok}
use wftpd_linux.Disk.Tests.{text_ne, memory, memory-IsDisk}
use wftpd_linux.Paths.Names.{with_extension, split_last}
use wftpd_linux.Config.{Config, Toml, default_config}
use wftpd_linux.Users.Manager.{empty_manager}
use wftpd_linux.Daemon.Requests.{Shared, Setup, World}
use wftpd_linux.Daemon.Requests.Sequence.{
  Request, settings, users, perform_all, Stable, Held, Distinct,
}
use wftpd_linux.Daemon.Startup.{Appenders, new}
use wftpd_linux.Daemon.Startup.Restoring.{Restored, new-perform_all}

abbrev usual : Config
usual = default_config (text "/state/ssh/key") (text "/state/logs")

-- A format with one configuration.
abbrev one_text : Toml
one_text = record { to_string_pretty = λ c. ok (text "usual"); from_str = λ s. ok usual }

abbrev setup : Setup
setup = record {
  fs = memory;
  toml = one_text;
  parse_users = λ s. some empty_manager;
  config_path = text "/etc/config.toml";
  users_path = text "/etc/users.json";
}

abbrev appenders : Appenders (World setup)
appenders = record {
  build = λ prefix dir count w. (ok tt, w);
  set_global_default = λ level json w. (ok tt, w);
}

abbrev start : Shared × World setup
start = (
  record { config = usual; user_manager = empty_manager },
  (text "/etc/config.toml", text "usual") ∷ (text "/etc/users.json", text "{}") ∷ [],
)

four : Distinct setup
unfolding with_extension split_last
four = record {
  config_temp = text_ne _ _ refl;
  users_temp = text_ne _ _ refl;
  config_users = text_ne _ _ refl;
  users_config_temp = text_ne _ _ refl;
  config_users_temp = text_ne _ _ refl;
}

same_settings : Stable setup
same_settings s printed c reads prints = reads

start-Held : Held setup start
unfolding wftpd_linux.Base.Dict.lookup wftpd_linux.Users.Manager.Loading.load wftpd_linux.Base.trim
start-Held = ((text "usual", refl, refl), (text "{}", refl, refl))

abbrev requests : List Request
requests = settings (text "usual") ∷ users (text "{\"users\":{}}") ∷ []

new-perform_all_example :
    Restored setup memory-IsDisk usual appenders
      (perform_all setup requests start).0
      (perform_all setup requests start).1
      (new setup usual appenders (perform_all setup requests start).1)
new-perform_all_example =
    new-perform_all setup memory-IsDisk usual appenders four requests start same_settings start-Held
