-- ===== src/Daemon/Requests/Tests.antt =====
-- The requests of the control service at concrete states.
use wftpd_linux.Base.{
  ◌≡◌, ◌≢◌, refl, true, false, none, some, [], ◌∷◌, Text, text, arith, map, last_n,
}
use wftpd_linux.Outcome.{ok}
use wftpd_linux.Disk.Tests.{text_ne, memory, memory-IsDisk}
use wftpd_linux.Paths.{components}
use wftpd_linux.Paths.Names.{with_extension, split_last}
use wftpd_linux.Config.{Config, Toml, default_config}
use wftpd_linux.Logs.LogBuffer.{LogEntryJson, LogBuffer, new, pushes, subscribe, received_by}
use wftpd_linux.Logs.FileLogger.{with_log_sender}
use wftpd_linux.Logs.Parsing.{Json}
use wftpd_linux.Proto.{entry_to_proto}
use wftpd_linux.Users.Manager.{empty_manager}
use wftpd_linux.Daemon.Requests.{Shared, Setup, temp_users_path, replace_config, save_users}
use wftpd_linux.Daemon.Requests.Replacing.{
  ConfigKept, UsersKept, replace_config-ConfigKept, save_users-UsersKept,
}
use wftpd_linux.Daemon.Requests.Logging.{
  LogFiles, get_log_file_content, get_file_op_log_content, watch_logs, SaveLogConfigRequest,
  updated, save_log_config, AuditEntry,
}
use wftpd_linux.Daemon.Requests.Logging.Reading.{
  OnlyInside, program_entries, file_op_entries, get_log_content-OnlyInside, received,
  watch_logs-pushes,
}
use wftpd_linux.Daemon.Requests.Logging.Writing.{SettingsKept, save_log_config-Kept}

abbrev usual : Config
usual = default_config (text "/state/ssh/key") (text "/state/logs")

-- A format with one text, that of this configuration.
abbrev one_text : Toml
one_text = record { to_string_pretty = λ c. ok (text "usual"); from_str = λ s. ok usual }

abbrev setup : Setup
setup = record {
  fs = memory;
  toml = one_text;
  parse_users = λ s. some empty_manager;
  config_path = text "/etc/config.toml";
  users_path = text "/etc/users.json";
}

abbrev shared : Shared
shared = record { config = usual; user_manager = empty_manager }

config_apart : text "/etc/config.toml" ≢ with_extension (text "/etc/config.toml") (text "tmp")
unfolding with_extension split_last
config_apart =
    text_ne (text "/etc/config.toml") (with_extension (text "/etc/config.toml") (text "tmp")) refl

users_apart : text "/etc/users.json" ≢ temp_users_path setup
unfolding with_extension split_last
users_apart = text_ne (text "/etc/users.json") (temp_users_path setup) refl

replace_config-ConfigKept_example :
    ConfigKept setup memory-IsDisk
      (text "usual")
      shared
      []
      (replace_config setup (text "usual") shared [])
replace_config-ConfigKept_example =
    replace_config-ConfigKept setup memory-IsDisk (text "usual") shared [] config_apart

save_users-UsersKept_example :
    UsersKept setup memory-IsDisk (text "{}") shared [] (save_users setup (text "{}") shared [])
save_users-UsersKept_example =
    save_users-UsersKept setup memory-IsDisk (text "{}") shared [] users_apart

abbrev no_json : Json
no_json = record {
  Value = Unit {0};
  from_str = λ line. none;
  field = λ v key. none;
  as_str = λ v. none;
  as_u64 = λ v. none;
  as_bool = λ v. none;
  is_object = λ v. false;
  is_null = λ v. true;
  to_string = λ v. [];
}

abbrev log_files : LogFiles
log_files = record {
  json = no_json;
  canonicalize = λ path. ok (components path);
  read_dir = λ dir. none;
  lines = λ path. some (text "t INFO s: m" ∷ []);
}

get_log_content-OnlyInside_example :
    OnlyInside log_files
      (text "/state/logs/a.log")
      (text "/state/logs")
      (program_entries log_files 5 (text "t INFO s: m" ∷ []))
      (get_log_file_content log_files usual.logging (text "/state/logs/a.log") 5)
    × OnlyInside log_files
        (text "/state/logs/a.log")
        (text "/state/logs")
        (file_op_entries log_files 5 (text "t INFO s: m" ∷ []))
        (get_file_op_log_content log_files
          (λ t. [])
          (with_log_sender [])
          usual.logging
          (text "/state/logs/a.log")
          5)
unfolding default_config
get_log_content-OnlyInside_example =
    get_log_content-OnlyInside log_files (λ t. []) (with_log_sender []) usual.logging
      (text "/state/logs/a.log") 5 (text "t INFO s: m" ∷ []) (omega arith) refl refl

abbrev log_entry : Text → LogEntryJson
log_entry message = record {
  timestamp = [];
  level = text "INFO";
  source = text "sftp";
  message = message;
  client_ip = none;
  username = none;
  action = none;
}

abbrev at_read : LogBuffer
at_read = pushes (new 2) (log_entry (text "a") ∷ log_entry (text "b") ∷ [])

abbrev at_subscription : LogBuffer
at_subscription = pushes at_read (log_entry (text "lost") ∷ [])

watch_logs-pushes_example :
    watch_logs usual.logging at_read 1
      (λ e. true)
      (received (
        received_by
          (subscribe at_subscription)
          (pushes at_subscription (log_entry (text "c") ∷ []))))
    ≡ map entry_to_proto (log_entry (text "b") ∷ log_entry (text "c") ∷ [])
unfolding default_config last_n
watch_logs-pushes_example =
    watch_logs-pushes usual.logging 2 1 (log_entry (text "a") ∷ log_entry (text "b") ∷ [])
      (log_entry (text "lost") ∷ []) (log_entry (text "c") ∷ []) (omega arith)

abbrev request : SaveLogConfigRequest
request = record {
  log_dir = text "/tmp";
  log_level = text "debug";
  max_log_size = 1;
  max_log_files = 2;
  enable_gui_logging = false;
}

save_log_config-Kept_example :
    ((save_log_config memory one_text
        (λ s. ok tt)
        (text "/etc/config.toml")
        request
        usual
        []).config
      ≡ updated request usual)
    × SettingsKept memory one_text
        (λ s. ok tt)
        memory-IsDisk
        (text "/etc/config.toml")
        request
        usual
        []
        (save_log_config memory one_text (λ s. ok tt) (text "/etc/config.toml") request usual [])
save_log_config-Kept_example =
    save_log_config-Kept memory one_text (λ s. ok tt) memory-IsDisk (text "/etc/config.toml")
      request usual [] config_apart

abbrev login_entry : AuditEntry
login_entry = record {
  user = text "alice";
  action = text "LOGIN";
  target = text "gui";
  details = text "ok";
}
