-- ===== src/Daemon/Startup.antt =====
-- The start of the daemon: `BackendState::new` (wftpd/src/state.rs), with `init_tracing` of
-- common/src/tracing_logger.rs, and `run` of wftpd/src/main.rs. The log files of the library
-- tracing_appender, the installation of the subscriber, the socket and the control service are
-- parameters; the levels of the layers are in Logs/Levels.
pub mod Restoring
pub mod Running
mod Tests
use wftpd_linux.Base.{ℕ, Bool, Option, none, some, [], Text, text}
use wftpd_linux.Outcome.{Result, ok, err}
use wftpd_linux.Disk.{Io, ◌>>=◌, ◌>>◌, pure}
use wftpd_linux.Config.{Config, LoggingConfig, load}
use wftpd_linux.Users.Manager.{UserManager}
use wftpd_linux.Users.Manager.Saving.{users_file}
use wftpd_linux.Users.Manager.Loading.{load as load_library}
use wftpd_linux.Logs.LogBuffer.{LogBuffer, new as new_buffer}
use wftpd_linux.Logs.FileLogger.{FileLogger, new as new_logger}
use wftpd_linux.Daemon.Requests.{Shared, Setup, World}

-- The log files: an appender is built of its prefix, directory and number of files.
pub record Appenders (W : Type 0) : Type 0 where
  pub build : Text → Text → ℕ → Io W Text (Unit {0})
  pub set_global_default : Text → Bool → Io W Text (Unit {0})

-- What `BackendState::new` makes, besides the two empty slots.
pub record Backend : Type 0 where
  pub shared : Shared
  pub log_buffer : LogBuffer
  pub file_logger : FileLogger

module _ (S : Setup) (default : Config) (logs : Appenders (World S)) where
  unfoldable pub init_tracing : LoggingConfig → Io (World S) Text LogBuffer
  init_tracing logging = do
    λ w. S.fs.create_dir_all w logging.log_dir
    logs.build (text "wftpg") logging.log_dir logging.max_log_files
    logs.build (text "file-ops") logging.log_dir logging.max_log_files
    logs.set_global_default logging.log_level logging.enable_json
    pure (ok (new_buffer 2000))

  abbrev pub backend : Config → UserManager → LogBuffer → Backend
  backend config user_manager log_buffer = record {
    shared = record { config = config; user_manager = user_manager };
    log_buffer = log_buffer;
    file_logger = new_logger;
  }

  -- The library of users is loaded, or the program panics.
  abbrev pub with_users :
      Config → Option UserManager → World S → Option (Result Text Backend × World S)
  with_users config none w = none
  with_users config (some user_manager) w = some (
      (init_tracing config.logging >>= λ log_buffer.
      pure (ok (backend config user_manager log_buffer)))
        w)

  abbrev pub with_config : Result Text Config × World S → Option (Result Text Backend × World S)
  with_config (err e, w) = some (err e, w)
  with_config (ok config, w) =
      with_users config
        (load_library S.parse_users
          (users_file (S.fs.exists w S.users_path) (S.fs.read_to_string w S.users_path)))
        w

  unfoldable pub new : World S → Option (Result Text Backend × World S)
  new w = with_config (load S.fs S.toml default S.config_path w)
