-- ===== src/Daemon/Requests/Logging.antt =====
-- The requests of the control service that read the logs, follow them, and change their settings
-- (wftpd/src/control.rs, and `ensure_path_in_dir` of wftpd/src/logs.rs).
pub mod Reading
pub mod Writing
use wftpd_linux.Base.{
  ℕ, ◌%◌, ◌^◌, Bool, true, false, not, Option, none, some, List, [], ◌∷◌, ◌++◌, map, Text, text,
  text_eq, if◌then◌else◌,
}
use wftpd_linux.Outcome.{Result, ok, err}
use wftpd_linux.Os.{Time}
use wftpd_linux.Paths.{PathBuf, strip_prefix}
use wftpd_linux.Disk.{Fs, Io, ◌>>=◌, ◌>>◌, pure}
use wftpd_linux.Config.{Config, LoggingConfig, Toml, save}
use wftpd_linux.Logs.LogBuffer.{LogEntryJson, LogBuffer, recent}
use wftpd_linux.Logs.FileLogger.{FileLogger, get_recent_logs}
use wftpd_linux.Logs.Entries.{FileLogEntryJson, LogFileEntry, from_entry}
use wftpd_linux.Logs.Listing.{Item, list_log_files}
use wftpd_linux.Logs.Parsing.{Json, read_program_log, read_file_op_log}
use wftpd_linux.Proto.{
  LogEntry, FileOpLogEntry, LogFileInfo, entry_to_proto, file_op_to_proto, log_file_to_proto,
}
use wftpd_linux.Daemon.Requests.{
  Status, internal, invalid_argument, OpReply, op_ok, lifted, or_internal,
}

-- What is read of the file system: canonical paths, the entries of a directory, the lines of a
-- file.
pub record LogFiles : Type 1 where
  pub json : Json
  pub canonicalize : Text → Result Text PathBuf
  pub read_dir : Text → Option (List Item)
  pub lines : Text → Option (List Text)

abbrev pub get_recent : LogBuffer → ℕ → List LogEntry
get_recent b count = map entry_to_proto (recent b count)

abbrev pub starts_with_path : PathBuf → PathBuf → Bool
starts_with_path dir path = elim (strip_prefix dir path) [ none ↦ false | some rest ↦ true ]

abbrev pub outside : Text → Text
outside path = text "path " ++ path ++ text " is outside log directory"

abbrev pub compare_paths : Text → Result Text PathBuf → Result Text PathBuf → Result Text (Unit {0})
compare_paths path (err e) d = err e
compare_paths path (ok p) (err e) = err e
compare_paths path (ok p) (ok d) = if starts_with_path d p then ok tt else err (outside path)

abbrev pub if_inside : {A : Type 0} → Result Text (Unit {0}) → A → Result Status A
if_inside (ok u) a = ok a
if_inside (err e) a = err (invalid_argument e)

module _ (L : LogFiles) where
  open L use {json, canonicalize, read_dir, lines}

  abbrev pub get_log_files : LoggingConfig → List LogFileInfo
  get_log_files cfg = map log_file_to_proto (list_log_files (read_dir cfg.log_dir) (text "wftpg"))

  abbrev pub get_file_op_log_files : LoggingConfig → List LogFileInfo
  get_file_op_log_files cfg =
      map log_file_to_proto (list_log_files (read_dir cfg.log_dir) (text "file-ops"))

  unfoldable pub ensure_path_in_dir : Text → Text → Result Text (Unit {0})
  ensure_path_in_dir path dir = compare_paths path (canonicalize path) (canonicalize dir)

  unfoldable pub get_log_file_content : LoggingConfig → Text → ℕ → Result Status (List LogEntry)
  get_log_file_content cfg path count =
      if_inside (ensure_path_in_dir path cfg.log_dir)
        (map entry_to_proto (read_program_log json (lines path) count))

  -- The path `current` stands for the entries in memory.
  unfoldable pub get_file_op_log_content :
      (Time → Text) → FileLogger → LoggingConfig → Text → ℕ → Result Status (List FileOpLogEntry)
  get_file_op_log_content rfc3339 l cfg path count =
      if text_eq path (text "current")
      then ok (map (λ e. file_op_to_proto (from_entry rfc3339 e)) (get_recent_logs l count))
      else if_inside (ensure_path_in_dir path cfg.log_dir)
          (map file_op_to_proto (read_file_op_log json (lines path) count))

-- What the subscription of a follower receives: an entry, or the notice that it was too slow and
-- missed some, or that there will be none any more. With it goes whether the follower still
-- listens.
pub data Received : Type 0 where
  entry : LogEntryJson → Received
  lagged closed : Received

-- The events that are sent until the follower or the buffer is gone.
abbrev pub send_then : Bool → LogEntryJson → List LogEntry → List LogEntry
send_then true e rest = entry_to_proto e ∷ rest
send_then false e rest = []

unfoldable pub relay : List (Received × Bool) → List LogEntry
relay [] = []
relay ((entry e, listens) ∷ rest) = send_then listens e (relay rest)
relay ((lagged, listens) ∷ rest) = relay rest
relay ((closed, listens) ∷ rest) = []

unfoldable pub replay : List (LogEntryJson × Bool) → List LogEntry → List LogEntry
replay [] live = live
replay ((e, listens) ∷ history) live = send_then listens e (replay history live)

-- The history and what is received, each with whether the follower still listens.
abbrev pub listening : {A : Type 0} → (A → Bool) → List A → List (A × Bool)
listening listens [] = []
listening listens (x ∷ xs) = (x, listens x) ∷ listening listens xs

-- `watch_logs`: the history is read in the state `b` of the buffer. The subscription is made after
-- that, perhaps in a later state, and `received` begins with it: an entry that is pushed between
-- the two is in neither.
unfoldable pub watch_logs :
    LoggingConfig → LogBuffer → ℕ → (LogEntryJson → Bool) → List (Received × Bool) → List LogEntry
watch_logs cfg b tail_count listens received =
    if cfg.enable_gui_logging
    then replay (listening listens (recent b tail_count)) (relay received)
    else []

-- `SaveLogConfigRequest`, of unsigned numbers.
pub record SaveLogConfigRequest : Type 0 where
  pub log_dir : Text
  pub log_level : Text
  pub max_log_size : ℕ
  pub max_log_files : ℕ
  pub enable_gui_logging : Bool

abbrev pub updated : SaveLogConfigRequest → Config → Config
updated req c = record c {
  logging = record c.logging {
    log_dir = req.log_dir;
    log_level = req.log_level;
    max_log_size = req.max_log_size;
    max_log_files = req.max_log_files;
    enable_gui_logging = req.enable_gui_logging;
  };
}

abbrev pub saved_message : Bool → Text
saved_message log_dir_changed =
    text "日志配置已保存" ++ (if log_dir_changed then text "（日志目录变更将在服务重启后生效）" else [])

-- The answer, the configuration in memory, the world, and the level that was set if one was.
pub record Saved (W : Type 0) : Type 0 where
  pub answer : Result Status OpReply
  pub config : Config
  pub world : W
  pub level : Option Text

module _ (F : Fs) (toml : Toml) (set_log_level : Text → Result Text (Unit {0})) where
  abbrev pub reloaded : Bool → Text → OpReply → Result Status OpReply
  reloaded false level reply = ok reply
  reloaded true level reply = elim (set_log_level level) [
    | ok u ↦ ok reply
    | err e ↦ err (internal e)
  ]

  abbrev pub level_of : Bool → Text → Option Text
  level_of changed level = if changed then some level else none

  abbrev pub after_saving :
      SaveLogConfigRequest → Config → Result Text (Unit {0}) × F.World → Saved F.World
  after_saving req old (err e, w) = record {
    answer = err (internal e);
    config = updated req old;
    world = w;
    level = none;
  }
  after_saving req old (ok u, w) =
      let level_changed = not (text_eq old.logging.log_level req.log_level) in
      let log_dir_changed = not (text_eq old.logging.log_dir req.log_dir) in
      record {
        answer = reloaded level_changed req.log_level (op_ok (saved_message log_dir_changed));
        config = updated req old;
        world = w;
        level = level_of level_changed req.log_level;
      }

  -- The configuration in memory is changed before it is saved.
  unfoldable pub save_log_config : Text → SaveLogConfigRequest → Config → F.World → Saved F.World
  save_log_config config_path req old w =
      after_saving req old (save F toml (updated req old) config_path w)

-- `WriteAuditLogRequest`
pub record AuditEntry : Type 0 where
  pub user : Text
  pub action : Text
  pub target : Text
  pub details : Text

unfoldable pub audit_line : Text → AuditEntry → Text
audit_line timestamp e =
    timestamp
    ++ (text " | "
        ++ (e.user
            ++ (text " | "
                ++ (e.action
                    ++ (text " | " ++ (e.target ++ (text " | " ++ (e.details ++ text "\n"))))))))

module _ (F : Fs) where
  abbrev pub create_dir_of : Option Text → Io F.World Status (Unit {0})
  create_dir_of none = pure (ok tt)
  create_dir_of (some parent) = or_internal λ w. F.create_dir_all w parent

  unfoldable pub write_audit_log :
      Text → Option Text → Text → AuditEntry → Io F.World Status OpReply
  write_audit_log audit_path parent timestamp e = do
    create_dir_of parent
    or_internal λ w. F.append w audit_path (audit_line timestamp e)
    pure (ok (op_ok (text "审计日志已写入")))
