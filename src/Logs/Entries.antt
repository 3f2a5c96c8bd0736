-- ===== src/Logs/Entries.antt =====
-- The entries that are sent to the front end (common/src/server/file_logger.rs).
use wftpd_linux.Base.{ℕ, Bool, Text}
use wftpd_linux.Os.{Time}
use wftpd_linux.Logs.FileLogger.{FileLogEntry}

pub record LogFileEntry : Type 0 where
  pub name : Text
  pub path : Text

pub record FileLogEntryJson : Type 0 where
  pub timestamp : Text
  pub username : Text
  pub client_ip : Text
  pub operation : Text
  pub file_path : Text
  pub file_size : ℕ
  pub protocol : Text
  pub success : Bool
  pub message : Text

module _ (rfc3339 : Time → Text) where
  -- `FileLogEntryJson::from`
  abbrev pub from_entry : FileLogEntry → FileLogEntryJson
  from_entry e = record {
    timestamp = rfc3339 e.timestamp;
    username = e.username;
    client_ip = e.client_ip;
    operation = e.operation;
    file_path = e.file_path;
    file_size = e.file_size;
    protocol = e.protocol;
    success = e.success;
    message = e.message;
  }
