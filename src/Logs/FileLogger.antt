-- ===== src/Logs/FileLogger.antt =====
-- The file operation log (common/src/server/file_logger.rs). The time of an entry is the argument
-- `now`, and `rfc3339` is its text form, of the library chrono. The broadcasts are kept in the
-- order they were sent.
use wftpd_linux.Base.{
  ℕ, ◌≡◌, refl, sym, ap, append-nil, append_assoc, take-reverse, last_n-min, ◌∙◌, Bool, Option,
  none, some, Text, text, List, [], ◌∷◌, ◌++◌, map, take, last_n, arith, min,
}
use mathlib.Core.List.{reverse}
use wftpd_linux.Os.{FileLogInfo, Time}
use wftpd_linux.Logs.LogBuffer.{LogEntryJson}
use wftpd_linux.Logs.Ring.{push_bounded, push_all, push_all_lem}

pub record FileLogEntry : Type 0 where
  pub timestamp : Time
  pub username : Text
  pub client_ip : Text
  pub operation : Text
  pub file_path : Text
  pub file_size : ℕ
  pub protocol : Text
  pub success : Bool
  pub message : Text

-- The entry that `log` makes.
abbrev pub entry_of : Time → FileLogInfo → FileLogEntry
entry_of now info = record {
  timestamp = now;
  username = info.username;
  client_ip = info.client_ip;
  operation = info.operation;
  file_path = info.file_path;
  file_size = info.file_size;
  protocol = info.protocol;
  success = info.success;
  message = info.message;
}

pub record FileLogger : Type 0 where
  pub buffer : List FileLogEntry
  pub max_buffer_size : ℕ
  pub log_sender : Option (List LogEntryJson)

unfoldable pub new : FileLogger
new = record { buffer = []; max_buffer_size = 2000; log_sender = none }

unfoldable pub with_log_sender : List LogEntryJson → FileLogger
with_log_sender sent = record { buffer = []; max_buffer_size = 2000; log_sender = some sent }

module _ (rfc3339 : Time → Text) where
  unfoldable pub broadcast : FileLogEntry → LogEntryJson
  broadcast entry = record {
    timestamp = rfc3339 entry.timestamp;
    level = text "INFO";
    source = text "文件操作";
    message = entry.username ++ text " " ++ entry.operation ++ text " " ++ entry.file_path;
    client_ip = some entry.client_ip;
    username = some entry.username;
    action = some entry.operation;
  }

  unfoldable pub send : Option (List LogEntryJson) → FileLogEntry → Option (List LogEntryJson)
  send none entry = none
  send (some sent) entry = some (sent ++ broadcast entry ∷ [])

  unfoldable pub log : FileLogger → Time → FileLogInfo → FileLogger
  log l now info =
      let entry = entry_of now info in
      record l {
        log_sender = send l.log_sender entry;
        buffer = push_bounded l.max_buffer_size entry l.buffer;
      }

unfoldable pub get_recent_logs : FileLogger → ℕ → List FileLogEntry
get_recent_logs l count = take count (reverse l.buffer)

module _ (rfc3339 : Time → Text) where
  -- A run of logged operations, each at its time.
  unfoldable pub log_all : FileLogger → List (Time × FileLogInfo) → FileLogger
  log_all l [] = l
  log_all l ((now, info) ∷ infos) = log_all (log rfc3339 l now info) infos

  abbrev pub entries_of : List (Time × FileLogInfo) → List FileLogEntry
  entries_of = map (λ (now, info). entry_of now info)

  log_all-buffer :
      (infos : List (Time × FileLogInfo)) (l : FileLogger)
      → (log_all l infos).buffer ≡ push_all l.max_buffer_size (entries_of infos) l.buffer
  unfolding log_all log push_all
  log_all-buffer [] l = refl
  log_all-buffer ((now, info) ∷ infos) l = log_all-buffer infos _

  log_all-sent :
      (infos : List (Time × FileLogInfo)) (l : FileLogger) (sent : List LogEntryJson)
      → l.log_sender ≡ some sent
      → (log_all l infos).log_sender ≡ some (sent ++ map (broadcast rfc3339) (entries_of infos))
  unfolding log_all log send
  log_all-sent [] l sent e = e ∙ ap some (sym (append-nil sent))
  log_all-sent ((now, info) ∷ infos) l sent e =
      log_all-sent infos _ (sent ++ broadcast rfc3339 (entry_of now info) ∷ []) (rw e refl)
      ∙ ap some (append_assoc sent (broadcast rfc3339 (entry_of now info) ∷ []) _)

  -- A logger that broadcasts, after a run of operations: the recent ones are the last, the newest
  -- first, as many as were asked for and at most 2000; and each operation was broadcast once, in
  -- order.
  pub get_recent_logs-log_all :
      (infos : List (Time × FileLogInfo)) (count : ℕ)
      → (get_recent_logs (log_all (with_log_sender []) infos) count
          ≡ reverse (last_n (min count 2000) (entries_of infos)))
        × ((log_all (with_log_sender []) infos).log_sender
            ≡ some (map (broadcast rfc3339) (entries_of infos)))
  unfolding get_recent_logs with_log_sender
  get_recent_logs-log_all infos count = (
    take-reverse count _
        ∙ ap (λ es. reverse (last_n count es))
            (log_all-buffer infos (with_log_sender [])
              ∙ push_all_lem 2000 (entries_of infos) (omega arith))
        ∙ ap reverse (last_n-min count 2000 (entries_of infos)),
    log_all-sent infos (with_log_sender []) [] refl,
  )
