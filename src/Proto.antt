-- ===== src/Proto.antt =====
-- The conversions between the entries of the logs and the messages of the protocol
-- (proto/src/convert.rs). A message is a record of the fields that its `.proto` file names; its
-- texts cannot be absent.
use wftpd_linux.Base.{
  ℕ, ◌≡◌, refl, ap, ◌↔◌, ◌≢◌, Bool, Option, none, some, Text, [], ◌∷◌, is_empty, if◌then◌else◌,
}
use wftpd_linux.Logs.LogBuffer.{LogEntryJson}
use wftpd_linux.Logs.Entries.{FileLogEntryJson, LogFileEntry}

-- The message `LogEntry`.
pub record LogEntry : Type 0 where
  pub timestamp : Text
  pub level : Text
  pub source : Text
  pub message : Text
  pub client_ip : Text
  pub username : Text
  pub action : Text

-- The message `FileOpLogEntry`.
pub record FileOpLogEntry : Type 0 where
  pub timestamp : Text
  pub username : Text
  pub client_ip : Text
  pub operation : Text
  pub file_path : Text
  pub file_size : ℕ
  pub protocol : Text
  pub success : Bool
  pub message : Text

-- The message `LogFileInfo`.
pub record LogFileInfo : Type 0 where
  pub name : Text
  pub path : Text

abbrev pub opt_to_str : Option Text → Text
opt_to_str none = []
opt_to_str (some s) = s

abbrev pub str_to_opt : Text → Option Text
str_to_opt v = if is_empty v then none else some v

unfoldable pub entry_to_proto : LogEntryJson → LogEntry
entry_to_proto e = record {
  timestamp = e.timestamp;
  level = e.level;
  source = e.source;
  message = e.message;
  client_ip = opt_to_str e.client_ip;
  username = opt_to_str e.username;
  action = opt_to_str e.action;
}

unfoldable pub entry_from_proto : LogEntry → LogEntryJson
entry_from_proto e = record {
  timestamp = e.timestamp;
  level = e.level;
  source = e.source;
  message = e.message;
  client_ip = str_to_opt e.client_ip;
  username = str_to_opt e.username;
  action = str_to_opt e.action;
}

unfoldable pub file_op_to_proto : FileLogEntryJson → FileOpLogEntry
file_op_to_proto e = record {
  timestamp = e.timestamp;
  username = e.username;
  client_ip = e.client_ip;
  operation = e.operation;
  file_path = e.file_path;
  file_size = e.file_size;
  protocol = e.protocol;
  success = e.success;
  message = e.message;
}

unfoldable pub file_op_from_proto : FileOpLogEntry → FileLogEntryJson
file_op_from_proto e = record {
  timestamp = e.timestamp;
  username = e.username;
  client_ip = e.client_ip;
  operation = e.operation;
  file_path = e.file_path;
  file_size = e.file_size;
  protocol = e.protocol;
  success = e.success;
  message = e.message;
}

unfoldable pub log_file_to_proto : LogFileEntry → LogFileInfo
log_file_to_proto e = record { name = e.name; path = e.path }

unfoldable pub log_file_from_proto : LogFileInfo → LogFileEntry
log_file_from_proto e = record { name = e.name; path = e.path }

opt_to_str-str_to_opt : (v : Text) → opt_to_str (str_to_opt v) ≡ v
opt_to_str-str_to_opt [] = refl
opt_to_str-str_to_opt (c ∷ v) = refl

-- An absent text and a text that is not empty come back, and only these.
abbrev pub Representable : Option Text → Type 0
Representable v = v ≢ some []

str_to_opt-opt_to_str : (v : Option Text) → (str_to_opt (opt_to_str v) ≡ v) ↔ Representable v
str_to_opt-opt_to_str none = (λ _ e. cc, λ _. refl)
str_to_opt-opt_to_str (some []) = (λ e. absurd cc, λ h. absurd (h refl))
str_to_opt-opt_to_str (some (c ∷ s)) = (λ _ e. cc, λ _. refl)

-- A message comes back from an entry as it was. An entry comes back from a message as it was
-- exactly when none of its three optional texts is present and empty.
entry_round_trip :
    (m : LogEntry) (e : LogEntryJson)
    → (entry_to_proto (entry_from_proto m) ≡ m)
      × ((entry_from_proto (entry_to_proto e) ≡ e)
          ↔ (Representable e.client_ip × Representable e.username × Representable e.action))
unfolding entry_to_proto entry_from_proto
entry_round_trip m e =
    let client_ip = str_to_opt-opt_to_str e.client_ip in
    let username = str_to_opt-opt_to_str e.username in
    let action = str_to_opt-opt_to_str e.action in
    (
      cc (
        opt_to_str-str_to_opt m.client_ip,
        opt_to_str-str_to_opt m.username,
        opt_to_str-str_to_opt m.action,
      ),
      (
        λ same. (
          client_ip.0 (ap (λ t. t.client_ip) same),
          username.0 (ap (λ t. t.username) same),
          action.0 (ap (λ t. t.action) same),
        ),
        λ (c, u, a). cc (client_ip.1 c, username.1 u, action.1 a),
      ),
    )

-- The entries of the file log, and the entries of a list of log files, come back as they were, both
-- ways.
pub file_entries_round_trip :
    (e : FileLogEntryJson) (m : FileOpLogEntry) (f : LogFileEntry) (i : LogFileInfo)
    → (file_op_from_proto (file_op_to_proto e) ≡ e)
      × (file_op_to_proto (file_op_from_proto m) ≡ m)
      × (log_file_from_proto (log_file_to_proto f) ≡ f)
      × (log_file_to_proto (log_file_from_proto i) ≡ i)
unfolding file_op_to_proto file_op_from_proto log_file_to_proto log_file_from_proto
file_entries_round_trip e m f i = (refl, refl, refl, refl)
