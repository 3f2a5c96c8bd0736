-- ===== src/Logs/Parsing.antt =====
-- The parsing of the lines of the log files (wftpd/src/logs.rs). The library serde_json is a
-- parameter.
pub mod Lines
use wftpd_linux.Base.{
  ℕ, Bool, true, false, ◌&&◌, Option, none, some, Text, text, List, [], ◌∷◌, is_empty, trim,
  trim_start, if◌then◌else◌, ◌==◌,
}
use wftpd_linux.Logs.LogBuffer.{LogEntryJson}
use wftpd_linux.Logs.Entries.{FileLogEntryJson}
use wftpd_linux.Logs.Tail.{tail_lines}

-- `serde_json::Value` and what the code asks of it.
pub record Json : Type 1 where
  pub Value : Type 0
  pub from_str : Text → Option Value
  pub field : Value → Text → Option Value
  pub as_str : Value → Option Text
  pub as_u64 : Value → Option ℕ
  pub as_bool : Value → Option Bool
  pub is_object : Value → Bool
  pub is_null : Value → Bool
  pub to_string : Value → Text

-- `split_once` of a character.
abbrev pub before : ℕ → Option (Text × Text) → Option (Text × Text)
before c none = none
before c (some (s, t)) = some (c ∷ s, t)

unfoldable pub split_char : ℕ → Text → Option (Text × Text)
split_char c [] = none
split_char c (d ∷ s) = if d == c then some ([], s) else before d (split_char c s)

-- `split_once(": ")`
unfoldable pub split_colon : Text → Option (Text × Text)
split_colon [] = none
split_colon (c ∷ []) = none
split_colon (c ∷ d ∷ s) =
    if (c == b':') && (d == b' ') then some ([], s) else before c (split_colon (d ∷ s))

abbrev pub text_or : Text → Option Text → Text
text_or default none = default
text_or default (some s) = s

abbrev pub and_then : {A B : Type 0} → Option A → (A → Option B) → Option B
and_then none f = none
and_then (some a) f = f a

abbrev source_message : Text → Option (Text × Text) → Text × Text
source_message rest none = ([], rest)
source_message rest (some parts) = parts

-- The text format: time, level, source and message.
unfoldable pub parse_text_line : Text → Option LogEntryJson
parse_text_line line = and_then (split_char b' ' line) λ (timestamp, remainder).
    and_then (split_char b' ' (trim_start remainder)) λ (level, rest).
      let parts = source_message (trim_start rest) (split_colon (trim_start rest)) in
      some (record {
        timestamp = timestamp;
        level = level;
        source = parts.0;
        message = parts.1;
        client_ip = none;
        username = none;
        action = none;
      })

module _ (J : Json) where
  open J use {Value, from_str, field, as_str, as_u64, as_bool, is_object, is_null, to_string}

  abbrev pub or_printed : Value → Option Text → Option Text
  or_printed v (some s) = some s
  or_printed v none = if is_null v then none else some (to_string v)

  unfoldable pub opt_to_string : Value → Option Text
  opt_to_string v = or_printed v (as_str v)

  -- `opt_to_string(v.get(key).cloned().unwrap_or_default())`
  abbrev pub top_text : Value → Text → Option Text
  top_text v key = and_then (field v key) opt_to_string

  -- `v.get("fields").and_then(|f| f.get(key))`
  abbrev pub inner : Value → Text → Option Value
  inner v key = and_then (field v (text "fields")) λ f. field f key

  abbrev pub inner_text : Value → Text → Option Text
  inner_text v key = and_then (inner v key) as_str

  unfoldable pub object_entry : Value → LogEntryJson
  object_entry v = record {
    timestamp = text_or [] (top_text v (text "timestamp"));
    level = text_or (text "INFO") (top_text v (text "level"));
    source = text_or [] (top_text v (text "target"));
    message = text_or [] (inner_text v (text "message"));
    client_ip = inner_text v (text "client_ip");
    username = inner_text v (text "username");
    action = inner_text v (text "action");
  }

  abbrev pub object_of : Option Value → Option Value
  object_of none = none
  object_of (some v) = if is_object v then some v else none

  abbrev pub parse_trimmed : Text → Option Value → Option LogEntryJson
  parse_trimmed line (some v) = some (object_entry v)
  parse_trimmed line none = parse_text_line line

  unfoldable pub parse_program_line : Text → Option LogEntryJson
  parse_program_line line =
      if is_empty (trim line)
      then none
      else parse_trimmed (trim line) (object_of (from_str (trim line)))

  abbrev pub number_or_zero : Option ℕ → ℕ
  number_or_zero none = 0
  number_or_zero (some n) = n

  abbrev pub or_false : Option Bool → Bool
  or_false none = false
  or_false (some b) = b

  unfoldable pub file_op_entry : Value → FileLogEntryJson
  file_op_entry v = record {
    timestamp = text_or [] (and_then (field v (text "timestamp")) as_str);
    username = text_or [] (inner_text v (text "username"));
    client_ip = text_or [] (inner_text v (text "client_ip"));
    operation = text_or [] (inner_text v (text "operation"));
    file_path = text_or [] (inner_text v (text "file_path"));
    file_size = number_or_zero (and_then (inner v (text "file_size")) as_u64);
    protocol = text_or [] (inner_text v (text "protocol"));
    success = or_false (and_then (inner v (text "success")) as_bool);
    message = text_or [] (inner_text v (text "message"));
  }

  unfoldable pub parse_file_op_line : Text → Option FileLogEntryJson
  parse_file_op_line line = and_then (from_str (trim line)) λ v. some (file_op_entry v)

  abbrev pub keep : {A : Type 0} → Option A → List A → List A
  keep none xs = xs
  keep (some x) xs = x ∷ xs

  abbrev pub filter_map : {A B : Type 0} → (A → Option B) → List A → List B
  filter_map f [] = []
  filter_map f (x ∷ xs) = keep (f x) (filter_map f xs)

  -- The file is the lines that can be read of it, if it can be opened.
  unfoldable pub read_program_log : Option (List Text) → ℕ → List LogEntryJson
  read_program_log file count = filter_map parse_program_line (tail_lines file count)

  unfoldable pub read_file_op_log : Option (List Text) → ℕ → List FileLogEntryJson
  read_file_op_log file count = filter_map parse_file_op_line (tail_lines file count)
