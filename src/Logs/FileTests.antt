-- ===== src/Logs/FileTests.antt =====
-- The reading of log files and the shorthands of the file operation log at concrete inputs.
use wftpd_linux.Base.{
  ◌≡◌, refl, true, false, none, some, List, [], ◌∷◌, ◌++◌, text, Text, is_whitespace,
}
use mathlib.Core.List.{Perm, Pairwise}
use wftpd_linux.Logs.Parsing.{Json, parse_program_line}
use wftpd_linux.Logs.Parsing.Lines.{
  is_word-IsWord, text_line, entry_of_line, parse_program_line-text_line,
}
use wftpd_linux.Logs.Listing.{Item, is_log_file, entry_of_item, filter, list_log_files}
use wftpd_linux.Logs.Entries.{LogFileEntry}
use wftpd_linux.Logs.Listing.Matching.{Picks}
use wftpd_linux.Logs.Listing.Sorting.{NotAfter, list_log_files_lem}

-- A parser that accepts nothing.
abbrev no_json : Json
no_json = record {
  Value = Unit {0};
  from_str = λ line. none;
  field = λ v key. none;
  as_str = λ v. none;
  as_u64 = λ v. none;
  as_bool = λ v. none;
  is_object = λ v. false;
  is_null = λ v. true;
  to_string = λ v. [];
}

parse_program_line-text_line_example :
    parse_program_line no_json (
      text_line
        (text "2026-09-05T10:00:00+08:00")
        1
        (text "INFO")
        (text "wftpd::state")
        (text "57")
        (text "FTP starte" ++ b'd' ∷ []))
    ≡ some (
        entry_of_line
          (text "2026-09-05T10:00:00+08:00")
          (text "INFO")
          (text "wftpd::state")
          (text "57: FTP starte" ++ b'd' ∷ []))
unfolding is_whitespace
parse_program_line-text_line_example =
    parse_program_line-text_line no_json (text "2026-09-05T10:00:00+08:00") 1 (text "INFO")
      (text "wftpd::state") (text "57") (text "FTP starte") b'd'
      (is_word-IsWord (text "2026-09-05T10:00:00+08:00") refl) (is_word-IsWord (text "INFO") refl)
      (is_word-IsWord (text "wftpd::state") refl) refl refl

abbrev item : Text → Item
item name = record { file_name = some name; path = text "/var/log/" ++ name; is_file = true }

abbrev items : List Item
items =
    item (text "wftpg.2026-09-05.log")
    ∷ item (text "file-ops.2026-09-05.log")
    ∷ item (text "wftpg.2026-09-06.LOG")
    ∷ []

list_log_files_lem_example :
    ((es : List LogFileEntry) × Picks (text "wftpg") items es
      × Perm (list_log_files (some items) (text "wftpg")) es)
    × Pairwise NotAfter (list_log_files (some items) (text "wftpg"))
    × (list_log_files none (text "wftpg") ≡ [])
list_log_files_lem_example = list_log_files_lem items (text "wftpg")

-- The newer file stands first.
newer_first :
    list_log_files (some items) (text "wftpg")
    ≡ record { name = text "wftpg.2026-09-06"; path = text "/var/log/wftpg.2026-09-06.LOG" }
      ∷ record { name = text "wftpg.2026-09-05"; path = text "/var/log/wftpg.2026-09-05.log" }
      ∷ []
unfolding list_log_files wftpd_linux.Logs.Listing.sort_newest wftpd_linux.Paths.Names.split_last
    wftpd_linux.Logs.Listing.insert
newer_first = refl
