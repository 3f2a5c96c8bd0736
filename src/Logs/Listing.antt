-- ===== src/Logs/Listing.antt =====
-- The listing of the log files of a directory (`list_log_files` of wftpd/src/logs.rs), with what
-- the standard library does in it: the split of a file name at its last dot, the order on strings
-- and a stable sort.
pub mod Matching
pub mod Sorting
use wftpd_linux.Base.{
  ℕ, ◌+◌, Bool, true, false, ◌&&◌, ◌||◌, Option, none, some, Text, text, text_eq, List, [], ◌∷◌,
  is_empty, if◌then◌else◌, ◌==◌, ltb, leb, map,
}
use wftpd_linux.Paths.Names.{file_stem, extension}
use wftpd_linux.Logs.Entries.{LogFileEntry}

-- An entry of the directory. `file_name` is `none` for a name that is not UTF-8.
pub record Item : Type 0 where
  pub file_name : Option Text
  pub path : Text
  pub is_file : Bool

abbrev pub ascii_lower : ℕ → ℕ
ascii_lower c = if leb b'A' c && leb c b'Z' then c + 32 else c

abbrev pub eq_ignore_ascii_case : Text → Text → Bool
eq_ignore_ascii_case s t = text_eq (map ascii_lower s) (map ascii_lower t)

abbrev pub starts_with_text : Text → Text → Bool
starts_with_text [] s = true
starts_with_text (c ∷ p) [] = false
starts_with_text (c ∷ p) (d ∷ s) = (c == d) && starts_with_text p s

abbrev pub is_log : Option Text → Bool
is_log none = false
is_log (some ext) = eq_ignore_ascii_case ext (text "log")

abbrev pub name_matches : Text → Option Text → Bool
name_matches prefix none = false
name_matches prefix (some name) = starts_with_text prefix name && is_log (extension name)

abbrev pub is_log_file : Text → Item → Bool
is_log_file prefix i = i.is_file && name_matches prefix i.file_name

abbrev pub name_of : Option Text → Text
name_of none = []
name_of (some name) = file_stem name

abbrev pub entry_of_item : Item → LogFileEntry
entry_of_item i = record { name = name_of i.file_name; path = i.path }

-- `str::cmp` gives `Less`: the order of the code points is that of the bytes of UTF-8.
abbrev pub text_lt : Text → Text → Bool
text_lt [] [] = false
text_lt [] (d ∷ t) = true
text_lt (c ∷ s) [] = false
text_lt (c ∷ s) (d ∷ t) = ltb c d || ((c == d) && text_lt s t)

-- `sort_by` with the greater name first: equal ones stay in their order.
unfoldable pub insert : LogFileEntry → List LogFileEntry → List LogFileEntry
insert e [] = e ∷ []
insert e (f ∷ fs) = if text_lt e.name f.name then f ∷ insert e fs else e ∷ f ∷ fs

unfoldable pub sort_newest : List LogFileEntry → List LogFileEntry
sort_newest [] = []
sort_newest (e ∷ es) = insert e (sort_newest es)

abbrev pub filter : {A : Type 0} → (A → Bool) → List A → List A
filter p [] = []
filter p (x ∷ xs) = let rest = filter p xs in if p x then x ∷ rest else rest

-- `none` stands for a directory that cannot be read.
unfoldable pub list_log_files : Option (List Item) → Text → List LogFileEntry
list_log_files none prefix = []
list_log_files (some items) prefix =
    sort_newest (map entry_of_item (filter (is_log_file prefix) items))
