-- ===== src/Users/Manager/Loading.antt =====
-- Loading the user library from its file (`load` and `reload` of common/src/users.rs). A file that
-- does not parse is reported with a preview, `&content[..content.len().min(200)]`, which panics
-- when the byte offset lies inside a character: the result `none`.
use wftpd_linux.Base.{
  ℕ, ◌-◌, Bool, true, false, Option, none, some, [], ◌∷◌, Text, trim, is_empty, utf8_len, char_len,
  ◌==◌, if◌then◌else◌, min, ltb,
}
use wftpd_linux.Users.Manager.{UserManager, empty_manager}

-- `is_char_boundary`
unfoldable pub is_char_boundary : ℕ → Text → Bool
is_char_boundary n [] = n == 0
is_char_boundary n (c ∷ s) =
    let rest = is_char_boundary (n - char_len c) s in
    if n == 0 then true else if ltb n (char_len c) then false else rest

-- What the file system says of the users file.
pub data UsersFile : Type 0 where
  missing unreadable : UsersFile
  content : Text → UsersFile

module _ (parse : Text → Option UserManager) where
  -- `serde_json::from_str(&content).unwrap_or_else(…)`
  abbrev pub parse_or_empty : Text → Option UserManager → Option UserManager
  parse_or_empty s none =
      if is_char_boundary (min (utf8_len s) 200) s then some empty_manager else none
  parse_or_empty s (some m) = some m

  unfoldable pub load : UsersFile → Option UserManager
  load missing = some empty_manager
  load unreadable = some empty_manager
  load (content s) = if is_empty (trim s) then some empty_manager else parse_or_empty s (parse s)

  unfoldable pub reload : UserManager → UsersFile → Option UserManager
  reload m missing = some m
  reload m unreadable = some m
  reload m (content s) = if is_empty (trim s) then some m else parse_or_empty s (parse s)
