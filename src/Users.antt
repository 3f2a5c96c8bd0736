-- ===== src/Users.antt =====
-- Users and their permissions (common/src/users.rs).
pub mod Manager
mod Tests
use wftpd_linux.Base.{
  join, ℕ, Bool, true, false, ◌&&◌, ◌||◌, not, Option, none, some, List, [], ◌∷◌, Text, text,
  utf8_len, is_empty, ltb, leb, all, if◌then◌else◌, ◌==◌, ◌++◌,
}

pub record Permissions : Type 0 where
  pub can_read : Bool
  pub can_write : Bool
  pub can_delete : Bool
  pub can_list : Bool
  pub can_mkdir : Bool
  pub can_rmdir : Bool
  pub can_rename : Bool
  pub can_append : Bool
  pub quota_mb : Option ℕ
  pub speed_limit_kbps : Option ℕ

-- `Permissions::default()`, which `#[derive(Default)]` gives.
abbrev pub no_permissions : Permissions
no_permissions = record {
  can_read = false;
  can_write = false;
  can_delete = false;
  can_list = false;
  can_mkdir = false;
  can_rmdir = false;
  can_rename = false;
  can_append = false;
  quota_mb = none;
  speed_limit_kbps = none;
}

abbrev pub full : Permissions
full = record {
  can_read = true;
  can_write = true;
  can_delete = true;
  can_list = true;
  can_mkdir = true;
  can_rmdir = true;
  can_rename = true;
  can_append = true;
  quota_mb = none;
  speed_limit_kbps = none;
}

-- `fmt` of `Permissions`: the names of the granted permissions, each pushed on `perms` in this
-- order.
abbrev granted : List (Bool × Text) → List Text
granted [] = []
granted ((true, name) ∷ rest) = name ∷ granted rest
granted ((false, name) ∷ rest) = granted rest

abbrev named_permissions : Permissions → List (Bool × Text)
named_permissions p =
    (p.can_read, text "读")
    ∷ (p.can_write, text "写")
    ∷ (p.can_delete, text "删")
    ∷ (p.can_list, text "列表")
    ∷ (p.can_mkdir, text "建目录")
    ∷ (p.can_rmdir, text "删目录")
    ∷ (p.can_rename, text "重命名")
    ∷ (p.can_append, text "追加")
    ∷ []

unfoldable pub fmt : Permissions → Text
fmt p = join (text ", ") (granted (named_permissions p))

-- Times are seconds since an epoch.
pub record User : Type 0 where
  pub username : Text
  pub password_hash : Text
  pub home_dir : Text
  pub permissions : Permissions
  pub created_at : ℕ
  pub last_login : Option ℕ
  pub enabled : Bool
  pub is_admin : Bool

abbrev pub is_ascii_alphanumeric : ℕ → Bool
is_ascii_alphanumeric c =
    (leb b'0' c && leb c b'9') || (leb b'A' c && leb c b'Z') || (leb b'a' c && leb c b'z')

abbrev pub is_name_char : ℕ → Bool
is_name_char c = is_ascii_alphanumeric c || c == b'_' || c == b'-'

abbrev pub is_first_char : ℕ → Bool
is_first_char c = is_ascii_alphanumeric c || c == b'_'

-- The bytes of a character that is not ASCII are all 128 or above, so the tests on bytes and on
-- characters agree.
unfoldable pub is_safe_username : Text → Bool
is_safe_username [] = false
is_safe_username (c ∷ s) =
    if ltb 64 (utf8_len (c ∷ s))
    then false
    else if not (is_first_char c)
    then false
    else all is_name_char (c ∷ s)
