-- ===== src/Users/Manager.antt =====
-- The user library `UserManager` (common/src/users.rs). What it asks of the file system and of the
-- libraries argon2 and serde_json are parameters. An operation that returns an error has changed
-- nothing. Error texts are those of the source, without the value they quote.
pub mod Accounts
pub mod Logins
pub mod Loading
pub mod Saving
use wftpd_linux.Base.{
  ℕ, Bool, true, false, not, Option, none, some, List, [], ◌∷◌, Text, text, trim, is_empty,
  utf8_len, ◌==◌, if◌then◌else◌, min, ◌-◌, ltb, ◌+◌,
}
use wftpd_linux.Base.Dict.{Dict, lookup, insert, remove, contains_key}
use wftpd_linux.Outcome.{Result, ok, err, require, ◌>>=◌, ◌>>◌}
use wftpd_linux.Users.{User, Permissions}

pub record UserManager : Type 0 where
  pub users : Dict User

abbrev pub empty_manager : UserManager
empty_manager = record { users = [] }

-- `get_user`
abbrev pub get_user : UserManager → Text → Option User
get_user m username = lookup username m.users

-- `users.get_mut(username).ok_or_else(…)?` and the change of that user.
abbrev pub change :
    (User → Result Text User) → UserManager → Text → Option User → Result Text UserManager
change f m username none = err (text "用户不存在")
change f m username (some u) = do u' ← f u; ok (record m { users = insert username u' m.users })

unfoldable pub remove_user : UserManager → Text → Result Text UserManager
remove_user m username =
    if contains_key username m.users
    then ok (record m { users = remove username m.users })
    else err (text "用户不存在")

unfoldable pub update_permissions : UserManager → Text → Permissions → Result Text UserManager
update_permissions m username permissions =
    change (λ u. ok (record u { permissions = permissions })) m username (get_user m username)

unfoldable pub set_user_enabled : UserManager → Text → Bool → Result Text UserManager
set_user_enabled m username enabled =
    change (λ u. ok (record u { enabled = enabled })) m username (get_user m username)

module _ (exists is_dir : Text → Bool) where
  abbrev pub check_home : Text → Result Text (Unit {0})
  check_home home_dir = do
    require (not (is_empty (trim home_dir))) (text "家目录不能为空")
    require (exists home_dir) (text "家目录不存在")
    require (is_dir home_dir) (text "家目录路径不是目录")

  unfoldable pub update_home_dir : UserManager → Text → Text → Result Text UserManager
  update_home_dir m username home_dir = do
    check_home home_dir
    change (λ u. ok (record u { home_dir = home_dir })) m username (get_user m username)

abbrev pub new_user : ℕ → Text → Text → Permissions → Bool → Text → User
new_user now username home_dir permissions is_admin hash = record {
  username = username;
  password_hash = hash;
  home_dir = home_dir;
  permissions = permissions;
  created_at = now;
  last_login = none;
  enabled = true;
  is_admin = is_admin;
}

module _ (exists is_dir : Text → Bool) (hash_password : Text → Result Text Text) where
  -- `hash_password(password)?` and the insertion.
  abbrev pub store_user :
      UserManager → ℕ → Text → Text → Text → Permissions → Bool → Result Text UserManager
  store_user m now username password home_dir permissions is_admin = do
    hash ← hash_password password
    ok (record m {
      users = insert username (new_user now username home_dir permissions is_admin hash) m.users;
    })

  unfoldable pub add_user :
      UserManager → ℕ → Text → Text → Text → Permissions → Bool → Result Text UserManager
  add_user m now username password home_dir permissions is_admin = do
    require (not (is_empty username)) (text "用户名不能为空")
    require (not (contains_key username m.users)) (text "用户已存在")
    check_home exists is_dir home_dir
    store_user m now username password home_dir permissions is_admin

module _ (hash_password : Text → Result Text Text) where
  unfoldable pub update_password : UserManager → Text → Text → Result Text UserManager
  update_password m username new_password =
      change (λ u. do hash ← hash_password new_password; ok (record u { password_hash = hash })) m
        username (get_user m username)

-- `authenticate`: the library after it, the verdict, and the library that it tries to save; when
-- that fails, a warning is printed.
module _ (verify_password : Text → Text → Bool) where
  abbrev pub logged_in : UserManager → ℕ → Text → User → UserManager
  logged_in m now username u = record m {
    users = insert username (record u { last_login = some now }) m.users;
  }

  abbrev pub login : UserManager → ℕ → Text → Text → User → UserManager × Bool × Option UserManager
  login m now username password u =
      if not u.enabled
      then (m, false, none)
      else if verify_password password u.password_hash
      then (logged_in m now username u, true, some (logged_in m now username u))
      else (m, false, none)

  unfoldable pub authenticate :
      UserManager → ℕ → Text → Text → UserManager × Bool × Option UserManager
  authenticate m now username password = elim (get_user m username) [
    | none ↦ (m, false, none)
    | some u ↦ login m now username password u
  ]
