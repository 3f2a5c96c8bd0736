-- ===== src/Gui/Accounts.antt =====
-- The users of the front end: the dialog that adds or edits one, and the buttons that delete or
-- toggle one (wftpg/src/ui/user_dialog.rs and user_tab.rs). Each changes the library of the front
-- end, and sends it as a whole to the daemon. Error texts are those of the source, without the
-- value they quote. The commands getent, chgrp and setfacl are parameters.
pub mod UsersFile
pub mod Sync
mod Tests
use wftpd_linux.Base.{
  ℕ, Bool, true, false, not, Option, none, some, [], ◌∷◌, ◌++◌, Text, text, is_empty, if◌then◌else◌,
}
use wftpd_linux.Outcome.{Result, ok, err, require, ◌>>=◌, ◌>>◌}
use wftpd_linux.Users.{Permissions}
use wftpd_linux.Users.Manager.{
  UserManager, add_user, update_password, update_home_dir, update_permissions, set_user_enabled,
  remove_user,
}
use wftpd_linux.Daemon.Requests.{Status, Shared, Setup, World, save_users}
use wftpd_linux.Daemon.Requests.Logging.{AuditEntry, write_audit_log}
use wftpd_linux.Gui.{
  AppState, Link, answered, unreachable, reply_lost, unwrap_or_default, System, carried_out,
}
use wftpd_linux.Gui.Forms.{PermissionForm, collect_permissions}

pub record UserForm : Type 0 where
  pub edit_username : Option Text
  pub username : Text
  pub password : Text
  pub home_dir : Text
  pub permissions : PermissionForm

abbrev pub is_edit : Option Text → Bool
is_edit none = false
is_edit (some u) = true

-- `let _ = …` of a change: an error is dropped.
abbrev pub or_unchanged : UserManager → Result Text UserManager → UserManager
or_unchanged m (ok m') = m'
or_unchanged m (err e) = m

module _ (exists is_dir : Text → Bool) (hash_password : Text → Result Text Text) where
  abbrev pub with_password : UserManager → UserForm → UserManager
  with_password m f =
      if is_empty f.password
      then m
      else or_unchanged m (update_password hash_password m f.username f.password)

  abbrev pub edited : UserManager → UserForm → UserManager
  edited m f =
      let m1 = with_password m f in
      let m2 = or_unchanged m1 (update_home_dir exists is_dir m1 f.username f.home_dir) in
      or_unchanged m2 (update_permissions m2 f.username (collect_permissions f.permissions))

  -- An edited user, or a new one with a password.
  abbrev accepted : UserManager → ℕ → UserForm → Permissions → Bool → Result Text UserManager
  accepted m now f perms true = ok (edited m f)
  accepted m now f perms false =
      if is_empty f.password
      then err (text "新建用户必须设置密码")
      else add_user exists is_dir hash_password m now f.username f.password f.home_dir perms false

  -- The library that the dialog sends, or why it stays open.
  unfoldable pub changed_users : UserManager → ℕ → UserForm → Result Text UserManager
  changed_users m now f = do
    require (not (is_empty f.username)) []
    require (not (is_empty f.home_dir)) (text "主目录不能为空")
    require (exists f.home_dir) (text "主目录不存在: ")
    require (is_dir f.home_dir) (text "主目录路径不是目录: ")
    accepted m now f (collect_permissions f.permissions) (is_edit f.edit_username)

module _ (S : Setup) (display : Status → Text) where
  -- The commands that prepare a shared directory, and how users are printed.
  pub record Desktop : Type 0 where
    pub group_exists : World S → Bool
    pub chgrp : World S → Text → World S
    pub setfacl : World S → Text → World S
    pub to_string : UserManager → Result Text Text
    pub audit_path : Text
    pub audit_dir : Option Text
    pub timestamp : Text

  module _ (D : Desktop) where
    unfoldable pub setup_shared_directory_permissions : Text → World S → World S
    setup_shared_directory_permissions path w =
        if not (S.fs.exists w path)
        then w
        else if not (D.group_exists w)
        then w
        else D.setfacl (S.fs.set_permissions (D.chgrp w path) path 0o2770).1 path

    abbrev pub with_audit : AuditEntry → System S display → System S display
    with_audit entry sys = record sys {
      world = (write_audit_log S.fs D.audit_path D.audit_dir D.timestamp entry sys.world).1;
    }

    -- An audit record follows a request that was answered without an error.
    abbrev pub after_reply : AuditEntry → Result Status Text → System S display → System S display
    after_reply entry (ok saved) sys = with_audit entry sys
    after_reply entry (err e) sys = sys

    -- `write_users` and what follows it.
    unfoldable pub push_users :
        Link → AuditEntry → UserManager → System S display → System S display
    push_users answered entry m sys =
        let out = save_users S (unwrap_or_default (D.to_string m)) sys.shared sys.world in
        after_reply entry out.0 (carried_out S display sys out)
    push_users (unreachable e) entry m sys = sys
    push_users (reply_lost e) entry m sys =
        carried_out S display sys
          (save_users S (unwrap_or_default (D.to_string m)) sys.shared sys.world)

    abbrev pub with_users : UserManager → System S display → System S display
    with_users m sys = record sys { app = record { config = sys.app.config; user_manager = m } }

    abbrev pub entry_of : Text → Text → Text → AuditEntry
    entry_of action username details = record {
      user = text "gui-user";
      action = action;
      target = username;
      details = details;
    }

    abbrev pub submitted :
        Link → UserForm → Result Text UserManager → System S display → Bool × System S display
    submitted link f (err e) sys = (false, sys)
    submitted link f (ok m) sys = (
      true,
      push_users link
          (if is_edit f.edit_username
            then entry_of (text "USER_MODIFY") f.username
                (text "User " ++ (f.username ++ text " modified"))
            else entry_of (text "USER_CREATE") f.username
                (text "User " ++ (f.username ++ text " created")))
          m
          (record (with_users m sys) {
            world = setup_shared_directory_permissions f.home_dir sys.world;
          }),
    )

    -- `submit_user_dialog`: whether the dialog closes.
    unfoldable pub submit_user_dialog :
        (Text → Result Text Text) → ℕ → Link → UserForm → System S display → Bool × System S display
    submit_user_dialog hash_password now link f sys =
        submitted link f
          (changed_users (S.fs.exists sys.world) (S.fs.is_dir sys.world) hash_password
            sys.app.user_manager now f)
          sys

    abbrev pub toggled :
        Link → AuditEntry → Result Text UserManager → System S display → System S display
    toggled link entry (err e) sys = sys
    toggled link entry (ok m) sys = push_users link entry m (with_users m sys)

    unfoldable pub toggle_selected_user : Link → Text → Bool → System S display → System S display
    toggle_selected_user link username current_enabled sys =
        toggled link
          (entry_of (text "USER_TOGGLE") username (
            text "User "
            ++ (username
                ++ (text " status changed to "
                    ++ (if current_enabled then text "disabled" else text "enabled")))))
          (set_user_enabled sys.app.user_manager username (not current_enabled)) sys

    -- The answer yes of `show_confirm_dialog`.
    unfoldable pub delete_confirmed : Link → Text → System S display → System S display
    delete_confirmed link username sys =
        let m = or_unchanged sys.app.user_manager (remove_user sys.app.user_manager username) in
        push_users link
          (entry_of (text "USER_DELETE") username (text "User " ++ (username ++ text " deleted"))) m
          (with_users m sys)
