-- ===== src/Gui.antt =====
-- The desktop front end (wftpg/src): the settings and users that it holds, and how it saves them by
-- way of the daemon (communication/client.rs, `push_security_config` of ui/security_tab.rs and the
-- save buttons of ui/server_tab.rs). It runs on one thread, so its locks are free. The widgets
-- stand for their values.
pub mod Forms
pub mod InStep
pub mod FormLaws
pub mod Entries
pub mod Denied
pub mod Accounts
pub mod Logging
pub mod Directories
mod Tests
use wftpd_linux.Base.{
  ℕ, ◌≡◌, Bool, true, false, Option, none, some, List, [], ◌∷◌, ◌++◌, Text, text,
}
use wftpd_linux.Outcome.{Result, ok, err}
use wftpd_linux.Config.{Config, Toml}
use wftpd_linux.Users.Manager.{UserManager}
use wftpd_linux.Daemon.Requests.{Status, Shared, Setup, World, replace_config}

pub record AppState : Type 0 where
  pub config : Config
  pub user_manager : UserManager

-- What becomes of a request: it is carried out and answered, it does not reach the daemon, or its
-- answer is lost.
pub data Link : Type 0 where
  answered : Link
  unreachable reply_lost : Text → Link

-- `unwrap_or_default` of a printed value.
abbrev pub unwrap_or_default : Result Text Text → Text
unwrap_or_default (ok s) = s
unwrap_or_default (err e) = []

module _ (S : Setup) (display : Status → Text) where
  -- The front end and the daemon.
  pub record System : Type 0 where
    pub app : AppState
    pub shared : Shared
    pub world : World S

  abbrev pub reply_text : Result Status Text → Result Text Text
  reply_text (ok saved) = ok saved
  reply_text (err e) = err (text "保存配置失败: " ++ display e)

  abbrev pub carried_out : System → Result Status Text × Shared × World S → System
  carried_out sys (r, shared, world) = record sys { shared = shared; world = world }

  -- `write_config`
  unfoldable pub write_config : Link → Text → System → Result Text Text × System
  write_config answered content sys =
      let out = replace_config S content sys.shared sys.world in
      (reply_text out.0, carried_out sys out)
  write_config (unreachable e) content sys = (err e, sys)
  write_config (reply_lost e) content sys =
      (err (text "保存配置失败: " ++ e), carried_out sys (replace_config S content sys.shared sys.world))

  abbrev pub with_config : Config → System → System
  with_config config sys = record sys {
    app = record { config = config; user_manager = sys.app.user_manager };
  }

  -- A saved text that cannot be read is ignored.
  abbrev pub adopt : Result Text Config → System → System
  adopt (ok new_config) sys = with_config new_config sys
  adopt (err e) sys = sys

  abbrev pub read_back : Result Text Text × System → Bool × System
  read_back (ok saved_content, sys) = (true, adopt (S.toml.from_str saved_content) sys)
  read_back (err e, sys) = (false, sys)

  -- `push_security_config`, and what the three save buttons of the servers do: the settings of the
  -- front end are changed, sent as a whole, and taken over as they were saved.
  unfoldable pub push_config : Link → (Config → Config) → System → Bool × System
  push_config link mutate sys =
      let changed = mutate sys.app.config in
      read_back (
        write_config link (unwrap_or_default (S.toml.to_string_pretty changed))
          (with_config changed sys))
