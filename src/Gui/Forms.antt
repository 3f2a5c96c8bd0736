-- ===== src/Gui/Forms.antt =====
-- The forms of the servers (the save buttons of wftpg/src/ui/server_tab.rs) and of the permissions
-- of a user (wftpg/src/ui/user_dialog.rs). A number widget stands for its value, rounded and not
-- negative, before it is fitted into a width. What the buttons show, and the audit record that
-- follows a save, are left out.
use wftpd_linux.Base.{
  ℕ, ◌^◌, ◌-◌, Bool, true, false, not, ◌&&◌, ◌||◌, Option, none, some, Text, text, trim, is_empty,
  if◌then◌else◌, ltb, min, max,
}
use wftpd_linux.Users.{Permissions}
use wftpd_linux.Config.{Config}
use wftpd_linux.Daemon.Requests.{Status, Setup}
use wftpd_linux.Gui.{Link, System, push_config}

-- `ui/utils.rs`: 9e15 is the bound of `spin_u64`.
abbrev pub spin_u64 : ℕ → ℕ
spin_u64 n = min n 9000000000000000

abbrev pub spin_u32 : ℕ → ℕ
spin_u32 n = if ltb (spin_u64 n) (2 ^ 32) then spin_u64 n else 2 ^ 32 - 1

abbrev pub spin_u16 : ℕ → ℕ
spin_u16 n = if ltb (spin_u32 n) (2 ^ 16) then spin_u32 n else 2 ^ 16 - 1

abbrev pub unwrap_or : Text → Option Text → Text
unwrap_or default none = default
unwrap_or default (some s) = s

abbrev pub address_or_any : Text → Text
address_or_any bind_ip = if is_empty (trim bind_ip) then text "0.0.0.0" else bind_ip

abbrev pub trimmed : Text → Option Text
trimmed s = if is_empty (trim s) then none else some (trim s)

abbrev pub untrimmed : Text → Option Text
untrimmed s = if is_empty (trim s) then none else some s

pub record FtpForm : Type 0 where
  pub enabled : Bool
  pub anon : Bool
  pub bind_ip : Text
  pub port : ℕ
  pub passive_start : ℕ
  pub passive_end : ℕ
  pub welcome : Text
  pub anon_home : Text
  pub max_speed : ℕ
  pub encoding : Option Text
  pub masquerade_ip : Text

unfoldable pub ftp_change : FtpForm → Config → Config
ftp_change w cfg =
    let start = spin_u16 w.passive_start in
    let end = spin_u16 w.passive_end in
    record cfg {
      ftp = record cfg.ftp {
        enabled = w.enabled;
        allow_anonymous = w.anon;
        bind_ip = address_or_any w.bind_ip;
        port = spin_u16 w.port;
        passive_ports = (min start end, max start end);
        welcome_message = w.welcome;
        anonymous_home = untrimmed w.anon_home;
        max_speed_kbps = spin_u64 w.max_speed;
        encoding = unwrap_or (text "UTF-8") w.encoding;
        masquerade_ip = trimmed w.masquerade_ip;
      };
    }

pub record FtpsForm : Type 0 where
  pub require_ssl : Bool
  pub cert_path : Text
  pub key_path : Text

unfoldable pub ftps_change : FtpsForm → Config → Config
ftps_change w cfg = record cfg {
  security = record cfg.security {
    require_ssl = w.require_ssl;
    cert_path = trimmed w.cert_path;
    key_path = trimmed w.key_path;
  };
}

pub record SftpForm : Type 0 where
  pub enabled : Bool
  pub bind_ip : Text
  pub port : ℕ
  pub host_key : Text
  pub max_auth : ℕ
  pub auth_timeout : ℕ
  pub log_level : Option Text

unfoldable pub sftp_change : SftpForm → Config → Config
sftp_change w cfg = record cfg {
  sftp = record cfg.sftp {
    enabled = w.enabled;
    bind_ip = address_or_any w.bind_ip;
    port = spin_u16 w.port;
    host_key_path = w.host_key;
    max_auth_attempts = spin_u32 w.max_auth;
    auth_timeout = spin_u64 w.auth_timeout;
    log_level = unwrap_or (text "info") w.log_level;
  };
}

-- What the buttons look at before they save.
unfoldable pub ftp_check : (Text → Bool) → FtpForm → Bool
ftp_check is_dir w =
    not (w.anon && (is_empty (trim w.anon_home) || not (is_dir (trim w.anon_home))))

abbrev pub certs_ready : FtpsForm → Bool
certs_ready w = not (is_empty (trim w.cert_path)) && not (is_empty (trim w.key_path))

unfoldable pub ftps_check : (Text → Bool) → FtpsForm → Bool
ftps_check is_file w =
    if w.require_ssl && not (certs_ready w)
    then false
    else not
        (certs_ready w && (not (is_file (trim w.cert_path)) || not (is_file (trim w.key_path))))

unfoldable pub sftp_check : SftpForm → Bool
sftp_check w = not (is_empty (trim w.host_key))

-- The message below the home directory of the anonymous user (`validate_anonymous_home`).
pub data HomeStatus : Type 0 where
  not_enabled not_given missing not_a_directory valid : HomeStatus

unfoldable pub home_status : (Text → Bool) → (Text → Bool) → FtpForm → HomeStatus
home_status exists is_dir w =
    if not w.anon
    then not_enabled
    else if is_empty (trim w.anon_home)
    then not_given
    else if not (exists w.anon_home)
    then missing
    else if not (is_dir w.anon_home)
    then not_a_directory
    else valid

-- A button that finds something wrong saves nothing.
module _ (S : Setup) (display : Status → Text) (is_file : S.fs.World → Text → Bool) where
  unfoldable pub save_ftp : Link → FtpForm → System S display → Bool × System S display
  save_ftp link w sys =
      if ftp_check (S.fs.is_dir sys.world) w
      then push_config S display link (ftp_change w) sys
      else (false, sys)

  unfoldable pub save_ftps : Link → FtpsForm → System S display → Bool × System S display
  save_ftps link w sys =
      if ftps_check (is_file sys.world) w
      then push_config S display link (ftps_change w) sys
      else (false, sys)

  unfoldable pub save_sftp : Link → SftpForm → System S display → Bool × System S display
  save_sftp link w sys =
      if sftp_check w then push_config S display link (sftp_change w) sys else (false, sys)

-- `collect_permissions`
pub record PermissionForm : Type 0 where
  pub read_cb : Bool
  pub write_cb : Bool
  pub delete_cb : Bool
  pub list_cb : Bool
  pub mkdir_cb : Bool
  pub rmdir_cb : Bool
  pub rename_cb : Bool
  pub append_cb : Bool
  pub quota_cb : Bool
  pub speed_limit_cb : Bool
  pub quota_spin : ℕ
  pub speed_limit_spin : ℕ

abbrev pub when : Bool → ℕ → Option ℕ
when false n = none
when true n = some n

unfoldable pub collect_permissions : PermissionForm → Permissions
collect_permissions f = record {
  can_read = f.read_cb;
  can_write = f.write_cb;
  can_delete = f.delete_cb;
  can_list = f.list_cb;
  can_mkdir = f.mkdir_cb;
  can_rmdir = f.rmdir_cb;
  can_rename = f.rename_cb;
  can_append = f.append_cb;
  quota_mb = when f.quota_cb (spin_u64 f.quota_spin);
  speed_limit_kbps = when f.speed_limit_cb (spin_u64 f.speed_limit_spin);
}
