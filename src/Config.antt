-- ===== src/Config.antt =====
-- The configuration (common/src/config.rs): its data and defaults, loading, saving and validation.
-- The library toml is a parameter.
pub mod Keeping
use wftpd_linux.Base.{
  ℕ, ◌*◌, Bool, true, false, not, ◌&&◌, Option, none, some, List, [], ◌∷◌, ◌++◌, Text, text, trim,
  is_empty, if◌then◌else◌,
}
use wftpd_linux.Outcome.{Result, ok, err}
use wftpd_linux.Paths.Names.{parent_text, with_extension}
use wftpd_linux.Disk.{Fs, Io, ◌>>=◌, ◌>>◌, pure, context, create_parent, swap_in}

pub record FtpConfig : Type 0 where
  pub enabled : Bool
  pub bind_ip : Text
  pub port : ℕ
  pub passive_ports : ℕ × ℕ
  pub welcome_message : Text
  pub allow_anonymous : Bool
  pub anonymous_home : Option Text
  pub max_speed_kbps : ℕ
  pub encoding : Text
  pub data_timeout : ℕ
  pub masquerade_ip : Option Text

pub record SftpConfig : Type 0 where
  pub enabled : Bool
  pub bind_ip : Text
  pub port : ℕ
  pub host_key_path : Text
  pub max_auth_attempts : ℕ
  pub auth_timeout : ℕ
  pub log_level : Text

pub record Security : Type 0 where
  pub allowed_ips : List Text
  pub denied_ips : List Text
  pub max_login_attempts : ℕ
  pub ban_duration : ℕ
  pub require_ssl : Bool
  pub cert_path : Option Text
  pub key_path : Option Text
  pub max_connections : ℕ
  pub connection_timeout : ℕ
  pub idle_timeout : ℕ

pub record LoggingConfig : Type 0 where
  pub log_dir : Text
  pub log_level : Text
  pub max_log_size : ℕ
  pub max_log_files : ℕ
  pub enable_json : Bool
  pub enable_gui_logging : Bool

pub record Config : Type 0 where
  pub ftp : FtpConfig
  pub sftp : SftpConfig
  pub security : Security
  pub logging : LoggingConfig

-- `Config::default`, of the default paths of the host key and the logs.
unfoldable pub default_config : Text → Text → Config
default_config host_key_path log_dir = record {
  ftp = record {
    enabled = true;
    bind_ip = text "0.0.0.0";
    port = 2121;
    passive_ports = (50000, 51000);
    welcome_message = text "Welcome to WFTPG FTP Server";
    allow_anonymous = false;
    anonymous_home = none;
    max_speed_kbps = 0;
    encoding = text "UTF-8";
    data_timeout = 300;
    masquerade_ip = none;
  };
  sftp = record {
    enabled = true;
    bind_ip = text "0.0.0.0";
    port = 2222;
    host_key_path = host_key_path;
    max_auth_attempts = 3;
    auth_timeout = 60;
    log_level = text "info";
  };
  security = record {
    allowed_ips = text "0.0.0.0/0" ∷ [];
    denied_ips = [];
    max_login_attempts = 5;
    ban_duration = 300;
    require_ssl = false;
    cert_path = none;
    key_path = none;
    max_connections = 100;
    connection_timeout = 300;
    idle_timeout = 600;
  };
  logging = record {
    log_dir = log_dir;
    log_level = text "info";
    max_log_size = 10 * 1024 * 1024;
    max_log_files = 10;
    enable_json = false;
    enable_gui_logging = true;
  };
}

-- The library toml, on configurations.
pub record Toml : Type 0 where
  pub to_string_pretty : Config → Result Text Text
  pub from_str : Text → Result Text Config

module _ (F : Fs) (toml : Toml) where
  open F use {World}
  open toml use {to_string_pretty, from_str}

  unfoldable pub save : Config → Text → Io World Text (Unit {0})
  save config path = do
    create_parent F (text "Failed to create config directory") (parent_text path)
    content ← context (text "Failed to serialize config") (pure (to_string_pretty config))
    swap_in F true (text "Failed to write temp config file")
        (text "Failed to rename temp config file") (with_extension path (text "tmp")) path content

  -- An error of the save is only printed.
  abbrev pub save_default : Config → Text → Io World Text Config
  save_default config path w = (ok config, (save config path w).1)

  abbrev pub read_config : Text → Io World Text Config
  read_config path = do
    content ← context (text "Failed to read config file") λ w. (F.read_to_string w path, w)
    context (text "Failed to parse config file") (pure (from_str content))

  unfoldable pub load : Config → Text → Io World Text Config
  load default path w =
      if not (F.exists w path) then save_default default path w else read_config path w

module _ (exists is_dir : Text → Bool) where
  abbrev pub check_anonymous_home : Option Text → Result Text (Unit {0})
  check_anonymous_home none = err (text "FTP匿名访问已启用，但未配置匿名用户主目录(anonymous_home)")
  check_anonymous_home (some home) =
      if is_empty (trim home)
      then err (text "FTP匿名访问已启用，但未配置匿名用户主目录(anonymous_home)")
      else if not (exists home)
      then err (text "FTP匿名访问已启用，但匿名用户主目录不存在: " ++ home)
      else if not (is_dir home)
      then err (text "FTP匿名访问已启用，但匿名用户主目录路径不是目录: " ++ home)
      else ok tt

  -- A missing host key is only warned of.
  unfoldable pub validate : Config → Result Text (Unit {0})
  validate c =
      if c.ftp.enabled && c.ftp.allow_anonymous
      then check_anonymous_home c.ftp.anonymous_home
      else ok tt

  -- `UserManager::validate_anonymous_home` (common/src/users.rs)
  unfoldable pub validate_anonymous_home : Text → Result Text (Unit {0})
  validate_anonymous_home home_dir =
      if is_empty (trim home_dir)
      then err (text "匿名用户目录不能为空")
      else if not (exists home_dir)
      then err (text "匿名用户目录不存在: " ++ home_dir)
      else if not (is_dir home_dir)
      then err (text "匿名用户目录路径不是目录: " ++ home_dir)
      else ok tt
