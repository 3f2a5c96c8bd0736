-- ===== src/Paths/Installation.antt =====
-- The paths of the installation (common/src/paths.rs). What the process is told by its environment
-- is a parameter.
use wftpd_linux.Base.{
  ◌≡◌, refl, ap, ◌⊎◌, inl, inr, Bool, true, false, not, ◌||◌, Option, none, some, Bool-cases, Text,
  text, ◌++◌, is_empty, if◌then◌else◌,
}
use wftpd_linux.Paths.{PathBuf, components, join}

-- `var_os`, the user, the directory of the program, and what the file system says of paths.
pub record Environment : Type 0 where
  pub var : Text → Option Text
  pub is_root : Bool
  pub uid : Text
  pub exe_dir : Option PathBuf
  pub is_file : PathBuf → Bool
  pub is_writable : PathBuf → Bool

abbrev pub non_empty : Option Text → Option Text
non_empty none = none
non_empty (some v) = if is_empty v then none else some v

abbrev pub path_or : PathBuf → Option Text → PathBuf
path_or fallback none = fallback
path_or fallback (some v) = components v

module _ (env : Environment) where
  abbrev pub home_path : PathBuf
  home_path = path_or (components (text "/")) (non_empty (env.var (text "HOME")))

  abbrev pub xdg_dir : Text → Text → PathBuf
  xdg_dir env_var fallback =
      path_or (join home_path (components fallback)) (non_empty (env.var env_var))

  abbrev pub override_dir : Text → Option Text
  override_dir env_var = non_empty (env.var env_var)

  unfoldable pub config_dir : PathBuf
  config_dir =
      path_or (join (xdg_dir (text "XDG_CONFIG_HOME") (text ".config")) (components (text "wftpd")))
        (override_dir (text "WFTPD_CONFIG_DIR"))

  abbrev pub config_name : PathBuf
  config_name = components (text "config.toml")

  -- The file beside the program, if it is there or can be made there.
  abbrev pub beside_program : Option PathBuf → Option PathBuf
  beside_program none = none
  beside_program (some dir) =
      if env.is_file (join dir config_name) || env.is_writable dir
      then some (join dir config_name)
      else none

  abbrev pub or_config_dir : Option PathBuf → PathBuf
  or_config_dir none = join config_dir config_name
  or_config_dir (some path) = path

  abbrev pub config_path_without : Option Text → PathBuf
  config_path_without (some dir) = join (components dir) config_name
  config_path_without none =
      or_config_dir (if not env.is_root then beside_program env.exe_dir else none)

  unfoldable pub config_path : PathBuf
  config_path = config_path_without (override_dir (text "WFTPD_CONFIG_DIR"))

  unfoldable pub state_dir : PathBuf
  state_dir =
      path_or
        (join (xdg_dir (text "XDG_STATE_HOME") (text ".local/state")) (components (text "wftpd")))
        (override_dir (text "WFTPD_STATE_DIR"))

  abbrev pub runtime_of : Option Text → PathBuf
  runtime_of (some dir) = join (components dir) (components (text "wftpd"))
  runtime_of none = components (text "/tmp/wftpd-" ++ env.uid)

  unfoldable pub runtime_dir : PathBuf
  runtime_dir = runtime_of (non_empty (env.var (text "XDG_RUNTIME_DIR")))

  abbrev pub users_path : PathBuf
  users_path = join config_dir (components (text "users.json"))

  abbrev pub keys_dir : PathBuf
  keys_dir = join config_dir (components (text "keys"))

  abbrev pub default_log_dir : PathBuf
  default_log_dir = join state_dir (components (text "logs"))

  abbrev pub default_host_key_path : PathBuf
  default_host_key_path =
      join (join state_dir (components (text "ssh"))) (components (text "ssh_host_ed25519_key"))

  abbrev pub socket_path : PathBuf
  socket_path = join runtime_dir (components (text "wftpd.sock"))

  abbrev pub audit_log_path : PathBuf
  audit_log_path = join default_log_dir (components (text "audit.log"))

  -- The choice among the three places.
  abbrev chosen : Bool → Option PathBuf → PathBuf
  chosen root dir = or_config_dir (if not root then beside_program dir else none)

  abbrev usable : PathBuf → Bool
  usable dir = env.is_file (join dir config_name) || env.is_writable dir

  chosen-cases :
      (root : Bool) (dir : Option PathBuf)
      → (chosen root dir ≡ join config_dir config_name)
        ⊎ ((root ≡ false)
            × ((d : PathBuf) × (dir ≡ some d)
                × (chosen root dir ≡ join d config_name)
                × (usable d ≡ true)))
  chosen-cases true dir = inl refl
  chosen-cases false none = inl refl
  chosen-cases false (some d) = elim (Bool-cases (usable d)) [
    | inl fit ↦ inr (
      refl,
      (d, refl, ap (λ b. or_config_dir (if b then some (join d config_name) else none)) fit, fit),
    )
    | inr unusable ↦
        inl (ap (λ b. or_config_dir (if b then some (join d config_name) else none)) unusable)
  ]

  named_place :
      (dir : Option Text)
      → dir ≡ override_dir (text "WFTPD_CONFIG_DIR")
      → (config_path_without dir ≡ join config_dir config_name)
        ⊎ ((dir ≡ none)
            × (env.is_root ≡ false)
            × ((d : PathBuf) × (env.exe_dir ≡ some d)
                × (config_path_without dir ≡ join d config_name)
                × (usable d ≡ true)))
  unfolding config_dir
  named_place (some dir) e = inl (
      ap
        (λ o.
          join
            (path_or
              (join (xdg_dir (text "XDG_CONFIG_HOME") (text ".config")) (components (text "wftpd")))
              o)
            config_name)
        e)
  named_place none e = elim (chosen-cases env.is_root env.exe_dir) [
    | inl default ↦ inl default
    | inr (user, beside) ↦ inr (refl, user, beside)
  ]

  -- The configuration stands in the configuration directory, unless the directory is not named by
  -- its variable, the user is not root, and the program's own directory has such a file or can be
  -- written to: then it stands there.
  pub config_path-cases :
      (config_path ≡ join config_dir config_name)
      ⊎ ((override_dir (text "WFTPD_CONFIG_DIR") ≡ none)
          × (env.is_root ≡ false)
          × ((dir : PathBuf) × (env.exe_dir ≡ some dir)
              × (config_path ≡ join dir config_name)
              × ((env.is_file (join dir config_name) || env.is_writable dir) ≡ true)))
  unfolding config_path
  config_path-cases = named_place (override_dir (text "WFTPD_CONFIG_DIR")) refl
