-- ===== src/Gui/Logging.antt =====
-- The settings of the log (the save button of wftpg/src/ui/log_tab.rs), which the front end writes
-- to the file by itself.
use wftpd_linux.Base.{ℕ, ◌*◌, ◌^◌, ◌%◌, ◌≡◌, ◌≢◌, refl, Bool, Option, Text, text}
use wftpd_linux.Paths.Names.{with_extension}
use wftpd_linux.Disk.{IsDisk}
use wftpd_linux.Disk.Saving.{Stored}
use wftpd_linux.Config.{Config, save}
use wftpd_linux.Config.Keeping.{save-Stored}
use wftpd_linux.Daemon.Requests.{Status, Setup}
use wftpd_linux.Gui.{System, with_config}
use wftpd_linux.Gui.Forms.{spin_u64, unwrap_or}

pub record LogForm : Type 0 where
  pub log_dir : Text
  pub log_level : Option Text
  pub max_size : ℕ
  pub max_files : ℕ
  pub enable_gui : Bool

unfoldable pub log_change : LogForm → Config → Config
log_change w cfg = record cfg {
  logging = record cfg.logging {
    log_dir = w.log_dir;
    log_level = unwrap_or (text "info") w.log_level;
    max_log_size = (spin_u64 w.max_size * 1024 * 1024) % 2 ^ 64;
    max_log_files = spin_u64 w.max_files;
    enable_gui_logging = w.enable_gui;
  };
}

module _ (S : Setup) (display : Status → Text) where
  -- An error of the save is dropped.
  unfoldable pub save_logging : LogForm → System S display → System S display
  save_logging w sys =
      let c = log_change w sys.app.config in
      record (with_config S display c sys) {
        world = (save S.fs S.toml c S.config_path sys.world).1;
      }

  -- The new settings are in the front end and, if the save succeeded, in the file; the daemon,
  -- which reads them only when it starts, keeps its own. An error leaves the file as it was and is
  -- not reported.
  pub save_logging_lem :
      (disk : IsDisk S.fs) (w : LogForm) (sys : System S display)
      → S.config_path ≢ with_extension S.config_path (text "tmp")
      → ((save_logging w sys).app.config ≡ log_change w sys.app.config)
        × ((save_logging w sys).shared ≡ sys.shared)
        × Stored S.fs
            (S.toml.to_string_pretty (log_change w sys.app.config))
            S.config_path
            sys.world
            (save S.fs S.toml (log_change w sys.app.config) S.config_path sys.world)
        × ((save_logging w sys).world
            ≡ (save S.fs S.toml (log_change w sys.app.config) S.config_path sys.world).1)
  unfolding save_logging
  save_logging_lem disk w sys apart = (
    refl,
    refl,
    save-Stored S.fs S.toml disk (log_change w sys.app.config) S.config_path sys.world apart,
    refl,
  )
