-- ===== src/Config/Keeping.antt =====
-- The configuration file is replaced as a whole, and read as it was saved.
use wftpd_linux.Base.{◌≡◌, ◌≢◌, refl, inl, inr, true, Text, text}
use wftpd_linux.Outcome.{ok}
use wftpd_linux.Paths.Names.{parent_text, with_extension}
use wftpd_linux.Disk.{Fs, IsDisk, ◌>>=◌}
use wftpd_linux.Disk.Saving.{Stored, save_lem}
use wftpd_linux.Config.{Config, Toml, save, load}

module _ (F : Fs) (toml : Toml) where
  open F use {World, read_to_string}

  module _ (disk : IsDisk F) where
    -- A save replaces the file by the printed configuration, or reports an error and leaves the
    -- file as it was, whichever of its steps failed.
    pub save-Stored :
        (config : Config) (path : Text) (w : World)
        → path ≢ with_extension path (text "tmp")
        → Stored F (toml.to_string_pretty config) path w (save F toml config path w)
    unfolding save
    save-Stored config path w apart =
        save_lem F disk true (text "Failed to serialize config")
          (text "Failed to write temp config file") (text "Failed to rename temp config file")
          (with_extension path (text "tmp")) path apart (text "Failed to create config directory")
          (parent_text path) (toml.to_string_pretty config) w

    loaded :
        (default config : Config) (path s : Text) (v : World)
        → read_to_string v path ≡ ok s
        → toml.from_str s ≡ ok config
        → (load F toml default path v).0 ≡ ok config
    unfolding load ◌>>=◌
    loaded default config path s v holds parsed =
        let there = disk.read_exists v path s holds in rw (there, holds, parsed) refl

    -- Where toml reads what it printed, a configuration that was saved without an error is the one
    -- that is loaded next.
    load-save :
        (default config : Config) (path : Text) (w : World)
        → path ≢ with_extension path (text "tmp")
        → ((s : Text) → toml.to_string_pretty config ≡ ok s → toml.from_str s ≡ ok config)
        → (save F toml config path w).0 ≡ ok tt
        → (load F toml default path (save F toml config path w).1).0 ≡ ok config
    load-save default config path w apart lossless done = elim (save-Stored config path w apart) [
      | inl (s, printed, succeeded, holds) ↦
          loaded default config path s (save F toml config path w).1 holds (lossless s printed)
      | inr (e, failed, same) ↦ absurd cc
    ]
