-- ===== src/Daemon/Startup/Restoring.antt =====
-- What a daemon that starts again has of the settings and users that it had.
use wftpd_linux.Base.{◌≡◌, refl, sym, ap, ◌∙◌, subst, ◌⊎◌, inl, inr, Option, some, List, Text}
use wftpd_linux.Outcome.{Result, ok, err}
use wftpd_linux.Disk.{IsDisk, ◌>>=◌, and_then, pure}
use wftpd_linux.Config.{Config, load}
use wftpd_linux.Users.Manager.Saving.{users_file}
use wftpd_linux.Users.Manager.Loading.{load as load_library}
use wftpd_linux.Logs.LogBuffer.{LogBuffer}
use wftpd_linux.Daemon.Requests.{Shared, Setup, World}
use wftpd_linux.Daemon.Requests.Sequence.{
  Request, perform_all, Stable, ConfigHeld, UsersHeld, Held, Distinct, perform_all-Held,
}
use wftpd_linux.Daemon.Startup.{
  Appenders, Backend, backend, init_tracing, with_users, with_config, new,
}

module _ (S : Setup) (disk : IsDisk S.fs) (default : Config) (logs : Appenders (World S)) where
  open S use {fs, toml, config_path, users_path, parse_users}

  -- The start has what was held, or the logs could not be set up.
  abbrev pub Restored : Shared → World S → Option (Result Text Backend × World S) → Type 0
  Restored s w out =
      ((b : Backend) × (v : World S) × (out ≡ some (ok b, v)) × (b.shared ≡ s))
      ⊎ ((e : Text) × (v : World S) × (out ≡ some (err e, v))
          × ((init_tracing S default logs s.config.logging w).0 ≡ err e))

  load-held :
      (s : Shared) (w : World S)
      → ConfigHeld S s w
      → load fs toml default config_path w ≡ (ok s.config, w)
  unfolding load ◌>>=◌
  load-held s w (t, there, parsed) =
      let exists = disk.read_exists w config_path t there in rw (exists, there, parsed) refl

  library-held :
      (s : Shared) (w : World S)
      → UsersHeld S s w
      → load_library parse_users
          (users_file (fs.exists w users_path) (fs.read_to_string w users_path))
        ≡ some s.user_manager
  library-held s w (t, there, loaded) =
      let exists = disk.read_exists w users_path t there in rw (exists, there) loaded

  logs_up :
      (s : Shared) (w : World S) (out : Result Text LogBuffer × World S)
      → (init_tracing S default logs s.config.logging w).0 ≡ out.0
      → Restored s w (
          some (
            and_then
              (λ log_buffer. pure (ok (backend S default logs s.config s.user_manager log_buffer)))
              out))
  logs_up s w (ok log_buffer, v) ends = inl (_, v, refl, refl)
  logs_up s w (err e, v) ends = inr (e, v, refl, ends)

  new-Restored : (s : Shared) (w : World S) → Held S (s, w) → Restored s w (new S default logs w)
  unfolding new ◌>>=◌
  new-Restored s w (config_held, users_held) =
      subst (Restored s w)
        (sym (
          ap (with_config S default logs) (load-held s w config_held)
          ∙ ap (λ m. with_users S default logs s.config m w) (library-held s w users_held)))
        (logs_up s w (init_tracing S default logs s.config.logging w) refl)

  -- Where the two files and their temporary ones are four, toml reads settings again from what
  -- it prints of them, and at first the two files could be read and held the settings and the
  -- users that were in memory: after any requests that replace the settings or the users,
  -- whether they were carried out or refused, a daemon that starts on the files has the
  -- settings and users that the daemon had in memory, unless the logs cannot be set up.
  pub new-perform_all :
      (names : Distinct S) (rs : List Request) (sw : Shared × World S)
      → Stable S
      → Held S sw
      → Restored
          (perform_all S rs sw).0
          (perform_all S rs sw).1
          (new S default logs (perform_all S rs sw).1)
  new-perform_all names rs sw stable held =
      new-Restored (perform_all S rs sw).0 (perform_all S rs sw).1
        (perform_all-Held S disk names rs sw stable held)
