-- ===== src/Daemon/Startup/Running.antt =====
-- `run` of wftpd/src/main.rs, once the state is made. The socket and the control service, which
-- ends with a signal, are parameters; its error is only logged.
use wftpd_linux.Base.{◌≡◌, refl, ap, ◌∙◌, ◌⊎◌, inl, inr, Option, none, some, Text}
use wftpd_linux.Outcome.{Result, ok, err}
use wftpd_linux.Disk.{Io, ◌>>=◌, ◌>>◌, pure}
use wftpd_linux.Daemon.{
  BackendState, Starts, apply_enabled_flags, stop_all, stop_ftp, stop_sftp, is_ftp_running,
  is_sftp_running,
}
use wftpd_linux.Daemon.Lifecycle.{Alive, apply_enabled_flags-follows}
use wftpd_linux.Daemon.Requests.{Setup, World}

-- `UnixListener::bind`, and the control service on the socket.
pub record Control (W : Type 0) : Type 0 where
  pub bind : Text → Io W Text (Unit {0})
  pub serve : BackendState → W → Result Text (Unit {0}) × BackendState × W

module _ (S : Setup) (control : Control (World S)) (starts : Starts) (socket_path : Text) where
  open S use {fs}

  -- A directory of its owner alone; whether the mode was set is not asked.
  abbrev pub runtime_dir : Option Text → Io (World S) Text (Unit {0})
  unfolding ◌>>=◌
  runtime_dir none = pure (ok tt)
  runtime_dir (some parent) =
      (λ w. fs.create_dir_all w parent) >>= λ u w. (ok tt, (fs.set_permissions w parent 0o700).1)

  -- A socket that an earlier run left is removed first.
  unfoldable pub listen : Option Text → Io (World S) Text (Unit {0})
  listen parent = do
    runtime_dir parent
    λ w. (ok tt, (fs.remove_file w socket_path).1)
    control.bind socket_path
    λ w. fs.set_permissions w socket_path 0o600

  abbrev pub serving :
      BackendState
      → Result Text (Unit {0}) × World S
      → Result Text (Unit {0}) × BackendState × World S
  serving s (err e, w) = (err e, s, w)
  serving s (ok u, w) =
      let out = control.serve s w in (ok tt, stop_all out.1, (fs.remove_file out.2 socket_path).1)

  unfoldable pub run :
      Option Text → BackendState → World S → Result Text (Unit {0}) × BackendState × World S
  run parent s w = serving (apply_enabled_flags starts s) (listen parent w)

  -- What serving ends with, of how listening ended.
  serving_ends :
      (s : BackendState) (out : Result Text (Unit {0}) × World S)
      → ((out.0 ≡ ok tt)
          × ((serving s out).0 ≡ ok tt)
          × ((serving s out).1.ftp_server ≡ none)
          × ((serving s out).1.sftp_server ≡ none))
        ⊎ ((e : Text) × (out.0 ≡ err e) × (serving s out ≡ (err e, s, out.1)))
  unfolding stop_ftp stop_sftp
  serving_ends s (ok tt, w) = inl (refl, refl, refl, refl)
  serving_ends s (err e, w) = inr (e, refl, refl)

  -- A run on a socket that could be made ends without an error, whatever the control service did,
  -- and leaves no server behind. Where the socket cannot be made, the error is returned, nothing
  -- was served, and if the start of every server succeeds, those that are enabled are left running.
  run_ends :
      (parent : Option Text) (s : BackendState) (w : World S)
      → Alive s
      → starts.ftp_start ≡ ok tt
      → starts.sftp_start ≡ ok tt
      → let out = run parent s w in
        ((out.0 ≡ ok tt) × (out.1.ftp_server ≡ none) × (out.1.sftp_server ≡ none))
        ⊎ ((e : Text) × ((listen parent w).0 ≡ err e)
            × (out.0 ≡ err e)
            × (out.2 ≡ (listen parent w).1)
            × (is_ftp_running out.1 ≡ s.config.ftp_enabled)
            × (is_sftp_running out.1 ≡ s.config.sftp_enabled))
  unfolding run
  run_ends parent s w alive good_ftp good_sftp =
      let (same, runs_ftp, runs_sftp, alive') =
        apply_enabled_flags-follows starts s alive good_ftp good_sftp in
      elim (serving_ends (apply_enabled_flags starts s) (listen parent w)) [
        | inl (made, done, no_ftp, no_sftp) ↦ inl (done, no_ftp, no_sftp)
        | inr (e, failed, left) ↦ inr (
          e,
          failed,
          ap (λ o. o.0) left,
          ap (λ o. o.2) left,
          ap (λ o. is_ftp_running o.1) left ∙ runs_ftp,
          ap (λ o. is_sftp_running o.1) left ∙ runs_sftp,
        )
      ]
