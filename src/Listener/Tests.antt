-- ===== src/Listener/Tests.antt =====
-- Runs of the listening tasks.
use wftpd_linux.Base.{◌∷◌, text, ◌≡◌, refl, true, false, some, [], All}
use wftpd_linux.Config.{Config, default_config}
use wftpd_linux.Outcome.{ok, err}
use wftpd_linux.Listener.{
  Listener, plaintext, offered, ftps, new, begin, sftp_start, ftp_start, orphan_channels, ask,
  end_task, sftp_stop, ftp_stop, is_running, has, starts_sftp, starts_ftp, Reached, fresh, after,
}
use wftpd_linux.Listener.Idle.{Idle, end_all, stop_ends}
use wftpd_linux.Listener.Life.{slow_stop-misreports}

-- An FTP server that was once once.
abbrev once : Listener
once = (ftp_start (ok tt) new).0

once-Reached : Reached once
once-Reached = after fresh (starts_ftp (ok tt))

-- An SFTP server that was once twice without a stop.
abbrev twice : Listener
twice = (sftp_start (ok tt) (sftp_start (ok tt) new).0).0

slow_stop-misreports_example :
    let ftp = ftp_start (ok tt) (ftp_stop once) in
    let sftp = sftp_start (ok tt) (sftp_stop once) in
    (ftp.1 ≡ ok tt)
    × (sftp.1 ≡ ok tt)
    × (ftp.0 ≡ sftp.0)
    × (is_running ftp.0 ≡ true)
    × (is_running (end_task 0 ftp.0) ≡ false)
    × (has once.next (end_task 0 ftp.0).tasks ≡ true)
    × Reached (end_task 0 ftp.0)
unfolding new ftp_start begin
slow_stop-misreports_example = slow_stop-misreports 0 once-Reached refl

stop_ends_example :
    All (λ n. has n (ask twice).asked ≡ true) twice.tasks
    × Idle twice.next (end_all (0 ∷ 1 ∷ []) (ftp_stop twice))
    × Idle twice.next (end_all (0 ∷ 1 ∷ []) (sftp_stop twice))
    × ((ftp_start (ok tt) (end_all (0 ∷ 1 ∷ []) (ftp_stop twice))).0.tasks ≡ twice.next ∷ [])
    × ((sftp_start (ok tt) (end_all (0 ∷ 1 ∷ []) (sftp_stop twice))).0.tasks ≡ twice.next ∷ [])
unfolding sftp_start begin new
stop_ends_example =
    stop_ends (0 ∷ 1 ∷ []) (after (after fresh (starts_sftp (ok tt))) (starts_sftp (ok tt)))
      (refl, (refl, tt))

-- A second start of the SFTP server ends the first task, and then the flag is wrong.
second_sftp_start : is_running (end_task 0 twice) ≡ false
unfolding end_task
second_sftp_start = refl

second_task_listens : has 1 (end_task 0 twice).tasks ≡ true
unfolding end_task sftp_start begin new
second_task_listens = refl

-- An FTP server that fails to build is not running, and its next start is a start.
after_failure : ftp_start (ok tt) (ftp_start (err []) new).0 ≡ (begin (orphan_channels new), ok tt)
unfolding ftp_start new orphan_channels begin
after_failure = refl

-- An installation that requires FTPS, with a certificate whose file may be missing.
abbrev ssl_config : Config
ssl_config = record (default_config [] []) {
  security = record (default_config [] []).security {
    require_ssl = true;
    cert_path = some (text "/etc/wftpd/cert.pem");
    key_path = some (text "/etc/wftpd/key.pem");
  };
}

-- Where the files are missing, it is served in plain text.
required_in_plaintext : ftps (λ p. false) ssl_config ≡ plaintext
unfolding ftps
required_in_plaintext = refl

required_with_files : ftps (λ p. true) ssl_config ≡ offered true
unfolding ftps
required_with_files = refl
