-- ===== src/Daemon/Tests.antt =====
-- The lifecycle requests at concrete states.
use wftpd_linux.Base.{◌≡◌, refl, true, false, none, some, []}
use wftpd_linux.Outcome.{ok}
use wftpd_linux.Daemon.{
  Flags, BackendState, Starts, save_config, start_service, restart_service, is_ftp_running,
  is_sftp_running,
}
use wftpd_linux.Daemon.Lifecycle.{Alive, save_config-follows}
use wftpd_linux.Daemon.Lifecycle.Dead.{sftp_server, selector, runs, start_of, dead_server_kept}

abbrev good : Starts
good = record { ftp_start = ok tt; sftp_start = ok tt }

abbrev only_sftp : Flags
only_sftp = record { ftp_enabled = false; sftp_enabled = true }

abbrev only_ftp : Flags
only_ftp = record { ftp_enabled = true; sftp_enabled = false }

abbrev ftp_runs : BackendState
ftp_runs = record { config = only_ftp; on_disk = []; ftp_server = some true; sftp_server = none }

ftp_runs-Alive : Alive ftp_runs
ftp_runs-Alive = ((λ e. absurd (let clash : true ≡ false = cc in cc)), (λ e. absurd cc))

save_config-follows_example :
    ((save_config good only_sftp ftp_runs).config ≡ only_sftp)
    × (is_ftp_running (save_config good only_sftp ftp_runs) ≡ false)
    × (is_sftp_running (save_config good only_sftp ftp_runs) ≡ true)
    × Alive (save_config good only_sftp ftp_runs)
save_config-follows_example = save_config-follows good only_sftp ftp_runs ftp_runs-Alive refl refl

abbrev sftp_died : BackendState
sftp_died = record { config = only_sftp; on_disk = []; ftp_server = none; sftp_server = some false }

dead_server_kept_example :
    (runs sftp_server (save_config good only_sftp sftp_died) ≡ false)
    × ((start_service good true (selector sftp_server) sftp_died).1 ≡ ok tt)
    × (runs sftp_server (start_service good true (selector sftp_server) sftp_died).0 ≡ false)
    × (start_of sftp_server good ≡ ok tt
        → runs sftp_server (restart_service good (selector sftp_server) sftp_died).0 ≡ true)
dead_server_kept_example = dead_server_kept sftp_server good only_sftp true sftp_died refl refl
