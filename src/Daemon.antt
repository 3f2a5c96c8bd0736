-- ===== src/Daemon.antt =====
-- The service lifecycle of the daemon (wftpd/src/state.rs, and the requests of
-- wftpd/src/control.rs that start, stop and restart services or replace the configuration). Of a
-- server, only its `running` flag is seen here; whether starting one succeeds is an answer of the
-- world. A server may stop by itself, when its listener fails (ftp/src/server.rs,
-- sftp/src/server.rs). One request is handled at a time.
mod Tests
pub mod Lifecycle
pub mod Requests
pub mod Startup
use wftpd_linux.Base.{
  Bool, true, false, not, ◌&&◌, Option, none, some, List, [], ◌∷◌, ◌++◌, Text, if◌then◌else◌,
}
use wftpd_linux.Outcome.{Result, ok, err}

-- `cfg.ftp.enabled` and `cfg.sftp.enabled`.
pub record Flags : Type 0 where
  pub ftp_enabled : Bool
  pub sftp_enabled : Bool

-- The slots hold the `running` flag of their server; `on_disk` are the flags of each configuration
-- that was written, the last one first.
pub record BackendState : Type 0 where
  pub config : Flags
  pub on_disk : List Flags
  pub ftp_server : Option Bool
  pub sftp_server : Option Bool

-- What starting a server gives.
pub record Starts : Type 0 where
  pub ftp_start : Result Text (Unit {0})
  pub sftp_start : Result Text (Unit {0})

-- The slot after a start, and the result of it.
abbrev started : Result Text (Unit {0}) → Option Bool × Result Text (Unit {0})
started (ok u) = (some true, ok tt)
started (err e) = (none, err e)

abbrev pub start_slot : Result Text (Unit {0}) → Option Bool → Option Bool × Result Text (Unit {0})
start_slot outcome (some running) = (some running, ok tt)
start_slot outcome none = started outcome

unfoldable pub start_ftp : Starts → BackendState → BackendState × Result Text (Unit {0})
start_ftp w s = let r = start_slot w.ftp_start s.ftp_server in (record s { ftp_server = r.0 }, r.1)

unfoldable pub start_sftp : Starts → BackendState → BackendState × Result Text (Unit {0})
start_sftp w s =
    let r = start_slot w.sftp_start s.sftp_server in (record s { sftp_server = r.0 }, r.1)

unfoldable pub stop_ftp : BackendState → BackendState
stop_ftp s = record s { ftp_server = none }

unfoldable pub stop_sftp : BackendState → BackendState
stop_sftp s = record s { sftp_server = none }

abbrev pub stop_all : BackendState → BackendState
unfolding stop_ftp stop_sftp
stop_all s = stop_sftp (stop_ftp s)

unfoldable pub restart_ftp : Starts → BackendState → BackendState × Result Text (Unit {0})
restart_ftp w s = start_ftp w (stop_ftp s)

unfoldable pub restart_sftp : Starts → BackendState → BackendState × Result Text (Unit {0})
restart_sftp w s = start_sftp w (stop_sftp s)

abbrev is_some_and_running : Option Bool → Bool
is_some_and_running none = false
is_some_and_running (some running) = running

abbrev pub is_ftp_running : BackendState → Bool
is_ftp_running s = is_some_and_running s.ftp_server

abbrev pub is_sftp_running : BackendState → Bool
is_sftp_running s = is_some_and_running s.sftp_server

abbrev pub apply_ftp : Starts → Bool → BackendState → BackendState
apply_ftp w enabled s =
    if enabled && not (is_ftp_running s)
    then (start_ftp w s).0
    else if not enabled && is_ftp_running s
    then stop_ftp s
    else s

abbrev pub apply_sftp : Starts → Bool → BackendState → BackendState
apply_sftp w enabled s =
    if enabled && not (is_sftp_running s)
    then (start_sftp w s).0
    else if not enabled && is_sftp_running s
    then stop_sftp s
    else s

-- The flags are read before either service is changed.
unfoldable pub apply_enabled_flags : Starts → BackendState → BackendState
apply_enabled_flags w s = apply_sftp w s.config.sftp_enabled (apply_ftp w s.config.ftp_enabled s)

-- `persist_config`; a failure is only logged, so `saved` tells whether the file was written.
abbrev pub persist_config : Bool → BackendState → BackendState
persist_config saved s = if saved then record s { on_disk = s.config ∷ s.on_disk } else s

abbrev same : Bool → Bool → Bool
same a b = if a then b else not b

unfoldable pub set_ftp_enabled : Bool → Bool → BackendState → BackendState
set_ftp_enabled saved enabled s =
    if same s.config.ftp_enabled enabled
    then s
    else persist_config saved (record s { config = record s.config { ftp_enabled = enabled } })

unfoldable pub set_sftp_enabled : Bool → Bool → BackendState → BackendState
set_sftp_enabled saved enabled s =
    if same s.config.sftp_enabled enabled
    then s
    else persist_config saved (record s { config = record s.config { sftp_enabled = enabled } })

pub data Which : Type 0 where
  ftp sftp all : Which

-- `ftp.and(sftp)`
abbrev pub and_then : Result Text (Unit {0}) → Result Text (Unit {0}) → Result Text (Unit {0})
and_then (ok u) r = r
and_then (err e) r = err e

-- The requests: the state after each, and its result.
unfoldable pub start_service :
    Starts → Bool → Which → BackendState → BackendState × Result Text (Unit {0})
start_service w saved ftp s = start_ftp w (set_ftp_enabled saved true s)
start_service w saved sftp s = start_sftp w (set_sftp_enabled saved true s)
start_service w saved all s =
    let f = start_ftp w (set_sftp_enabled saved true (set_ftp_enabled saved true s)) in
    let r = start_sftp w f.0 in (r.0, and_then f.1 r.1)

unfoldable pub stop_service : Bool → Which → BackendState → BackendState
stop_service saved ftp s = stop_ftp (set_ftp_enabled saved false s)
stop_service saved sftp s = stop_sftp (set_sftp_enabled saved false s)
stop_service saved all s =
    stop_sftp (stop_ftp (set_sftp_enabled saved false (set_ftp_enabled saved false s)))

unfoldable pub restart_service :
    Starts → Which → BackendState → BackendState × Result Text (Unit {0})
restart_service w ftp s = restart_ftp w s
restart_service w sftp s = restart_sftp w s
restart_service w all s =
    let f = restart_ftp w s in let r = restart_sftp w f.0 in (r.0, and_then f.1 r.1)

-- `save_config`, once the new configuration is parsed, valid and written.
unfoldable pub save_config : Starts → Flags → BackendState → BackendState
save_config w flags s =
    apply_enabled_flags w (record s { config = flags; on_disk = flags ∷ s.on_disk })
