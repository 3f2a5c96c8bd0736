-- ===== src/Daemon/Lifecycle/Dead.antt =====
-- What becomes of a server whose listener has failed: it stays in its slot, with `running` false.
use wftpd_linux.Base.{
  ◌≡◌, refl, ap, ◌∙◌, inl, inr, Bool, Bool-cases, true, false, Option, some, arith, Text, ◌∷◌,
}
use wftpd_linux.Outcome.{Result, ok}
use wftpd_linux.Daemon.{
  Flags, BackendState, Starts, Which, ftp, sftp, start_service, restart_service, save_config,
  apply_enabled_flags, apply_ftp, apply_sftp, is_some_and_running, is_ftp_running, is_sftp_running,
  start_ftp, start_sftp, stop_ftp, stop_sftp, restart_ftp, restart_sftp, set_ftp_enabled,
  set_sftp_enabled,
}

-- The two servers: their slots, flags, starts and requests.
pub data Server : Type 0 where
  ftp_server sftp_server : Server

abbrev pub slot_of : Server → BackendState → Option Bool
slot_of ftp_server s = s.ftp_server
slot_of sftp_server s = s.sftp_server

abbrev pub enabled_in : Server → Flags → Bool
enabled_in ftp_server flags = flags.ftp_enabled
enabled_in sftp_server flags = flags.sftp_enabled

abbrev pub start_of : Server → Starts → Result Text (Unit {0})
start_of ftp_server w = w.ftp_start
start_of sftp_server w = w.sftp_start

abbrev pub selector : Server → Which
selector ftp_server = ftp
selector sftp_server = sftp

abbrev pub runs : Server → BackendState → Bool
runs server s = is_some_and_running (slot_of server s)

ftp_kept :
    (w : Starts) (s : BackendState)
    → s.ftp_server ≡ some false
    → ((start_ftp w s).0.ftp_server ≡ some false) × ((start_ftp w s).1 ≡ ok tt)
unfolding start_ftp
ftp_kept w s dead = rw dead (refl, refl)

sftp_kept :
    (w : Starts) (s : BackendState)
    → s.sftp_server ≡ some false
    → ((start_sftp w s).0.sftp_server ≡ some false) × ((start_sftp w s).1 ≡ ok tt)
unfolding start_sftp
sftp_kept w s dead = rw dead (refl, refl)

apply_ftp-kept :
    (w : Starts) (enabled : Bool) (s : BackendState)
    → enabled ≡ true
    → s.ftp_server ≡ some false
    → (apply_ftp w enabled s).ftp_server ≡ some false
unfolding start_ftp
apply_ftp-kept w enabled s on dead = rw (on, dead) refl

apply_sftp-kept :
    (w : Starts) (enabled : Bool) (s : BackendState)
    → enabled ≡ true
    → s.sftp_server ≡ some false
    → (apply_sftp w enabled s).sftp_server ≡ some false
unfolding start_sftp
apply_sftp-kept w enabled s on dead = rw (on, dead) refl

-- The other service's changes leave the slot.
sftp_apart :
    (w : Starts) (enabled : Bool) (s : BackendState)
    → (apply_sftp w enabled s).ftp_server ≡ s.ftp_server
unfolding start_sftp stop_sftp
sftp_apart w true s = elim (Bool-cases (is_sftp_running s)) [
  | inl on ↦ rw on refl
  | inr off ↦ rw off refl
]
sftp_apart w false s = elim (Bool-cases (is_sftp_running s)) [
  | inl on ↦ rw on refl
  | inr off ↦ rw off refl
]

ftp_apart :
    (w : Starts) (enabled : Bool) (s : BackendState)
    → (apply_ftp w enabled s).sftp_server ≡ s.sftp_server
unfolding start_ftp stop_ftp
ftp_apart w true s = elim (Bool-cases (is_ftp_running s)) [
  | inl on ↦ rw on refl
  | inr off ↦ rw off refl
]
ftp_apart w false s = elim (Bool-cases (is_ftp_running s)) [
  | inl on ↦ rw on refl
  | inr off ↦ rw off refl
]

enabled_slot :
    (saved enabled : Bool) (s : BackendState)
    → (set_ftp_enabled saved enabled s).ftp_server ≡ s.ftp_server
unfolding set_ftp_enabled
enabled_slot saved enabled s = ground arith

enabled_sftp_slot :
    (saved enabled : Bool) (s : BackendState)
    → (set_sftp_enabled saved enabled s).sftp_server ≡ s.sftp_server
unfolding set_sftp_enabled
enabled_sftp_slot saved enabled s = ground arith

-- Either server that has died in its slot is not started again, neither by a new configuration that
-- enables it nor by a request that starts it, which reports success all the same; a restart request
-- does start it, if the start succeeds.
pub dead_server_kept :
    (server : Server) (w : Starts) (flags : Flags) (saved : Bool) (s : BackendState)
    → slot_of server s ≡ some false
    → enabled_in server flags ≡ true
    → (runs server (save_config w flags s) ≡ false)
      × ((start_service w saved (selector server) s).1 ≡ ok tt)
      × (runs server (start_service w saved (selector server) s).0 ≡ false)
      × (start_of server w ≡ ok tt → runs server (restart_service w (selector server) s).0 ≡ true)
unfolding save_config apply_enabled_flags start_ftp start_sftp stop_ftp stop_sftp start_service
    restart_service restart_ftp restart_sftp
dead_server_kept ftp_server w flags saved s dead enabled =
    let s0 = record s { config = flags; on_disk = flags ∷ s.on_disk } in
    let kept = apply_ftp-kept w flags.ftp_enabled s0 enabled dead in
    let (slot, verdict) =
      ftp_kept w (set_ftp_enabled saved true s) (enabled_slot saved true s ∙ dead) in
    (
      ap is_some_and_running
          (sftp_apart w flags.sftp_enabled (apply_ftp w flags.ftp_enabled s0) ∙ kept),
      verdict,
      ap is_some_and_running slot,
      λ good. rw good refl,
    )
dead_server_kept sftp_server w flags saved s dead enabled =
    let s0 = record s { config = flags; on_disk = flags ∷ s.on_disk } in
    let s1 = apply_ftp w flags.ftp_enabled s0 in
    let still = ftp_apart w flags.ftp_enabled s0 ∙ dead in
    let (slot, verdict) =
      sftp_kept w (set_sftp_enabled saved true s) (enabled_sftp_slot saved true s ∙ dead) in
    (
      ap is_some_and_running (apply_sftp-kept w flags.sftp_enabled s1 enabled still),
      verdict,
      ap is_some_and_running slot,
      λ good. rw good refl,
    )
