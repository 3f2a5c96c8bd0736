-- ===== src/Daemon/Lifecycle.antt =====
-- What the lifecycle requests promise.
pub mod Dead
use wftpd_linux.Base.{
  ◌≡◌, refl, sym, ap, ◌∙◌, subst, inl, inr, Bool, Bool-cases, true, false, Option, none, some,
  arith, Text, ◌∷◌, if◌then◌else◌,
}
use wftpd_linux.Outcome.{Result, ok}
use wftpd_linux.Daemon.{
  Flags, BackendState, Starts, Which, ftp, sftp, start_service, restart_service, save_config,
  apply_enabled_flags, apply_ftp, apply_sftp, is_some_and_running, is_ftp_running, is_sftp_running,
  start_ftp, start_sftp, stop_ftp, stop_sftp, restart_ftp, restart_sftp, set_ftp_enabled,
  set_sftp_enabled,
}

-- No server has died in its slot: an occupied slot holds a running server.
abbrev pub Alive : BackendState → Type 0
Alive s = (¬ (s.ftp_server ≡ some false)) × (¬ (s.sftp_server ≡ some false))

-- The slot of a service that is as the flag says.
abbrev running : Bool → Option Bool
running enabled = if enabled then some true else none

running_lem :
    (enabled : Bool)
    → (is_some_and_running (running enabled) ≡ enabled) × (¬ (running enabled ≡ some false))
running_lem true = (refl, λ e. absurd (let clash : true ≡ false = cc in cc))
running_lem false = (refl, λ e. absurd cc)

ftp_applied :
    (w : Starts) (s : BackendState) (enabled : Bool) (slot : Option Bool)
    → s.ftp_server ≡ slot
    → ¬ (slot ≡ some false)
    → w.ftp_start ≡ ok tt
    → apply_ftp w enabled s ≡ record s { ftp_server = running enabled }
unfolding start_ftp stop_ftp
ftp_applied w s true none at_slot alive good = rw (start_ftp, at_slot, good) refl
ftp_applied w s false none at_slot alive good = rw at_slot refl
ftp_applied w s true (some true) at_slot alive good = rw at_slot refl
ftp_applied w s false (some true) at_slot alive good = rw (stop_ftp, at_slot) refl
ftp_applied w s enabled (some false) at_slot alive good = absurd (alive refl)

sftp_applied :
    (w : Starts) (s : BackendState) (enabled : Bool) (slot : Option Bool)
    → s.sftp_server ≡ slot
    → ¬ (slot ≡ some false)
    → w.sftp_start ≡ ok tt
    → apply_sftp w enabled s ≡ record s { sftp_server = running enabled }
unfolding start_sftp stop_sftp
sftp_applied w s true none at_slot alive good = rw (start_sftp, at_slot, good) refl
sftp_applied w s false none at_slot alive good = rw at_slot refl
sftp_applied w s true (some true) at_slot alive good = rw at_slot refl
sftp_applied w s false (some true) at_slot alive good = rw (stop_sftp, at_slot) refl
sftp_applied w s enabled (some false) at_slot alive good = absurd (alive refl)

-- Where no server has died and every start succeeds, the enabled services run afterwards.
pub apply_enabled_flags-follows :
    (w : Starts) (s : BackendState)
    → Alive s
    → w.ftp_start ≡ ok tt
    → w.sftp_start ≡ ok tt
    → let s' = apply_enabled_flags w s in
      (s'.config ≡ s.config)
      × (is_ftp_running s' ≡ s.config.ftp_enabled)
      × (is_sftp_running s' ≡ s.config.sftp_enabled)
      × Alive s'
unfolding apply_enabled_flags
apply_enabled_flags-follows w s (alive_ftp, alive_sftp) good_ftp good_sftp =
    let s1 = record s { ftp_server = running s.config.ftp_enabled } in
    let first = ftp_applied w s s.config.ftp_enabled _ refl alive_ftp good_ftp in
    let second = sftp_applied w s1 s.config.sftp_enabled _ refl alive_sftp good_sftp in
    let (runs_ftp, sound_ftp) = running_lem s.config.ftp_enabled in
    let (runs_sftp, sound_sftp) = running_lem s.config.sftp_enabled in
    subst
      (λ t.
        (t.config ≡ s.config)
        × (is_ftp_running t ≡ s.config.ftp_enabled)
        × (is_sftp_running t ≡ s.config.sftp_enabled)
        × Alive t)
      (sym (ap (apply_sftp w s.config.sftp_enabled) first ∙ second))
      (refl, runs_ftp, runs_sftp, (sound_ftp, sound_sftp))

-- A new configuration is followed: where no server has died and every start succeeds, the services
-- that run are then exactly the enabled ones.
pub save_config-follows :
    (w : Starts) (flags : Flags) (s : BackendState)
    → Alive s
    → w.ftp_start ≡ ok tt
    → w.sftp_start ≡ ok tt
    → let s' = save_config w flags s in
      (s'.config ≡ flags)
      × (is_ftp_running s' ≡ flags.ftp_enabled)
      × (is_sftp_running s' ≡ flags.sftp_enabled)
      × Alive s'
unfolding save_config
save_config-follows w flags s alive good_ftp good_sftp =
    apply_enabled_flags-follows w (record s { config = flags; on_disk = flags ∷ s.on_disk }) alive
      good_ftp good_sftp
