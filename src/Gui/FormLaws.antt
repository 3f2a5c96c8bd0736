-- ===== src/Gui/FormLaws.antt =====
-- What the checks of the forms promise of the settings that are saved.
use wftpd_linux.Base.{
  ◌≡◌, ◌≢◌, refl, ap, ◌∙◌, subst, ◌⊎◌, Bool, true, false, not, ◌&&◌, ◌||◌, Bool-cases, inl, inr,
  some, Text, text, trim, is_empty, if◌then◌else◌, arith,
}
use wftpd_linux.Outcome.{ok}
use wftpd_linux.Paths.Names.{with_extension}
use wftpd_linux.Disk.{IsDisk}
use wftpd_linux.Config.{Config, validate, check_anonymous_home}
use wftpd_linux.Listener.{ftps, ftps_of_files, ftps_of_paths}
use wftpd_linux.Daemon.Requests.{Status, Setup, Shared}
use wftpd_linux.Gui.{Link, System, push_config}
use wftpd_linux.Gui.InStep.{Lossless, push_config-InStep, done-Taken}
use wftpd_linux.Gui.Forms.{
  FtpForm, ftp_change, ftp_check, FtpsForm, ftps_change, ftps_check, certs_ready, untrimmed,
  trimmed, save_ftps,
}

-- The home directory as it was typed passes, or it is another text than the one the check looked
-- at.
home_checked :
    (exists is_dir : Text → Bool) (home : Text)
    → ((p : Text) → is_dir p ≡ true → exists p ≡ true)
    → is_empty (trim home) ≡ false
    → is_dir (trim home) ≡ true
    → (check_anonymous_home exists is_dir (some home) ≡ ok tt)
      ⊎ ((trim home ≢ home) × ((exists home && is_dir home) ≡ false))
home_checked exists is_dir home there given dir = elim (Bool-cases (is_dir home)) [
  | inl typed ↦ inl (rw (given, there home typed, typed) refl)
  | inr other ↦ inr (
    (λ same. absurd (let clash : is_dir home ≡ true = subst (λ t. is_dir t ≡ true) same dir in cc)),
    ground arith,
  )
]

checked :
    (exists is_dir : Text → Bool) (enabled anon : Bool) (home : Text)
    → ((p : Text) → is_dir p ≡ true → exists p ≡ true)
    → not (anon && (is_empty (trim home) || not (is_dir (trim home)))) ≡ true
    → ((if enabled && anon then check_anonymous_home exists is_dir (untrimmed home) else ok tt)
        ≡ ok tt)
      ⊎ ((trim home ≢ home) × ((exists home && is_dir home) ≡ false))
checked exists is_dir false anon home there passed = inl refl
checked exists is_dir true false home there passed = inl refl
checked exists is_dir true true home there passed =
    let given : is_empty (trim home) ≡ false = ground arith in
    let dir : is_dir (trim home) ≡ true = ground arith in
    rw given (home_checked exists is_dir home there given dir)

-- The settings of an FTP form that passes the check pass the validation of the daemon, unless there
-- is white space around the home directory, which the check leaves out and the daemon does not, and
-- the text as it was typed is no directory.
ftp_form_valid :
    (exists is_dir : Text → Bool) (w : FtpForm) (cfg : Config)
    → ((p : Text) → is_dir p ≡ true → exists p ≡ true)
    → ftp_check is_dir w ≡ true
    → (validate exists is_dir (ftp_change w cfg) ≡ ok tt)
      ⊎ ((trim w.anon_home ≢ w.anon_home) × ((exists w.anon_home && is_dir w.anon_home) ≡ false))
unfolding ftp_check ftp_change validate
ftp_form_valid exists is_dir w cfg there passed =
    checked exists is_dir w.enabled w.anon w.anon_home there passed

-- What the FTP server makes of the two paths of a form.
paths_offered :
    (exists is_file : Text → Bool) (require : Bool) (cert key : Text)
    → ((p : Text) → is_file p ≡ true → exists p ≡ true)
    → (if require && not (not (is_empty (trim cert)) && not (is_empty (trim key)))
        then false
        else not (
            (not (is_empty (trim cert)) && not (is_empty (trim key)))
            && (not (is_file (trim cert)) || not (is_file (trim key)))))
      ≡ true
    → (ftps_of_paths exists require (trimmed cert) (trimmed key)
        ≡ ftps_of_files (not (is_empty (trim cert)) && not (is_empty (trim key))) require)
      × ((require && not (not (is_empty (trim cert)) && not (is_empty (trim key)))) ≡ false)
paths_offered exists is_file require cert key there passed =
    elim (Bool-cases (is_empty (trim cert))) [
      | inl no_cert ↦ rw no_cert (refl, ground arith)
      | inr a_cert ↦ elim (Bool-cases (is_empty (trim key))) [
        | inl no_key ↦ rw (a_cert, no_key) (refl, ground arith)
        | inr a_key ↦
            let cert_there : exists (trim cert) ≡ true = there (trim cert) (ground arith) in
            let key_there : exists (trim key) ≡ true = there (trim key) (ground arith) in
            rw (a_cert, a_key, cert_there, key_there) (refl, ground arith)
      ]
    ]

module _ (S : Setup) (display : Status → Text) (is_file : S.fs.World → Text → Bool) where
  after_check :
      (disk : IsDisk S.fs) (link : Link) (w : FtpsForm) (sys : System S display)
      → Lossless S display (ftps_change w sys.app.config)
      → ((p : Text) → is_file sys.world p ≡ true → S.fs.exists sys.world p ≡ true)
      → S.config_path ≢ with_extension S.config_path (text "tmp")
      → (b : Bool) → ftps_check (is_file sys.world) w ≡ b
      → (if b then push_config S display link (ftps_change w) sys else (false, sys)).0 ≡ true
      → (ftps
            (S.fs.exists sys.world)
            (if b
              then push_config S display link (ftps_change w) sys
              else (false, sys)).1.shared.config
          ≡ ftps_of_files (certs_ready w) w.require_ssl)
        × ((w.require_ssl && not (certs_ready w)) ≡ false)
  unfolding ftps_check ftps_change ftps
  after_check disk link w sys lossless there apart false passed done =
      absurd (let clash : false ≡ true = done in cc)
  after_check disk link w sys lossless there apart true passed done =
      let out = push_config S display link (ftps_change w) sys in
      let stored =
        done-Taken S display disk link (ftps_change w sys.app.config) sys out
          (push_config-InStep S display disk link (ftps_change w) sys apart lossless) done in
      let paths =
        paths_offered (S.fs.exists sys.world) (is_file sys.world) w.require_ssl w.cert_path
          w.key_path there passed in
      (ap (λ (h : Shared). ftps (S.fs.exists sys.world) h.config) stored.2 ∙ paths.0, paths.1)

  -- Where files exist and toml reads the new settings as it prints them: after an FTPS form was
  -- saved, the FTP server that starts while its files are there offers FTPS exactly if both paths
  -- were given, requires it if the form does, and then does not serve in plain text.
  pub save_ftps_lem :
      (disk : IsDisk S.fs) (link : Link) (w : FtpsForm) (sys : System S display)
      → Lossless S display (ftps_change w sys.app.config)
      → ((p : Text) → is_file sys.world p ≡ true → S.fs.exists sys.world p ≡ true)
      → S.config_path ≢ with_extension S.config_path (text "tmp")
      → (save_ftps S display is_file link w sys).0 ≡ true
      → (ftps (S.fs.exists sys.world) (save_ftps S display is_file link w sys).1.shared.config
          ≡ ftps_of_files (certs_ready w) w.require_ssl)
        × ((w.require_ssl && not (certs_ready w)) ≡ false)
  unfolding save_ftps ftps_check ftps_change ftps
  save_ftps_lem disk link w sys lossless there apart done =
      after_check disk link w sys lossless there apart (ftps_check (is_file sys.world) w) refl done
