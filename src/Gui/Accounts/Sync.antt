-- ===== src/Gui/Accounts/Sync.antt =====
-- What the dialog of a user leaves in the front end, in the daemon and on disk.
use wftpd_linux.Base.{
  ℕ, ◌≡◌, ◌≢◌, refl, sym, ap, ◌∙◌, subst, ◌⊎◌, inl, inr, true, false, some, Text,
}
use wftpd_linux.Outcome.{Result, ok, err}
use wftpd_linux.Disk.{IsDisk}
use wftpd_linux.Users.Manager.{UserManager}
use wftpd_linux.Users.Manager.Loading.{content, load}
use wftpd_linux.Daemon.Requests.{Status, Shared, Setup, World, temp_users_path, save_users}
use wftpd_linux.Daemon.Requests.Replacing.{UsersKept, save_users-UsersKept}
use wftpd_linux.Daemon.Requests.Logging.{AuditEntry, write_audit_log}
use wftpd_linux.Gui.{
  Link, answered, unreachable, reply_lost, unwrap_or_default, System, carried_out,
}
use wftpd_linux.Gui.Accounts.UsersFile.{LeavesUsers, prepared, audited}
use wftpd_linux.Gui.Accounts.{
  UserForm, changed_users, Desktop, setup_shared_directory_permissions, after_reply, push_users,
  with_users, submitted, submit_user_dialog,
}

module _ (S : Setup) (display : Status → Text) (D : Desktop S display) where
  open S use {fs, users_path, parse_users}

  -- A library is printed, and loaded as it was.
  abbrev pub Lossless : UserManager → Type 0
  Lossless m = (s : Text) × (D.to_string m ≡ ok s) × (load parse_users (content s) ≡ some m)

  -- The daemon has the library in memory and on disk.
  abbrev pub Taken : UserManager → System S display → System S display → Type 0
  Taken m sys out =
      (out.app ≡ record { config = sys.app.config; user_manager = m })
      × (out.shared ≡ record sys.shared { user_manager = m })
      × ((s : Text) × (D.to_string m ≡ ok s) × (fs.read_to_string out.world users_path ≡ ok s))

  -- The daemon and the users file are as they were; the front end has the library all the same.
  abbrev pub Apart : UserManager → System S display → System S display → Type 0
  Apart m sys out =
      (out.app ≡ record { config = sys.app.config; user_manager = m })
      × (out.shared ≡ sys.shared)
      × (fs.read_to_string out.world users_path ≡ fs.read_to_string sys.world users_path)

  module _ (disk : IsDisk fs) (leaves : LeavesUsers S display D) where
    abbrev pub InStep : UserManager → System S display → System S display → Type 0
    InStep m sys out = Taken m sys out ⊎ Apart m sys out

    -- The system when the library `m` was put in the front end, and `old` is what the users file
    -- held.
    after_save :
        (m : UserManager) (s : Text) (sys : System S display) (w' : World S)
        (r : Result Status Text) (shared : Shared) (world : World S) (end : World S)
        → D.to_string m ≡ ok s
        → load parse_users (content s) ≡ some m
        → fs.read_to_string w' users_path ≡ fs.read_to_string sys.world users_path
        → fs.read_to_string end users_path ≡ fs.read_to_string world users_path
        → UsersKept S disk s sys.shared w' (r, shared, world)
        → InStep m sys (record (with_users S display D m sys) { shared = shared; world = end })
    after_save m s sys w' r shared world end printed parsed before quiet
          (inl (m'', loaded, answer, in_memory, on_disk)) =
        let same : m'' ≡ m = cc in
        inl (
          refl,
          in_memory ∙ ap (λ (k : UserManager). record sys.shared { user_manager = k }) same,
          (s, printed, quiet ∙ on_disk),
        )
    after_save m s sys w' r shared world end printed parsed before quiet
          (inr (e, failed, same, kept)) =
        inr (refl, same, quiet ∙ kept ∙ before)

    replied :
        (m : UserManager) (s : Text) (sys : System S display) (w' : World S) (entry : AuditEntry)
        (out : Result Status Text × Shared × World S)
        → D.to_string m ≡ ok s
        → load parse_users (content s) ≡ some m
        → fs.read_to_string w' users_path ≡ fs.read_to_string sys.world users_path
        → UsersKept S disk s sys.shared w' out
        → InStep m sys (
            after_reply S display D entry out.0
              (carried_out S display (record (with_users S display D m sys) { world = w' }) out))
    replied m s sys w' entry (ok saved, shared, world) printed parsed before kept =
        after_save m s sys w' (ok saved) shared world
          (write_audit_log fs D.audit_path D.audit_dir D.timestamp entry world).1 printed parsed
          before (audited S display D disk leaves D.audit_dir entry world) kept
    replied m s sys w' entry (err e, shared, world) printed parsed before kept =
        after_save m s sys w' (err e) shared world world printed parsed before refl kept

    lost :
        (m : UserManager) (s : Text) (sys : System S display) (w' : World S)
        (out : Result Status Text × Shared × World S)
        → D.to_string m ≡ ok s
        → load parse_users (content s) ≡ some m
        → fs.read_to_string w' users_path ≡ fs.read_to_string sys.world users_path
        → UsersKept S disk s sys.shared w' out
        → InStep m sys
            (carried_out S display (record (with_users S display D m sys) { world = w' }) out)
    lost m s sys w' (r, shared, world) printed parsed before kept =
        after_save m s sys w' r shared world world printed parsed before refl kept

    pushed :
        (link : Link) (entry : AuditEntry) (m : UserManager) (sys : System S display) (w' : World S)
        → users_path ≢ temp_users_path S
        → Lossless m
        → fs.read_to_string w' users_path ≡ fs.read_to_string sys.world users_path
        → InStep m sys (
            push_users S display D link entry m
              (record (with_users S display D m sys) { world = w' }))
    unfolding push_users
    pushed answered entry m sys w' apart (s, printed, parsed) before =
        subst
          (λ p.
            let out = save_users S (unwrap_or_default p) sys.shared w' in
            InStep m sys (
              after_reply S display D entry out.0
                (carried_out S display (record (with_users S display D m sys) { world = w' }) out)))
          (sym printed)
          (replied m s sys w' entry (save_users S s sys.shared w') printed parsed before
            (save_users-UsersKept S disk s sys.shared w' apart))
    pushed (unreachable e) entry m sys w' apart lossless before = inr (refl, refl, before)
    pushed (reply_lost e) entry m sys w' apart (s, printed, parsed) before =
        subst
          (λ p. InStep m sys (
            carried_out S display (record (with_users S display D m sys) { world = w' })
              (save_users S (unwrap_or_default p) sys.shared w')))
          (sym printed)
          (lost m s sys w' (save_users S s sys.shared w') printed parsed before
            (save_users-UsersKept S disk s sys.shared w' apart))

    submitted-InStep :
        (link : Link) (f : UserForm) (r : Result Text UserManager) (sys : System S display)
        → users_path ≢ temp_users_path S
        → ((m : UserManager) → r ≡ ok m → Lossless m)
        → ((e : Text) × (r ≡ err e) × (submitted S display D link f r sys ≡ (false, sys)))
          ⊎ ((m : UserManager) × (r ≡ ok m)
              × ((submitted S display D link f r sys).0 ≡ true)
              × InStep m sys (submitted S display D link f r sys).1)
    submitted-InStep link f (err e) sys apart lossless = inl (e, refl, refl)
    submitted-InStep link f (ok m) sys apart lossless = inr (
      m,
      refl,
      refl,
      pushed link _ m sys (setup_shared_directory_permissions S display D f.home_dir sys.world)
          apart (lossless m refl) (prepared S display D disk leaves f.home_dir sys.world),
    )

    -- Where a library is loaded as it was printed, and the commands leave the users file alone: a
    -- dialog that stays open has changed nothing; one that closes leaves its library in the front
    -- end, and either it is the library of the daemon and of the users file too, whatever was
    -- there, or both are as they were.
    pub submit_user_dialog-InStep :
        (hash_password : Text → Result Text Text) (now : ℕ) (link : Link) (f : UserForm)
        (sys : System S display)
        → users_path ≢ temp_users_path S
        → ((m : UserManager)
            → changed_users
                (fs.exists sys.world)
                (fs.is_dir sys.world)
                hash_password
                sys.app.user_manager
                now
                f
              ≡ ok m
            → Lossless m)
        → let r =
            changed_users
              (fs.exists sys.world)
              (fs.is_dir sys.world)
              hash_password
              sys.app.user_manager
              now
              f in
          let out = submit_user_dialog S display D hash_password now link f sys in
          ((e : Text) × (r ≡ err e) × (out ≡ (false, sys)))
          ⊎ ((m : UserManager) × (r ≡ ok m) × (out.0 ≡ true) × InStep m sys out.1)
    unfolding submit_user_dialog
    submit_user_dialog-InStep hash_password now link f sys apart lossless =
        submitted-InStep link f
          (changed_users (fs.exists sys.world) (fs.is_dir sys.world) hash_password
            sys.app.user_manager now f)
          sys apart lossless
