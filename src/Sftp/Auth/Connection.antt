-- ===== src/Sftp/Auth/Connection.antt =====
-- The states of a connection, and who its file sessions act for.
use wftpd_linux.Base.{
  ℕ, ◌≡◌, refl, sym, ap, ◌∙◌, subst, Bool, true, Option, none, some, Text, text, text_eq, ◌==◌, any,
  Bool-cases, inl, inr, ◌⊎◌,
}
use wftpd_linux.Users.{User, is_safe_username}
use wftpd_linux.Users.Manager.{UserManager}
use wftpd_linux.Os.{Prog}
use wftpd_linux.Paths.{PathBuf}
use wftpd_linux.Sftp.Session.{Session, new}
use wftpd_linux.Sftp.Auth.{
  SftpHandler, Host, new_handler, auth_password, auth_publickey, channel_open_session,
  subsystem_request, or_default, without,
}
use wftpd_linux.Sftp.Auth.Soundness.{auth_password-Outcome, auth_publickey-Outcome, Outcome}

-- What a request for a subsystem does.
subsystem_cases :
    (h : SftpHandler) (channel : ℕ) (name : Text)
    → (subsystem_request h channel name ≡ (h, none))
      ⊎ ((text_eq name (text "sftp") ≡ true)
          × (h.authenticated ≡ true)
          × (any (λ c. c == channel) h.open_channels ≡ true)
          × (subsystem_request h channel name ≡ (
            record h { open_channels = without channel h.open_channels },
            some (new (or_default h.username) (or_default h.home_dir) h.client_ip),
          )))
unfolding subsystem_request
subsystem_cases h channel name = elim (Bool-cases (text_eq name (text "sftp"))) [
  | inr other ↦ inl (rw other refl)
  | inl sftp ↦ elim (Bool-cases h.authenticated) [
    | inr no_one ↦ inl (rw (sftp, no_one) refl)
    | inl on ↦ elim (Bool-cases (any (λ c. c == channel) h.open_channels)) [
      | inr unknown ↦ inl (rw (sftp, on, unknown) refl)
      | inl held ↦ inr (sftp, on, held, rw (sftp, on, held) refl)
    ]
  ]
]

module _ {PublicKey : Type 0} (parse : Text → Option UserManager)
    (verify_password : Text → Text → Bool) (key_eq : PublicKey → PublicKey → Bool)
    (parse_public_key_base64 : Text → Option PublicKey) where
  -- The states that a connection reaches, whatever the client sends in whatever order, and while
  -- other connections change the shared user library.
  pub data Reached : SftpHandler → Type 0 where
    accepted :
        (m : UserManager) (client_ip : Text) (keys_dir : PathBuf)
        → Reached (new_handler m client_ip keys_dir)
    by_password :
        (h h' : SftpHandler) (w : Host) (user password : Text) (b : Bool)
        → Reached h
        → auth_password parse verify_password w h user password ≡ some (h', b)
        → Reached h'
    by_publickey :
        (h h' : SftpHandler) (w : Host) (user : Text) (key : PublicKey) (b : Bool)
        → Reached h
        → auth_publickey parse key_eq parse_public_key_base64 w h user key ≡ some (h', b)
        → Reached h'
    by_channel :
        (h : SftpHandler) (channel : ℕ) → Reached h → Reached (channel_open_session h channel)
    by_subsystem :
        (h : SftpHandler) (channel : ℕ) (name : Text)
        → Reached h
        → Reached (subsystem_request h channel name).0
    by_others :
        (h : SftpHandler) (m : UserManager) → Reached h → Reached (record h { user_manager = m })

  -- Who is logged in.
  abbrev pub HasIdentity : SftpHandler → Type 0
  HasIdentity h =
      h.authenticated ≡ true
      → (user : Text) × (home : Text) × (is_safe_username user ≡ true)
        × (h.username ≡ some user)
        × (h.home_dir ≡ some home)

  Outcome-identity :
      (Proof : UserManager → User → Type 0) (w : Host) (h h' : SftpHandler) (user : Text) (b : Bool)
      → Outcome Proof parse w h user (h', b)
      → HasIdentity h
      → HasIdentity h'
  Outcome-identity Proof w h h' user b
        (inl (
          ok_now,
          (m, u, (safe, loaded, found, enabled), good, (auth, named, (canon, c, homed), dir)),
        ))
        known on =
      (user, canon, safe, named, homed)
  Outcome-identity Proof w h h' user b (inr (refused, (same, named, homed))) known on =
      let (user1, home1, safe1, named1, homed1) = known (sym same ∙ on) in
      (user1, home1, safe1, named ∙ named1, homed ∙ homed1)

  subsystem_identity :
      (h : SftpHandler) (channel : ℕ) (name : Text)
      → HasIdentity h
      → HasIdentity (subsystem_request h channel name).0
  subsystem_identity h channel name known = elim (subsystem_cases h channel name) [
    | inl same ↦ subst HasIdentity (sym (ap (λ r. r.0) same)) known
    | inr (sftp, on, held, same) ↦ subst HasIdentity (sym (ap (λ r. r.0) same)) known
  ]

  identity : (h : SftpHandler) → Reached h → HasIdentity h
  unfolding new_handler channel_open_session subsystem_request
  identity h (accepted m client_ip keys_dir) = λ on. absurd cc
  identity h (by_password h1 h' w user password b before e) =
      Outcome-identity _ w h1 h' user b
        (auth_password-Outcome parse verify_password w h1 user password (h', b) e)
        (identity h1 before)
  identity h (by_publickey h1 h' w user key b before e) =
      Outcome-identity _ w h1 h' user b
        (auth_publickey-Outcome key_eq parse_public_key_base64 parse w h1 user key (h', b) e)
        (identity h1 before)
  identity h (by_channel h1 channel before) = identity h1 before
  identity h (by_subsystem h1 channel name before) =
      subsystem_identity h1 channel name (identity h1 before)
  identity h (by_others h1 m before) = identity h1 before

  -- In every state that a connection reaches, a subsystem request starts file operations only for
  -- the subsystem sftp, after a login, on a channel that is open; and they act for the safe user
  -- name, the home directory and the address of that login.
  pub subsystem-Reached :
      (h h' : SftpHandler) (channel : ℕ) (name : Text) (session : Prog Session)
      → Reached h
      → subsystem_request h channel name ≡ (h', some session)
      → (text_eq name (text "sftp") ≡ true)
        × (h.authenticated ≡ true)
        × (any (λ c. c == channel) h.open_channels ≡ true)
        × ((user : Text) × (home : Text) × (is_safe_username user ≡ true)
            × (h.username ≡ some user)
            × (h.home_dir ≡ some home)
            × (session ≡ new user home h.client_ip))
  subsystem-Reached h h' channel name session reached e = elim (subsystem_cases h channel name) [
    | inl same ↦ let clash : none ≡ some session = ap (λ r. r.1) (sym same ∙ e) in absurd cc
    | inr (sftp, on, held, same) ↦
        let (user, home, safe, named, homed) = identity h reached on in
        let started : some (new (or_default h.username) (or_default h.home_dir) h.client_ip)
            ≡ some session =
          ap (λ r. r.1) (sym same ∙ e) in
        let mine : new (or_default h.username) (or_default h.home_dir) h.client_ip ≡ session = cc in
        (
          sftp,
          on,
          held,
          (
            user,
            home,
            safe,
            named,
            homed,
            sym mine
                ∙ ap (λ o. new (or_default o) (or_default h.home_dir) h.client_ip) named
                ∙ ap (λ o. new user (or_default o) h.client_ip) homed,
          ),
        )
  ]
