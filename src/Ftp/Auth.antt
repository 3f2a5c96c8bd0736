-- ===== src/Ftp/Auth.antt =====
-- FTP authentication (ftp/src/auth.rs): the address filter, anonymous access, and passwords of the
-- user library, which is loaded again before each. The result `none` is the panic of that reload.
use wftpd_linux.Base.{
  ℕ, ◌≡◌, refl, ap, ◌⊎◌, inl, inr, Bool, true, false, ◌||◌, not, Option, none, some, List, Text,
  text, text_eq, if◌then◌else◌, Bool-cases, Option-cases,
}
use wftpd_linux.Outcome.{Result, ok, err}
use wftpd_linux.Paths.{PathBuf, components}
use wftpd_linux.Config.{Config}
use wftpd_linux.Users.{User}
use wftpd_linux.Users.Manager.{UserManager, get_user, authenticate}
use wftpd_linux.Users.Manager.Logins.{authenticate_verdict}
use wftpd_linux.Users.Manager.Loading.{UsersFile, reload}
use wftpd_linux.Filter.{Library, is_ip_allowed_for}
use wftpd_linux.Ftp.Storage.{WftpdUser, new_user, anonymous_user}

pub record WftpdAuthenticator : Type 0 where
  pub allow_anonymous : Bool
  pub allowed_ips : List Text
  pub denied_ips : List Text

-- `WftpdAuthenticator::new`: what the configuration says when the server is started.
unfoldable pub new_authenticator : Config → WftpdAuthenticator
new_authenticator config = record {
  allow_anonymous = config.ftp.allow_anonymous;
  allowed_ips = config.security.allowed_ips;
  denied_ips = config.security.denied_ips;
}

-- The address is given as text, `ip.to_string()`.
pub record Credentials : Type 0 where
  pub password : Option Text
  pub source_ip : Text

pub data AuthenticationError : Type 0 where
  ip_disallowed bad_user bad_password : AuthenticationError

abbrev pub is_anonymous : Text → Bool
is_anonymous username = text_eq username (text "anonymous") || text_eq username (text "ftp")

module _ (lib : Library) (parse : Text → Option UserManager)
    (verify_password : Text → Text → Bool) where
  abbrev check_password :
      UserManager → ℕ → Text → Text → UserManager × Result AuthenticationError Text
  check_password m now username password =
      let (m', good, saved) = authenticate verify_password m now username password in
      (m', if good then ok username else err bad_password)

  abbrev reloaded :
      UserManager
      → UsersFile
      → ℕ
      → Text
      → Option Text
      → Option (UserManager × Result AuthenticationError Text)
  reloaded m file now username none = some (m, err bad_password)
  reloaded m file now username (some password) = elim (reload parse m file) [
    | none ↦ none
    | some m1 ↦ some (check_password m1 now username password)
  ]

  -- `authenticate`: the user library after it, and the name of the principal.
  unfoldable pub ftp_authenticate :
      WftpdAuthenticator
      → UserManager
      → UsersFile
      → ℕ
      → Text
      → Credentials
      → Option (UserManager × Result AuthenticationError Text)
  ftp_authenticate a m file now username creds =
      if not (is_ip_allowed_for lib a.allowed_ips a.denied_ips creds.source_ip)
      then some (m, err ip_disallowed)
      else if is_anonymous username
      then some (m, if a.allow_anonymous then ok (text "anonymous") else err bad_user)
      else reloaded m file now username creds.password

pub data UserDetailError : Type 0 where
  home_not_configured disabled user_not_found : UserDetailError

abbrev detail_of : Text → Option User → Result UserDetailError WftpdUser
detail_of username none = err user_not_found
detail_of username (some u) =
    if u.enabled then ok (new_user username (components u.home_dir) u.permissions) else err disabled

abbrev anonymous_detail : Option PathBuf → Result UserDetailError WftpdUser
anonymous_detail none = err home_not_configured
anonymous_detail (some home) = ok (anonymous_user home)

unfoldable pub provide_user_detail :
    Option PathBuf → UserManager → Text → Result UserDetailError WftpdUser
provide_user_detail anonymous_home m username =
    if is_anonymous username
    then anonymous_detail anonymous_home
    else detail_of username (get_user m username)

module _ (lib : Library) (parse : Text → Option UserManager)
    (verify_password : Text → Text → Bool) where
  -- What an accepted login with a password has shown.
  abbrev pub Proven : UserManager → UsersFile → Text → Option Text → Text → Type 0
  Proven m file username given principal =
      (principal ≡ username)
      × ((password : Text) × (m1 : UserManager) × (u : User) × (given ≡ some password)
          × (reload parse m file ≡ some m1)
          × (get_user m1 username ≡ some u)
          × (u.enabled ≡ true)
          × (verify_password password u.password_hash ≡ true))

  password_login :
      (m m' m1 : UserManager) (file : UsersFile) (now : ℕ) (username password principal : Text)
      → reload parse m file ≡ some m1
      → check_password lib parse verify_password m1 now username password ≡ (m', ok principal)
      → Proven m file username (some password) principal
  password_login m m' m1 file now username password principal loaded e =
      let second = ap (λ r. r.1) e in
      elim (authenticate_verdict verify_password m1 now username password) [
        | inl (good, (u, found, on, matched, stored, saved)) ↦
            let named : ◌≡◌ {A = Result AuthenticationError Text} (ok username) (ok principal) =
              rw good at second in
            (cc, (password, m1, u, refl, loaded, found, on, matched))
        | inr (same, reason) ↦
            let failed : ◌≡◌ {A = Result AuthenticationError Text} (err bad_password)
                (ok principal) =
              rw same at second in
            absurd cc
      ]

  reloaded_login :
      (m m' : UserManager) (file : UsersFile) (now : ℕ) (username principal : Text)
      (given : Option Text)
      → reloaded lib parse verify_password m file now username given ≡ some (m', ok principal)
      → Proven m file username given principal
  reloaded_login m m' file now username principal none e = absurd cc
  reloaded_login m m' file now username principal (some password) e =
      elim (Option-cases (reload parse m file)) [
        | inl panicked ↦
            let nothing : ◌≡◌ {A = Option (UserManager × Result AuthenticationError Text)} none
                (some (m', ok principal)) =
              rw (reloaded, panicked) at e in
            absurd cc
        | inr (m1, loaded) ↦
            let got : some (check_password lib parse verify_password m1 now username password)
                ≡ some (m', ok principal) =
              rw (reloaded, loaded) at e in
            password_login m m' m1 file now username password principal loaded cc
      ]

  -- An FTP login is accepted only from an address that the filter lets through; and as the
  -- anonymous principal, where this is allowed and one of its names is given, or as an enabled user
  -- whose hash the password matches, of the library as it is after a reload: the one on disk, or
  -- the one in memory where the users file is missing, blank or cannot be read.
  pub ftp_login_lem :
      (a : WftpdAuthenticator) (m m' : UserManager) (file : UsersFile) (now : ℕ)
      (username principal : Text) (creds : Credentials)
      → ftp_authenticate lib parse verify_password a m file now username creds
        ≡ some (m', ok principal)
      → (is_ip_allowed_for lib a.allowed_ips a.denied_ips creds.source_ip ≡ true)
        × (((is_anonymous username ≡ true)
              × (a.allow_anonymous ≡ true)
              × (principal ≡ text "anonymous"))
            ⊎ ((is_anonymous username ≡ false) × Proven m file username creds.password principal))
  unfolding ftp_authenticate
  ftp_login_lem a m m' file now username principal creds e =
      elim (Bool-cases (is_ip_allowed_for lib a.allowed_ips a.denied_ips creds.source_ip)) [
        | inr out ↦
            let got : ◌≡◌ {A = Option (UserManager × Result AuthenticationError Text)}
                (some (m, err ip_disallowed)) (some (m', ok principal)) =
              rw (ftp_authenticate, out) at e in
            absurd cc
        | inl through ↦ elim (Bool-cases (is_anonymous username)) [
          | inr named ↦ (
            through,
            inr (
              named,
              reloaded_login m m' file now username principal creds.password
                  (rw (ftp_authenticate, through, named) at e),
            ),
          )
          | inl anonymous ↦ elim (Bool-cases a.allow_anonymous) [
            | inl allowed ↦
                let got : ◌≡◌ {A = Option (UserManager × Result AuthenticationError Text)}
                    (some (m, ok (text "anonymous"))) (some (m', ok principal)) =
                  rw (ftp_authenticate, through, anonymous, allowed) at e in
                (through, inl (anonymous, allowed, cc))
            | inr closed ↦
                let got : ◌≡◌ {A = Option (UserManager × Result AuthenticationError Text)}
                    (some (m, err bad_user)) (some (m', ok principal)) =
                  rw (ftp_authenticate, through, anonymous, closed) at e in
                absurd cc
          ]
        ]
      ]
