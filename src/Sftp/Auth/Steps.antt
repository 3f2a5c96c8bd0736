-- ===== src/Sftp/Auth/Steps.antt =====
-- What the steps of an authentication establish.
use wftpd_linux.Base.{
  ◌≡◌, refl, sym, ap, subst, Bool, true, false, Option, none, some, ◌++◌, Text, text, trim,
  is_empty, Bool-cases, Option-cases, inl, inr, ◌⊎◌,
}
use wftpd_linux.Outcome.{Result, ok, err}
use wftpd_linux.Users.{User, is_safe_username}
use wftpd_linux.Users.Manager.{UserManager, get_user}
use wftpd_linux.Users.Manager.Loading.{reload}
use wftpd_linux.Os.{IoResult, Metadata}
use wftpd_linux.Sftp.Auth.{
  SftpHandler, Host, home_of, set_home, home_from, directory_from, validate_and_set_home_dir, enter,
  resolve_user,
}

-- The home directory that a login sets: a directory, in canonical form.
abbrev pub Settled : Host → Text → Text → SftpHandler → Type 0
Settled w user home h' =
    (h'.authenticated ≡ true)
    × (h'.username ≡ some user)
    × ((canon : Text) × (w.canonicalize home ≡ ok canon) × (h'.home_dir ≡ some canon))
    × ((metadata : Metadata) × (w.metadata home ≡ ok metadata) × (metadata.is_dir ≡ true))

home-Settled :
    (w : Host) (h h' : SftpHandler) (user home : Text) (metadata : Metadata) (r : IoResult Text)
    → w.metadata home ≡ ok metadata
    → metadata.is_dir ≡ true
    → w.canonicalize home ≡ r
    → home_from h user home r ≡ ok h'
    → Settled w user home h'
home-Settled w h h' user home metadata (ok canon) found dir at_r e =
    let same : set_home h user canon ≡ h' = cc in
    subst (Settled w user home) same (refl, refl, (canon, at_r, refl), (metadata, found, dir))
home-Settled w h h' user home metadata (err bad) found dir at_r e = absurd cc

directory-Settled :
    (w : Host) (h h' : SftpHandler) (user home : Text) (r : IoResult Metadata)
    → w.metadata home ≡ r
    → directory_from w h user home r ≡ ok h'
    → Settled w user home h'
directory-Settled w h h' user home (err bad) at_r e = absurd cc
directory-Settled w h h' user home (ok metadata) at_r e = elim (Bool-cases metadata.is_dir) [
  | inl dir ↦ home-Settled w h h' user home metadata _ at_r dir refl (rw dir at e)
  | inr other ↦
      let failed : err (text "home path '" ++ home ++ text "' is not a directory") ≡ ok h' =
        rw other at e in
      absurd cc
]

validated :
    (w : Host) (h h' : SftpHandler) (user home : Text)
    → validate_and_set_home_dir w h user home ≡ ok h'
    → Settled w user home h'
unfolding validate_and_set_home_dir
validated w h h' user home e = elim (Bool-cases (is_empty (trim home))) [
  | inl blank ↦
      let failed : err (text "home directory not configured for user '" ++ user ++ text "'")
          ≡ ok h' =
        rw blank at e in
      absurd cc
  | inr given ↦ directory-Settled w h h' user home _ refl (rw given at e)
]

-- A login that is accepted has set the home directory; one that is refused has not changed who is
-- logged in.
abbrev pub Unchanged : SftpHandler → SftpHandler → Type 0
Unchanged h h' =
    (h'.authenticated ≡ h.authenticated) × (h'.username ≡ h.username) × (h'.home_dir ≡ h.home_dir)

pub entered :
    (w : Host) (h h' : SftpHandler) (user home how : Text) (b : Bool) (r : Result Text SftpHandler)
    → validate_and_set_home_dir w h user home ≡ r
    → enter h user how r ≡ (h', b)
    → ((b ≡ true) × Settled w user home h') ⊎ ((b ≡ false) × Unchanged h h')
entered w h h' user home how b (ok h1) at_r e =
    let same = ap (λ x. x.0) e in
    inl (sym (ap (λ x. x.1) e), subst (Settled w user home) same (validated w h h1 user home at_r))
entered w h h' user home how b (err bad) at_r e =
    inr (sym (ap (λ x. x.1) e), subst (Unchanged h) (ap (λ x. x.0) e) (refl, refl, refl))

-- The user of the library, as it is on disk now, that the name given stands for.
abbrev pub Found :
    (Text → Option UserManager) → Host → SftpHandler → Text → UserManager → User → Type 0
Found parse w h user m u =
    (is_safe_username user ≡ true)
    × (reload parse h.user_manager w.users_file ≡ some m)
    × (get_user m user ≡ some u)
    × (u.enabled ≡ true)

home_found :
    (o : Option User) (home : Text)
    → home_of o ≡ some home
    → (u : User) × (o ≡ some u) × (u.enabled ≡ true) × (u.home_dir ≡ home)
home_found none home e = absurd cc
home_found (some u) home e = elim (Bool-cases u.enabled) [
  | inl on ↦ let same : some u.home_dir ≡ some home = rw on at e in (u, refl, on, cc)
  | inr off ↦ let nothing : none ≡ some home = rw off at e in absurd cc
]

-- What the resolution of a name gives, if it gives a home directory.
abbrev pub Resolved :
    (Text → Option UserManager) → Host → SftpHandler → Text → SftpHandler × Option Text → Type 0
Resolved parse w h user r =
    Unchanged h r.0
    × (r.0.keys_dir ≡ h.keys_dir)
    × ((home : Text)
        → r.1 ≡ some home
        → (u : User) × Found parse w h user r.0.user_manager u × (u.home_dir ≡ home))

pub resolved :
    (parse : Text → Option UserManager) (w : Host) (h : SftpHandler) (user : Text)
    (r : SftpHandler × Option Text)
    → resolve_user parse w h user ≡ some r
    → Resolved parse w h user r
unfolding resolve_user
resolved parse w h user r e = elim (Bool-cases (is_safe_username user)) [
  | inl safe ↦ elim (Option-cases (reload parse h.user_manager w.users_file)) [
    | inl panicked ↦
        let nothing : none ≡ some r = rw (resolve_user, safe, panicked) at e in absurd cc
    | inr (m, loaded) ↦
        let got : some (record h { user_manager = m }, home_of (get_user m user)) ≡ some r =
          rw (resolve_user, safe, loaded) at e in
        let same : (record h { user_manager = m }, home_of (get_user m user)) ≡ r = cc in
        subst (Resolved parse w h user) same (
          (refl, refl, refl),
          refl,
          λ home at_home.
              let (u, found, on, homed) = home_found (get_user m user) home at_home in
              (u, (safe, loaded, found, on), homed),
        )
  ]
  | inr unsafe ↦
      let got : some (h, none) ≡ some r = rw unsafe at e in
      let same : (h, none) ≡ r = cc in
      subst (Resolved parse w h user) same ((refl, refl, refl), refl, λ home at_home. absurd cc)
]
