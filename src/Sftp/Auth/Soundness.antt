-- ===== src/Sftp/Auth/Soundness.antt =====
-- Who is let in: the two authentications of an SSH connection.
use wftpd_linux.Base.{
  ◌≡◌, refl, ◌∙◌, subst, Bool, true, false, Option, none, some, Text, text, Bool-cases,
  Option-cases, inl, inr, ◌⊎◌,
}
use wftpd_linux.Users.{User}
use wftpd_linux.Users.Manager.{UserManager, authenticate}
use wftpd_linux.Users.Manager.Logins.{authenticate_verdict}
use wftpd_linux.Sftp.Auth.{
  SftpHandler, Host, validate_and_set_home_dir, enter, resolve_user, auth_password, password_of,
  checked_password, auth_publickey, publickey_of, key_ok, stored_key, user_pubkey_path,
}
use wftpd_linux.Sftp.Auth.Steps.{Settled, Unchanged, Found, Resolved, entered, resolved}

-- The outcome of an authentication: an accepted one has set the identity of an enabled user of the
-- library, with `Proof` of its credentials; a refused one has not changed who is logged in.
abbrev pub Outcome :
    (UserManager → User → Type 0)
    → (Text → Option UserManager)
    → Host
    → SftpHandler
    → Text
    → SftpHandler × Bool
    → Type 0
Outcome Proof parse w h user (h', verdict) =
    ((verdict ≡ true)
      × ((m : UserManager) × (u : User) × Found parse w h user m u
          × Proof m u
          × Settled w user u.home_dir h'))
    ⊎ ((verdict ≡ false) × Unchanged h h')

after :
    (Proof : UserManager → User → Type 0) (parse : Text → Option UserManager) (w : Host)
    (h h1 : SftpHandler) (m : UserManager) (u : User) (user how : Text)
    → Unchanged h h1
    → Found parse w h user m u
    → Proof m u
    → Outcome Proof parse w h user
        (enter h1 user how (validate_and_set_home_dir w h1 user u.home_dir))
after Proof parse w h h1 m u user how (a, b, c) found good =
    elim (entered w h1 _ user u.home_dir how _ (validate_and_set_home_dir w h1 user u.home_dir) refl
      refl) [
        | inl (accepted, settled) ↦ inl (accepted, (m, u, found, good, settled))
        | inr (refused, (a', b', c')) ↦ inr (refused, (a' ∙ a, b' ∙ b, c' ∙ c))
      ]

password_checked :
    (parse : Text → Option UserManager) (verify_password : Text → Text → Bool) (w : Host)
    (h h1 : SftpHandler) (user password home : Text) (u : User)
    → Unchanged h h1
    → Found parse w h user h1.user_manager u
    → u.home_dir ≡ home
    → Outcome
        (λ m v. verify_password password v.password_hash ≡ true)
        parse
        w
        h
        user
        (checked_password verify_password w h1 user password home)
password_checked parse verify_password w h h1 user password home u same (safe, loaded, known, on)
      homed =
    elim (authenticate_verdict verify_password h1.user_manager w.now user password) [
      | inl (good, (v, at_v, on_v, matched, stored, saved)) ↦
          let one : v ≡ u = cc in
          rw (good, ← homed)
            (after (λ m x. verify_password password x.password_hash ≡ true) parse w h
              (record h1 {
                user_manager = (authenticate verify_password h1.user_manager w.now user password).0;
              })
              h1.user_manager u user (text " logged in") same (safe, loaded, known, on)
              (subst (λ x. verify_password password x.password_hash ≡ true) one matched))
      | inr (refused, reason) ↦ rw refused (inr (refl, same))
    ]

password-Outcome :
    (parse : Text → Option UserManager) (verify_password : Text → Text → Bool) (w : Host)
    (h : SftpHandler) (user password : Text) (found : SftpHandler × Option Text)
    → Resolved parse w h user found
    → Outcome
        (λ m u. verify_password password u.password_hash ≡ true)
        parse
        w
        h
        user
        (password_of verify_password w user password found)
password-Outcome parse verify_password w h user password (h1, none) (same, keys, known) =
    inr (refl, same)
password-Outcome parse verify_password w h user password (h1, some home) (same, keys, known) =
    let (u, found, homed) = known home refl in
    password_checked parse verify_password w h h1 user password home u same found homed

-- A password login is accepted only for a safe name of an enabled user, whose hash the password
-- matches and whose home is a directory; the session then has this name and the canonical form of
-- this directory. The user is in the library as it is after a reload, which is the library on disk,
-- or the one in memory where the users file is missing, blank or cannot be read. A refused login
-- changes nothing of the identity.
pub auth_password-Outcome :
    (parse : Text → Option UserManager) (verify_password : Text → Text → Bool) (w : Host)
    (h : SftpHandler) (user password : Text) (r : SftpHandler × Bool)
    → auth_password parse verify_password w h user password ≡ some r
    → Outcome (λ m u. verify_password password u.password_hash ≡ true) parse w h user r
unfolding auth_password
auth_password-Outcome parse verify_password w h user password r e =
    elim (Option-cases (resolve_user parse w h user)) [
      | inl panicked ↦ let nothing : none ≡ some r = rw (auth_password, panicked) at e in absurd cc
      | inr (found, at_found) ↦
          let got : some (password_of verify_password w user password found) ≡ some r =
            rw (auth_password, at_found) at e in
          let same : password_of verify_password w user password found ≡ r = cc in
          subst (Outcome (λ m u. verify_password password u.password_hash ≡ true) parse w h user)
            same
            (password-Outcome parse verify_password w h user password found
              (resolved parse w h user found at_found))
    ]

module _ {PublicKey : Type 0} (key_eq : PublicKey → PublicKey → Bool)
    (parse_public_key_base64 : Text → Option PublicKey) where
  -- The key is the one stored in the user's file of the key directory.
  abbrev pub IsStoredKey : Host → SftpHandler → Text → PublicKey → Type 0
  IsStoredKey w h user key =
      (stored : PublicKey) × (stored_key key_eq parse_public_key_base64
          (w.read_to_string (user_pubkey_path h user))
        ≡ some stored)
      × (key_eq key stored ≡ true)

  key_matches :
      (w : Host) (h : SftpHandler) (user : Text) (key : PublicKey) (o : Option PublicKey)
      → stored_key key_eq parse_public_key_base64 (w.read_to_string (user_pubkey_path h user)) ≡ o
      → key_ok key_eq parse_public_key_base64 key o ≡ true
      → IsStoredKey w h user key
  key_matches w h user key none at_o good = absurd cc
  key_matches w h user key (some stored) at_o good = (stored, at_o, good)

  publickey-Outcome :
      (parse : Text → Option UserManager) (w : Host) (h : SftpHandler) (user : Text)
      (key : PublicKey) (found : SftpHandler × Option Text)
      → Resolved parse w h user found
      → Outcome
          (λ m u. IsStoredKey w h user key)
          parse
          w
          h
          user
          (publickey_of key_eq parse_public_key_base64 w user key found)
  publickey-Outcome parse w h user key (h1, none) (same, keys, known) = inr (refl, same)
  publickey-Outcome parse w h user key (h1, some home) (same, keys, known) =
      let (u, found, homed) = known home refl in
      let o =
        stored_key key_eq parse_public_key_base64 (w.read_to_string (user_pubkey_path h1 user)) in
      elim (Bool-cases (key_ok key_eq parse_public_key_base64 key o)) [
        | inl good ↦
            let proof = key_matches w h1 user key o refl good in
            rw (good, ← homed)
              (after (λ m x. IsStoredKey w h user key) parse w h h1 h1.user_manager u user
                (text " logged in via public key") same found
                (subst (λ d. IsStoredKey w (record h { keys_dir = d }) user key) keys proof))
        | inr bad ↦ rw bad (inr (refl, same))
      ]

  -- A public key login is accepted only for a safe name of an enabled user, whose file in the key
  -- directory has the key and whose home is a directory; the session then has this name and the
  -- canonical form of this directory. The user is in the library as it is after a reload, which is
  -- the library on disk, or the one in memory where the users file is missing, blank or cannot be
  -- read. A refused login changes nothing of the identity.
  pub auth_publickey-Outcome :
      (parse : Text → Option UserManager) (w : Host) (h : SftpHandler) (user : Text)
      (key : PublicKey) (r : SftpHandler × Bool)
      → auth_publickey parse key_eq parse_public_key_base64 w h user key ≡ some r
      → Outcome (λ m u. IsStoredKey w h user key) parse w h user r
  unfolding auth_publickey
  auth_publickey-Outcome parse w h user key r e =
      elim (Option-cases (resolve_user parse w h user)) [
        | inl panicked ↦
            let nothing : none ≡ some r = rw (auth_publickey, panicked) at e in absurd cc
        | inr (found, at_found) ↦
            let got : some (publickey_of key_eq parse_public_key_base64 w user key found) ≡ some r =
              rw (auth_publickey, at_found) at e in
            let same : publickey_of key_eq parse_public_key_base64 w user key found ≡ r = cc in
            subst (Outcome (λ m u. IsStoredKey w h user key) parse w h user) same
              (publickey-Outcome parse w h user key found (resolved parse w h user found at_found))
      ]
