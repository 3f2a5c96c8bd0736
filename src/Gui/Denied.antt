-- ===== src/Gui/Denied.antt =====
-- From the list of denied addresses in the front end to the login at the FTP server.
use wftpd_linux.Base.{
  ℕ, ◌≡◌, ◌≢◌, refl, sym, ap, ◌∙◌, subst, Bool, true, false, not, Bool-cases, inl, inr, Option,
  none, some, List, [], ◌∷◌, ◌++◌, Text, text, text_eq, text_eq_iff, text_eq_refl, any, is_empty,
  if◌then◌else◌, arith,
}
use wftpd_linux.Outcome.{err}
use wftpd_linux.Paths.Names.{with_extension}
use wftpd_linux.Disk.{IsDisk}
use wftpd_linux.Filter.{Library, ip_matches_cidr, is_ip_allowed_for, families_apart}
use wftpd_linux.Config.{Config}
use wftpd_linux.Users.Manager.{UserManager}
use wftpd_linux.Users.Manager.Loading.{UsersFile}
use wftpd_linux.Ftp.Auth.{
  WftpdAuthenticator, new_authenticator, Credentials, ip_disallowed, ftp_authenticate,
}
use wftpd_linux.Daemon.Requests.{Status, Shared, Setup}
use wftpd_linux.Gui.{Link, System, push_config}
use wftpd_linux.Gui.InStep.{Lossless, push_config-InStep, done-Taken}
use wftpd_linux.Gui.Entries.{added, deny, validate_ip_or_cidr, blacklist_add}

module _ (lib : Library) where
  -- An address meets the entry that is its own text.
  matches_self :
      (ip : Text)
      → lib.parse_ipv4_net ip ≡ none
      → lib.parse_ipv6_net ip ≡ none
      → ip_matches_cidr lib ip ip ≡ true
  matches_self ip no_net4 no_net6 =
      families_apart lib ip ip (inr no_net4) (inr no_net6) ∙ rw (text_eq_refl ip) (ground arith)

  any-snoc :
      (f : Text → Bool) (x : Text) (xs : List Text) → f x ≡ true → any f (xs ++ x ∷ []) ≡ true
  any-snoc f x [] h = rw h refl
  any-snoc f x (y ∷ ys) h = ground (arith, any-snoc f x ys h)

  any_listed :
      (ip : Text) (ips : List Text)
      → ip_matches_cidr lib ip ip ≡ true
      → any (text_eq ip) ips ≡ true
      → any (ip_matches_cidr lib ip) ips ≡ true
  any_listed ip [] self h = absurd cc
  any_listed ip (x ∷ xs) self h = elim (Bool-cases (text_eq ip x)) [
    | inl same ↦
        let met : ip_matches_cidr lib ip x ≡ true =
          subst (λ y. ip_matches_cidr lib ip y ≡ true) ((text_eq_iff ip x).0 same) self in
        rw met refl
    | inr other ↦ let rest = any_listed ip xs self (rw other at h) in ground (arith, rest)
  ]

  any-added :
      (ip : Text) (ips : List Text)
      → ip_matches_cidr lib ip ip ≡ true
      → any (ip_matches_cidr lib ip) (added ip ips) ≡ true
  any-added ip ips self = elim (Bool-cases (any (text_eq ip) ips)) [
    | inl listed ↦ rw listed (any_listed ip ips self listed)
    | inr absent ↦ rw absent (any-snoc (ip_matches_cidr lib ip) ip ips self)
  ]

  -- A login from a denied address is refused before anything else is looked at.
  denied_login :
      (parse : Text → Option UserManager) (verify : Text → Text → Bool) (a : WftpdAuthenticator)
      (m : UserManager) (file : UsersFile) (now : ℕ) (username : Text) (creds : Credentials)
      → any (ip_matches_cidr lib creds.source_ip) a.denied_ips ≡ true
      → ftp_authenticate lib parse verify a m file now username creds ≡ some (m, err ip_disallowed)
  unfolding ftp_authenticate is_ip_allowed_for
  denied_login parse verify a m file now username creds h = rw h refl

module _ (S : Setup) (display : Status → Text) (lib : Library) where
  -- A save that was reached had passed the checks.
  entered :
      (empty good : Bool) (sys : System S display) (out : Bool × System S display)
      → (if empty then (false, sys) else if not good then (false, sys) else out).0 ≡ true
      → (if empty then (false, sys) else if not good then (false, sys) else out) ≡ out
  entered true good sys out h = absurd (let clash : false ≡ true = h in cc)
  entered false true sys out h = refl
  entered false false sys out h = absurd (let clash : false ≡ true = h in cc)

  -- Where toml reads the new settings as it prints them: after an entry that is no network was
  -- added to the denied addresses in the front end and saved, an FTP server that is started
  -- with the settings of the daemon refuses every login from the address whose text is the very
  -- text of the entry, whatever the name and the password.
  pub blacklist_add-refused :
      (disk : IsDisk S.fs) (link : Link) (ip : Text) (sys : System S display)
      (parse : Text → Option UserManager) (verify : Text → Text → Bool) (m : UserManager)
      (file : UsersFile) (now : ℕ) (username : Text) (password : Option Text)
      → S.config_path ≢ with_extension S.config_path (text "tmp")
      → Lossless S display (deny (added ip) sys.app.config)
      → lib.parse_ipv4_net ip ≡ none
      → lib.parse_ipv6_net ip ≡ none
      → (blacklist_add S display lib link ip sys).0 ≡ true
      → ftp_authenticate lib parse verify
          (new_authenticator (blacklist_add S display lib link ip sys).1.shared.config)
          m
          file
          now
          username
          (record { password = password; source_ip = ip })
        ≡ some (m, err ip_disallowed)
  unfolding blacklist_add new_authenticator
  blacklist_add-refused disk link ip sys parse verify m file now username password apart lossless
        no_net4 no_net6 done =
      let out = push_config S display link (deny (added ip)) sys in
      let reached = entered (is_empty ip) (validate_ip_or_cidr lib ip) sys out done in
      let stored =
        done-Taken S display disk link (deny (added ip) sys.app.config) sys out
          (push_config-InStep S display disk link (deny (added ip)) sys apart lossless)
          (sym (ap (λ o. o.0) reached) ∙ done) in
      let config : (blacklist_add S display lib link ip sys).1.shared.config
          ≡ deny (added ip) sys.app.config =
        ap (λ o. o.1.shared.config) reached ∙ ap (λ (h : Shared). h.config) stored.2 in
      denied_login lib parse verify
        (new_authenticator (blacklist_add S display lib link ip sys).1.shared.config) m file now
        username (record { password = password; source_ip = ip })
        (subst (λ (c : Config). any (ip_matches_cidr lib ip) c.security.denied_ips ≡ true)
          (sym config)
          (any-added lib ip sys.app.config.security.denied_ips
            (matches_self lib ip no_net4 no_net6)))
