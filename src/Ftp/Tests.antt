-- ===== src/Ftp/Tests.antt =====
-- The storage operations for a concrete user.
use wftpd_linux.Base.{
  ◌≡◌, ◌⊎◌, ℕ, true, Option, none, Text, text_eq, refl, false, some, [], ◌∷◌, text,
}
use wftpd_linux.Outcome.{Result, ok}
use wftpd_linux.Os.{Always}
use wftpd_linux.Users.{User, full}
use wftpd_linux.Base.Dict.{lookup, insert}
use wftpd_linux.Users.Manager.{UserManager, new_user, authenticate}
use wftpd_linux.Users.Manager.Loading.{missing, reload}
use wftpd_linux.Filter.{Library, is_ip_allowed_for, ip_matches_cidr}
use wftpd_linux.Ftp.Auth.{
  WftpdAuthenticator, Credentials, ftp_authenticate, is_anonymous, Proven, ftp_login_lem,
}
use wftpd_linux.Paths.{components}
use wftpd_linux.Ftp.Monad.{ErrorKind}
use wftpd_linux.Ftp.Rules.{Any}
use wftpd_linux.Ftp.Storage.{WftpdUser}
use wftpd_linux.Ftp.Policy.{Allowed, perform, put_call}
use wftpd_linux.Ftp.Confinement.{perform-Allowed}

abbrev alice : WftpdUser
alice = record {
  username = text "alice";
  home = components (text "/home/alice");
  permissions = full;
  quota_mb = 5;
  anonymous = false;
}

perform-Allowed_example :
    Always Any
      (Allowed (components (text "/home/alice")) full)
      {A = Result ErrorKind (Unit {0})}
      (λ _. Unit {0})
      (perform
        (some (components (text "/home/alice")))
        alice
        (put_call (ok (1 ∷ 2 ∷ []) ∷ []) (components (text "/docs/a.txt")) 0))
perform-Allowed_example =
    perform-Allowed (components (text "/home/alice")) alice
      (put_call (ok (1 ∷ 2 ∷ []) ∷ []) (components (text "/docs/a.txt")) 0)

-- A library that reads no address, so that the filter compares texts.
abbrev no_addresses : Library
no_addresses = record {
  Ipv4Addr = Unit {0};
  Ipv6Addr = Unit {0};
  Ipv4Net = Unit {0};
  Ipv6Net = Unit {0};
  parse_ipv4 = λ t. none;
  parse_ipv6 = λ t. none;
  parse_ipv4_net = λ t. none;
  parse_ipv6_net = λ t. none;
  contains_ipv4 = λ net a. false;
  contains_ipv6 = λ net a. false;
}

abbrev authenticator : WftpdAuthenticator
authenticator = record {
  allow_anonymous = true;
  allowed_ips = text "10.0.0.1" ∷ [];
  denied_ips = [];
}

abbrev credentials : Credentials
credentials = record { password = some (text "secret"); source_ip = text "10.0.0.1" }

abbrev account : User
account = new_user 7 (text "alice") (text "/home/alice") full false (text "secret")

abbrev library_after : Option ℕ → UserManager
library_after last = record { users = (text "alice", record account { last_login = last }) ∷ [] }

abbrev no_json : Text → Option UserManager
no_json s = none

login_run :
    ftp_authenticate no_addresses no_json text_eq authenticator
      (library_after none)
      missing
      9
      (text "alice")
      credentials
    ≡ some (library_after (some 9), ok (text "alice"))
unfolding ftp_authenticate is_ip_allowed_for ip_matches_cidr reload authenticate lookup insert
login_run = refl

ftp_login_lem_example :
    (is_ip_allowed_for no_addresses authenticator.allowed_ips authenticator.denied_ips
        credentials.source_ip
      ≡ true)
    × (((is_anonymous (text "alice") ≡ true)
          × (authenticator.allow_anonymous ≡ true)
          × (text "alice" ≡ text "anonymous"))
        ⊎ ((is_anonymous (text "alice") ≡ false)
            × Proven no_addresses no_json text_eq
                (library_after none)
                missing
                (text "alice")
                credentials.password
                (text "alice")))
ftp_login_lem_example =
    ftp_login_lem no_addresses no_json text_eq authenticator (library_after none)
      (library_after (some 9)) missing 9 (text "alice") (text "alice") credentials login_run
