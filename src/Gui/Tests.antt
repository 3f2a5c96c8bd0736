-- ===== src/Gui/Tests.antt =====
-- The front end at concrete forms, with a daemon whose files are in memory.
use wftpd_linux.Base.{
  ℕ, ◌≡◌, ◌≢◌, ◌↔◌, refl, ◌⊎◌, ◌&&◌, Bool, true, false, not, Option, none, some, [], ◌∷◌, Text,
  text, text_eq, trim, if◌then◌else◌, ◌==◌, inl, inr,
}
use wftpd_linux.Base.Dict.{Dict, contains_key}
use wftpd_linux.Outcome.{ok, err}
use wftpd_linux.Disk.Tests.{text_ne, memory, memory-IsDisk}
use wftpd_linux.Paths.Names.{with_extension, split_last}
use wftpd_linux.Config.{Config, Toml, default_config, validate}
use wftpd_linux.Users.Manager.{UserManager, empty_manager}
use wftpd_linux.Filter.{Library, ip_matches_cidr}
use wftpd_linux.Listener.{ftps, ftps_of_files}
use wftpd_linux.Daemon.Requests.{Status, Setup}
use wftpd_linux.Gui.{AppState, answered, unreachable, System, push_config}
use wftpd_linux.Gui.InStep.{InStep, push_config-InStep}
use wftpd_linux.Gui.Forms.{FtpsForm, ftps_change, certs_ready, save_ftps}
use wftpd_linux.Gui.FormLaws.{save_ftps_lem}
use wftpd_linux.Gui.Entries.{validate_ip_or_cidr, address_entry, added, deny, blacklist_add}
use wftpd_linux.Gui.Denied.{blacklist_add-refused}
use wftpd_linux.Ftp.Auth.{new_authenticator, ip_disallowed, ftp_authenticate}
use wftpd_linux.Users.Manager.Loading.{missing}

abbrev usual : Config
usual = default_config (text "/state/ssh/key") (text "/state/logs")

abbrev form : FtpsForm
form = record { require_ssl = true; cert_path = text "/cert"; key_path = text "/key " }

abbrev with_ssl : Config
with_ssl = ftps_change form usual

-- A format with one text, that of this configuration.
abbrev one_text : Toml
one_text = record { to_string_pretty = λ c. ok (text "ssl"); from_str = λ s. ok with_ssl }

abbrev setup : Setup
setup = record {
  fs = memory;
  toml = one_text;
  parse_users = λ s. some empty_manager;
  config_path = text "/etc/config.toml";
  users_path = text "/etc/users.json";
}

abbrev display : Status → Text
display e = text "error"

config_apart : text "/etc/config.toml" ≢ with_extension (text "/etc/config.toml") (text "tmp")
unfolding with_extension split_last
config_apart =
    text_ne (text "/etc/config.toml") (with_extension (text "/etc/config.toml") (text "tmp")) refl

abbrev start : System setup display
start = record {
  app = record { config = usual; user_manager = empty_manager };
  shared = record { config = usual; user_manager = empty_manager };
  world = (text "/cert", []) ∷ (text "/key", []) ∷ [];
}

abbrev is_file : Dict Text → Text → Bool
is_file w p = contains_key p w

push_config-InStep_example :
    InStep setup display answered with_ssl start
      (push_config setup display answered (ftps_change form) start)
push_config-InStep_example =
    push_config-InStep setup display memory-IsDisk answered (ftps_change form) start config_apart
      (text "ssl", refl, refl)

save_ftps_lem_example :
    (ftps
        (λ p. contains_key p start.world)
        (save_ftps setup display is_file answered form start).1.shared.config
      ≡ ftps_of_files (certs_ready form) true)
    × ((true && not (certs_ready form)) ≡ false)
unfolding save_ftps wftpd_linux.Gui.Forms.ftps_check trim contains_key
    wftpd_linux.Base.is_whitespace wftpd_linux.Base.trim_start push_config
    wftpd_linux.Gui.write_config wftpd_linux.Daemon.Requests.replace_config
    wftpd_linux.Daemon.Requests.store_config wftpd_linux.Disk.◌>>=◌ validate ftps_change
    default_config wftpd_linux.Config.save split_last wftpd_linux.Disk.swap_in
    wftpd_linux.Base.Dict.lookup wftpd_linux.Base.Dict.insert with_extension
    wftpd_linux.Base.Dict.remove
save_ftps_lem_example =
    save_ftps_lem setup display is_file memory-IsDisk answered form start (text "ssl", refl, refl)
      (λ p e. e) config_apart refl

-- Addresses are a colon, in either of two spellings.
abbrev colon : Text → Option (Unit {0})
colon s =
    if text_eq s (text "::1") then some tt else if text_eq s (text "0:0::1") then some tt else none

abbrev spellings : Library
spellings = record {
  Ipv4Addr = Unit {0};
  Ipv6Addr = Unit {0};
  Ipv4Net = Unit {0};
  Ipv6Net = Unit {0};
  parse_ipv4 = λ s. none;
  parse_ipv6 = colon;
  parse_ipv4_net = λ s. none;
  parse_ipv6_net = λ s. none;
  contains_ipv4 = λ net a. true;
  contains_ipv6 = λ net a. true;
}

abbrev loopback : Unit {0} → Text
loopback a = text "::1"

address_entry_example :
    (validate_ip_or_cidr spellings (text "0:0::1") ≡ true)
    × (((text "0:0::1" ≡ text "::1")
          × ((b : Unit {0})
              → (ip_matches_cidr spellings (text "::1") (text "0:0::1") ≡ true) ↔ (b ≡ tt)))
        ⊎ ((text "0:0::1" ≢ text "::1")
            × ((b : Unit {0}) → ip_matches_cidr spellings (text "::1") (text "0:0::1") ≡ false)))
address_entry_example =
    address_entry spellings loopback (text "0:0::1") tt (λ a. refl) refl refl refl refl refl

abbrev denying : Config
denying = deny (added (text "::1")) usual

abbrev setup_denying : Setup
setup_denying = record setup {
  toml = record { to_string_pretty = λ c. ok (text "deny"); from_str = λ s. ok denying };
}

abbrev start_denying : System setup_denying display
start_denying = record {
  app = record { config = usual; user_manager = empty_manager };
  shared = record { config = usual; user_manager = empty_manager };
  world = [];
}

abbrev parse_none : Text → Option UserManager
parse_none s = none

abbrev never : Text → Text → Bool
never password stored = false

blacklist_add-refused_example :
    ftp_authenticate spellings parse_none never
      (new_authenticator
        (blacklist_add setup_denying display spellings answered
          (text "::1")
          start_denying).1.shared.config)
      empty_manager
      missing
      0
      (text "bob")
      (record { password = some (text "secret"); source_ip = text "::1" })
    ≡ some (empty_manager, err ip_disallowed)
unfolding blacklist_add validate_ip_or_cidr push_config wftpd_linux.Gui.write_config
    wftpd_linux.Daemon.Requests.replace_config wftpd_linux.Daemon.Requests.store_config
    wftpd_linux.Disk.◌>>=◌ validate default_config wftpd_linux.Config.save split_last
    wftpd_linux.Disk.swap_in wftpd_linux.Base.Dict.lookup wftpd_linux.Base.Dict.insert
    with_extension wftpd_linux.Base.Dict.remove
blacklist_add-refused_example =
    blacklist_add-refused setup_denying display spellings memory-IsDisk answered (text "::1")
      start_denying parse_none never empty_manager missing 0 (text "bob") (some (text "secret"))
      config_apart (text "deny", refl, refl) refl refl refl
