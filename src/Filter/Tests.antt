-- ===== src/Filter/Tests.antt =====
-- The address filter with a library of small families: an IPv4 address or network is one digit, and
-- an IPv6 address or network a colon.
use wftpd_linux.Base.{
  ◌≡◌, ℕ, true, false, ◌⊎◌, Option, none, some, [], ◌∷◌, Text, text, ◌==◌, ltb, if◌then◌else◌,
}
use wftpd_linux.Filter.{
  Library, SecurityConfig, is_ip_allowed, is_ip_allowed_for, Meets, filter_lem,
}

abbrev digit : Text → Option ℕ
digit (c ∷ []) = if ltb c b':' then some c else none
digit _ = none

abbrev colon : Text → Option ℕ
colon (c ∷ []) = if c == b':' then some c else none
colon _ = none

abbrev small : Library
small = record {
  Ipv4Addr = ℕ;
  Ipv6Addr = ℕ;
  Ipv4Net = ℕ;
  Ipv6Net = ℕ;
  parse_ipv4 = digit;
  parse_ipv6 = colon;
  parse_ipv4_net = digit;
  parse_ipv6_net = colon;
  contains_ipv4 = λ net a. net == a;
  contains_ipv6 = λ net a. net == a;
}

abbrev security : SecurityConfig
security = record { allowed_ips = text "0.0.0.0/0" ∷ []; denied_ips = text "5" ∷ text "6" ∷ [] }

filter_lem_example :
    (is_ip_allowed small security (text "6")
      ≡ is_ip_allowed_for small security.allowed_ips security.denied_ips (text "6"))
    × (((is_ip_allowed small security (text "6") ≡ true)
          × (¬ Meets small (text "6") security.denied_ips)
          × ((security.allowed_ips ≡ []) ⊎ Meets small (text "6") security.allowed_ips))
        ⊎ ((is_ip_allowed small security (text "6") ≡ false)
            × (Meets small (text "6") security.denied_ips
                ⊎ ((¬ (security.allowed_ips ≡ []))
                    × (¬ Meets small (text "6") security.allowed_ips)))))
filter_lem_example = filter_lem small security (text "6")
