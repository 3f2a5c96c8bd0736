-- ===== src/Gui/Entries.antt =====
-- The entries of the address filter as the front end takes them (wftpg/src/ui/security_tab.rs), and
-- what the filter of the servers makes of them.
use wftpd_linux.Base.{
  arith, ◌≡◌, ◌≢◌, ◌↔◌, refl, sym, ap, ◌∙◌, ◌⊎◌, inl, inr, Bool, true, false, not, ◌||◌, Bool-cases,
  Option, none, some, List, [], ◌∷◌, ◌++◌, Text, text, text_eq, text_eq_iff, any, is_empty,
  if◌then◌else◌,
}
use wftpd_linux.Filter.{Library, ip_matches_cidr, families_apart}
use wftpd_linux.Config.{Config}
use wftpd_linux.Daemon.Requests.{Status, Setup}
use wftpd_linux.Gui.{Link, System, push_config}

abbrev is_some : {A : Type 0} → Option A → Bool
is_some none = false
is_some (some a) = true

unfoldable pub validate_ip_or_cidr : Library → Text → Bool
validate_ip_or_cidr lib input =
    text_eq input (text "0.0.0.0/0")
    || text_eq input (text "::/0")
    || is_some (lib.parse_ipv4 input)
    || is_some (lib.parse_ipv6 input)
    || is_some (lib.parse_ipv4_net input)
    || is_some (lib.parse_ipv6_net input)

-- The changes that the buttons make to a list.
abbrev pub added : Text → List Text → List Text
added ip ips = if any (text_eq ip) ips then ips else ips ++ ip ∷ []

abbrev pub retained : Text → List Text → List Text
retained ip [] = []
retained ip (x ∷ xs) = let rest = retained ip xs in if text_eq x ip then rest else x ∷ rest

abbrev allow : (List Text → List Text) → Config → Config
allow f c = record c { security = record c.security { allowed_ips = f c.security.allowed_ips } }

abbrev pub deny : (List Text → List Text) → Config → Config
deny f c = record c { security = record c.security { denied_ips = f c.security.denied_ips } }

module _ (S : Setup) (display : Status → Text) (lib : Library) where
  -- What both buttons that add an entry do first.
  abbrev add_entry : Link → (Config → Config) → Text → System S display → Bool × System S display
  add_entry link change ip sys =
      if is_empty ip
      then (false, sys)
      else if not (validate_ip_or_cidr lib ip)
      then (false, sys)
      else push_config S display link change sys

  unfoldable pub whitelist_add : Link → Text → System S display → Bool × System S display
  whitelist_add link ip sys = add_entry link (allow (added ip)) ip sys

  unfoldable pub whitelist_delete : Link → Text → System S display → Bool × System S display
  whitelist_delete link ip sys = push_config S display link (allow (retained ip)) sys

  unfoldable pub whitelist_clear : Link → System S display → Bool × System S display
  whitelist_clear link sys = push_config S display link (allow (λ ips. [])) sys

  unfoldable pub whitelist_allow_all : Link → System S display → Bool × System S display
  whitelist_allow_all link sys =
      push_config S display link (allow (λ ips. text "0.0.0.0/0" ∷ [])) sys

  unfoldable pub blacklist_add : Link → Text → System S display → Bool × System S display
  blacklist_add link ip sys = add_entry link (deny (added ip)) ip sys

  unfoldable pub blacklist_delete : Link → Text → System S display → Bool × System S display
  blacklist_delete link ip sys = push_config S display link (deny (retained ip)) sys

  unfoldable pub blacklist_clear : Link → System S display → Bool × System S display
  blacklist_clear link sys = push_config S display link (deny (λ ips. [])) sys

module _ (lib : Library) (print : lib.Ipv6Addr → Text) where
  -- Addresses are printed in one way, and read back.
  abbrev pub Prints : Type 0
  Prints = (a : lib.Ipv6Addr) → lib.parse_ipv6 (print a) ≡ some a

  matches_text :
      (entry ip : Text)
      → lib.parse_ipv4_net entry ≡ none
      → lib.parse_ipv6_net entry ≡ none
      → text_eq entry (text "0.0.0.0/0") ≡ false
      → text_eq entry (text "::/0") ≡ false
      → ip_matches_cidr lib ip entry ≡ text_eq ip entry
  matches_text entry ip no_net4 no_net6 some4 some6 =
      families_apart lib ip entry (inr no_net4) (inr no_net6) ∙ rw (some4, some6) refl

  accepted :
      (entry : Text) (a : lib.Ipv6Addr)
      → lib.parse_ipv6 entry ≡ some a
      → validate_ip_or_cidr lib entry ≡ true
  unfolding validate_ip_or_cidr
  accepted entry a parsed = rw parsed (ground arith)

  same_address :
      Prints
      → (entry : Text) (a b : lib.Ipv6Addr) → lib.parse_ipv6 entry ≡ some a
      → print b ≡ entry
      → b ≡ a
  same_address prints entry a b parsed e =
      let read : some b ≡ some a = sym (prints b) ∙ ap lib.parse_ipv6 e ∙ parsed in cc

  other_spelling : (s t : Text) → text_eq s t ≡ false → s ≢ t
  other_spelling s t other e =
      let clash : true ≡ false = sym ((text_eq_iff s t).1 e) ∙ other in absurd (cc)

  -- An address of IPv6 that is no network is accepted as an entry. If it is written as the library
  -- prints it, it meets a client exactly if it is the client's address; in any other spelling it
  -- meets no client, not even its own address.
  pub address_entry :
      (entry : Text) (a : lib.Ipv6Addr)
      → Prints
      → lib.parse_ipv6 entry ≡ some a
      → lib.parse_ipv4_net entry ≡ none
      → lib.parse_ipv6_net entry ≡ none
      → text_eq entry (text "0.0.0.0/0") ≡ false
      → text_eq entry (text "::/0") ≡ false
      → (validate_ip_or_cidr lib entry ≡ true)
        × (((entry ≡ print a)
              × ((b : lib.Ipv6Addr) → (ip_matches_cidr lib (print b) entry ≡ true) ↔ (b ≡ a)))
            ⊎ ((entry ≢ print a)
                × ((b : lib.Ipv6Addr) → ip_matches_cidr lib (print b) entry ≡ false)))
  address_entry entry a prints parsed no_net4 no_net6 some4 some6 =
      let matches : (b : lib.Ipv6Addr)
          → ip_matches_cidr lib (print b) entry ≡ text_eq (print b) entry =
        λ b. matches_text entry (print b) no_net4 no_net6 some4 some6 in
      (
        accepted entry a parsed,
        elim (Bool-cases (text_eq entry (print a))) [
          | inl same ↦
              let spelled = (text_eq_iff entry (print a)).0 same in
              inl (
                spelled,
                λ b. (
                  λ met.
                      same_address prints entry a b parsed
                        ((text_eq_iff (print b) entry).0 (sym (matches b) ∙ met)),
                  λ e. matches b ∙ (text_eq_iff (print b) entry).1 (ap print e ∙ sym spelled),
                ),
              )
          | inr other ↦ inr (
            (λ e. other_spelling entry (print a) other e),
            λ b. elim (Bool-cases (text_eq (print b) entry)) [
              | inl same ↦
                  let met = (text_eq_iff (print b) entry).0 same in
                  absurd (
                    other_spelling entry (print a) other
                      (sym met ∙ ap print (same_address prints entry a b parsed met)))
              | inr missed ↦ matches b ∙ missed
            ],
          )
        ],
      )
