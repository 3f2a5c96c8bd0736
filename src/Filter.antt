-- ===== src/Filter.antt =====
-- The address filter (`ip_matches_cidr`, `is_ip_allowed_for` and `is_ip_allowed` of
-- common/src/config.rs). The parsers and the containment test of std::net and the library ipnet are
-- parameters; addresses and networks of the two families are four types.
mod Tests
use wftpd_linux.Base.{
  ◌≡◌, refl, sym, ap, ◌∙◌, ◌⊎◌, inl, inr, Bool, true, false, ◌||◌, Option, none, some, List, [],
  ◌∷◌, ◌++◌, Text, text, text_eq, any, if◌then◌else◌, arith, Bool-cases,
}

pub record Library : Type 1 where
  pub Ipv4Addr : Type 0
  pub Ipv6Addr : Type 0
  pub Ipv4Net : Type 0
  pub Ipv6Net : Type 0
  pub parse_ipv4 : Text → Option Ipv4Addr
  pub parse_ipv6 : Text → Option Ipv6Addr
  pub parse_ipv4_net : Text → Option Ipv4Net
  pub parse_ipv6_net : Text → Option Ipv6Net
  pub contains_ipv4 : Ipv4Net → Ipv4Addr → Bool
  pub contains_ipv6 : Ipv6Net → Ipv6Addr → Bool

pub record SecurityConfig : Type 0 where
  pub allowed_ips : List Text
  pub denied_ips : List Text

module _ (lib : Library) where
  -- The second family, and the comparison of the texts.
  abbrev match_ipv6 : Text → Text → Option lib.Ipv6Addr → Option lib.Ipv6Net → Bool
  match_ipv6 ip cidr (some a) (some net) = lib.contains_ipv6 net a
  match_ipv6 ip cidr none net = text_eq ip cidr
  match_ipv6 ip cidr (some a) none = text_eq ip cidr

  abbrev match_ipv4 : Text → Text → Option lib.Ipv4Addr → Option lib.Ipv4Net → Bool
  match_ipv4 ip cidr (some a) (some net) = lib.contains_ipv4 net a
  match_ipv4 ip cidr none net = match_ipv6 ip cidr (lib.parse_ipv6 ip) (lib.parse_ipv6_net cidr)
  match_ipv4 ip cidr (some a) none =
      match_ipv6 ip cidr (lib.parse_ipv6 ip) (lib.parse_ipv6_net cidr)

  unfoldable pub ip_matches_cidr : Text → Text → Bool
  ip_matches_cidr ip cidr =
      if text_eq cidr (text "0.0.0.0/0") || text_eq cidr (text "::/0")
      then true
      else match_ipv4 ip cidr (lib.parse_ipv4 ip) (lib.parse_ipv4_net cidr)

  abbrev allowed_by : List Text → Text → Bool
  allowed_by [] ip = true
  allowed_by (cidr ∷ cidrs) ip = any (ip_matches_cidr ip) (cidr ∷ cidrs)

  unfoldable pub is_ip_allowed_for : List Text → List Text → Text → Bool
  is_ip_allowed_for allowed_ips denied_ips ip =
      if any (ip_matches_cidr ip) denied_ips then false else allowed_by allowed_ips ip

  unfoldable pub is_ip_allowed : SecurityConfig → Text → Bool
  is_ip_allowed security ip =
      if any (ip_matches_cidr ip) security.denied_ips
      then false
      else allowed_by security.allowed_ips ip

  -- An entry of the list that is met.
  abbrev pub Meets : Text → List Text → Type 0
  Meets ip cidrs =
      (before : List Text) × (cidr : Text) × (behind : List Text) × (cidrs
        ≡ before ++ cidr ∷ behind)
      × (ip_matches_cidr ip cidr ≡ true)

  any_append :
      (ip cidr : Text) (before behind : List Text)
      → ip_matches_cidr ip cidr ≡ true
      → any (ip_matches_cidr ip) (before ++ cidr ∷ behind) ≡ true
  any_append ip cidr [] behind met = rw met refl
  any_append ip cidr (other ∷ before) behind met =
      ground (arith, any_append ip cidr before behind met)

  meets : (ip : Text) (cidrs : List Text) → any (ip_matches_cidr ip) cidrs ≡ true → Meets ip cidrs
  meets ip [] h = absurd cc
  meets ip (cidr ∷ cidrs) h = elim (Bool-cases (ip_matches_cidr ip cidr)) [
    | inl met ↦ ([], cidr, cidrs, refl, met)
    | inr missed ↦
        let (before, found, behind, parts, met) = meets ip cidrs (rw missed at h) in
        (cidr ∷ before, found, behind, ap (λ l. cidr ∷ l) parts, met)
  ]

  unmet :
      (ip : Text) (cidrs : List Text) → any (ip_matches_cidr ip) cidrs ≡ false → ¬ Meets ip cidrs
  unmet ip cidrs h (before, cidr, behind, parts, met) =
      let found : any (ip_matches_cidr ip) cidrs ≡ true =
        ap (any (ip_matches_cidr ip)) parts ∙ any_append ip cidr before behind met in
      absurd (let clash : true ≡ false = sym found ∙ h in cc)

  -- The allowed list.
  allowed_lem :
      (cidrs : List Text) (ip : Text)
      → ((allowed_by cidrs ip ≡ true) × ((cidrs ≡ []) ⊎ Meets ip cidrs))
        ⊎ ((allowed_by cidrs ip ≡ false) × (¬ (cidrs ≡ [])) × (¬ Meets ip cidrs))
  allowed_lem [] ip = inl (refl, inl refl)
  allowed_lem (cidr ∷ cidrs) ip = elim (Bool-cases (any (ip_matches_cidr ip) (cidr ∷ cidrs))) [
    | inl met ↦ inl (met, inr (meets ip (cidr ∷ cidrs) met))
    | inr missed ↦ inr (missed, (λ e. absurd cc), unmet ip (cidr ∷ cidrs) missed)
  ]

  -- The filter lets an address through exactly when it meets no denied entry and, unless nothing is
  -- listed as allowed, meets an allowed entry, wherever the entries stand. The two functions agree.
  pub filter_lem :
      (security : SecurityConfig) (ip : Text)
      → (is_ip_allowed security ip ≡ is_ip_allowed_for security.allowed_ips security.denied_ips ip)
        × (((is_ip_allowed security ip ≡ true)
              × (¬ Meets ip security.denied_ips)
              × ((security.allowed_ips ≡ []) ⊎ Meets ip security.allowed_ips))
            ⊎ ((is_ip_allowed security ip ≡ false)
                × (Meets ip security.denied_ips
                    ⊎ ((¬ (security.allowed_ips ≡ [])) × (¬ Meets ip security.allowed_ips)))))
  unfolding is_ip_allowed is_ip_allowed_for
  filter_lem security ip = (
    refl,
    elim (Bool-cases (any (ip_matches_cidr ip) security.denied_ips)) [
      | inl denied ↦
          inr (rw (is_ip_allowed, denied) refl, inl (meets ip security.denied_ips denied))
      | inr free ↦ elim (allowed_lem security.allowed_ips ip) [
        | inl (good, why) ↦
            inl (rw (is_ip_allowed, free, good) refl, unmet ip security.denied_ips free, why)
        | inr (bad, listed, missed) ↦ inr (rw (is_ip_allowed, free, bad) refl, inr (listed, missed))
      ]
    ],
  )

  apart6 :
      (ip cidr : Text) (a : Option lib.Ipv6Addr) (net : Option lib.Ipv6Net)
      → (a ≡ none) ⊎ (net ≡ none)
      → match_ipv6 ip cidr a net ≡ text_eq ip cidr
  apart6 ip cidr none net h = refl
  apart6 ip cidr (some a) none h = refl
  apart6 ip cidr (some a) (some net) (inl e) = absurd cc
  apart6 ip cidr (some a) (some net) (inr e) = absurd cc

  apart4 :
      (ip cidr : Text) (a : Option lib.Ipv4Addr) (net : Option lib.Ipv4Net)
      → (a ≡ none) ⊎ (net ≡ none)
      → match_ipv4 ip cidr a net ≡ match_ipv6 ip cidr (lib.parse_ipv6 ip) (lib.parse_ipv6_net cidr)
  apart4 ip cidr none net h = refl
  apart4 ip cidr (some a) none h = refl
  apart4 ip cidr (some a) (some net) (inl e) = absurd cc
  apart4 ip cidr (some a) (some net) (inr e) = absurd cc

  -- An address of one family and an entry of the other only match when they are the same text, or
  -- when the entry stands for everything.
  pub families_apart :
      (ip cidr : Text)
      → (lib.parse_ipv4 ip ≡ none) ⊎ (lib.parse_ipv4_net cidr ≡ none)
      → (lib.parse_ipv6 ip ≡ none) ⊎ (lib.parse_ipv6_net cidr ≡ none)
      → ip_matches_cidr ip cidr
        ≡ (text_eq cidr (text "0.0.0.0/0") || text_eq cidr (text "::/0") || text_eq ip cidr)
  unfolding ip_matches_cidr
  families_apart ip cidr four six =
      rw (apart4 ip cidr _ _ four, apart6 ip cidr _ _ six) (ground arith)
