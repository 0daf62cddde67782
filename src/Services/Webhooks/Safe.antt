-- ===== src/Services/Webhooks/Safe.antt =====
-- What an accepted webhook address is.
use mathlib.Core.Option.{some-injective}
use meme_agent.Base.{
  zero, suc, subst, sym, ap, ◌∙◌, ℕ, String, ◌==◌, Bool, true, false, not, ◌&&◌, ◌||◌, ◌≡◌, refl,
  inl, inr, Option, none, some, List, [], ◌∷◌, All, Bool-cases, arith,
}
use meme_agent.Core.Errors.{Error, Result, ok, raised}
use meme_agent.Core.Outcomes.{>>=-eq-ok, ok-injective}
use meme_agent.Services.Webhooks.{
  refuse_value_error, is_value_error, IpClass, IpAddress, UrlParts, Lookup, addresses, gaierror,
  other_error, Network, is_given, is_web, is_public_class, class_of, port_of, is_public,
  bad_addresses, refuse_bad, check_addresses, check_port, check_host, check_parts, check_split,
  check_webhook_url,
}

-- An address of the public internet: global, and in none of the special classes.
pub record IsGlobal (a : IpClass) : Type 0 where
  pub global : a.is_global ≡ true
  pub not_multicast : a.is_multicast ≡ false
  pub not_reserved : a.is_reserved ≡ false
  pub not_loopback : a.is_loopback ≡ false
  pub not_link_local : a.is_link_local ≡ false
  pub not_private : a.is_private ≡ false

-- The port that a URL gives, or the one of its scheme where it gives none or 0.
abbrev pub IsPort : String → Option ℕ → ℕ → Type 0
IsPort scheme (some (suc k)) port = port ≡ suc k
IsPort scheme given port =
    ((scheme == "https") ≡ true → port ≡ 443) × ((scheme == "https") ≡ false → port ≡ 80)

not_accepted : (e : Error) (reason why : String) → ¬ (refuse_value_error e reason ≡ ok (true, why))
not_accepted e reason why h = elim (Bool-cases (is_value_error e)) [
  | inl caught ↦ cc (rw caught at h)
  | inr other ↦ cc (rw other at h)
]

module _ (w : Network) where
  -- The address is a global one, and so is the IPv4 address that it stands for, if it does: in that
  -- case its own class does not count.
  pub record IsPublic (ip : String) : Type 0 where
    pub address : IpAddress
    pub read : w.ip_address ip ≡ ok address
    pub own : address.ipv4_mapped ≡ none → IsGlobal address.class
    pub mapped : (v4 : IpClass) → address.ipv4_mapped ≡ some v4 → IsGlobal v4

  -- The host, its port and its addresses.
  pub record IsReachable (parts : UrlParts) : Type 0 where
    pub host : String
    pub hosted : parts.hostname ≡ some host
    pub given : Option ℕ
    pub read : parts.port ≡ ok given
    pub port : ℕ
    pub ported : IsPort parts.scheme given port
    pub first : String
    pub others : List String
    pub resolved : w.getaddrinfo host port ≡ addresses (first ∷ others)
    pub all_public : All IsPublic (first ∷ others)

  -- An address that a webhook may have: a web address without credentials, whose host resolves to at
  -- least one address and to public ones only.
  pub record IsSafe (url : String) (allow_http : Bool) : Type 0 where
    pub parts : UrlParts
    pub split : w.urlsplit url ≡ ok parts
    pub scheme : is_web parts.scheme ≡ true
    pub encrypted : allow_http ≡ false → (parts.scheme == "http") ≡ false
    pub anonymous : (is_given parts.username || is_given parts.password) ≡ false
    pub reachable : IsReachable parts

  public_class-IsGlobal : (a : IpClass) → is_public_class a ≡ true → IsGlobal a
  public_class-IsGlobal a h = record {
    global = ground arith;
    not_multicast = ground arith;
    not_reserved = ground arith;
    not_loopback = ground arith;
    not_link_local = ground arith;
    not_private = ground arith;
  }

  class_of-IsPublic :
      (ip : String) (a : IpAddress) (mapped : Option IpClass)
      → w.ip_address ip ≡ ok a
      → a.ipv4_mapped ≡ mapped
      → is_public_class (class_of a mapped) ≡ true
      → IsPublic ip
  class_of-IsPublic ip a none read e h = record {
    address = a;
    read = read;
    own = λ k. public_class-IsGlobal a.class h;
    mapped = λ v4 k. cc;
  }
  class_of-IsPublic ip a (some v4) read e h = record {
    address = a;
    read = read;
    own = λ k. cc;
    mapped = λ v k. subst IsGlobal (some-injective _ _ (sym e ∙ k)) (public_class-IsGlobal v4 h);
  }

  is_public-IsPublic : (ip : String) → is_public w ip ≡ ok true → IsPublic ip
  unfolding is_public
  is_public-IsPublic ip h =
      let (a, (read, made)) = >>=-eq-ok _ (w.ip_address ip) h in
      class_of-IsPublic ip a _ read refl (ok-injective _ _ made)

  -- Where no address is bad, all are public.
  bad_addresses-IsPublic : (ips : List String) → bad_addresses w ips ≡ ok [] → All IsPublic ips
  unfolding bad_addresses
  bad_addresses-IsPublic [] h = tt
  bad_addresses-IsPublic (ip ∷ ips) h =
      let (fine, (asked, h1)) = >>=-eq-ok _ (is_public w ip) h in
      let (bad, (rest, made)) = >>=-eq-ok _ (bad_addresses w ips) h1 in
      elim (Bool-cases fine) [
        | inl e ↦
            let no_bad : bad ≡ [] = rw e at (ok-injective _ _ made) in
            (
              is_public-IsPublic ip (asked ∙ ap ok e),
              bad_addresses-IsPublic ips (rest ∙ ap ok no_bad),
            )
        | inr e ↦ cc (rw e at (ok-injective _ _ made))
      ]

  accepted_bad : (bad : List String) (why : String) → refuse_bad w bad ≡ (true, why) → bad ≡ []
  accepted_bad [] why h = refl
  accepted_bad (a ∷ bad) why h = cc

  check_addresses-IsPublic :
      (found : Lookup) (why : String)
      → check_addresses w found ≡ ok (true, why)
      → (first : String) × ((others : List String) × ((found ≡ addresses (first ∷ others))
            × All IsPublic (first ∷ others)))
  check_addresses-IsPublic gaierror why h = cc
  check_addresses-IsPublic (other_error e) why h = cc
  check_addresses-IsPublic (addresses []) why h = cc
  check_addresses-IsPublic (addresses (a ∷ addrs)) why h =
      let (bad, (asked, made)) = >>=-eq-ok _ (bad_addresses w (a ∷ addrs)) h in
      let no_bad = accepted_bad bad why (ok-injective _ _ made) in
      (a, (addrs, (refl, bad_addresses-IsPublic (a ∷ addrs) (asked ∙ ap ok no_bad))))

  port_of-IsPort : (scheme : String) (given : Option ℕ) → IsPort scheme given (port_of scheme given)
  port_of-IsPort scheme none = (λ h. rw h refl, λ h. rw h refl)
  port_of-IsPort scheme (some zero) = (λ h. rw h refl, λ h. rw h refl)
  port_of-IsPort scheme (some (suc k)) = ground arith

  check_port-IsReachable :
      (parts : UrlParts) (host why : String) (port : Result (Option ℕ))
      → parts.hostname ≡ some host
      → parts.port ≡ port
      → check_port w parts.scheme host port ≡ ok (true, why)
      → IsReachable parts
  check_port-IsReachable parts host why (raised e) hosted read h =
      absurd (not_accepted e "The URL has an invalid port." why h)
  check_port-IsReachable parts host why (ok given) hosted read h =
      let (first, (others, (resolved, all_public))) = check_addresses-IsPublic _ why h in
      record {
        host = host;
        hosted = hosted;
        given = given;
        read = read;
        port = port_of parts.scheme given;
        ported = port_of-IsPort parts.scheme given;
        first = first;
        others = others;
        resolved = resolved;
        all_public = all_public;
      }

  check_host-IsReachable :
      (parts : UrlParts) (name : Option String) (why : String)
      → parts.hostname ≡ name
      → check_host w parts name ≡ ok (true, why)
      → IsReachable parts
  check_host-IsReachable parts none why hosted h = cc
  check_host-IsReachable parts (some host) why hosted h = elim (Bool-cases (host == "")) [
    | inl empty ↦ cc (rw empty at h)
    | inr named ↦ check_port-IsReachable parts host why parts.port hosted refl (rw named at h)
  ]

  not_http : (http allowed : Bool) → (http && not allowed) ≡ false → allowed ≡ false → http ≡ false
  not_http http allowed h e = ground arith

  -- The first three tests have let the address through.
  check_parts-passes :
      (allow_http : Bool) (parts : UrlParts) (why : String)
      → check_parts w allow_http parts ≡ ok (true, why)
      → (is_web parts.scheme ≡ true)
        × ((((parts.scheme == "http") && not allow_http) ≡ false)
            × (((is_given parts.username || is_given parts.password) ≡ false)
                × (check_host w parts parts.hostname ≡ ok (true, why))))
  check_parts-passes allow_http parts why h = elim (Bool-cases (is_web parts.scheme)) [
    | inr other ↦ cc (rw other at h)
    | inl web ↦ elim (Bool-cases ((parts.scheme == "http") && not allow_http)) [
      | inl plain ↦ cc (rw (web, plain) at h)
      | inr fine ↦ elim (Bool-cases (is_given parts.username || is_given parts.password)) [
        | inl named ↦ cc (rw (web, fine, named) at h)
        | inr anonymous ↦ (web, (fine, (anonymous, rw (web, fine, anonymous) at h)))
      ]
    ]
  ]

  check_split-IsSafe :
      (url : String) (allow_http : Bool) (why : String) (found : Result UrlParts)
      → w.urlsplit url ≡ found
      → check_split w allow_http found ≡ ok (true, why)
      → IsSafe url allow_http
  check_split-IsSafe url allow_http why (raised e) split h =
      absurd (not_accepted e "That is not a valid URL." why h)
  check_split-IsSafe url allow_http why (ok parts) split h =
      let (web, (fine, (anonymous, rest))) = check_parts-passes allow_http parts why h in
      record {
        parts = parts;
        split = split;
        scheme = web;
        encrypted = not_http _ _ fine;
        anonymous = anonymous;
        reachable = check_host-IsReachable parts parts.hostname why refl rest;
      }

  -- A webhook address is accepted only if it is a web address, encrypted where plain http is not
  -- allowed, without credentials, and its host resolves, at its port or the one of its scheme, to at
  -- least one address and only to readable addresses that are global and in no special class; of an
  -- IPv6 address that stands for an IPv4 one, this is asked of the latter.
  pub check_webhook_url-IsSafe :
      (url : String) (allow_http : Bool) (why : String)
      → check_webhook_url w url allow_http ≡ ok (true, why)
      → IsSafe url allow_http
  unfolding check_webhook_url
  check_webhook_url-IsSafe url allow_http why =
      check_split-IsSafe url allow_http why (w.urlsplit url) refl
