-- ===== src/Services/Webhooks.antt =====
-- `check_webhook_url` of backend/app/services/webhook_safety.py. The libraries that take an address apart,
-- resolve a host and classify an IP address are the operations of a `Network`.
pub mod Safe
use Prim.Native.String
use meme_agent.Base.{
  ℕ, String, ◌==◌, Bool, true, false, not, ◌&&◌, ◌||◌, ◌≡◌, refl, ◌⊎◌, inl, inr, Option, none, some,
  List, [], ◌∷◌, All, any, keep, Bool-cases, if◌then◌else◌, nat_eq, arith,
}
use meme_agent.Core.Errors.{Error, Result, ok, raised, value_error, ◌>>=◌}

-- `is_global` and the other classes of an address, and the IPv4 address that an IPv6 one may stand for.
pub record IpClass : Type 0 where
  pub is_global : Bool
  pub is_multicast : Bool
  pub is_reserved : Bool
  pub is_loopback : Bool
  pub is_link_local : Bool
  pub is_private : Bool

pub record IpAddress : Type 0 where
  pub class : IpClass
  pub ipv4_mapped : Option IpClass

-- `port` raises ValueError where it is no port.
pub record UrlParts : Type 0 where
  pub scheme : String
  pub username : Option String
  pub password : Option String
  pub hostname : Option String
  pub port : Result (Option ℕ)

-- What `getaddrinfo` gives: the texts of the addresses, in the order in which the loop reads them,
-- gaierror, or another exception.
pub data Lookup : Type 0 where
  addresses : List String → Lookup
  gaierror : Lookup
  other_error : Error → Lookup

-- `urlsplit` is applied to the stripped text and raises ValueError where that is no URL, and `ip_address` is applied to the
-- part before "%" and raises ValueError where that is no address.
pub record Network : Type 0 where
  pub urlsplit : String → Result UrlParts
  pub getaddrinfo : String → ℕ → Lookup
  pub ip_address : String → Result IpAddress

abbrev pub is_public_class : IpClass → Bool
is_public_class a =
    a.is_global
    && not (a.is_multicast || a.is_reserved || a.is_loopback || a.is_link_local || a.is_private)

-- The class that counts.
abbrev pub class_of : IpAddress → Option IpClass → IpClass
class_of a none = a.class
class_of a (some mapped) = mapped

-- The truth of an optional text.
abbrev pub is_given : Option String → Bool
is_given none = false
is_given (some s) = not (s == "")

abbrev pub is_web : String → Bool
is_web scheme = scheme == "https" || scheme == "http"

abbrev pub port_of : String → Option ℕ → ℕ
port_of scheme none = if scheme == "https" then 443 else 80
port_of scheme (some k) = if nat_eq k 0 then (if scheme == "https" then 443 else 80) else k

abbrev pub refused : String → Bool × String
refused reason = (false, reason)

abbrev pub is_value_error : Error → Bool
is_value_error (value_error message) = true
is_value_error _ = false

-- `except ValueError`
abbrev pub refuse_value_error : Error → String → Result (Bool × String)
refuse_value_error e reason = if is_value_error e then ok (refused reason) else raised e

module _ (w : Network) where
  -- `_public`
  unfoldable pub is_public : String → Result Bool
  is_public ip = do a ← w.ip_address ip; ok (is_public_class (class_of a a.ipv4_mapped))

  -- `[a for a in addrs if not _public(a)]`
  unfoldable pub bad_addresses : List String → Result (List String)
  unfolding is_public
  bad_addresses [] = ok []
  bad_addresses (a ∷ addrs) = do
    fine ← is_public a
    bad ← bad_addresses addrs
    ok (if fine then bad else a ∷ bad)

  abbrev pub refuse_bad : List String → Bool × String
  refuse_bad [] = (true, "")
  refuse_bad (a ∷ addrs) =
      refused "That address points to a private or internal network, which webhooks may not use."

  -- Only gaierror is caught.
  abbrev pub check_addresses : Lookup → Result (Bool × String)
  check_addresses gaierror = ok (refused "Cannot resolve the host. Check the address.")
  check_addresses (other_error e) = raised e
  check_addresses (addresses []) = ok (refused "Cannot resolve the host.")
  check_addresses (addresses (a ∷ addrs)) = do bad ← bad_addresses (a ∷ addrs); ok (refuse_bad bad)

  abbrev pub check_port : String → String → Result (Option ℕ) → Result (Bool × String)
  check_port scheme host (raised e) = refuse_value_error e "The URL has an invalid port."
  check_port scheme host (ok port) = check_addresses (w.getaddrinfo host (port_of scheme port))

  abbrev pub check_host : UrlParts → Option String → Result (Bool × String)
  check_host parts none = ok (refused "The URL has no host.")
  check_host parts (some host) =
      if host == ""
      then ok (refused "The URL has no host.")
      else check_port parts.scheme host parts.port

  abbrev pub check_parts : Bool → UrlParts → Result (Bool × String)
  check_parts allow_http parts =
      if not (is_web parts.scheme)
      then ok (refused "The URL must start with https:// (or http://).")
      else if (parts.scheme == "http") && not allow_http
      then ok (refused "Use https://, plain http is not accepted here.")
      else if is_given parts.username || is_given parts.password
      then ok (
          refused
            "Put credentials in the path or a header token, not before the host (user:pass@).")
      else check_host parts parts.hostname

  abbrev pub check_split : Bool → Result UrlParts → Result (Bool × String)
  check_split allow_http (raised e) = refuse_value_error e "That is not a valid URL."
  check_split allow_http (ok parts) = check_parts allow_http parts

  unfoldable pub check_webhook_url : String → Bool → Result (Bool × String)
  unfolding bad_addresses
  check_webhook_url url allow_http = check_split allow_http (w.urlsplit url)
