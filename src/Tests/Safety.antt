-- ===== src/Tests/Safety.antt =====
-- A webhook address that is accepted, and one that is not.
use meme_agent.Base.{String, ◌==◌, true, false, ◌≡◌, refl, none, some, List, [], ◌∷◌, if◌then◌else◌}
use meme_agent.Core.Errors.{ok}
use meme_agent.Services.Webhooks.{
  IpClass, UrlParts, addresses, bad_addresses, Network, is_public, check_webhook_url, refused,
}
use meme_agent.Services.Webhooks.Safe.{IsSafe, check_webhook_url-IsSafe}

abbrev global_class : IpClass
global_class = record {
  is_global = true;
  is_multicast = false;
  is_reserved = false;
  is_loopback = false;
  is_link_local = false;
  is_private = false;
}

abbrev link_local : IpClass
link_local = record global_class { is_global = false; is_link_local = true }

abbrev hook_parts : String → UrlParts
hook_parts url = record {
  scheme = "https";
  username = none;
  password = none;
  hostname = some (if url == "https://hooks.example/x" then "hooks.example" else "metadata");
  port = ok none;
}

abbrev resolved : String → List String
resolved host = if host == "hooks.example" then "203.0.114.7" ∷ [] else "169.254.169.254" ∷ []

abbrev network : Network
network = record {
  urlsplit = λ url. ok (hook_parts url);
  getaddrinfo = λ host port. addresses (resolved host);
  ip_address = λ ip. ok record {
    class = if ip == "169.254.169.254" then link_local else global_class;
    ipv4_mapped = none;
  };
}

check_webhook_url-IsSafe_example : IsSafe network "https://hooks.example/x" false
unfolding check_webhook_url bad_addresses is_public
check_webhook_url-IsSafe_example =
    check_webhook_url-IsSafe network "https://hooks.example/x" false "" refl

metadata_refused :
    check_webhook_url network "https://metadata/latest" true
    ≡ ok (
        refused "That address points to a private or internal network, which webhooks may not use.")
unfolding check_webhook_url bad_addresses is_public
metadata_refused = refl
