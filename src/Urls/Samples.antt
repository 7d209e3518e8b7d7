-- ===== src/Urls/Samples.antt =====
-- A network in which a name resolves to a private address, and the theorem about URLs at it.
use fork_glitchtip_glitchtip.Common.{
  ◌≡◌, ◌↔◌, Bool, true, false, none, some, [], ◌∷◌, if◌then◌else◌,
}
use fork_glitchtip_glitchtip.Ingest.Scrub.Keys.{same_text}
use fork_glitchtip_glitchtip.Urls.{
  Address, Network, found, safe, valid, parse_hostname, check_url_safe, validate_public_url,
}
use fork_glitchtip_glitchtip.Urls.Public.{PublicHost, checked_urls_public}

abbrev address : Bool → Address
address private = record {
  is_private = private;
  is_loopback = false;
  is_link_local = false;
  is_reserved = false;
  is_multicast = false;
}

-- 8.8.8.8 is public, 10.0.0.1 is private, and every name resolves to 10.0.0.1
abbrev network : Network
network = record {
  ip_address = λ s.
      if same_text s "10.0.0.1"
      then some (address true)
      else if same_text s "8.8.8.8"
      then some (address false)
      else none;
  url_hostname = λ url. some (some "intranet");
  resolve = λ name. found ("10.0.0.1" ∷ []);
}

checked_urls_public_example :
    ((check_url_safe network "intranet:80" false ≡ safe)
      ↔ PublicHost network true (parse_hostname network "intranet:80"))
    × ((validate_public_url network "intranet:80" false ≡ valid)
        ↔ PublicHost network false (parse_hostname network "intranet:80"))
checked_urls_public_example = checked_urls_public network "intranet:80"
