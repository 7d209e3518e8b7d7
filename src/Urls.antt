-- ===== src/Urls.antt =====
-- Where outbound requests may go (glitchtip/url_validation.py). Python's `ipaddress` and `urlparse`
-- and the name resolution are parameters.
pub mod Public
mod Samples
use Prim.Native.Char.{Char, code}
use Prim.Native.String
use Prim.Native.String.{String}
use text.Mathlib.Text.{find?}
use fork_glitchtip_glitchtip.Common.{
  ℕ, Bool, true, false, not, ◌||◌, Option, none, some, List, [], ◌∷◌, ◌==◌, if◌then◌else◌,
}

-- an address, as `ipaddress` classifies it
pub record Address : Type 0 where
  pub is_private : Bool
  pub is_loopback : Bool
  pub is_link_local : Bool
  pub is_reserved : Bool
  pub is_multicast : Bool

-- how `getaddrinfo` ends: with addresses, with `socket.gaierror`, with another OSError (a gaierror
-- is one too), or with the UnicodeError of a name that has no IDNA form
pub data Resolution : Type 0 where
  found : List String → Resolution
  gaierror os_error unicode_error : Resolution

pub record Network : Type 0 where
  pub ip_address : String → Option Address  -- none where it raises ValueError
  pub url_hostname : String → Option (Option String)  -- `urlparse(url).hostname`, likewise
  pub resolve : String → Resolution

-- the answer of `check_url_safe`, or an error of `urlparse`, `is_ip_blocked` or `getaddrinfo`
pub data Safety : Type 0 where
  safe unsafe raised : Safety

-- `validate_public_url` returns, or raises one of its two errors, or one of `urlparse`,
-- `is_ip_blocked` or `getaddrinfo`
pub data Validation : Type 0 where
  valid no_hostname blocked_ip not_validated : Validation

-- `url.split(":")[0]`
pub before_colon : String → String
before_colon String.[] = ""
before_colon (String.◌∷◌ c s) =
    let rest = before_colon s in if code c == 58 then "" else String.◌∷◌ c rest

abbrev pub has_scheme : String → Bool
has_scheme url = elim (find? url "://") [ none ↦ false | some i ↦ true ]

pub non_empty : Option String → Option String
non_empty none = none
non_empty (some String.[]) = none
non_empty (some (String.◌∷◌ c s)) = some (String.◌∷◌ c s)

pub named_host : Option (Option String) → Option (Option String)
named_host none = none
named_host (some name) = some (non_empty name)

module _ (net : Network) where
  pub is_ip_blocked : String → Option Bool
  is_ip_blocked ip_str = elim (net.ip_address ip_str) [
    | none ↦ none
    | some ip ↦ some (
        ip.is_private
        || (ip.is_loopback || (ip.is_link_local || (ip.is_reserved || ip.is_multicast))))
  ]

  -- none is a ValueError of `urlparse`; an empty name counts as none
  pub parse_hostname : String → Option (Option String)
  parse_hostname url =
      named_host (if has_scheme url then net.url_hostname url else some (some (before_colon url)))

  pub is_ip_literal : String → Bool
  is_ip_literal hostname = elim (net.ip_address hostname) [ none ↦ false | some ip ↦ true ]

  -- the test of an address; what follows it if it is not blocked
  pub safe_ip : Option Bool → Safety → Safety
  safe_ip none rest = raised
  safe_ip (some true) rest = unsafe
  safe_ip (some false) rest = rest

  pub all_safe : List String → Safety
  all_safe [] = safe
  all_safe (info ∷ infos) = safe_ip (is_ip_blocked info) (all_safe infos)

  -- `except OSError`
  pub resolved_safe : Resolution → Safety
  resolved_safe (found infos) = all_safe infos
  resolved_safe gaierror = safe
  resolved_safe os_error = safe
  resolved_safe unicode_error = raised

  pub host_safe : Option String → Safety
  host_safe none = unsafe
  host_safe (some hostname) =
      if is_ip_literal hostname
      then safe_ip (is_ip_blocked hostname) safe
      else resolved_safe (net.resolve hostname)

  pub parsed_safe : Option (Option String) → Safety
  parsed_safe none = raised
  parsed_safe (some hostname) = host_safe hostname

  pub check_url_safe : String → Bool → Safety
  check_url_safe url allow_private =
      if allow_private then safe else parsed_safe (parse_hostname url)

  pub valid_ip : Option Bool → Validation → Validation
  valid_ip none rest = not_validated
  valid_ip (some true) rest = blocked_ip
  valid_ip (some false) rest = rest

  pub all_valid : List String → Validation
  all_valid [] = valid
  all_valid (info ∷ infos) = valid_ip (is_ip_blocked info) (all_valid infos)

  -- `except socket.gaierror`
  pub resolved_valid : Resolution → Validation
  resolved_valid (found infos) = all_valid infos
  resolved_valid gaierror = valid
  resolved_valid os_error = not_validated
  resolved_valid unicode_error = not_validated

  pub host_valid : Option String → Validation
  host_valid none = no_hostname
  host_valid (some hostname) =
      if is_ip_literal hostname
      then valid_ip (is_ip_blocked hostname) valid
      else resolved_valid (net.resolve hostname)

  pub parsed_valid : Option (Option String) → Validation
  parsed_valid none = not_validated
  parsed_valid (some hostname) = host_valid hostname

  pub validate_public_url : String → Bool → Validation
  validate_public_url url allow_private =
      if allow_private then valid else parsed_valid (parse_hostname url)
