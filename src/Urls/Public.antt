-- ===== src/Urls/Public.antt =====
-- The check at run time and the validation of input accept the public URLs.
use Prim.Native.String.{String}
use fork_glitchtip_glitchtip.Common.{
  ◌≡◌, ◌↔◌, ◌⊎◌, inl, inr, Bool, true, false, ◌||◌, Option, none, some, List, [], ◌∷◌, All, refl,
  arith, Option-cases,
}
use fork_glitchtip_glitchtip.Urls.{
  Address, Network, Resolution, found, gaierror, os_error, unicode_error, Safety, safe, Validation,
  valid, is_ip_blocked, parse_hostname, is_ip_literal, safe_ip, all_safe, resolved_safe, host_safe,
  parsed_safe, check_url_safe, valid_ip, all_valid, resolved_valid, host_valid, parsed_valid,
  validate_public_url,
}

-- The address is of none of the five classes.
abbrev pub PublicAddress : Option Address → Type 0
PublicAddress none = ⊥
PublicAddress (some ip) =
    (ip.is_private ≡ false)
    × (ip.is_loopback ≡ false)
    × (ip.is_link_local ≡ false)
    × (ip.is_reserved ≡ false)
    × (ip.is_multicast ≡ false)

any_of_five :
    (a b c d e : Bool)
    → (◌≡◌ {A = Option Bool} (some (a || (b || (c || (d || e))))) (some false))
      ↔ ((a ≡ false) × (b ≡ false) × (c ≡ false) × (d ≡ false) × (e ≡ false))
any_of_five a b c d e = ground arith

module _ (net : Network) where
  -- Every address that a name is resolved to is public, or the resolution fails: with a gaierror,
  -- or, where these count as well, with another OSError.
  abbrev pub PublicName : Bool → Resolution → Type 0
  PublicName errors_pass (found infos) = All (λ info. PublicAddress (net.ip_address info)) infos
  PublicName errors_pass gaierror = Unit
  PublicName errors_pass os_error = errors_pass ≡ true
  PublicName errors_pass unicode_error = ⊥

  abbrev pub PublicText : Bool → Option Address → Resolution → Type 0
  PublicText errors_pass none resolution = PublicName errors_pass resolution
  PublicText errors_pass (some ip) resolution = PublicAddress (some ip)

  -- The URL has a host, and that is a public address or a name that is public.
  abbrev pub PublicHost : Bool → Option (Option String) → Type 0
  PublicHost errors_pass none = ⊥
  PublicHost errors_pass (some none) = ⊥
  PublicHost errors_pass (some (some h)) = PublicText errors_pass (net.ip_address h) (net.resolve h)

  blocked_iff :
      (ip : String) → (is_ip_blocked net ip ≡ some false) ↔ PublicAddress (net.ip_address ip)
  unfolding is_ip_blocked
  blocked_iff ip = elim (Option-cases (net.ip_address ip)) [
    | inl e ↦ rw (is_ip_blocked, e) (λ h. cc, λ h. elim h [ ])
    | inr (a, e) ↦
        rw (is_ip_blocked, e)
          (any_of_five a.is_private a.is_loopback a.is_link_local a.is_reserved a.is_multicast)
  ]

  safe_ip_iff :
      (o : Option Bool) (rest : Safety)
      → (safe_ip net o rest ≡ safe) ↔ ((o ≡ some false) × (rest ≡ safe))
  unfolding safe_ip
  safe_ip_iff none rest = (λ h. cc, λ (h, r). cc)
  safe_ip_iff (some true) rest = (λ h. cc, λ (h, r). cc)
  safe_ip_iff (some false) rest = (λ h. (refl, h), λ (h, r). r)

  valid_ip_iff :
      (o : Option Bool) (rest : Validation)
      → (valid_ip net o rest ≡ valid) ↔ ((o ≡ some false) × (rest ≡ valid))
  unfolding valid_ip
  valid_ip_iff none rest = (λ h. cc, λ (h, r). cc)
  valid_ip_iff (some true) rest = (λ h. cc, λ (h, r). cc)
  valid_ip_iff (some false) rest = (λ h. (refl, h), λ (h, r). r)

  all_safe_iff :
      (infos : List String)
      → (all_safe net infos ≡ safe) ↔ All (λ info. PublicAddress (net.ip_address info)) infos
  unfolding all_safe
  all_safe_iff [] = (λ h. tt, λ h. refl)
  all_safe_iff (i ∷ is) =
      let (to, from) = all_safe_iff is in
      let (split, join) = safe_ip_iff (is_ip_blocked net i) (all_safe net is) in
      let (to_public, from_public) = blocked_iff i in
      (λ h. let (a, r) = split h in (to_public a, to r), λ (a, r). join (from_public a, from r))

  all_valid_iff :
      (infos : List String)
      → (all_valid net infos ≡ valid) ↔ All (λ info. PublicAddress (net.ip_address info)) infos
  unfolding all_valid
  all_valid_iff [] = (λ h. tt, λ h. refl)
  all_valid_iff (i ∷ is) =
      let (to, from) = all_valid_iff is in
      let (split, join) = valid_ip_iff (is_ip_blocked net i) (all_valid net is) in
      let (to_public, from_public) = blocked_iff i in
      (λ h. let (a, r) = split h in (to_public a, to r), λ (a, r). join (from_public a, from r))

  resolved_iff :
      (r : Resolution)
      → ((resolved_safe net r ≡ safe) ↔ PublicName true r)
        × ((resolved_valid net r ≡ valid) ↔ PublicName false r)
  unfolding resolved_safe resolved_valid
  resolved_iff (found infos) = (all_safe_iff infos, all_valid_iff infos)
  resolved_iff gaierror = ((λ h. tt, λ h. refl), (λ h. tt, λ h. refl))
  resolved_iff os_error = ((λ h. refl, λ h. refl), (λ h. cc, λ h. cc))
  resolved_iff unicode_error = ((λ h. cc, λ h. elim h [ ]), (λ h. cc, λ h. elim h [ ]))

  literal_iff :
      (h : String)
      → ((safe_ip net (is_ip_blocked net h) safe ≡ safe) ↔ PublicAddress (net.ip_address h))
        × ((valid_ip net (is_ip_blocked net h) valid ≡ valid) ↔ PublicAddress (net.ip_address h))
  literal_iff h =
      let (to, from) = safe_ip_iff (is_ip_blocked net h) safe in
      let (to', from') = valid_ip_iff (is_ip_blocked net h) valid in
      let (to_public, from_public) = blocked_iff h in
      (
        (λ p. to_public (to p).0, λ e. from (from_public e, refl)),
        (λ p. to_public (to' p).0, λ e. from' (from_public e, refl)),
      )

  literal_cases :
      (h : String)
      → ((net.ip_address h ≡ none) × (is_ip_literal net h ≡ false))
        ⊎ ((ip : Address) × (net.ip_address h ≡ some ip) × (is_ip_literal net h ≡ true))
  unfolding is_ip_literal
  literal_cases h = elim (Option-cases (net.ip_address h)) [
    | inl e ↦ inl (e, rw (is_ip_literal, e) refl)
    | inr (ip, e) ↦ inr (ip, e, rw (is_ip_literal, e) refl)
  ]

  host_iff :
      (h : String)
      → ((host_safe net (some h) ≡ safe) ↔ PublicHost true (some (some h)))
        × ((host_valid net (some h) ≡ valid) ↔ PublicHost false (some (some h)))
  unfolding host_safe host_valid
  host_iff h = elim (literal_cases h) [
    | inl (e, name) ↦ rw (name, e) (resolved_iff (net.resolve h))
    | inr (ip, e, literal) ↦ let l = literal_iff h in rw (literal, e) (rw e at l)
  ]

  parsed_iff :
      (o : Option (Option String))
      → ((parsed_safe net o ≡ safe) ↔ PublicHost true o)
        × ((parsed_valid net o ≡ valid) ↔ PublicHost false o)
  unfolding parsed_safe parsed_valid host_safe host_valid
  parsed_iff none = ((λ h. cc, λ h. elim h [ ]), (λ h. cc, λ h. elim h [ ]))
  parsed_iff (some none) = ((λ h. cc, λ h. elim h [ ]), (λ h. cc, λ h. elim h [ ]))
  parsed_iff (some (some h)) = host_iff h

  -- Where private addresses are not allowed, the check before a request passes exactly the URLs
  -- whose host is an address of none of the five classes, or a name that is resolved only to such
  -- addresses or whose resolution fails with an OSError. The validation of input accepts exactly
  -- these, with the same resolution, but of the failures only a gaierror. A URL without a host, one
  -- that `urlparse` refuses and a name that has no IDNA form pass neither.
  pub checked_urls_public :
      (url : String)
      → ((check_url_safe net url false ≡ safe) ↔ PublicHost true (parse_hostname net url))
        × ((validate_public_url net url false ≡ valid) ↔ PublicHost false (parse_hostname net url))
  unfolding check_url_safe validate_public_url
  checked_urls_public url = parsed_iff (parse_hostname net url)
