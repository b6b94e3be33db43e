-- ===== src/UrlValidator.antt =====
-- utils/url_validator.py: URLs that the server may call. What `urlparse`, `ipaddress.ip_address` and the
-- resolver make of a text are arguments; addresses are numbers of 32 or of 128 bits.
pub mod Safe
mod Examples
use open_langgraph_platform.Prelude.{
  ℕ, zero, suc, ◌+◌, ◌*◌, ◌-◌, ◌/◌, ◌^◌, Bool, true, false, ◌&&◌, ◌||◌, not, Option, none, some,
  List, [], ◌∷◌, Text, codes, text_eq, lower, ends_with, length, any, ltb, ◌==◌, if◌then◌else◌,
  or_else,
}

pub data IpAddress : Type 0 where
  v4 v6 : ℕ → IpAddress

-- an address and the length of its prefix
pub data IpNetwork : Type 0 where
  network4 network6 : ℕ → ℕ → IpNetwork

abbrev pub quad : ℕ → ℕ → ℕ → ℕ → ℕ
quad a b c d = ((a * 256 + b) * 256 + c) * 256 + d

abbrev pub blocked_ip_ranges : List IpNetwork
blocked_ip_ranges =
    network4 (quad 10 0 0 0) 8
    ∷ network4 (quad 172 16 0 0) 12
    ∷ network4 (quad 192 168 0 0) 16
    ∷ network4 (quad 127 0 0 0) 8
    ∷ network6 1 128
    ∷ network4 (quad 169 254 0 0) 16
    ∷ network6 (65152 * 2 ^ 112) 10
    ∷ network4 (quad 100 64 0 0) 10
    ∷ network4 (quad 192 0 2 0) 24
    ∷ network4 (quad 198 51 100 0) 24
    ∷ network4 (quad 203 0 113 0) 24
    ∷ network4 0 8
    ∷ network4 (quad 255 255 255 255) 32
    ∷ []

-- `ip in network`: an address of the other version is in no network
unfoldable pub is_in : IpAddress → IpNetwork → Bool
is_in (v4 n) (network4 base prefix) = (n / 2 ^ (32 - prefix)) == (base / 2 ^ (32 - prefix))
is_in (v6 n) (network6 base prefix) = (n / 2 ^ (128 - prefix)) == (base / 2 ^ (128 - prefix))
is_in (v4 n) (network6 base prefix) = false
is_in (v6 n) (network4 base prefix) = false

unfoldable pub is_blocked_ip : IpAddress → Bool
unfolding is_in
is_blocked_ip ip = any (is_in ip) blocked_ip_ranges

abbrev pub blocked_hostnames : List Text
blocked_hostnames =
    codes "localhost"
    ∷ codes "localhost.localdomain"
    ∷ codes "local"
    ∷ codes "metadata.google.internal"
    ∷ codes "169.254.169.254"
    ∷ codes "metadata"
    ∷ codes "kubernetes.default.svc"
    ∷ codes "kubernetes.default"
    ∷ codes "kubernetes"
    ∷ []

abbrev pub internal_patterns : List Text
internal_patterns =
    codes ".internal"
    ∷ codes ".local"
    ∷ codes ".localhost"
    ∷ codes ".localdomain"
    ∷ codes ".intranet"
    ∷ codes ".corp"
    ∷ codes ".private"
    ∷ codes ".cluster.local"
    ∷ codes ".svc.cluster.local"
    ∷ codes ".ec2.internal"
    ∷ codes ".compute.internal"
    ∷ codes ".docker.internal"
    ∷ codes "host.docker.internal"
    ∷ []

-- `s.lstrip(".")`
lstrip_dots : Text → Text
lstrip_dots [] = []
lstrip_dots (c ∷ s) = let rest = lstrip_dots s in if c == 46 then rest else c ∷ s

unfoldable pub looks_like_internal_hostname : Text → Bool
unfolding ends_with text_eq lstrip_dots
looks_like_internal_hostname hostname =
    any (λ p. ends_with hostname p || text_eq hostname (lstrip_dots p)) internal_patterns

pub data Reason : Type 0 where
  empty too_long parse_error invalid_scheme https_required no_hostname blocked_hostname : Reason
  blocked_ip_range internal_hostname dns_resolution_failed resolved_ip_blocked : Reason

pub data Verdict : Type 0 where
  accepted : Verdict
  refused : Reason → Verdict

-- what `urlparse` answers
pub record Parsed : Type 0 where
  pub scheme : Text
  pub hostname : Option Text

-- The environment: `urlparse` or its exception, `ip_address` or its `ValueError`, the addresses of a
-- name as texts, or `none` where it does not resolve, and the two settings.
pub record World : Type 0 where
  pub urlparse : Text → Option Parsed
  pub ip_address : Text → Option IpAddress
  pub resolve_hostname : Text → Option (List Text)
  pub require_https : Bool
  pub skip_dns_check : Bool

-- the exceptions of the loop over resolved addresses; the second class is derived from the first
pub data Exception : Type 0 where
  value_error : Exception
  ssrf_validation_error : Reason → Exception

unfoldable pub is_value_error : Exception → Bool
is_value_error value_error = true
is_value_error (ssrf_validation_error r) = true

-- the body of the `try`: what it raises
unfoldable pub try_address : Option IpAddress → Option Exception
unfolding is_blocked_ip
try_address none = some value_error
try_address (some ip) =
    if is_blocked_ip ip then some (ssrf_validation_error resolved_ip_blocked) else none

-- `except ValueError: continue`: what leaves the loop
unfoldable pub check_addresses : World → List Text → Option Exception
unfolding try_address is_value_error
check_addresses w [] = none
check_addresses w (t ∷ texts) =
    let rest = check_addresses w texts in
    elim (try_address (w.ip_address t)) [
      | none ↦ rest
      | some e ↦ if is_value_error e then rest else some e
    ]

unfoldable pub verdict_of : Option Exception → Verdict
verdict_of none = accepted
verdict_of (some value_error) = refused parse_error
verdict_of (some (ssrf_validation_error r)) = refused r

unfoldable pub check_resolved : World → Option (List Text) → Verdict
unfolding check_addresses verdict_of
check_resolved w none = refused dns_resolution_failed
check_resolved w (some texts) = verdict_of (check_addresses w texts)

-- a hostname that is an address, or else a name
unfoldable pub check_address : World → Text → Option IpAddress → Verdict
unfolding is_blocked_ip looks_like_internal_hostname check_resolved lower
check_address w hostname (some ip) = if is_blocked_ip ip then refused blocked_ip_range else accepted
check_address w hostname none =
    if looks_like_internal_hostname (lower hostname)
    then refused internal_hostname
    else if w.skip_dns_check
    then accepted
    else check_resolved w (w.resolve_hostname hostname)

unfoldable pub check_hostname : World → Option Text → Verdict
unfolding check_address lower text_eq
check_hostname w none = refused no_hostname
check_hostname w (some []) = refused no_hostname
check_hostname w (some (c ∷ hostname)) =
    if any (text_eq (lower (c ∷ hostname))) blocked_hostnames
    then refused blocked_hostname
    else check_address w (c ∷ hostname) (w.ip_address (c ∷ hostname))

unfoldable pub is_http : Text → Bool
unfolding text_eq
is_http scheme = text_eq scheme (codes "http")

unfoldable pub is_https : Text → Bool
unfolding text_eq
is_https scheme = text_eq scheme (codes "https")

unfoldable pub check_parsed : World → Option Parsed → Verdict
unfolding check_hostname lower is_http is_https
check_parsed w none = refused parse_error
check_parsed w (some p) =
    let scheme = lower p.scheme in
    if not (is_http scheme || is_https scheme)
    then refused invalid_scheme
    else if w.require_https && not (is_https scheme)
    then refused https_required
    else check_hostname w p.hostname

-- An unusual port is only logged.
unfoldable pub validate_url_for_ssrf : World → Text → Verdict
unfolding check_parsed
validate_url_for_ssrf w [] = refused empty
validate_url_for_ssrf w (c ∷ url) =
    if ltb 2048 (length (c ∷ url)) then refused too_long else check_parsed w (w.urlparse (c ∷ url))

unfoldable pub is_safe_url : World → Text → Bool
unfolding validate_url_for_ssrf
is_safe_url w url = elim (validate_url_for_ssrf w url) [ accepted ↦ true | refused r ↦ false ]
