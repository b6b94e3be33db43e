-- ===== src/UrlValidator/Examples.antt =====
-- A world with two hosts.
use open_langgraph_platform.Prelude.{
  ◌+◌, ◌*◌, ◌^◌, ◌≡◌, refl, true, false, none, some, [], ◌∷◌, codes, text_eq, lower, ends_with, any,
  if◌then◌else◌,
}
use open_langgraph_platform.UrlValidator.{
  v4, v6, quad, is_in, is_blocked_ip, blocked_hostnames, looks_like_internal_hostname, accepted,
  World, check_hostname,
}
use open_langgraph_platform.UrlValidator.Safe.{check_resolved_accepts}

abbrev world : World
world = record {
  urlparse =
      λ url. some (record { scheme = codes "https"; hostname = some (codes "peer.example") });
  ip_address = λ t. if text_eq t (codes "10.0.0.1") then some (v4 (quad 10 0 0 1)) else none;
  resolve_hostname = λ host. some (codes "10.0.0.1" ∷ []);
  require_https = true;
  skip_dns_check = false;
}

not_blocked : any (text_eq (lower (codes "peer.example"))) blocked_hostnames ≡ false
unfolding lower text_eq
not_blocked = refl

no_address : world.ip_address (codes "peer.example") ≡ none
unfolding text_eq
no_address = refl

not_internal : looks_like_internal_hostname (lower (codes "peer.example")) ≡ false
unfolding looks_like_internal_hostname lower ends_with text_eq
not_internal = refl

-- the name resolves to 10.0.0.1
check_resolved_accepts_example : check_hostname world (some (codes "peer.example")) ≡ accepted
check_resolved_accepts_example =
    check_resolved_accepts world (codes "peer.example") (codes "10.0.0.1" ∷ []) (λ e. cc)
      not_blocked no_address not_internal refl

blocked_test : is_blocked_ip (v4 (quad 10 0 0 1)) ≡ true
unfolding is_blocked_ip is_in
blocked_test = refl

-- ::ffff:127.0.0.1, the address of the machine itself
mapped_test : is_blocked_ip (v6 (65535 * 2 ^ 32 + quad 127 0 0 1)) ≡ false
unfolding is_blocked_ip is_in
mapped_test = refl
