-- ===== src/UrlValidator/Safe.antt =====
-- What an accepted URL is known to be, and what passes.
use open_langgraph_platform.Prelude.{
  ℕ, ◌*◌, ◌^◌, ◌≤◌, ◌<◌, ◌≡◌, ◌≢◌, refl, ◌⊎◌, All, ends_with, false, Option, none, some, List, [],
  ◌∷◌, Text, codes, text_eq, lower, any, if◌then◌else◌, Bool-cases, inl, inr,
}
use open_langgraph_platform.UrlValidator.{
  IpAddress, v4, v6, quad, is_blocked_ip, blocked_hostnames, looks_like_internal_hostname, accepted,
  World, Exception, try_address, is_value_error, check_addresses, verdict_of, check_resolved,
  check_address, check_hostname,
}

-- the addresses 10/8, 172.16/12, 192.168/16, 127/8, 169.254/16, 100.64/10 and 0/8, by their first and last
abbrev pub private_ranges : List (ℕ × ℕ)
private_ranges =
    (quad 10 0 0 0, quad 10 255 255 255)
    ∷ (quad 172 16 0 0, quad 172 31 255 255)
    ∷ (quad 192 168 0 0, quad 192 168 255 255)
    ∷ (quad 127 0 0 0, quad 127 255 255 255)
    ∷ (quad 169 254 0 0, quad 169 254 255 255)
    ∷ (quad 100 64 0 0, quad 100 127 255 255)
    ∷ (quad 0 0 0 0, quad 0 255 255 255)
    ∷ []

-- An address in none of these ranges, nor the broadcast address; of the other kind, neither ::1 nor one that
-- begins with the ten bits of fe80.
abbrev pub Public : IpAddress → Type 0
Public (v4 n) =
    All (λ (r : ℕ × ℕ). (n < r.0) ⊎ (r.1 < n)) private_ranges × (n ≢ quad 255 255 255 255)
Public (v6 n) = (n ≢ 1) × ((n < 65152 * 2 ^ 112) ⊎ (65216 * 2 ^ 112 ≤ n))

-- names of the machine itself, of the cloud's metadata service and of the cluster
abbrev pub own_names : List Text
own_names =
    codes "localhost"
    ∷ codes "local"
    ∷ codes "metadata"
    ∷ codes "metadata.google.internal"
    ∷ codes "169.254.169.254"
    ∷ codes "kubernetes"
    ∷ codes "kubernetes.default"
    ∷ codes "kubernetes.default.svc"
    ∷ []

-- endings of names inside a network
abbrev pub inner_endings : List Text
inner_endings =
    codes ".internal"
    ∷ codes ".local"
    ∷ codes ".localhost"
    ∷ codes ".localdomain"
    ∷ codes ".intranet"
    ∷ codes ".corp"
    ∷ codes ".private"
    ∷ []

-- What an accepted hostname is: not empty, none of these names in any case, and a public address or a name
-- with none of these endings.
pub record Allowed (w : World) (hostname : Text) : Type 0 where
  pub given : hostname ≢ []
  pub not_own : All (λ t. text_eq (lower hostname) t ≡ false) own_names
  pub outside :
      ((ip : IpAddress) × (w.ip_address hostname ≡ some ip) × Public ip)
      ⊎ ((w.ip_address hostname ≡ none)
          × All (λ t. ends_with (lower hostname) t ≡ false) inner_endings)

passed :
    (o : Option IpAddress) (rest : Option Exception)
    → rest ≡ none
    → elim (try_address o) [ none ↦ rest | some e ↦ if is_value_error e then rest else some e ]
      ≡ none
unfolding try_address is_value_error
passed none rest h = h
passed (some ip) rest h = elim (Bool-cases (is_blocked_ip ip)) [ inl p ↦ rw p h | inr p ↦ rw p h ]

nothing_leaves : (w : World) (texts : List Text) → check_addresses w texts ≡ none
unfolding check_addresses try_address is_value_error
nothing_leaves w [] = refl
nothing_leaves w (t ∷ texts) =
    passed (w.ip_address t) (check_addresses w texts) (nothing_leaves w texts)

-- The addresses that a name resolves to are looked at in vain: the exception that refuses a blocked one
-- is a ValueError and is caught by the handler for texts that are no addresses. A name that is not
-- blocked and does not look internal is accepted once it resolves, whatever it resolves to.
pub check_resolved_accepts :
    (w : World) (hostname : Text) (texts : List Text)
    → hostname ≢ []
    → any (text_eq (lower hostname)) blocked_hostnames ≡ false
    → w.ip_address hostname ≡ none
    → looks_like_internal_hostname (lower hostname) ≡ false
    → w.resolve_hostname hostname ≡ some texts
    → check_hostname w (some hostname) ≡ accepted
unfolding check_hostname check_address check_resolved verdict_of
check_resolved_accepts w [] texts given not_blocked name external resolves = absurd (given refl)
check_resolved_accepts w (c ∷ name) texts given not_blocked is_name external resolves =
    elim (Bool-cases w.skip_dns_check) [
      | inl p ↦ rw (not_blocked, is_name, external, p) refl
      | inr p ↦ rw (not_blocked, is_name, external, p, resolves, nothing_leaves w texts) refl
    ]
