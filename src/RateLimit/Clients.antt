-- ===== src/RateLimit/Clients.antt =====
-- Which addresses are one client in src/auth/rate_limit.rs, and the limits from a file.
use rustberg.Common.{ℕ, ◌+◌, ◌*◌, ◌/◌, ◌≤◌, ◌<◌, ◌≡◌, ◌↔◌, ap, true, none, some, arith}
use rustberg.RateLimit.{
  IpAddr, v4, v6, bucket_of, to_ipv4_mapped, bucket_eq, RateLimitConfig, RateLimitConfigFile,
  from_file_config,
}

pub bucket_eq_iff : (a b : IpAddr) → (bucket_eq a b ≡ true) ↔ (a ≡ b)
bucket_eq_iff (v4 a) (v4 b) = (λ e. ap v4 (ground arith), λ e. ground arith)
bucket_eq_iff (v6 a) (v6 b) = (λ e. ap v6 (ground arith), λ e. ground arith)
bucket_eq_iff (v4 a) (v6 b) = (λ e. absurd (ground arith), λ e. absurd (ground arith))
bucket_eq_iff (v6 a) (v4 b) = (λ e. absurd (ground arith), λ e. absurd (ground arith))

-- Two IPv6 addresses neither of which is a mapped IPv4 address are one client exactly if their first
-- 64 bits are the same.
pub bucket_of_v6_iff :
    (a b : ℕ)
    → to_ipv4_mapped a ≡ none
    → to_ipv4_mapped b ≡ none
    → (bucket_of (v6 a) ≡ bucket_of (v6 b)) ↔ (a / 18446744073709551616 ≡ b / 18446744073709551616)
unfolding bucket_of
bucket_of_v6_iff a b ha hb = (λ e. ground (arith, ha, hb), λ e. ground (arith, ha, hb))

-- A mapped IPv4 address is the client that the IPv4 address is.
pub bucket_of_mapped :
    (a : ℕ) → a < 4294967296 → bucket_of (v6 (0xffff * 4294967296 + a)) ≡ bucket_of (v4 a)
unfolding bucket_of
bucket_of_mapped a h = ground arith

-- A file that allows more requests and larger bursts never leads to lower limits: no product wraps.
pub from_file_config_monotone :
    (f g : RateLimitConfigFile) (c d : RateLimitConfig)
    → f.enabled ≡ true
    → g.enabled ≡ true
    → f.requests_per_second ≤ g.requests_per_second
    → f.burst_size ≤ g.burst_size
    → from_file_config f ≡ some c
    → from_file_config g ≡ some d
    → (c.per_ip_requests ≤ d.per_ip_requests)
      × (c.per_ip_burst ≤ d.per_ip_burst)
      × (c.per_tenant_requests ≤ d.per_tenant_requests)
      × (c.per_tenant_burst ≤ d.per_tenant_burst)
unfolding from_file_config
from_file_config_monotone f g c d hf hg r b ec ed =
    (ground arith, ground arith, ground arith, ground arith)
