-- ===== src/RateLimit.antt =====
-- The failure tracker of src/auth/rate_limit.rs: which addresses are one client, the limits that a
-- configuration file gives, and the bans of clients whose credentials were refused.
pub mod Clients
pub mod Bans
pub mod Window
mod Examples
use rustberg.Common.{
  ℕ, ◌+◌, ◌-◌, ◌*◌, ◌/◌, ◌%◌, Bool, true, false, not, Option, none, some, List, [], ◌∷◌, ltb, leb,
  ◌==◌, if◌then◌else◌, is_some,
}

abbrev pub u32_max : ℕ
u32_max = 4294967295

-- `u32::saturating_mul` and `u32::saturating_add`
abbrev pub saturating_mul : ℕ → ℕ → ℕ
saturating_mul a b = if leb (a * b) u32_max then a * b else u32_max

abbrev pub saturating_add : ℕ → ℕ → ℕ
saturating_add a b = if leb (a + b) u32_max then a + b else u32_max

-- Instants and durations in nanoseconds.
abbrev pub second : ℕ
second = 1000000000

-- The window that failures are counted in: an hour.
abbrev pub failure_window : ℕ
failure_window = 3600 * second

pub record RateLimitConfig : Type 0 where
  pub enabled : Bool
  pub per_ip_requests : ℕ
  pub per_ip_burst : ℕ
  pub per_tenant_requests : ℕ
  pub per_tenant_burst : ℕ
  pub auth_fail_limit : ℕ
  pub auth_fail_ban_duration : ℕ

unfoldable pub default_config : RateLimitConfig
default_config = record {
  enabled = true;
  per_ip_requests = 1000;
  per_ip_burst = 100;
  per_tenant_requests = 10000;
  per_tenant_burst = 1000;
  auth_fail_limit = 10;
  auth_fail_ban_duration = 300 * second;
}

unfoldable pub disabled : RateLimitConfig
unfolding default_config
disabled = record default_config { enabled = false }

-- The section of the configuration file.
pub record RateLimitConfigFile : Type 0 where
  pub enabled : Bool
  pub requests_per_second : ℕ
  pub burst_size : ℕ
  pub track_auth_failures : Bool
  pub max_auth_failures : ℕ
  pub lockout_duration_seconds : ℕ

unfoldable pub from_file_config : RateLimitConfigFile → Option RateLimitConfig
unfolding disabled
from_file_config file =
    if not file.enabled
    then some disabled
    else some (record {
      enabled = true;
      per_ip_requests = saturating_mul file.requests_per_second 60;
      per_ip_burst = file.burst_size;
      per_tenant_requests = saturating_mul file.requests_per_second 600;
      per_tenant_burst = saturating_mul file.burst_size 10;
      auth_fail_limit = file.max_auth_failures;
      auth_fail_ban_duration = file.lockout_duration_seconds * second;
    })

-- An address, as the number that its octets spell, the first the most significant.
pub data IpAddr : Type 0 where
  v4 v6 : ℕ → IpAddr

-- `Ipv6Addr::to_ipv4_mapped`: `::ffff:a.b.c.d`
abbrev pub to_ipv4_mapped : ℕ → Option ℕ
to_ipv4_mapped octets = if octets / 4294967296 == 0xffff then some (octets % 4294967296) else none

-- The octets from the eighth on are filled with zeros.
abbrev pub without_host : ℕ → ℕ
without_host octets = octets / 18446744073709551616 * 18446744073709551616

-- `ClientBucket::of`, a bucket being the address that it holds.
unfoldable pub bucket_of : IpAddr → IpAddr
bucket_of (v4 octets) = v4 octets
bucket_of (v6 octets) = elim (to_ipv4_mapped octets) [
  | some mapped ↦ v4 mapped
  | none ↦ v6 (without_host octets)
]

-- `==` on `ClientBucket`
abbrev pub bucket_eq : IpAddr → IpAddr → Bool
bucket_eq (v4 a) (v4 b) = a == b
bucket_eq (v6 a) (v6 b) = a == b
bucket_eq _ _ = false

pub record AuthFailureEntry : Type 0 where
  pub failures : ℕ
  pub first_failure : ℕ
  pub ban_until : Option ℕ

-- `AuthFailureEntry::new`, at the time `now`. An operation reads the clock once here.
abbrev pub new_entry : ℕ → AuthFailureEntry
new_entry now = record { failures = 0; first_failure = now; ban_until = none }

unfoldable pub is_banned : ℕ → AuthFailureEntry → Bool
is_banned now entry = elim entry.ban_until [ none ↦ false | some until ↦ ltb now until ]

unfoldable pub ban_remaining_secs : ℕ → AuthFailureEntry → Option ℕ
ban_remaining_secs now entry = elim entry.ban_until [
  | none ↦ none
  | some until ↦ if ltb now until then some ((until - now) / second) else none
]

-- The cache `auth_failures`.
abbrev pub Failures : Type 0
Failures = IpAddr → Option AuthFailureEntry

abbrev pub put : Failures → IpAddr → Option AuthFailureEntry → Failures
put entries bucket entry b = if bucket_eq bucket b then entry else entries b

-- `get_with(bucket, AuthFailureEntry::new)`
abbrev pub or_new : ℕ → Option AuthFailureEntry → AuthFailureEntry
or_new now none = new_entry now
or_new now (some entry) = entry

unfoldable pub is_ip_banned : ℕ → IpAddr → Failures → Bool
unfolding is_banned bucket_of
is_ip_banned now ip entries = elim (entries (bucket_of ip)) [
  | none ↦ false
  | some entry ↦ is_banned now entry
]

-- The entry after one more failure.
unfoldable pub count_failure : RateLimitConfig → ℕ → AuthFailureEntry → AuthFailureEntry
count_failure config now entry =
    let current = if ltb failure_window (now - entry.first_failure) then new_entry now else entry in
    let failures = saturating_add current.failures 1 in
    record {
      failures = failures;
      first_failure = current.first_failure;
      ban_until =
          if leb config.auth_fail_limit failures
          then some (now + config.auth_fail_ban_duration)
          else current.ban_until;
    }

unfoldable pub record_auth_failure : RateLimitConfig → ℕ → IpAddr → Failures → Failures
unfolding count_failure bucket_of
record_auth_failure config now ip entries =
    if not config.enabled
    then entries
    else put entries (bucket_of ip)
        (some (count_failure config now (or_new now (entries (bucket_of ip)))))

unfoldable pub record_auth_success : RateLimitConfig → IpAddr → Failures → Failures
unfolding bucket_of
record_auth_success config ip entries =
    if not config.enabled then entries else put entries (bucket_of ip) none
