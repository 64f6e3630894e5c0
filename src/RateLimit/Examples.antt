-- ===== src/RateLimit/Examples.antt =====
-- The tests of the failure tracker of src/auth/rate_limit.rs.
use rustberg.Common.{
  ℕ, ◌+◌, ◌*◌, ◌≤◌, ◌≡◌, refl, true, false, none, some, List, [], ◌∷◌, ltb, All, arith,
}
use rustberg.RateLimit.{
  IpAddr, v4, v6, bucket_of, second, RateLimitConfig, RateLimitConfigFile, default_config, disabled,
  from_file_config, AuthFailureEntry, is_banned, is_ip_banned, ban_remaining_secs, count_failure,
  record_auth_failure, record_auth_success,
}
use rustberg.RateLimit.Bans.{Event, failed, succeeded, step, run_events, failures_of}
use rustberg.RateLimit.Window.{IsRunning, limit_bans, untracked_banned}

runs : Unit {0}
unfolding bucket_of default_config disabled from_file_config is_banned is_ip_banned
    ban_remaining_secs count_failure record_auth_failure record_auth_success step run_events
runs = tt

-- 2001:db8::1, and the mapped form of 10.0.0.1.
abbrev client : IpAddr
client = v6 42540766411282592856903984951653826561

mapped : bucket_of (v6 281470849515521) ≡ v4 167772161
unfolding runs
mapped = refl

abbrev file_of : ℕ → RateLimitConfigFile
file_of rate = record {
  enabled = true;
  requests_per_second = rate;
  burst_size = 20;
  track_auth_failures = false;
  max_auth_failures = 2;
  lockout_duration_seconds = 300;
}

abbrev config_of : ℕ → ℕ → RateLimitConfig
config_of per_ip per_tenant = record {
  enabled = true;
  per_ip_requests = per_ip;
  per_ip_burst = 20;
  per_tenant_requests = per_tenant;
  per_tenant_burst = 200;
  auth_fail_limit = 2;
  auth_fail_ban_duration = 300 * second;
}

modest : from_file_config (file_of 10) ≡ some (config_of 600 6000)
unfolding runs
modest = refl

generous : from_file_config (file_of 10000000) ≡ some (config_of 600000000 4294967295)
unfolding runs
generous = refl

abbrev config : RateLimitConfig
config = config_of 600 6000

abbrev events : List Event
events = failed 5 client ∷ failed 6 (v4 1) ∷ succeeded (v4 1) ∷ failed 7 client ∷ []

banned : is_ip_banned 8 client (run_events config events (λ b. none)) ≡ true
unfolding runs
banned = refl

abbrev earlier : List Event
earlier = failed 5 client ∷ failed 6 (v4 1) ∷ succeeded (v4 1) ∷ []

one_failure : 2 ≤ failures_of (bucket_of client) earlier + 1
unfolding runs
one_failure = omega arith

running : All (IsRunning (bucket_of client) 5) earlier
unfolding runs
running = ((λ _. (omega arith, omega arith)), ((λ e. absurd (ground arith)), (refl, tt)))

limit_bans_example :
    is_ip_banned 8 client
      (record_auth_failure config 7 client (run_events config earlier (λ b. none)))
    ≡ ltb 8 (7 + 300 * second)
limit_bans_example =
    limit_bans config earlier client 5 7 8 refl (omega arith) running (omega arith) (omega arith)
      one_failure

untracked_banned_example :
    is_ip_banned 8 client
      (record_auth_failure config 7 client (run_events config earlier (λ b. none)))
    ≡ ltb 8 (7 + 300 * second)
untracked_banned_example =
    untracked_banned (file_of 10) config earlier client 5 7 8 refl refl modest (omega arith) running
      (omega arith) (omega arith) one_failure

abbrev entry : AuthFailureEntry
entry = record { failures = 2; first_failure = 5; ban_until = some (7 + 300 * second) }
