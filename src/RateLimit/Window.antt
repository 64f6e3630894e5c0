-- ===== src/RateLimit/Window.antt =====
-- How many failures ban a client in src/auth/rate_limit.rs, and until when.
use rustberg.Common.{
  ℕ, ◌+◌, ◌*◌, ◌≤◌, ◌<◌, ◌≡◌, refl, ◌∙◌, ap, ◌↔◌, true, false, Bool-cases, Option-cases, inl, inr,
  Option, none, some, List, [], ◌∷◌, All, arith, leb, ltb, if◌then◌else◌,
}
use rustberg.RateLimit.{
  IpAddr, bucket_of, bucket_eq, second, failure_window, u32_max, RateLimitConfig,
  RateLimitConfigFile, from_file_config, AuthFailureEntry, Failures, or_new, is_banned,
  is_ip_banned, ban_remaining_secs, count_failure, record_auth_failure, record_auth_success,
}
use rustberg.RateLimit.Clients.{bucket_eq_iff}
use rustberg.RateLimit.Bans.{Event, failed, succeeded, evicted, step, run_events, failures_of, seen}

-- An event that leaves a client's count running: a failure of its own is in the hour that begins at
-- `lo`, and it does not succeed and is not dropped.
abbrev pub IsRunning : IpAddr → ℕ → Event → Type 0
IsRunning bucket lo (failed now ip) =
    bucket_eq (bucket_of ip) bucket ≡ true → (lo ≤ now) × (now ≤ lo + failure_window)
IsRunning bucket lo (succeeded ip) = bucket_eq (bucket_of ip) bucket ≡ false
IsRunning bucket lo (evicted b) = bucket_eq b bucket ≡ false

-- The entry of a client that has failed `n` times since `lo`.
abbrev HasCounted : ℕ → ℕ → Option AuthFailureEntry → Type 0
HasCounted lo n none = n ≡ 0
HasCounted lo n (some e) =
    (e.failures ≡ (if leb n u32_max then n else u32_max)) × (lo ≤ e.first_failure)

count_failure-HasCounted :
    (config : RateLimitConfig) (lo n now : ℕ) (entry : Option AuthFailureEntry)
    → lo ≤ now
    → now ≤ lo + failure_window
    → HasCounted lo n entry
    → HasCounted lo (n + 1) (some (count_failure config now (or_new now entry)))
unfolding count_failure
count_failure-HasCounted config lo n now none a b h = (ground arith, ground arith)
count_failure-HasCounted config lo n now (some e) a b (k, f) = (ground arith, ground arith)

HasCounted-zero :
    (lo n : ℕ) (entry : Option AuthFailureEntry)
    → HasCounted lo n entry
    → HasCounted lo (n + 0) entry
HasCounted-zero lo n none h = omega (arith, h)
HasCounted-zero lo n (some e) (k, f) = (ground arith, f)

step-HasCounted :
    (config : RateLimitConfig) (e : Event) (entries : Failures) (bucket : IpAddr) (lo n : ℕ)
    → config.enabled ≡ true
    → IsRunning bucket lo e
    → HasCounted lo n (entries bucket)
    → HasCounted lo (n + seen bucket e) (step config e entries bucket)
unfolding step record_auth_failure record_auth_success
step-HasCounted config (failed now ip) entries bucket lo n on r h =
    rw on (elim (Bool-cases (bucket_eq (bucket_of ip) bucket)) [
      | inl e ↦
          let (a, b) = r e in
          rw (e, (bucket_eq_iff (bucket_of ip) bucket).0 e)
            (count_failure-HasCounted config lo n now (entries bucket) a b h)
      | inr e ↦ rw e (HasCounted-zero lo n (entries bucket) h)
    ])
step-HasCounted config (succeeded ip) entries bucket lo n on r h =
    rw (on, r) (HasCounted-zero lo n (entries bucket) h)
step-HasCounted config (evicted b) entries bucket lo n on r h =
    rw r (HasCounted-zero lo n (entries bucket) h)

failures_of_cons :
    (bucket : IpAddr) (e : Event) (events : List Event)
    → failures_of bucket (e ∷ events) ≡ seen bucket e + failures_of bucket events
failures_of_cons bucket (failed now ip) events = ground arith
failures_of_cons bucket (succeeded ip) events = ground arith
failures_of_cons bucket (evicted b) events = ground arith

run_events-HasCounted :
    (config : RateLimitConfig) (events : List Event) (entries : Failures) (bucket : IpAddr)
    (lo n : ℕ)
    → config.enabled ≡ true
    → All (IsRunning bucket lo) events
    → HasCounted lo n (entries bucket)
    → (m : ℕ) × (m ≡ n + failures_of bucket events)
      × HasCounted lo m (run_events config events entries bucket)
unfolding run_events
run_events-HasCounted config [] entries bucket lo n on r h = (n, omega arith, h)
run_events-HasCounted config (e ∷ events) entries bucket lo n on (r, rs) h =
    let (m, total, counted) =
      run_events-HasCounted config events (step config e entries) bucket lo (n + seen bucket e) on
        rs (step-HasCounted config e entries bucket lo n on r h) in
    (m, omega (arith, total, failures_of_cons bucket e events), counted)

banned_until :
    (config : RateLimitConfig) (last now : ℕ) (e : AuthFailureEntry)
    → config.auth_fail_limit ≤ (count_failure config last e).failures
    → is_banned now (count_failure config last e) ≡ ltb now (last + config.auth_fail_ban_duration)
unfolding count_failure is_banned
banned_until config last now e reached = ground (arith, reached)

recorded :
    (config : RateLimitConfig) (last now : ℕ) (ip : IpAddr) (entries : Failures)
    → config.enabled ≡ true
    → is_ip_banned now ip (record_auth_failure config last ip entries)
      ≡ is_banned now (count_failure config last (or_new last (entries (bucket_of ip))))
unfolding is_ip_banned record_auth_failure
recorded config last now ip entries on =
    let self = (bucket_eq_iff (bucket_of ip) (bucket_of ip)).1 refl in
    rw (is_ip_banned, record_auth_failure, on, self) refl

-- Once a client has failed as often as the limit says within an hour, without succeeding and without
-- its entry being dropped, it is banned from its last failure on for exactly the time configured,
-- whatever other clients do in between. The tracker starts empty, and is enabled with a limit of 32
-- bits.
pub limit_bans :
    (config : RateLimitConfig) (events : List Event) (ip : IpAddr) (lo last now : ℕ)
    → config.enabled ≡ true
    → config.auth_fail_limit ≤ u32_max
    → All (IsRunning (bucket_of ip) lo) events
    → lo ≤ last
    → last ≤ lo + failure_window
    → config.auth_fail_limit ≤ failures_of (bucket_of ip) events + 1
    → is_ip_banned now ip
        (record_auth_failure config last ip (run_events config events (λ b. none)))
      ≡ ltb now (last + config.auth_fail_ban_duration)
limit_bans config events ip lo last now on fits running a b enough =
    let bucket = bucket_of ip in
    let entries = run_events config events (λ b. none) in
    let (m, total, counted) =
      run_events-HasCounted config events (λ b. none) bucket lo 0 on running refl in
    let (failures, _) = count_failure-HasCounted config lo m last (entries bucket) a b counted in
    let reached : config.auth_fail_limit
        ≤ (count_failure config last (or_new last (entries bucket))).failures =
      ground (arith, failures, total, enough, fits) in
    recorded config last now ip entries on
    ∙ banned_until config last now (or_new last (entries bucket)) reached

-- The setting `track_auth_failures = false` changes nothing: with a file that says so, a client that
-- has failed `max_auth_failures` times within an hour, a number of 32 bits, is banned for
-- `lockout_duration_seconds` all the same. The client did not succeed, its entry was not dropped,
-- and the limits are enabled.
pub untracked_banned :
    (file : RateLimitConfigFile) (config : RateLimitConfig) (events : List Event) (ip : IpAddr)
    (lo last now : ℕ)
    → file.enabled ≡ true
    → file.track_auth_failures ≡ false
    → from_file_config file ≡ some config
    → file.max_auth_failures ≤ u32_max
    → All (IsRunning (bucket_of ip) lo) events
    → lo ≤ last
    → last ≤ lo + failure_window
    → file.max_auth_failures ≤ failures_of (bucket_of ip) events + 1
    → is_ip_banned now ip
        (record_auth_failure config last ip (run_events config events (λ b. none)))
      ≡ ltb now (last + file.lockout_duration_seconds * second)
unfolding from_file_config
untracked_banned file config events ip lo last now on untracked made fits running a b enough =
    let on' : config.enabled ≡ true = ground arith in
    let limit : config.auth_fail_limit ≡ file.max_auth_failures = ground arith in
    let duration : config.auth_fail_ban_duration ≡ file.lockout_duration_seconds * second =
      ground arith in
    limit_bans config events ip lo last now on' (omega (arith, limit, fits)) running a b
      (omega (arith, limit, enough))
    ∙ ap (λ d. ltb now (last + d)) duration

-- The time that a banned client is told to wait is what is left of its ban, less than a second too
-- short.
pub ban_remaining_iff :
    (now left : ℕ) (entry : AuthFailureEntry)
    → (ban_remaining_secs now entry ≡ some left) ↔ (
        (until : ℕ) × (entry.ban_until ≡ some until)
        × (now < until)
        × (now + left * second ≤ until)
        × (until < now + (left + 1) * second))
unfolding ban_remaining_secs
ban_remaining_iff now left entry = elim (Option-cases entry.ban_until) [
  | inl free ↦ rw free (λ e. absurd (ground arith), λ (u, e, _, _, _). absurd (ground arith))
  | inr (until, set) ↦ rw set (
    λ e. (until, refl, ground arith, ground arith, ground arith),
    λ (u, e, a, b, c). let same : until ≡ u = ground arith in ground (arith, same, a, b, c),
  )
]
