-- ===== src/RateLimit/Bans.antt =====
-- Who is banned by src/auth/rate_limit.rs, and for how long.
use rustberg.Common.{
  ℕ, ◌+◌, ◌≤◌, ◌≡◌, refl, true, false, Bool-cases, Option-cases, inl, inr, Option, none, some,
  is_some, List, [], ◌∷◌, arith, if◌then◌else◌,
}
use rustberg.RateLimit.{
  IpAddr, bucket_of, bucket_eq, u32_max, RateLimitConfig, AuthFailureEntry, Failures, put, or_new,
  is_banned, is_ip_banned, count_failure, record_auth_failure, record_auth_success,
}
use rustberg.RateLimit.Clients.{bucket_eq_iff}

-- What happens to the tracker: a failure at a time, a success, and the loss of an entry, which the
-- cache may drop at any time.
pub data Event : Type 0 where
  failed : ℕ → IpAddr → Event
  succeeded : IpAddr → Event
  evicted : IpAddr → Event

unfoldable pub step : RateLimitConfig → Event → Failures → Failures
step config (failed now ip) entries = record_auth_failure config now ip entries
step config (succeeded ip) entries = record_auth_success config ip entries
step config (evicted bucket) entries = put entries bucket none

unfoldable pub run_events : RateLimitConfig → List Event → Failures → Failures
unfolding step
run_events config [] entries = entries
run_events config (e ∷ events) entries = run_events config events (step config e entries)

-- The failures of a client among the events.
abbrev pub failures_of : IpAddr → List Event → ℕ
failures_of bucket [] = 0
failures_of bucket (failed now ip ∷ events) =
    if bucket_eq (bucket_of ip) bucket
    then failures_of bucket events + 1
    else failures_of bucket events
failures_of bucket (succeeded ip ∷ events) = failures_of bucket events
failures_of bucket (evicted b ∷ events) = failures_of bucket events

-- An entry that counts no more than `n` failures, and bans at the limit only.
abbrev IsCounted : RateLimitConfig → ℕ → Option AuthFailureEntry → Type 0
IsCounted config n none = Unit
IsCounted config n (some e) =
    (e.failures ≤ n)
    × (e.failures ≤ u32_max)
    × (is_some e.ban_until ≡ true → config.auth_fail_limit ≤ e.failures)

IsCounted-weaken :
    (config : RateLimitConfig) (n m : ℕ) (entry : Option AuthFailureEntry)
    → n ≤ m
    → IsCounted config n entry
    → IsCounted config m entry
IsCounted-weaken config n m none h k = tt
IsCounted-weaken config n m (some e) h (few, fits, ban) = (omega (arith, h, few), fits, ban)

count_failure-IsCounted :
    (config : RateLimitConfig) (n now : ℕ) (entry : Option AuthFailureEntry)
    → IsCounted config n entry
    → IsCounted config (n + 1) (some (count_failure config now (or_new now entry)))
unfolding count_failure
count_failure-IsCounted config n now none h = (ground arith, ground arith, λ b. ground arith)
count_failure-IsCounted config n now (some e) (few, fits, ban) =
    (ground arith, ground arith, λ b. ground (arith, ban))

abbrev pub seen : IpAddr → Event → ℕ
seen bucket e = failures_of bucket (e ∷ [])

put-IsCounted :
    (config : RateLimitConfig) (entries : Failures) (b bucket : IpAddr) (n : ℕ)
    → IsCounted config n (entries bucket)
    → IsCounted config (n + 0) (put entries b none bucket)
put-IsCounted config entries b bucket n h = elim (Bool-cases (bucket_eq b bucket)) [
  | inl e ↦ rw e tt
  | inr e ↦ rw e (IsCounted-weaken config n (n + 0) (entries bucket) (omega arith) h)
]

step-IsCounted :
    (config : RateLimitConfig) (e : Event) (entries : Failures) (bucket : IpAddr) (n : ℕ)
    → IsCounted config n (entries bucket)
    → IsCounted config (n + seen bucket e) (step config e entries bucket)
unfolding step record_auth_failure record_auth_success
step-IsCounted config (failed now ip) entries bucket n h = elim (Bool-cases config.enabled) [
  | inr off ↦
      rw off (
        IsCounted-weaken config n (n + seen bucket (failed now ip)) (entries bucket) (omega arith)
          h)
  | inl on ↦ rw on (elim (Bool-cases (bucket_eq (bucket_of ip) bucket)) [
    | inl e ↦
        rw (e, (bucket_eq_iff (bucket_of ip) bucket).0 e)
          (count_failure-IsCounted config n now (entries bucket) h)
    | inr e ↦ rw e (IsCounted-weaken config n (n + 0) (entries bucket) (omega arith) h)
  ])
]
step-IsCounted config (succeeded ip) entries bucket n h = elim (Bool-cases config.enabled) [
  | inr off ↦ rw off (IsCounted-weaken config n (n + 0) (entries bucket) (omega arith) h)
  | inl on ↦ rw on (put-IsCounted config entries (bucket_of ip) bucket n h)
]
step-IsCounted config (evicted b) entries bucket n h = put-IsCounted config entries b bucket n h

run_events-IsCounted :
    (config : RateLimitConfig) (events : List Event) (entries : Failures) (bucket : IpAddr) (n : ℕ)
    → IsCounted config n (entries bucket)
    → IsCounted config (n + failures_of bucket events) (run_events config events entries bucket)
unfolding run_events
run_events-IsCounted config [] entries bucket n h =
    IsCounted-weaken config n (n + 0) (entries bucket) (omega arith) h
run_events-IsCounted config (e ∷ events) entries bucket n h =
    let more = step-IsCounted config e entries bucket n h in
    let last = run_events config events (step config e entries) bucket in
    IsCounted-weaken config (n + seen bucket e + failures_of bucket events)
      (n + failures_of bucket (e ∷ events)) last (seen_le e)
      (run_events-IsCounted config events (step config e entries) bucket (n + seen bucket e) more)
  where
    seen_le :
        (e' : Event)
        → n + seen bucket e' + failures_of bucket events ≤ n + failures_of bucket (e' ∷ events)
    seen_le (failed now ip) = ground arith
    seen_le (succeeded ip) = ground arith
    seen_le (evicted b) = ground arith

-- Nobody is banned without cause: whatever else happens to the tracker, and whatever the cache
-- drops, from an empty tracker a client that is banned has failed at least as often as the limit
-- says.
pub banned_has_failed :
    (config : RateLimitConfig) (events : List Event) (now : ℕ) (ip : IpAddr)
    → is_ip_banned now ip (run_events config events (λ b. none)) ≡ true
    → config.auth_fail_limit ≤ failures_of (bucket_of ip) events
unfolding is_ip_banned is_banned
banned_has_failed config events now ip banned =
    let counted = run_events-IsCounted config events (λ b. none) (bucket_of ip) 0 tt in
    banned_entry (run_events config events (λ b. none) (bucket_of ip)) counted banned
  where
    banned_entry :
        (entry : Option AuthFailureEntry)
        → IsCounted config (0 + failures_of (bucket_of ip) events) entry
        → elim entry [ none ↦ false | some e ↦ is_banned now e ] ≡ true
        → config.auth_fail_limit ≤ failures_of (bucket_of ip) events
    banned_entry none h b = absurd (ground arith)
    banned_entry (some e) (few, fits, ban) b = elim (Option-cases e.ban_until) [
      | inl free ↦ absurd (ground arith)
      | inr (until, set) ↦
          let reached : config.auth_fail_limit ≤ e.failures = ban (rw set refl) in
          omega (arith, reached, few)
    ]
