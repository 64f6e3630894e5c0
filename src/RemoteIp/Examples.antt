-- ===== src/RemoteIp/Examples.antt =====
-- Requests behind a proxy at 10.0.0.1, for readers that know four addresses.
use rustberg.Common.{
  ℕ, Text, codes, text_eq, true, false, Option, none, some, [], ◌∷◌, ◌++◌, ok, ◌≡◌, ◌↔◌, refl,
  if◌then◌else◌,
}
use rustberg.RateLimit.{v4}
use rustberg.RemoteIp.{
  Readers, Cidr, parse_cidr, contains, width_of, normalize, first, is_trusted, hops_of, stops,
  resolve,
}
use rustberg.RemoteIp.Chain.{resolve_forged}
use rustberg.RemoteIp.Ranges.{address_bits, contains_iff}

-- 10.0.0.0, 10.0.0.1 and 203.0.113.7
abbrev net : ℕ
net = 0x0a000000

abbrev proxy : ℕ
proxy = 0x0a000001

abbrev guest : ℕ
guest = 0xcb007107

abbrev read : Text → Option ℕ
read s =
    if text_eq s (codes "10.0.0.0")
    then some net
    else if text_eq s (codes "10.0.0.1")
    then some proxy
    else if text_eq s (codes "203.0.113.7")
    then some guest
    else none

abbrev readers : Readers
readers = record {
  ip_addr = λ s. elim (read s) [ none ↦ none | some n ↦ some (v4 n) ];
  ipv4_addr = read;
  ipv6_addr = λ s. none;
}

abbrev inside : Cidr
inside = record { network = v4 net; prefix = 8 }

inside_read : parse_cidr readers (codes "10.0.0.0/8") ≡ ok inside
unfolding parse_cidr
inside_read = refl

contains_iff_example : (contains inside (v4 proxy) ≡ true) ↔ (
    (width_of inside.network ≡ width_of (normalize (v4 proxy)))
    × (first 8 (address_bits inside.network) ≡ first 8 (address_bits (normalize (v4 proxy)))))
contains_iff_example = contains_iff readers (codes "10.0.0.0/8") inside (v4 proxy) inside_read

outside_lem : is_trusted (inside ∷ []) (v4 guest) ≡ false
unfolding is_trusted
outside_lem = refl

inside_lem : stops (inside ∷ []) (some (v4 proxy)) ≡ false
unfolding stops
inside_lem = refl

guest-stops : stops (inside ∷ []) (some (v4 guest)) ≡ true
unfolding stops
guest-stops = refl

guest_hops :
    hops_of readers (codes " 203.0.113.7") ++ some (v4 proxy) ∷ []
    ≡ some (v4 guest) ∷ some (v4 proxy) ∷ []
unfolding hops_of
guest_hops = refl

-- The guest claims to be the proxy.
resolve_forged_example :
    resolve readers
      (inside ∷ [])
      (some (v4 proxy))
      ([] ++ (codes "10.0.0.1" ++ b',' ∷ codes " 203.0.113.7") ∷ [])
      none
    ≡ some (v4 guest)
resolve_forged_example =
    resolve_forged readers inside [] (v4 proxy) [] (codes "10.0.0.1") (codes " 203.0.113.7") none
      (some (v4 guest)) (some (v4 proxy) ∷ []) guest_hops guest-stops (inside_lem, tt)
