-- ===== src/RemoteIp.antt =====
-- src/remote_ip.rs: which address a request came from. Addresses are those of the rate limiter's
-- clients; the standard library's readers of addresses are the parameter `Readers`.
pub mod Ranges
pub mod Chain
pub mod Examples
use rustberg.Common.{
  ℕ, zero, suc, ◌+◌, ◌-◌, ◌*◌, ◌/◌, ◌%◌, ◌^◌, Text, codes, text_eq, trim, split_once, split_at_char,
  strip_prefix, Bool, true, false, not, ◌&&◌, ◌||◌, Option, none, some, List, [], ◌∷◌, ◌++◌, map,
  any, is_empty, Result, ok, err, ok_or, ◌>>=◌, ltb, leb, ◌==◌, if◌then◌else◌,
}
use rustberg.RateLimit.{IpAddr, v4, v6, to_ipv4_mapped}

-- `str::parse` at `IpAddr`, `Ipv4Addr` and `Ipv6Addr`.
pub record Readers : Type 0 where
  pub ip_addr : Text → Option IpAddr
  pub ipv4_addr : Text → Option ℕ
  pub ipv6_addr : Text → Option ℕ

pub record Cidr : Type 0 where
  pub network : IpAddr
  pub prefix : ℕ

-- `AppError::Internal`, by what it says.
pub data Fault : Type 0 where
  not_a_range bad_prefix : Fault

-- The decimal digits of a number, `acc` being what has been read.
unfoldable pub read_digits : ℕ → Text → Option ℕ
read_digits acc [] = some acc
read_digits acc (c ∷ s) =
    let rest = read_digits (acc * 10 + (c - b'0')) s in
    if leb b'0' c && leb c b'9' then rest else none

abbrev pub drop_plus : Text → Text
drop_plus text = elim (strip_prefix (codes "+") text) [ none ↦ text | some rest ↦ rest ]

-- `str::parse::<u8>`: a plus sign may come first.
unfoldable pub read_u8 : Text → Option ℕ
unfolding read_digits
read_u8 text = if is_empty (drop_plus text) then none else elim (read_digits 0 (drop_plus text)) [
  | none ↦ none
  | some n ↦ if ltb n 256 then some n else none
]

abbrev pub width_of : IpAddr → ℕ
width_of (v4 _) = 32
width_of (v6 _) = 128

prefix_of : ℕ → Option Text → Result ℕ Fault
unfolding read_u8 trim
prefix_of width none = ok width
prefix_of width (some text) = elim (read_u8 (trim text)) [
  | none ↦ err bad_prefix
  | some p ↦ if leb p width then ok p else err bad_prefix
]

abbrev pub cut : Text → Text × Option Text
cut value = elim (split_once (codes "/") value) [
  | some (addr, prefix) ↦ (addr, some prefix)
  | none ↦ (value, none)
]

-- `Cidr::parse`
unfoldable pub parse_cidr : Readers → Text → Result Cidr Fault
unfolding prefix_of trim split_once
parse_cidr readers text = do
  network ← ok_or not_a_range (readers.ip_addr (cut (trim text)).0)
  prefix ← prefix_of (width_of network) (cut (trim text)).1
  ok (record { network = network; prefix = prefix })

unfoldable pub normalize : IpAddr → IpAddr
normalize (v4 octets) = v4 octets
normalize (v6 octets) = elim (to_ipv4_mapped octets) [ some mapped ↦ v4 mapped | none ↦ v6 octets ]

-- `octets()`, the most significant first, of an address of so many.
unfoldable pub octets_of : ℕ → ℕ → List ℕ
octets_of zero n = []
octets_of (suc k) n = n / 256 ^ k % 256 ∷ octets_of k n

-- `&s[..n]`, and the element after it.
unfoldable pub first : ℕ → List ℕ → List ℕ
first zero s = []
first (suc n) [] = []
first (suc n) (b ∷ s) = b ∷ first n s

unfoldable pub element : ℕ → List ℕ → Option ℕ
element n [] = none
element zero (b ∷ s) = some b
element (suc n) (b ∷ s) = element n s

-- `b & (0xff << (8 - n))`, for a byte and n below 8: its first n bits.
abbrev pub high_bits : ℕ → ℕ → ℕ
high_bits n b = b / 2 ^ (8 - n) * 2 ^ (8 - n)

-- Two bytes under the mask. An index out of range, at which the code would abort, is none.
same_bits : ℕ → Option ℕ → Option ℕ → Bool
same_bits n (some b) (some c) = high_bits n b == high_bits n c
same_bits n _ _ = false

unfoldable pub matches_prefix : List ℕ → List ℕ → ℕ → Bool
unfolding first element same_bits
matches_prefix network candidate prefix =
    if not (text_eq (first (prefix / 8) network) (first (prefix / 8) candidate))
    then false
    else if prefix % 8 == 0
    then true
    else same_bits (prefix % 8) (element (prefix / 8) network) (element (prefix / 8) candidate)

contains_normal : Cidr → IpAddr → IpAddr → Bool
unfolding matches_prefix octets_of
contains_normal range (v4 network) (v4 candidate) =
    matches_prefix (octets_of 4 network) (octets_of 4 candidate) range.prefix
contains_normal range (v6 network) (v6 candidate) =
    matches_prefix (octets_of 16 network) (octets_of 16 candidate) range.prefix
contains_normal range _ _ = false

-- `Cidr::contains`
unfoldable pub contains : Cidr → IpAddr → Bool
unfolding contains_normal normalize
contains range candidate = contains_normal range range.network (normalize candidate)

-- `RemoteIp`
abbrev pub Trusted : Type 0
Trusted = List Cidr

unfoldable pub behind : Readers → List Text → Result Trusted Fault
unfolding parse_cidr
behind readers [] = ok []
behind readers (text ∷ texts) = do
  range ← parse_cidr readers text
  ranges ← behind readers texts
  ok (range ∷ ranges)

unfoldable pub is_trusted : Trusted → IpAddr → Bool
unfolding contains
is_trusted trusted address = any (λ range. contains range address) trusted

abbrev pub count : ℕ → Text → ℕ
count c [] = 0
count c (x ∷ s) = if x == c then suc (count c s) else count c s

bracketed : Readers → Text → Option (Option IpAddr)
unfolding split_once normalize
bracketed readers entry = elim (strip_prefix (codes "[") entry) [
  | none ↦ none
  | some rest ↦ elim (split_once (codes "]") rest) [
    | none ↦ none
    | some (inner, _) ↦ elim (readers.ipv6_addr inner) [
      | none ↦ some none
      | some n ↦ some (some (normalize (v6 n)))
    ]
  ]
]

with_port : Readers → Text → Option IpAddr
unfolding split_once
with_port readers entry =
    if count b':' entry == 1
    then (elim (split_once (codes ":") entry) [
      | none ↦ none
      | some (address, _) ↦ elim (readers.ipv4_addr address) [ none ↦ none | some n ↦ some (v4 n) ]
    ])
    else none

unfoldable pub parse_forwarded_entry : Readers → Text → Option IpAddr
unfolding bracketed with_port normalize
parse_forwarded_entry readers entry = elim (readers.ip_addr entry) [
  | some address ↦ some (normalize address)
  | none ↦ elim (bracketed readers entry) [ some read ↦ read | none ↦ with_port readers entry ]
]

-- The hops of one header value, and of all of them.
unfoldable pub hops_of : Readers → Text → List (Option IpAddr)
unfolding split_at_char parse_forwarded_entry trim
hops_of readers value = map (λ s. parse_forwarded_entry readers (trim s)) (split_at_char b',' value)

unfoldable pub chain_of : Readers → List Text → List (Option IpAddr)
unfolding hops_of
chain_of readers [] = []
chain_of readers (value ∷ values) = hops_of readers value ++ chain_of readers values

-- A hop at which the walk stops.
unfoldable pub stops : Trusted → Option IpAddr → Bool
unfolding is_trusted
stops trusted none = true
stops trusted (some address) = not (is_trusted trusted address)

-- `rposition`, and the element there.
unfoldable pub last_stop : Trusted → List (Option IpAddr) → Option (Option IpAddr)
unfolding stops
last_stop trusted [] = none
last_stop trusted (hop ∷ hops) =
    let later = last_stop trusted hops in
    elim later [ some found ↦ some found | none ↦ if stops trusted hop then some hop else none ]

-- `chain.first().copied().flatten()`
abbrev pub head : List (Option IpAddr) → Option IpAddr
head [] = none
head (hop ∷ _) = hop

walk : Trusted → List (Option IpAddr) → Option IpAddr
unfolding last_stop
walk trusted chain = elim (last_stop trusted chain) [ some hop ↦ hop | none ↦ head chain ]

claimed : Readers → Option Text → Option IpAddr
unfolding parse_forwarded_entry trim
claimed readers none = none
claimed readers (some value) = parse_forwarded_entry readers (trim value)

-- What `X-Real-IP` is believed to say.
believed : Readers → Trusted → List (Option IpAddr) → IpAddr → Option Text → Option IpAddr
unfolding claimed is_trusted
believed readers trusted chain peer real_ip =
    if is_empty chain && is_trusted trusted peer then claimed readers real_ip else none

-- `RemoteIp::resolve`
unfoldable pub resolve : Readers → Trusted → Option IpAddr → List Text → Option Text → Option IpAddr
unfolding walk believed chain_of
resolve readers [] peer forwarded real_ip = peer
resolve readers (range ∷ ranges) none forwarded real_ip = none
resolve readers (range ∷ ranges) (some peer) forwarded real_ip =
    let chain = chain_of readers forwarded in
    elim (believed readers (range ∷ ranges) chain peer real_ip) [
      | some address ↦ some address
      | none ↦ walk (range ∷ ranges) (chain ++ some peer ∷ [])
    ]
