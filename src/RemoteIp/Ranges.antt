-- ===== src/RemoteIp/Ranges.antt =====
-- What a range of src/remote_ip.rs contains, bit by bit.
use mathlib.Core.Path.{subst}
use rustberg.Common.{
  ℕ, ◌^◌, ◌-◌, Option-cases, Text, trim, ok, ok_or, >>=-eq-ok, ◌&&◌, zero, suc, ◌*◌, ◌/◌, ◌%◌, ◌≤◌,
  ◌<◌, ◌≡◌, ◌↔◌, refl, sym, ap, ◌∙◌, text_eq, ==_iff, Bool, true, false, not, Bool-cases, inl, inr,
  Option, none, some, List, [], ◌∷◌, ◌++◌, All, length, leb, ◌==◌, if◌then◌else◌, arith,
}
use rustberg.RateLimit.{IpAddr, v4, v6}
use rustberg.RemoteIp.{
  width_of, Readers, parse_cidr, prefix_of, cut, not_a_range, read_u8, Cidr, octets_of, first,
  element, high_bits, same_bits, matches_prefix, contains_normal, normalize, contains,
}

-- The bits of a byte, the most significant first.
abbrev pub bits_of : ℕ → List ℕ
bits_of b =
    b / 128 % 2
    ∷ b / 64 % 2
    ∷ b / 32 % 2
    ∷ b / 16 % 2
    ∷ b / 8 % 2
    ∷ b / 4 % 2
    ∷ b / 2 % 2
    ∷ b % 2
    ∷ []

unfoldable pub bits : List ℕ → List ℕ
bits [] = []
bits (b ∷ s) = bits_of b ++ bits s

-- Bytes whose quotients are the same have the same bits above.
bits_above :
    (n b c : ℕ)
    → n < 8
    → b / 2 ^ (8 - n) ≡ c / 2 ^ (8 - n)
    → first n (bits_of b) ≡ first n (bits_of c)
unfolding first
bits_above zero b c l e = refl
bits_above (suc zero) b c l e = ground (arith, e)
bits_above (suc (suc zero)) b c l e = ground (arith, e)
bits_above (suc (suc (suc zero))) b c l e = ground (arith, e)
bits_above (suc (suc (suc (suc zero)))) b c l e = ground (arith, e)
bits_above (suc (suc (suc (suc (suc zero))))) b c l e = ground (arith, e)
bits_above (suc (suc (suc (suc (suc (suc zero)))))) b c l e = ground (arith, e)
bits_above (suc (suc (suc (suc (suc (suc (suc zero))))))) b c l e = ground (arith, e)
bits_above (suc (suc (suc (suc (suc (suc (suc (suc n)))))))) b c l e = absurd (omega arith)

mask_iff :
    (n b c : ℕ)
    → n < 8
    → b < 256
    → c < 256
    → ((high_bits n b == high_bits n c) ≡ true) ↔ (first n (bits_of b) ≡ first n (bits_of c))
unfolding first
mask_iff zero b c l h k = (
  λ e. bits_above 0 b c l (omega (arith, (==_iff (high_bits 0 b) (high_bits 0 c)).0 e)),
  λ e. ground arith,
)
mask_iff (suc zero) b c l h k = (
  λ e. bits_above 1 b c l (omega (arith, (==_iff (high_bits 1 b) (high_bits 1 c)).0 e)),
  λ e. ground arith,
)
mask_iff (suc (suc zero)) b c l h k = (
  λ e. bits_above 2 b c l (omega (arith, (==_iff (high_bits 2 b) (high_bits 2 c)).0 e)),
  λ e. ground arith,
)
mask_iff (suc (suc (suc zero))) b c l h k = (
  λ e. bits_above 3 b c l (omega (arith, (==_iff (high_bits 3 b) (high_bits 3 c)).0 e)),
  λ e. ground arith,
)
mask_iff (suc (suc (suc (suc zero)))) b c l h k = (
  λ e. bits_above 4 b c l (omega (arith, (==_iff (high_bits 4 b) (high_bits 4 c)).0 e)),
  λ e. ground arith,
)
mask_iff (suc (suc (suc (suc (suc zero))))) b c l h k = (
  λ e. bits_above 5 b c l (omega (arith, (==_iff (high_bits 5 b) (high_bits 5 c)).0 e)),
  λ e. ground arith,
)
mask_iff (suc (suc (suc (suc (suc (suc zero)))))) b c l h k = (
  λ e. bits_above 6 b c l (omega (arith, (==_iff (high_bits 6 b) (high_bits 6 c)).0 e)),
  λ e. ground arith,
)
mask_iff (suc (suc (suc (suc (suc (suc (suc zero))))))) b c l h k = (
  λ e. bits_above 7 b c l (omega (arith, (==_iff (high_bits 7 b) (high_bits 7 c)).0 e)),
  λ e. ground arith,
)
mask_iff (suc (suc (suc (suc (suc (suc (suc (suc n)))))))) b c l h k = absurd (omega arith)

whole_iff : (b c : ℕ) → b < 256 → c < 256 → (b ≡ c) ↔ (bits_of b ≡ bits_of c)
whole_iff b c h k = (λ e. ap bits_of e, λ e. ground arith)

first-append : (n : ℕ) (xs ys : List ℕ) → n ≤ length xs → first n (xs ++ ys) ≡ first n xs
unfolding first
first-append zero xs ys h = refl
first-append (suc n) [] ys h = absurd (omega arith)
first-append (suc n) (x ∷ xs) ys h = ap (λ l. x ∷ l) (first-append n xs ys (omega arith))

-- A prefix shorter than a byte looks at the first byte only.
matches_short :
    (b c : ℕ) (s t : List ℕ) (p : ℕ)
    → p < 8
    → b < 256
    → c < 256
    → matches_prefix (b ∷ s) (c ∷ t) p ≡ (high_bits p b == high_bits p c)
unfolding matches_prefix same_bits
matches_short b c s t zero l h k = sym ((==_iff (high_bits 0 b) (high_bits 0 c)).1 (omega arith))
matches_short b c s t (suc p) l h k =
    let q : suc p / 8 ≡ 0 = omega arith in
    let r : suc p % 8 ≡ suc p = omega arith in
    let more : (suc p == 0) ≡ false = ground arith in rw (matches_prefix, q, r, more) refl

guard_and :
    (x y r : Bool) → (if not (x && y) then false else r) ≡ (x && (if not y then false else r))
guard_and true y r = refl
guard_and false y r = refl

-- A longer one compares it.
matches_long :
    (b c : ℕ) (s t : List ℕ) (p : ℕ)
    → matches_prefix (b ∷ s) (c ∷ t) (suc (suc (suc (suc (suc (suc (suc (suc p))))))))
      ≡ (b == c && matches_prefix s t p)
unfolding matches_prefix
matches_long b c s t p =
    let q : (suc (suc (suc (suc (suc (suc (suc (suc p)))))))) / 8 ≡ suc (p / 8) = omega arith in
    let r : (suc (suc (suc (suc (suc (suc (suc (suc p)))))))) % 8 ≡ p % 8 = omega arith in
    rw (matches_prefix, q, r)
      (guard_and (b == c) (text_eq (first (p / 8) s) (first (p / 8) t))
        (if p % 8 == 0 then true else same_bits (p % 8) (element (p / 8) s) (element (p / 8) t)))

&&-parts : (x y : Bool) → (x && y) ≡ true → (x ≡ true) × (y ≡ true)
&&-parts x y h = ground arith

abbrev rest8 : List ℕ → List ℕ
rest8 (a ∷ b ∷ c ∷ d ∷ e ∷ f ∷ g ∷ h ∷ s) = s
rest8 s = []

short_iff :
    (b c : ℕ) (s t : List ℕ) (p : ℕ)
    → p < 8
    → b < 256
    → c < 256
    → (matches_prefix (b ∷ s) (c ∷ t) p ≡ true) ↔ (first p (bits (b ∷ s)) ≡ first p (bits (c ∷ t)))
unfolding bits
short_iff b c s t p l h k =
    let (to, from) = mask_iff p b c l h k in
    let left : first p (bits_of b ++ bits s) ≡ first p (bits_of b) =
      first-append p (bits_of b) (bits s) (omega arith) in
    let right : first p (bits_of c ++ bits t) ≡ first p (bits_of c) =
      first-append p (bits_of c) (bits t) (omega arith) in
    (
      λ e. left ∙ to (sym (matches_short b c s t p l h k) ∙ e) ∙ sym right,
      λ e. matches_short b c s t p l h k ∙ from (sym left ∙ e ∙ right),
    )

long_iff :
    (b c : ℕ) (s t : List ℕ) (p : ℕ)
    → b < 256
    → c < 256
    → (matches_prefix s t p ≡ true) ↔ (first p (bits s) ≡ first p (bits t))
    → (matches_prefix (b ∷ s) (c ∷ t) (suc (suc (suc (suc (suc (suc (suc (suc p)))))))) ≡ true) ↔ (
        first (suc (suc (suc (suc (suc (suc (suc (suc p)))))))) (bits (b ∷ s))
        ≡ first (suc (suc (suc (suc (suc (suc (suc (suc p)))))))) (bits (c ∷ t)))
unfolding bits first
long_iff b c s t p h k (to, from) = (
  λ e.
      let both : (b == c && matches_prefix s t p) ≡ true = sym (matches_long b c s t p) ∙ e in
      let (one, others) = &&-parts (b == c) (matches_prefix s t p) both in
      let heads : bits_of b ≡ bits_of c = ap bits_of ((==_iff b c).0 one) in
      ap (λ l. l ++ first p (bits s)) heads ∙ ap (λ l. bits_of c ++ l) (to others),
  λ e.
      let heads : bits_of b ≡ bits_of c = ap (first 8) e in
      let one : (b == c) ≡ true = (==_iff b c).1 ((whole_iff b c h k).1 heads) in
      let tails : first p (bits s) ≡ first p (bits t) = ap rest8 e in
      matches_long b c s t p ∙ rw (one, from tails) refl,
)

matches_iff :
    (s t : List ℕ) (p : ℕ)
    → length s ≡ length t
    → p ≤ 8 * length s
    → All (λ b. b < 256) s
    → All (λ b. b < 256) t
    → (matches_prefix s t p ≡ true) ↔ (first p (bits s) ≡ first p (bits t))
unfolding matches_prefix bits
matches_iff [] [] zero l h k m = (λ _. refl, λ _. refl)
matches_iff [] [] (suc p) l h k m = absurd (omega arith)
matches_iff [] (c ∷ t) p l h k m = absurd (omega arith)
matches_iff (b ∷ s) [] p l h k m = absurd (omega arith)
matches_iff (b ∷ s) (c ∷ t) (suc (suc (suc (suc (suc (suc (suc (suc p)))))))) l h (kb, k) (mc, m) =
    long_iff b c s t p kb mc (matches_iff s t p (omega arith) (omega arith) k m)
matches_iff (b ∷ s) (c ∷ t) p l h (kb, k) (mc, m) = short_iff b c s t p (omega arith) kb mc

length-octets : (k n : ℕ) → length (octets_of k n) ≡ k
unfolding octets_of
length-octets zero n = refl
length-octets (suc k) n = ap suc (length-octets k n)

octets_are_bytes : (k n : ℕ) → All (λ b. b < 256) (octets_of k n)
unfolding octets_of
octets_are_bytes zero n = tt
octets_are_bytes (suc k) n = (omega arith, octets_are_bytes k n)

abbrev pub address_bits : IpAddr → List ℕ
address_bits (v4 n) = bits (octets_of 4 n)
address_bits (v6 n) = bits (octets_of 16 n)

octets_iff :
    (k n c p : ℕ)
    → p ≤ 8 * k
    → (matches_prefix (octets_of k n) (octets_of k c) p ≡ true)
      ↔ (first p (bits (octets_of k n)) ≡ first p (bits (octets_of k c)))
octets_iff k n c p h =
    matches_iff (octets_of k n) (octets_of k c) p (length-octets k n ∙ sym (length-octets k c))
      (omega (arith, h, length-octets k n)) (octets_are_bytes k n) (octets_are_bytes k c)

normal_iff :
    (range : Cidr) (network candidate : IpAddr)
    → range.prefix ≤ width_of network
    → (contains_normal range network candidate ≡ true) ↔ (
        (width_of network ≡ width_of candidate)
        × (first range.prefix (address_bits network) ≡ first range.prefix (address_bits candidate)))
unfolding contains_normal
normal_iff range (v4 n) (v4 c) h =
    let (to, from) = octets_iff 4 n c range.prefix h in (λ e. (refl, to e), λ (_, e). from e)
normal_iff range (v6 n) (v6 c) h =
    let (to, from) = octets_iff 16 n c range.prefix h in (λ e. (refl, to e), λ (_, e). from e)
normal_iff range (v4 n) (v6 c) h = (λ e. absurd (ground arith), λ (e, _). absurd (omega arith))
normal_iff range (v6 n) (v4 c) h = (λ e. absurd (ground arith), λ (e, _). absurd (omega arith))

prefix_bound : (width : ℕ) (text : Option Text) (p : ℕ) → prefix_of width text ≡ ok p → p ≤ width
unfolding prefix_of
prefix_bound width none p h = ground arith
prefix_bound width (some text) p h = elim (Option-cases (read_u8 (trim text))) [
  | inl e ↦ absurd (ground arith)
  | inr (q, e) ↦ elim (Bool-cases (leb q width)) [
    | inl small ↦ ground arith
    | inr big ↦ absurd (ground arith)
  ]
]

parsed_bound :
    (readers : Readers) (text : Text) (range : Cidr)
    → parse_cidr readers text ≡ ok range
    → range.prefix ≤ width_of range.network
unfolding parse_cidr
parsed_bound readers text range h =
    let (network, e, f) = >>=-eq-ok (ok_or not_a_range (readers.ip_addr (cut (trim text)).0)) _ h in
    let (p, g, made) = >>=-eq-ok (prefix_of (width_of network) (cut (trim text)).1) _ f in
    let same : record { network = network; prefix = p } ≡ range = cc in
    subst (λ (r : Cidr). r.prefix ≤ width_of r.network) same
      (prefix_bound (width_of network) (cut (trim text)).1 p g)

-- A range that has been read contains an address exactly if the two are of one width, an IPv4-mapped
-- address counting as the one it carries, and agree on as many of their first bits as the range's
-- prefix says.
pub contains_iff :
    (readers : Readers) (text : Text) (range : Cidr) (candidate : IpAddr)
    → parse_cidr readers text ≡ ok range
    → (contains range candidate ≡ true) ↔ (
        (width_of range.network ≡ width_of (normalize candidate))
        × (first range.prefix (address_bits range.network)
            ≡ first range.prefix (address_bits (normalize candidate))))
unfolding contains
contains_iff readers text range candidate h =
    normal_iff range range.network (normalize candidate) (parsed_bound readers text range h)
