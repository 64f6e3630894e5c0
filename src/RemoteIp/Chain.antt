-- ===== src/RemoteIp/Chain.antt =====
-- What src/remote_ip.rs makes of a chain of hops, part of which the client has written.
use mathlib.Core.List.{append-nil, append_assoc}
use rustberg.Common.{
  Text, trim, split_at_char, true, false, Option, none, some, List, [], ◌∷◌, ◌++◌, map, is_empty,
  All, ◌≡◌, refl, sym, ap, ◌∙◌,
}
use rustberg.Common.Splits.{split_at_char-join, split_at_char-cons}
use rustberg.RateLimit.{IpAddr}
use rustberg.RemoteIp.{
  Readers, Cidr, Trusted, is_trusted, stops, last_stop, walk, believed, hops_of, chain_of,
  parse_forwarded_entry, resolve,
}

last_stop-append :
    (trusted : Trusted) (forged hops : List (Option IpAddr)) (hop : Option IpAddr)
    → last_stop trusted hops ≡ some hop
    → last_stop trusted (forged ++ hops) ≡ some hop
unfolding last_stop
last_stop-append trusted [] hops hop h = h
last_stop-append trusted (f ∷ forged) hops hop h =
    rw (last_stop-append trusted forged hops hop h) refl

walk-append :
    (trusted : Trusted) (forged hops : List (Option IpAddr)) (hop : Option IpAddr)
    → last_stop trusted hops ≡ some hop
    → walk trusted (forged ++ hops) ≡ hop
unfolding walk
walk-append trusted forged hops hop h = rw (walk, last_stop-append trusted forged hops hop h) refl

chain-snoc :
    (readers : Readers) (values : List Text) (value : Text)
    → chain_of readers (values ++ value ∷ []) ≡ chain_of readers values ++ hops_of readers value
unfolding chain_of
chain-snoc readers [] value = append-nil (hops_of readers value)
chain-snoc readers (v ∷ values) value =
    ap (λ l. hops_of readers v ++ l) (chain-snoc readers values value)
    ∙ sym (append_assoc (hops_of readers v) (chain_of readers values) (hops_of readers value))

map-append : {A B : Type 0} (f : A → B) (xs ys : List A) → map f (xs ++ ys) ≡ map f xs ++ map f ys
map-append f [] ys = refl
map-append f (x ∷ xs) ys = ap (λ l. f x ∷ l) (map-append f xs ys)

hops-join :
    (readers : Readers) (s t : Text)
    → hops_of readers (s ++ b',' ∷ t) ≡ hops_of readers s ++ hops_of readers t
unfolding hops_of
hops-join readers s t =
    rw (split_at_char-join b',' s t) (map-append _ (split_at_char b',' s) (split_at_char b',' t))

no_stop :
    (trusted : Trusted) (proxies : List (Option IpAddr))
    → All (λ hop. stops trusted hop ≡ false) proxies
    → last_stop trusted proxies ≡ none
unfolding last_stop
no_stop trusted [] h = refl
no_stop trusted (p ∷ proxies) (t, h) = rw (no_stop trusted proxies h, t) refl

last_stop-cons :
    (trusted : Trusted) (client : Option IpAddr) (proxies : List (Option IpAddr))
    → stops trusted client ≡ true
    → All (λ hop. stops trusted hop ≡ false) proxies
    → last_stop trusted (client ∷ proxies) ≡ some client
unfolding last_stop
last_stop-cons trusted client proxies c h = rw (no_stop trusted proxies h, c) refl

-- A header value has a hop at least.
hops-cons :
    (readers : Readers) (value : Text)
    → (hop : Option IpAddr) × (hops : List (Option IpAddr)) × (hops_of readers value ≡ hop ∷ hops)
unfolding hops_of
hops-cons readers value =
    let (first, others, e) = split_at_char-cons b',' value in
    (
      parse_forwarded_entry readers (trim first),
      map (λ s. parse_forwarded_entry readers (trim s)) others,
      ap (map (λ s. parse_forwarded_entry readers (trim s))) e,
    )

not_empty-append :
    (xs : List (Option IpAddr)) (y : Option IpAddr) (ys : List (Option IpAddr))
    → is_empty (xs ++ y ∷ ys) ≡ false
not_empty-append [] y ys = refl
not_empty-append (x ∷ xs) y ys = refl

unbelieved :
    (readers : Readers) (trusted : Trusted) (chain : List (Option IpAddr)) (peer : IpAddr)
    (real_ip : Option Text)
    → is_empty chain ≡ false
    → believed readers trusted chain peer real_ip ≡ none
unfolding believed
unbelieved readers trusted chain peer real_ip h = rw (believed, h) refl

stranger :
    (readers : Readers) (trusted : Trusted) (chain : List (Option IpAddr)) (peer : IpAddr)
    (real_ip : Option Text)
    → is_trusted trusted peer ≡ false
    → believed readers trusted chain peer real_ip ≡ none
unfolding believed
stranger readers trusted [] peer real_ip h = rw (believed, h) refl
stranger readers trusted (hop ∷ chain) peer real_ip h = refl

stranger_stops :
    (trusted : Trusted) (peer : IpAddr)
    → is_trusted trusted peer ≡ false
    → stops trusted (some peer) ≡ true
unfolding stops
stranger_stops trusted peer h = rw h refl

-- With a chain to walk, `X-Real-IP` is not read.
resolve_of_chain :
    (readers : Readers) (range : Cidr) (ranges : Trusted) (peer : IpAddr) (forwarded : List Text)
    (real_ip : Option Text)
    → is_empty (chain_of readers forwarded) ≡ false
    → resolve readers (range ∷ ranges) (some peer) forwarded real_ip
      ≡ walk (range ∷ ranges) (chain_of readers forwarded ++ some peer ∷ [])
unfolding resolve
resolve_of_chain readers range ranges peer forwarded real_ip h =
    let silent : believed readers (range ∷ ranges) (chain_of readers forwarded) peer real_ip
        ≡ none =
      unbelieved readers (range ∷ ranges) (chain_of readers forwarded) peer real_ip h in
    rw (resolve, silent) refl

-- Behind proxies that each append the hop they see, a client is found whatever it wrote itself: if
-- what the proxies appended to the last header value, and the peer, are a hop that is no trusted
-- proxy and then trusted proxies only, the answer is that hop, or that it cannot be told, for every
-- header that the client sent before and everything that it wrote into this one.
pub resolve_forged :
    (readers : Readers) (range : Cidr) (ranges : Trusted) (peer : IpAddr) (forwarded : List Text)
    (written appended : Text) (real_ip : Option Text) (client : Option IpAddr)
    (proxies : List (Option IpAddr))
    → hops_of readers appended ++ some peer ∷ [] ≡ client ∷ proxies
    → stops (range ∷ ranges) client ≡ true
    → All (λ hop. stops (range ∷ ranges) hop ≡ false) proxies
    → resolve readers
        (range ∷ ranges)
        (some peer)
        (forwarded ++ (written ++ b',' ∷ appended) ∷ [])
        real_ip
      ≡ client
resolve_forged readers range ranges peer forwarded written appended real_ip client proxies e c h =
    let earlier = chain_of readers forwarded ++ hops_of readers written in
    let (hop, hops, found) = hops-cons readers appended in
    let chain : chain_of readers (forwarded ++ (written ++ b',' ∷ appended) ∷ [])
        ≡ earlier ++ hops_of readers appended =
      chain-snoc readers forwarded (written ++ b',' ∷ appended)
      ∙ ap (λ l. chain_of readers forwarded ++ l) (hops-join readers written appended)
      ∙ sym (
          append_assoc (chain_of readers forwarded) (hops_of readers written)
            (hops_of readers appended)) in
    let full : is_empty (chain_of readers (forwarded ++ (written ++ b',' ∷ appended) ∷ []))
        ≡ false =
      ap is_empty (chain ∙ ap (λ l. earlier ++ l) found) ∙ not_empty-append earlier hop hops in
    resolve_of_chain readers range ranges peer (forwarded ++ (written ++ b',' ∷ appended) ∷ [])
      real_ip full
    ∙ ap (λ l. walk (range ∷ ranges) (l ++ some peer ∷ [])) chain
    ∙ ap (walk (range ∷ ranges)) (
        append_assoc earlier (hops_of readers appended) (some peer ∷ []) ∙ ap (λ l. earlier ++ l) e)
    ∙ walk-append (range ∷ ranges) earlier (client ∷ proxies) client
        (last_stop-cons (range ∷ ranges) client proxies c h)

-- A peer that is no trusted proxy is the answer, whatever the headers say.
pub resolve_direct :
    (readers : Readers) (trusted : Trusted) (peer : IpAddr) (forwarded : List Text)
    (real_ip : Option Text)
    → is_trusted trusted peer ≡ false
    → resolve readers trusted (some peer) forwarded real_ip ≡ some peer
unfolding resolve
resolve_direct readers [] peer forwarded real_ip h = refl
resolve_direct readers (range ∷ ranges) peer forwarded real_ip h =
    let silent : believed readers (range ∷ ranges) (chain_of readers forwarded) peer real_ip
        ≡ none =
      stranger readers (range ∷ ranges) (chain_of readers forwarded) peer real_ip h in
    rw (resolve, silent)
      (walk-append (range ∷ ranges) (chain_of readers forwarded) (some peer ∷ []) (some peer) (
        last_stop-cons (range ∷ ranges) (some peer) [] (stranger_stops (range ∷ ranges) peer h) tt))
