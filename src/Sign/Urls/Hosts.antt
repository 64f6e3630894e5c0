-- ===== src/Sign/Urls/Hosts.antt =====
-- src/catalog/v1/sign.rs: hosts that name no bucket.
use rustberg.Common.{
  ap, ◌≡◌, refl, suc, ◌≤◌, ◌<◌, length, Text, codes, text_eq, text_eq_iff, Bool-cases, inl, inr,
  to_ascii_lowercase, Option, none, false, some, [], ◌∷◌, arith,
}
use rustberg.Sign.{UrlStyle, auto, path_style, virtual_host}
use rustberg.Sign.Urls.{virtual_bucket, is_virtual_host, strip_suffix, virtual_host_bucket}

-- With an endpoint `endpoint`, whose host without its port the URL parser reads as `name`, the bucket
-- stands in the path: by the configured style, or by none and the name is no host of AWS.
abbrev pub IsInPath : Option UrlStyle → Text → Text → Type 0
IsInPath (some path_style) endpoint name = Unit
IsInPath (some virtual_host) endpoint name = ⊥
IsInPath (some auto) endpoint name =
    (length name ≤ length endpoint)
    × (strip_suffix (codes ".amazonaws.com") (to_ascii_lowercase name) ≡ none)
IsInPath none endpoint name =
    (length name ≤ length endpoint)
    × (strip_suffix (codes ".amazonaws.com") (to_ascii_lowercase name) ≡ none)

pub is_virtual_host_lem :
    (style : Option UrlStyle) (endpoint name : Text)
    → IsInPath style endpoint name
    → is_virtual_host style ≡ false
is_virtual_host_lem (some path_style) endpoint name h = refl
is_virtual_host_lem (some virtual_host) endpoint name h = elim h [ ]
is_virtual_host_lem (some auto) endpoint name h = refl
is_virtual_host_lem none endpoint name h = refl

-- A suffix is no longer than the text.
strip_suffix_short : (p s : Text) → length s < length p → strip_suffix p s ≡ none
unfolding strip_suffix
strip_suffix_short [] s lt = absurd (omega arith)
strip_suffix_short (a ∷ p) [] lt = refl
strip_suffix_short (a ∷ p) (c ∷ s) lt =
    let rest = strip_suffix_short (a ∷ p) s (omega arith) in
    elim (Bool-cases (text_eq (a ∷ p) (c ∷ s))) [
      | inl same ↦
          let e : length (a ∷ p) ≡ length (c ∷ s) =
            ap (λ (t : Text). length t) ((text_eq_iff (a ∷ p) (c ∷ s)).0 same) in
          absurd (omega arith)
      | inr other ↦ rw (strip_suffix, other, rest) refl
    ]

length-to_ascii_lowercase : (s : Text) → length (to_ascii_lowercase s) ≡ length s
length-to_ascii_lowercase [] = refl
length-to_ascii_lowercase (c ∷ s) = ap suc (length-to_ascii_lowercase s)

virtual_host_bucket_lem :
    (endpoint name : Text)
    → length name ≤ length endpoint
    → strip_suffix (codes ".amazonaws.com") (to_ascii_lowercase name) ≡ none
    → virtual_host_bucket (to_ascii_lowercase name) (some endpoint) ≡ none
unfolding virtual_host_bucket
virtual_host_bucket_lem endpoint name le other =
    let short =
      strip_suffix_short (b'.' ∷ to_ascii_lowercase endpoint) (to_ascii_lowercase name)
        (omega (arith, length-to_ascii_lowercase endpoint, length-to_ascii_lowercase name)) in
    rw (virtual_host_bucket, other, short) refl

pub virtual_bucket_lem :
    (style : Option UrlStyle) (endpoint name : Text)
    → IsInPath style endpoint name
    → virtual_bucket style (to_ascii_lowercase name) (some endpoint) ≡ none
unfolding virtual_bucket
virtual_bucket_lem (some path_style) endpoint name h = refl
virtual_bucket_lem (some virtual_host) endpoint name h = elim h [ ]
virtual_bucket_lem (some auto) endpoint name (le, other) =
    virtual_host_bucket_lem endpoint name le other
virtual_bucket_lem none endpoint name (le, other) = virtual_host_bucket_lem endpoint name le other
