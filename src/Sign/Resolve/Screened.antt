-- ===== src/Sign/Resolve/Screened.antt =====
-- src/catalog/v1/sign.rs: what the tests of a URL's scheme, fragment, query and headers leave.
use rustberg.Common.{
  sym, ◌≡◌, ◌⊎◌, refl, Text, codes, text_eq, text_eq_iff, Bool, true, false, not, ◌||◌, Bool-cases,
  inl, inr, All, IsIn, Option, some, none, List, [], ◌∷◌, any, ok, is_some, >>=-eq-ok, arith,
}
use rustberg.Sign.{
  RemoteSignRequest, Url, AppError, bad_scheme, has_fragment, refused_header, refused_parameter,
  refuse, refuse_found, find, names_of, is_refused_header, is_refused_subresource, reject_seen,
  reject_repeated_query_parameters, refused_subresource,
}
use rustberg.Sign.Resolve.{screen}

-- No name stands twice.
abbrev pub Distinct : List Text → Type 0
Distinct [] = Unit
Distinct (name ∷ names) = ¬ IsIn name names × Distinct names

-- What the query and the headers of a request that passes do not say.
pub record IsScreened (url : Url) (payload : RemoteSignRequest) : Type 0 where
  pub scheme : (url.scheme ≡ codes "http") ⊎ (url.scheme ≡ codes "https")
  pub fragment : url.fragment ≡ none
  pub parameters : Distinct (names_of url.query_pairs)
  pub headers : All (λ name. is_refused_header name ≡ false) (names_of payload.headers)
  pub subresources : All (λ name. is_refused_subresource name ≡ false) (names_of url.query_pairs)

find-none : (p : Text → Bool) (ss : List Text) → find p ss ≡ none → All (λ s. p s ≡ false) ss
find-none p [] h = tt
find-none p (s ∷ ss) h = elim (Bool-cases (p s)) [
  | inl found ↦ absurd (ground arith)
  | inr other ↦ (other, find-none p ss (ground arith))
]

refuse_found-none : (o : Option Text) (e : Text → AppError) → refuse_found o e ≡ ok tt → o ≡ none
refuse_found-none none e h = refl
refuse_found-none (some s) e h = cc

not-IsIn : (name : Text) (seen : List Text) → any (text_eq name) seen ≡ false → ¬ IsIn name seen
not-IsIn name [] h i = elim i [ ]
not-IsIn name (s ∷ seen) h (inl e) = absurd (ground (arith, text_eq_iff name s))
not-IsIn name (s ∷ seen) h (inr i) = not-IsIn name seen (ground arith) i

older :
    (name : Text) (seen names : List Text)
    → All (λ n. ¬ IsIn n (name ∷ seen)) names
    → All (λ n. ¬ IsIn n seen) names
older name seen [] h = tt
older name seen (n ∷ names) (k, h) = (λ i. k (inr i), older name seen names h)

newer :
    (name : Text) (seen names : List Text)
    → All (λ n. ¬ IsIn n (name ∷ seen)) names
    → ¬ IsIn name names
newer name seen [] h i = elim i [ ]
newer name seen (n ∷ names) (k, h) (inl e) = k (inl (sym e))
newer name seen (n ∷ names) (k, h) (inr i) = newer name seen names h i

-- None of the names has been seen.
fresh :
    (seen names : List Text)
    → reject_seen seen names ≡ ok tt
    → All (λ name. ¬ IsIn name seen) names × Distinct names
unfolding reject_seen
fresh seen [] h = (tt, tt)
fresh seen (name ∷ names) h = elim (Bool-cases (any (text_eq name) seen)) [
  | inl twice ↦ absurd (ground arith)
  | inr once ↦
      let (rest, distinct) = fresh (name ∷ seen) names (ground arith) in
      (
        (not-IsIn name seen once, older name seen names rest),
        (newer name seen names rest, distinct),
      )
]

scheme_lem :
    (scheme : Text)
    → not (text_eq scheme (codes "http") || text_eq scheme (codes "https")) ≡ false
    → (scheme ≡ codes "http") ⊎ (scheme ≡ codes "https")
scheme_lem scheme h = elim (Bool-cases (text_eq scheme (codes "http"))) [
  | inl http ↦ inl ((text_eq_iff scheme (codes "http")).0 http)
  | inr other ↦ inr ((text_eq_iff scheme (codes "https")).0 (ground arith))
]

refuse-false : (b : Bool) (e : AppError) → refuse b e ≡ ok tt → b ≡ false
refuse-false true e h = cc
refuse-false false e h = refl

is_some-none : (o : Option Text) → is_some o ≡ false → o ≡ none
is_some-none none h = refl
is_some-none (some s) h = cc

pub screen-IsScreened :
    (url : Url) (payload : RemoteSignRequest) → screen url payload ≡ ok tt → IsScreened url payload
unfolding screen reject_repeated_query_parameters refused_subresource
screen-IsScreened url payload h =
    let (tt, http, h1) =
      >>=-eq-ok
        (refuse (not (text_eq url.scheme (codes "http") || text_eq url.scheme (codes "https")))
          bad_scheme)
        _ h in
    let (tt, whole, h2) = >>=-eq-ok (refuse (is_some url.fragment) has_fragment) _ h1 in
    let (tt, once, h3) = >>=-eq-ok (reject_repeated_query_parameters url) _ h2 in
    let (tt, private, h4) =
      >>=-eq-ok (refuse_found (find is_refused_header (names_of payload.headers)) refused_header) _
        h3 in
    record {
      scheme = scheme_lem url.scheme (refuse-false _ bad_scheme http);
      fragment = is_some-none url.fragment (refuse-false _ has_fragment whole);
      parameters = (fresh [] (names_of url.query_pairs) once).1;
      headers = find-none is_refused_header _ (refuse_found-none _ refused_header private);
      subresources = find-none is_refused_subresource _ (refuse_found-none _ refused_parameter h4);
    }
