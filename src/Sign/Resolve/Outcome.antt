-- ===== src/Sign/Resolve/Outcome.antt =====
-- src/catalog/v1/sign.rs: what a request that was resolved has been found to be.
use rustberg.Common.{
  ap, ◌∙◌, ◌≡◌, ◌≢◌, ◌⊎◌, refl, Text, codes, text_eq, text_eq_iff, Bool, true, false, not, ◌||◌,
  Bool-cases, inl, inr, Option, some, none, List, [], ◌∷◌, map, Result, ok, ok_or, is_empty,
  >>=-eq-ok, arith,
}
use rustberg.Sign.{
  SignedOp, read, write, Addressed, Url, AppError, no_copy_target, copy_method, no_body, no_prefix,
  no_object, refuse, query_value, has_query_flag, has_query_value,
}
use mathlib.Core.Path.{subst}
use rustberg.Sign.Body.{delete_keys}
use rustberg.Sign.Resolve.{
  location_of, require_bucket_addressed, body_keys, is_delete_objects, is_list_objects,
  resolve_copy, resolve_delete, resolve_list, operation_of, resolve_object, resolve_kind,
}
use rustberg.Sign.Resolve.Found.{body_keys-ok, delete_keys_ne}

-- A method that changes nothing.
abbrev pub IsReading : Text → Type 0
IsReading method = (method ≡ codes "GET") ⊎ (method ≡ codes "HEAD")

-- The locations that a request names, by what it asks for, and whether they are list prefixes: a
-- copy names the object of the URL and the one it reads, a `DeleteObjects` every key of its body, a
-- listing the prefix of its query, and any other request the object of the URL.
pub data Names (method : Text) (url : Url) (body : Option Text) (bucket key : Text)
    : Option Text → List Text → Bool → Type 0 where
  of_copy :
      {source : Text}
      → method ≡ codes "PUT"
      → Names method url body bucket key (some source) (location_of bucket key ∷ source ∷ []) false
  of_delete :
      {text : Text} {keys : List Text}
      → method ≡ codes "POST"
      → has_query_flag url (codes "delete") ≡ true
      → body ≡ some text
      → delete_keys text ≡ ok (some keys)
      → Names method url body bucket key none (map (location_of bucket) keys) false
  of_list :
      {prefix : Text}
      → method ≡ codes "GET"
      → has_query_value url (codes "list-type") (codes "2") ≡ true
      → query_value (codes "prefix") url.query_pairs ≡ some prefix
      → Names method url body bucket key none (location_of bucket prefix ∷ []) true
  of_object :
      is_delete_objects method url ≡ false
      → is_list_objects method url ≡ false
      → Names method url body bucket key none (location_of bucket key ∷ []) false

-- What holds of the locations and the operation of a request: the URI is the parsed one, the
-- locations are those that the request names, there is one at least, and an operation that counts
-- as a read is asked for by a reading method, with nothing to copy.
pub record IsResolved (method : Text) (url : Url) (body : Option Text) (at : Text × Text)
    (source : Option Text) (addressed : Addressed) (op : SignedOp) : Type 0 where
  pub uri : addressed.uri ≡ url.as_str
  pub names : Names method url body at.0 at.1 source addressed.locations addressed.prefixes
  pub some_location : addressed.locations ≢ []
  pub reading : op ≡ read → IsReading method × (source ≡ none)

write_ne_read : write ≢ read
write_ne_read e = cc

pub ok-inj : {A : Type 0} {a b : A} → ◌≡◌ {A = Result A AppError} (ok a) (ok b) → a ≡ b
ok-inj e = cc

cons_ne : {A : Type 0} {a : A} {as' : List A} → a ∷ as' ≢ []
cons_ne e = cc

map_ne : (bucket : Text) (keys : List Text) → keys ≢ [] → map (location_of bucket) keys ≢ []
map_ne bucket [] ne e = ne refl
map_ne bucket (key ∷ keys) ne e = cons_ne e

-- By what the code answers.
answered :
    (method : Text) (url : Url) (body : Option Text) (at : Text × Text) (source : Option Text)
    (p q : Addressed × SignedOp)
    → ◌≡◌ {A = Result (Addressed × SignedOp) AppError} (ok p) (ok q)
    → IsResolved method url body at source p.0 p.1
    → IsResolved method url body at source q.0 q.1
answered method url body at source p q e h =
    subst (λ r. IsResolved method url body at source r.0 r.1) (ok-inj e) h

refused-false : (b : Bool) (e : AppError) (u : Unit {0}) → refuse b e ≡ ok u → b ≡ false
refused-false true e u h = cc
refused-false false e u h = refl

found-some : (e : AppError) (o : Option Text) (t : Text) → ok_or e o ≡ ok t → o ≡ some t
found-some e none t h = cc
found-some e (some s) t h = cc

resolve_copy-IsResolved :
    (method : Text) (url : Url) (body : Option Text) (bucket key source : Text)
    (addressed : Addressed) (op : SignedOp)
    → resolve_copy method url bucket key source ≡ ok (addressed, op)
    → IsResolved method url body (bucket, key) (some source) addressed op
unfolding resolve_copy
resolve_copy-IsResolved method url body bucket key source addressed op h =
    let (_, _, h1) =
      >>=-eq-ok
        (refuse (is_delete_objects method url || is_list_objects method url || is_empty key)
          no_copy_target)
        _ h in
    let (u, put, h2) =
      >>=-eq-ok (refuse (not (text_eq method (codes "PUT"))) (copy_method method)) _ h1 in
    let written = refused-false (not (text_eq method (codes "PUT"))) (copy_method method) u put in
    answered method url body (bucket, key) (some source) _ (addressed, op) h2
      (record {
        uri = refl;
        names = of_copy ((text_eq_iff method (codes "PUT")).0 (ground arith));
        some_location = λ e. cons_ne e;
        reading = λ e. absurd (write_ne_read e);
      })

delete_asked :
    (method : Text) (url : Url)
    → is_delete_objects method url ≡ true
    → (method ≡ codes "POST") × (has_query_flag url (codes "delete") ≡ true)
unfolding is_delete_objects
delete_asked method url h = (ground (arith, text_eq_iff method (codes "POST")), ground arith)

resolve_delete-IsResolved :
    (method : Text) (url : Url) (body : Option Text) (bucket key : Text) (addressed : Addressed)
    (op : SignedOp)
    → is_delete_objects method url ≡ true
    → resolve_delete url body bucket key ≡ ok (addressed, op)
    → IsResolved method url body (bucket, key) none addressed op
unfolding resolve_delete
resolve_delete-IsResolved method url body bucket key addressed op deletes h =
    let (text, sent, h1) = >>=-eq-ok (ok_or no_body body) _ h in
    let (_, _, h2) = >>=-eq-ok (require_bucket_addressed key) _ h1 in
    let (keys, named, h3) = >>=-eq-ok (body_keys (delete_keys text)) _ h2 in
    let (post, flag) = delete_asked method url deletes in
    answered method url body (bucket, key) none _ (addressed, op) h3
      (record {
        uri = refl;
        names =
            of_delete post flag (found-some no_body body text sent)
              (body_keys-ok (delete_keys text) keys named);
        some_location =
            map_ne bucket keys
              (delete_keys_ne text keys (body_keys-ok (delete_keys text) keys named));
        reading = λ e. absurd (write_ne_read e);
      })

list_asked :
    (method : Text) (url : Url)
    → is_list_objects method url ≡ true
    → (method ≡ codes "GET") × (has_query_value url (codes "list-type") (codes "2") ≡ true)
unfolding is_list_objects
list_asked method url h = (ground (arith, text_eq_iff method (codes "GET")), ground arith)

resolve_list-IsResolved :
    (method : Text) (url : Url) (body : Option Text) (bucket key : Text) (addressed : Addressed)
    (op : SignedOp)
    → is_list_objects method url ≡ true
    → resolve_list url bucket key ≡ ok (addressed, op)
    → IsResolved method url body (bucket, key) none addressed op
unfolding resolve_list
resolve_list-IsResolved method url body bucket key addressed op listing h =
    let (_, _, h1) = >>=-eq-ok (require_bucket_addressed key) _ h in
    let (prefix, given, h2) =
      >>=-eq-ok (ok_or no_prefix (query_value (codes "prefix") url.query_pairs)) _ h1 in
    let (get, second) = list_asked method url listing in
    answered method url body (bucket, key) none _ (addressed, op) h2
      (record {
        uri = refl;
        names = of_list get second (found-some no_prefix _ prefix given);
        some_location = λ e. cons_ne e;
        reading = λ _. (inl get, refl);
      })

operation_of-read : (method : Text) → operation_of method ≡ ok read → IsReading method
unfolding operation_of
operation_of-read method h = elim (Bool-cases (text_eq method (codes "GET"))) [
  | inl get ↦ inl ((text_eq_iff method (codes "GET")).0 get)
  | inr other ↦ elim (Bool-cases (text_eq method (codes "HEAD"))) [
    | inl head ↦ inr ((text_eq_iff method (codes "HEAD")).0 head)
    | inr neither ↦ absurd (ground arith)
  ]
]

resolve_object-IsResolved :
    (method : Text) (url : Url) (body : Option Text) (bucket key : Text) (addressed : Addressed)
    (op : SignedOp)
    → is_delete_objects method url ≡ false
    → is_list_objects method url ≡ false
    → resolve_object method url bucket key ≡ ok (addressed, op)
    → IsResolved method url body (bucket, key) none addressed op
unfolding resolve_object
resolve_object-IsResolved method url body bucket key addressed op no_delete no_list h =
    let (operation, found, h1) = >>=-eq-ok (operation_of method) _ h in
    let (_, _, h2) = >>=-eq-ok (refuse (is_empty key) no_object) _ h1 in
    answered method url body (bucket, key) none _ (addressed, op) h2
      (record {
        uri = refl;
        names = of_object no_delete no_list;
        some_location = λ e. cons_ne e;
        reading = λ e. (operation_of-read method (found ∙ ap (λ o. ok o) e), refl);
      })

pub resolve_kind-IsResolved :
    (method : Text) (url : Url) (body : Option Text) (at : Text × Text) (source : Option Text)
    (addressed : Addressed) (op : SignedOp)
    → resolve_kind method url body at source ≡ ok (addressed, op)
    → IsResolved method url body at source addressed op
unfolding resolve_kind
resolve_kind-IsResolved method url body (bucket, key) (some source) addressed op h =
    resolve_copy-IsResolved method url body bucket key source addressed op h
resolve_kind-IsResolved method url body (bucket, key) none addressed op h =
    elim (Bool-cases (is_delete_objects method url)) [
      | inl deletes ↦
          resolve_delete-IsResolved method url body bucket key addressed op deletes (ground arith)
      | inr other ↦ elim (Bool-cases (is_list_objects method url)) [
        | inl lists ↦
            resolve_list-IsResolved method url body bucket key addressed op lists (ground arith)
        | inr object ↦
            resolve_object-IsResolved method url body bucket key addressed op other object
              (ground arith)
      ]
    ]
