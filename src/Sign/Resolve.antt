-- ===== src/Sign/Resolve.antt =====
-- src/catalog/v1/sign.rs: which locations a request touches, and whether it writes. The URL parser is
-- an argument.
pub mod Found
pub mod Outcome
pub mod Screened
use rustberg.Common.{
  Text, codes, text_eq, Bool, true, false, not, ◌&&◌, ◌||◌, Option, none, some, List, [], ◌∷◌, ◌++◌,
  map, any, Result, ok, err, ok_or, ◌>>=◌, if◌then◌else◌, is_empty, is_some,
}
use rustberg.Sign.{
  RemoteSignRequest, SignedOp, read, write, Addressed, SigningEndpointConfig, Url, BodyFault,
  AppError, bad_uri, bad_scheme, has_fragment, refused_header, refused_parameter, no_copy_target,
  copy_method, no_body, no_prefix, no_object, not_bucket, bad_method, bad_body, endless_body,
  refuse, refuse_found, find, names_of, is_refused_header, reject_repeated_query_parameters,
  refused_subresource, has_query_flag, has_query_value, query_value,
}
use rustberg.Sign.Urls.{split_bucket_and_key, copy_source_location}
use rustberg.Sign.Body.{delete_keys}

-- `format!("s3://{bucket}/{key}")`
abbrev pub location_of : Text → Text → Text
location_of bucket key = codes "s3://" ++ (bucket ++ codes "/" ++ key)

unfoldable pub require_bucket_addressed : Text → Result (Unit {0}) AppError
require_bucket_addressed key = if is_empty key then ok tt else err (not_bucket key)

-- What `delete_keys` answers, as an answer of the endpoint.
unfoldable pub body_keys : Result (Option (List Text)) BodyFault → Result (List Text) AppError
body_keys (err e) = err (bad_body e)
body_keys (ok none) = err endless_body
body_keys (ok (some keys)) = ok keys

unfoldable pub is_delete_objects : Text → Url → Bool
unfolding has_query_flag
is_delete_objects method url = text_eq method (codes "POST") && has_query_flag url (codes "delete")

unfoldable pub is_list_objects : Text → Url → Bool
unfolding has_query_value
is_list_objects method url =
    text_eq method (codes "GET") && has_query_value url (codes "list-type") (codes "2")

-- A server-side copy.
unfoldable pub resolve_copy :
    Text → Url → Text → Text → Text → Result (Addressed × SignedOp) AppError
unfolding is_delete_objects is_list_objects
resolve_copy method url bucket key source = do
  object ←
      refuse (is_delete_objects method url || is_list_objects method url || is_empty key)
        no_copy_target
  put ← refuse (not (text_eq method (codes "PUT"))) (copy_method method)
  ok (
    record { uri = url.as_str; locations = location_of bucket key ∷ source ∷ []; prefixes = false },
    write,
  )

unfoldable pub resolve_delete :
    Url → Option Text → Text → Text → Result (Addressed × SignedOp) AppError
unfolding require_bucket_addressed body_keys delete_keys
resolve_delete url body bucket key = do
  text ← ok_or no_body body
  whole ← require_bucket_addressed key
  keys ← body_keys (delete_keys text)
  ok (
    record { uri = url.as_str; locations = map (location_of bucket) keys; prefixes = false },
    write,
  )

unfoldable pub resolve_list : Url → Text → Text → Result (Addressed × SignedOp) AppError
unfolding require_bucket_addressed query_value
resolve_list url bucket key = do
  whole ← require_bucket_addressed key
  prefix ← ok_or no_prefix (query_value (codes "prefix") url.query_pairs)
  ok (
    record { uri = url.as_str; locations = location_of bucket prefix ∷ []; prefixes = true },
    read,
  )

unfoldable pub operation_of : Text → Result SignedOp AppError
operation_of method =
    if any (text_eq method) (codes "GET" ∷ codes "HEAD" ∷ [])
    then ok read
    else if any (text_eq method) (codes "PUT" ∷ codes "POST" ∷ codes "DELETE" ∷ codes "PATCH" ∷ [])
    then ok write
    else err (bad_method method)

unfoldable pub resolve_object : Text → Url → Text → Text → Result (Addressed × SignedOp) AppError
unfolding operation_of
resolve_object method url bucket key = do
  operation ← operation_of method
  object ← refuse (is_empty key) no_object
  ok (
    record { uri = url.as_str; locations = location_of bucket key ∷ []; prefixes = false },
    operation,
  )

-- `resolve` after the copy source is known.
unfoldable pub resolve_kind :
    Text → Url → Option Text → Text × Text → Option Text → Result (Addressed × SignedOp) AppError
unfolding resolve_copy resolve_delete resolve_list resolve_object is_delete_objects is_list_objects
resolve_kind method url body (bucket, key) (some source) = resolve_copy method url bucket key source
resolve_kind method url body (bucket, key) none =
    if is_delete_objects method url
    then resolve_delete url body bucket key
    else if is_list_objects method url
    then resolve_list url bucket key
    else resolve_object method url bucket key

-- The tests of the URL itself, before its bucket and key are read.
unfoldable pub screen : Url → RemoteSignRequest → Result (Unit {0}) AppError
unfolding is_refused_header reject_repeated_query_parameters refused_subresource
screen url payload = do
  http ←
      refuse (not (text_eq url.scheme (codes "http") || text_eq url.scheme (codes "https")))
        bad_scheme
  whole ← refuse (is_some url.fragment) has_fragment
  once ← reject_repeated_query_parameters url
  private ← refuse_found (find is_refused_header (names_of payload.headers)) refused_header
  refuse_found (refused_subresource url) refused_parameter

module _ (parse : Text → Option Url) where
  unfoldable pub resolve :
      Text → RemoteSignRequest → SigningEndpointConfig → Result (Addressed × SignedOp) AppError
  unfolding screen split_bucket_and_key copy_source_location resolve_kind
  resolve method payload config = do
    url ← ok_or bad_uri (parse payload.uri)
    screened ← screen url payload
    at ← split_bucket_and_key url config
    source ← copy_source_location payload.headers
    resolve_kind method url payload.body at source
