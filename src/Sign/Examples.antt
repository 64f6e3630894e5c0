-- ===== src/Sign/Examples.antt =====
-- Runs of src/catalog/v1/sign.rs, and its theorems at them.
use rustberg.Common.{
  ◌≡◌, ◌≢◌, ◌⊎◌, refl, Text, codes, Bool, true, false, Option, some, none, [], ◌∷◌, ◌++◌, ok, err,
}
use rustberg.Location.{split, segments, root_segments}
use rustberg.Sign.{
  RemoteSignRequest, read, SigningEndpointConfig, path_style, Url, restricted, unavailable,
}
use rustberg.Sign.Urls.{object_url, split_bucket_and_key}
use rustberg.Sign.Urls.Written.{split_bucket_and_key-object_url}
use rustberg.Sign.Body.{delete_keys}
use rustberg.Sign.Body.Layout.{Layout, Object, body_of}
use rustberg.Sign.Body.Written.{delete_keys-body_of}
use rustberg.Sign.Body.Ends.{delete_keys_ends}
use rustberg.Sign.Request.{Server, Response, Event, sign_request}
use rustberg.Sign.Request.Confined.{IsGranted, sign_request_sound}
use rustberg.Sign.Request.Refused.{AllRefused, sign_request_refused}

abbrev minio : SigningEndpointConfig
minio = record {
  enabled = true;
  url_style = some path_style;
  endpoint_host = some (codes "minio:9000");
  fallback_region = none;
}

-- The URL of one object, whatever the text.
abbrev object_of : Text → Option Url
object_of uri = some (record {
  scheme = codes "https";
  fragment = none;
  as_str = uri;
  host_str = some (codes "minio");
  path = codes "/wh/t/a%20%C3%A9";
  query_pairs = [];
})

-- A table at `s3://wh/t`, for a caller who may read it, and whom policy restricts or not.
abbrev server_of : Bool → Server
server_of unrestricted = record {
  signing = minio;
  authorize_read = ok (record { unrestricted = unrestricted; also_permits_update = ok false });
  table_location = ok (codes "s3://wh/t");
  manages_storage = λ _. true;
  allowed_prefixes = codes "s3://wh" ∷ [];
  sign = λ input. ok (record { uri = input.uri; headers = [] });
  accepts = λ _. true;
}

abbrev get_object : RemoteSignRequest
get_object = record {
  region = [];
  uri = codes "https://minio:9000/wh/t/a%20%C3%A9";
  method = codes "get";
  headers = [];
  body = none;
  provider = none;
}

abbrev named : Bool → Event
named allowed = record {
  operation = read;
  locations = codes "s3://wh/t/a é" ∷ [];
  location_count = 1;
  allowed = allowed;
}

abbrev answer : Response
answer = record {
  uri = codes "https://minio:9000/wh/t/a%20%C3%A9";
  headers = [];
  cache_control = codes "private";
}

granted : sign_request (server_of true) object_of get_object ≡ (named true ∷ [], ok answer)
unfolding sign_request split segments root_segments
granted = refl

withheld : sign_request (server_of false) object_of get_object ≡ (named false ∷ [], err restricted)
unfolding sign_request split segments root_segments
withheld = refl

sign_request_sound_example :
    IsGranted (server_of true) object_of get_object (named true ∷ []) answer
sign_request_sound_example =
    sign_request_sound (server_of true) object_of get_object (named true ∷ []) answer granted

sign_request_refused_example : AllRefused (named false ∷ []) ⊎ (restricted ≡ unavailable)
sign_request_refused_example =
    sign_request_refused (server_of false) object_of get_object (named false ∷ []) restricted
      withheld

-- As an SDK lays a body out, each object on a line.
abbrev sdk : Layout
sdk = record { declared = true; namespaced = true; gap = 0x0a ∷ codes "  "; as_entity = λ _. true }

abbrev first_object : Object
first_object = record { key = codes "t/<a>"; version_id = none }

abbrev second_object : Object
second_object = record { key = codes "t/&'b'"; version_id = some (codes "v2") }

delete_keys-body_of_example :
    delete_keys (body_of sdk (first_object ∷ second_object ∷ []) true)
    ≡ ok (some (codes "t/<a>" ∷ codes "t/&'b'" ∷ []))
delete_keys-body_of_example =
    delete_keys-body_of sdk first_object (second_object ∷ []) true (refl, (refl, (refl, tt)))

delete_keys_ends_example : delete_keys (codes "<?xml?><Delete><Object>") ≢ ok none
delete_keys_ends_example = delete_keys_ends (codes "<?xml?><Delete><Object>")

-- What the parser makes of the URL that is written for `a é`.
abbrev written : Url
written = record {
  scheme = codes "https";
  fragment = none;
  as_str = codes "https://minio:9000/wh/t/a%20%C3%A9";
  host_str = some (codes "minio");
  path = codes "/wh/t/a%20%C3%A9";
  query_pairs = [];
}

written_lem :
    object_url (codes "s3://" ++ (codes "wh" ++ b'/' ∷ codes "t/a é")) [] minio
    ≡ some (codes "https://" ++ (codes "minio:9000" ++ written.path))
unfolding object_url
written_lem = refl

split_bucket_and_key-object_url_example :
    split_bucket_and_key written minio ≡ ok (codes "wh", codes "t/a é")
split_bucket_and_key-object_url_example =
    split_bucket_and_key-object_url (codes "wh") (codes "t/a é") (codes "minio:9000")
      (codes "minio") [] minio written (refl, (refl, (refl, tt))) refl
      ((refl, refl), ((refl, refl), ((refl, refl), ((refl, refl), ((refl, refl), tt))))) refl tt
      refl written_lem
