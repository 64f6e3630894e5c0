-- ===== src/Sign.antt =====
-- src/catalog/v1/sign.rs: signing a storage request for a client. This file has the requests and the
-- configuration, and what a request is refused for by its headers and its query alone. The URL
-- library is a parameter: `Url` is what the code asks a parsed URL.
pub mod Urls
mod Examples
pub mod Body
pub mod Resolve
pub mod Request
use rustberg.Common.{
  ℕ, ◌*◌, Text, codes, text_eq, Bool, true, false, not, ◌&&◌, ◌||◌, Option, none, some, List, [],
  ◌∷◌, any, Result, ok, err, if◌then◌else◌, is_empty, strip_prefix, is_some, to_ascii_lowercase,
  trim,
}

abbrev pub max_body : ℕ
max_body = 64 * 1024

-- `HeaderMultiMap`, a `BTreeMap` of names to values
abbrev pub Headers : Type 0
Headers = List (Text × List Text)

pub record RemoteSignRequest : Type 0 where
  pub region : Text
  pub uri : Text
  pub method : Text
  pub headers : Headers
  pub body : Option Text
  pub provider : Option Text

pub data SignedOp : Type 0 where
  read write : SignedOp

pub record Addressed : Type 0 where
  pub uri : Text
  pub locations : List Text
  pub prefixes : Bool

pub data UrlStyle : Type 0 where
  auto path_style virtual_host : UrlStyle

pub record SigningEndpointConfig : Type 0 where
  pub enabled : Bool
  pub url_style : Option UrlStyle
  pub endpoint_host : Option Text
  pub fallback_region : Option Text

-- `reqwest::Url`, by its accessors; the pairs of the query are decoded.
pub record Url : Type 0 where
  pub scheme : Text
  pub fragment : Option Text
  pub as_str : Text
  pub host_str : Option Text
  pub path : Text
  pub query_pairs : List (Text × Text)

-- What is wrong with a body of `DeleteObjects`.
pub data BodyFault : Type 0 where
  stray_text bad_entity inner_instruction open_declaration declaration open_tag : BodyFault
  mismatched_tag second_root stray_attribute unexpected_element misplaced_element : BodyFault
  unclosed_element no_objects : BodyFault

-- `AppError`, its message as what the message is about. `endless_body` is for a scanner that runs out
-- of turns, `elsewhere` for the errors of other modules.
pub data AppError : Type 0 where
  unknown_style : Text → AppError
  not_offered not_configured : AppError
  bad_provider large_body bad_uri bad_scheme has_fragment : AppError
  repeated_parameter refused_header refused_parameter : Text → AppError
  malformed_escape not_utf8 : AppError
  no_host no_bucket separator : AppError
  repeated_source source_separator short_source no_copy_target : AppError
  copy_method : Text → AppError
  no_body no_prefix no_object : AppError
  not_bucket bad_method : Text → AppError
  bad_body : BodyFault → AppError
  unsignable : Text → AppError
  restricted no_write foreign_storage unauthorized unavailable signer_failed : AppError
  outside : Text → Text → AppError
  endless_body : AppError
  elsewhere : Text → AppError

-- `UrlStyle::parse`
unfoldable pub parse_style : Text → Result UrlStyle AppError
unfolding trim
parse_style value =
    let word = to_ascii_lowercase (trim value) in
    if text_eq word (codes "auto")
    then ok auto
    else if any (text_eq word) (codes "path" ∷ codes "path-style" ∷ [])
    then ok path_style
    else if any (text_eq word) (codes "virtual-host" ∷ codes "virtual" ∷ codes "vhost" ∷ [])
    then ok virtual_host
    else err (unknown_style word)

-- `str::starts_with`, the pattern first
abbrev pub starts_with : Text → Text → Bool
starts_with p s = is_some (strip_prefix p s)

abbrev pub eq_ignore_ascii_case : Text → Text → Bool
eq_ignore_ascii_case s t = text_eq (to_ascii_lowercase s) (to_ascii_lowercase t)

-- An early return.
abbrev pub refuse : Bool → AppError → Result (Unit {0}) AppError
refuse true e = err e
refuse false e = ok tt

abbrev pub refuse_found : Option Text → (Text → AppError) → Result (Unit {0}) AppError
refuse_found none e = ok tt
refuse_found (some name) e = err (e name)

-- `Iterator::find`
abbrev pub find : (Text → Bool) → List Text → Option Text
find p [] = none
find p (s ∷ ss) = if p s then some s else find p ss

unfoldable pub is_refused_header : Text → Bool
is_refused_header name =
    text_eq (to_ascii_lowercase name) (codes "x-amz-acl")
    || starts_with (codes "x-amz-grant-") (to_ascii_lowercase name)

abbrev pub copy_source_header : Text
copy_source_header = codes "x-amz-copy-source"

abbrev pub allowed_subresources : List Text
allowed_subresources = codes "delete" ∷ codes "uploads" ∷ codes "uploadId" ∷ []

abbrev pub refused_subresources : List Text
refused_subresources =
    codes "accelerate"
    ∷ codes "acl"
    ∷ codes "analytics"
    ∷ codes "attributes"
    ∷ codes "cors"
    ∷ codes "encryption"
    ∷ codes "intelligent-tiering"
    ∷ codes "inventory"
    ∷ codes "legal-hold"
    ∷ codes "lifecycle"
    ∷ codes "location"
    ∷ codes "logging"
    ∷ codes "metrics"
    ∷ codes "notification"
    ∷ codes "object-lock"
    ∷ codes "ownershipControls"
    ∷ codes "policy"
    ∷ codes "policyStatus"
    ∷ codes "publicAccessBlock"
    ∷ codes "replication"
    ∷ codes "requestPayment"
    ∷ codes "restore"
    ∷ codes "retention"
    ∷ codes "select"
    ∷ codes "tagging"
    ∷ codes "torrent"
    ∷ codes "versioning"
    ∷ codes "versions"
    ∷ codes "website"
    ∷ []

-- The names of the parameters, in order, and of the headers.
abbrev pub names_of {ℓ} : {A : Type ℓ} → List (Text × A) → List Text
names_of [] = []
names_of ((name, _) ∷ entries) = name ∷ names_of entries

-- The loop of `reject_repeated_query_parameters`, `seen` the names before.
unfoldable pub reject_seen : List Text → List Text → Result (Unit {0}) AppError
reject_seen seen [] = ok tt
reject_seen seen (name ∷ names) =
    if any (text_eq name) seen
    then err (repeated_parameter name)
    else reject_seen (name ∷ seen) names

unfoldable pub reject_repeated_query_parameters : Url → Result (Unit {0}) AppError
unfolding reject_seen
reject_repeated_query_parameters url = reject_seen [] (names_of url.query_pairs)

unfoldable pub is_refused_subresource : Text → Bool
is_refused_subresource name =
    any (text_eq name) refused_subresources && not (any (text_eq name) allowed_subresources)

unfoldable pub refused_subresource : Url → Option Text
unfolding is_refused_subresource
refused_subresource url = find is_refused_subresource (names_of url.query_pairs)

-- Whether a pair of the query is `name` with `value`; `has_query_flag` asks for an empty value.
unfoldable pub has_query_value : Url → Text → Text → Bool
has_query_value url name value = any (is_pair name value) url.query_pairs
  where
    is_pair : Text → Text → Text × Text → Bool
    is_pair name value (key, actual) = text_eq key name && text_eq actual value

unfoldable pub has_query_flag : Url → Text → Bool
has_query_flag url name = any (is_flag name) url.query_pairs
  where
    is_flag : Text → Text × Text → Bool
    is_flag name (key, value) = text_eq key name && is_empty value

-- `query_pairs().find(|(name, _)| name == "prefix")`, and the value.
unfoldable pub query_value : Text → List (Text × Text) → Option Text
query_value wanted [] = none
query_value wanted ((name, value) ∷ pairs) =
    let rest = query_value wanted pairs in if text_eq name wanted then some value else rest
