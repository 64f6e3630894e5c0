-- ===== src/Sign/Urls.antt =====
-- src/catalog/v1/sign.rs: the URLs that the server writes, and the bucket and the key of one that a
-- client sends.
pub mod Escapes
pub mod Hosts
pub mod Written
use rustberg.Common.{
  ℕ, Text, codes, text_eq, Bool, true, false, not, ◌&&◌, ◌||◌, Option, none, some, List, [], ◌∷◌,
  ◌++◌, map, any, Result, ok, err, ok_or, ◌>>=◌, if◌then◌else◌, ◌==◌, is_empty, is_some,
  strip_prefix, split_once, split_at_char, join, to_ascii_lowercase, trim,
}
use rustberg.Common.Utf8.{as_bytes, from_utf8}
use rustberg.Common.Percent.{escape, unescape}
use rustberg.Sign.{
  AppError, malformed_escape, not_utf8, no_host, no_bucket, separator, repeated_source,
  source_separator, short_source, UrlStyle, auto, path_style, virtual_host, SigningEndpointConfig,
  Url, Headers, refuse, starts_with, eq_ignore_ascii_case, copy_source_header,
}

unfoldable pub encode_path_segment : Text → Text
unfolding as_bytes escape
encode_path_segment value = escape (as_bytes value)

unfoldable pub encode_key : Text → Text
unfolding encode_path_segment split_at_char join
encode_key key = join b'/' (map encode_path_segment (split_at_char b'/' key))

abbrev is_virtual_host : Option UrlStyle → Bool
is_virtual_host (some virtual_host) = true
is_virtual_host _ = false

-- The three shapes of a URL.
unfoldable pub write_url : Text → Text → Text → SigningEndpointConfig → Text
write_url bucket encoded region config = elim config.endpoint_host [
  | some host ↦
      if is_virtual_host config.url_style
      then codes "https://" ++ (bucket ++ b'.' ∷ (host ++ b'/' ∷ encoded))
      else codes "https://" ++ (host ++ b'/' ∷ (bucket ++ b'/' ∷ encoded))
  | none ↦
      codes "https://"
      ++ (bucket ++ (codes ".s3." ++ (region ++ (codes ".amazonaws.com/" ++ encoded))))
]

-- `object_url` after `strip_prefix`.
object_at : Option Text → Text → SigningEndpointConfig → Option Text
unfolding split_once encode_key write_url
object_at none region config = none
object_at (some rest) region config = elim (split_once (codes "/") rest) [
  | none ↦ none
  | some (bucket, key) ↦
      if is_empty bucket || is_empty key
      then none
      else some (write_url bucket (encode_key key) region config)
]

unfoldable pub object_url : Text → Text → SigningEndpointConfig → Option Text
unfolding object_at
object_url location region config = object_at (strip_prefix (codes "s3://") location) region config

unfoldable pub percent_decode : Text → Result Text AppError
unfolding as_bytes unescape from_utf8
percent_decode segment = do
  out ← ok_or malformed_escape (unescape (as_bytes segment))
  ok_or not_utf8 (from_utf8 out)

-- `/`, `\` or NUL
unfoldable pub has_separator : Text → Bool
has_separator decoded = any (λ c. c == b'/' || c == 0x5c || c == 0) decoded

-- The loop of `split_bucket_and_key`.
unfoldable pub decode_segments : List Text → Result (List Text) AppError
unfolding percent_decode has_separator
decode_segments [] = ok []
decode_segments (raw ∷ raws) = do
  decoded ← percent_decode raw
  plain ← refuse (has_separator decoded) separator
  rest ← decode_segments raws
  ok (decoded ∷ rest)

-- `iter().position(…)` with what stands before: the labels before the marker.
unfoldable pub before_marker : List Text → Option (List Text)
before_marker [] = none
before_marker (label ∷ labels) =
    if text_eq label (codes "s3") || starts_with (codes "s3-") label
    then some []
    else elim (before_marker labels) [ none ↦ none | some before ↦ some (label ∷ before) ]

-- `str::strip_suffix`, the suffix first
unfoldable pub strip_suffix : Text → Text → Option Text
strip_suffix p [] = if is_empty p then some [] else none
strip_suffix p (c ∷ s) =
    let rest = strip_suffix p s in
    if text_eq p (c ∷ s) then some [] else elim rest [ none ↦ none | some t ↦ some (c ∷ t) ]

-- The bucket of a host of AWS, from the labels before its marker.
aws_bucket : Option (List Text) → Option Text
unfolding join
aws_bucket none = none
aws_bucket (some before) = if is_empty before then none else some (join b'.' before)

unfoldable pub virtual_host_bucket : Text → Option Text → Option Text
unfolding strip_suffix before_marker aws_bucket split_at_char
virtual_host_bucket host endpoint_host = elim (strip_suffix (codes ".amazonaws.com") host) [
  | some rest ↦ aws_bucket (before_marker (split_at_char b'.' rest))
  | none ↦ elim endpoint_host [
    | none ↦ none
    | some endpoint ↦ strip_suffix (b'.' ∷ to_ascii_lowercase endpoint) host
  ]
]

-- `strip_prefix('/').unwrap_or(path)`
unfoldable pub strip_slash : Text → Text
strip_slash path = elim (strip_prefix (codes "/") path) [ some rest ↦ rest | none ↦ path ]

-- The bucket of the host, by the configured style.
pub virtual_bucket : Option UrlStyle → Text → Option Text → Option Text
unfolding virtual_host_bucket
virtual_bucket (some path_style) host endpoint_host = none
virtual_bucket (some virtual_host) host endpoint_host = some host
virtual_bucket (some auto) host endpoint_host = virtual_host_bucket host endpoint_host
virtual_bucket none host endpoint_host = virtual_host_bucket host endpoint_host

-- The last match of `split_bucket_and_key`.
unfoldable pub take_bucket : Option Text → List Text → Result (Text × Text) AppError
unfolding join
take_bucket (some bucket) segments = ok (bucket, join b'/' segments)
take_bucket none [] = err no_bucket
take_bucket none (first ∷ rest) =
    if not (is_empty first) then ok (first, join b'/' rest) else err no_bucket

unfoldable pub path_segments : Text → List Text
unfolding split_at_char
path_segments path = if not (is_empty path) then split_at_char b'/' path else []

unfoldable pub split_bucket_and_key : Url → SigningEndpointConfig → Result (Text × Text) AppError
unfolding virtual_bucket strip_slash path_segments decode_segments take_bucket
split_bucket_and_key url config = do
  host ← ok_or no_host url.host_str
  segments ← decode_segments (path_segments (strip_slash url.path))
  take_bucket (virtual_bucket config.url_style (to_ascii_lowercase host) config.endpoint_host)
      segments

-- The loop of `copy_source_location` over the headers, `found` the header so far.
unfoldable pub find_source : Option Text → Headers → Result (Option Text) AppError
find_source found [] = ok found
find_source found ((name, values) ∷ headers) =
    if not (eq_ignore_ascii_case name copy_source_header)
    then find_source found headers
    else elim values [
      | [] ↦ err repeated_source
      | value ∷ more ↦
          if is_some found || not (is_empty more)
          then err repeated_source
          else find_source (some value) headers
    ]

-- The loop of `copy_source_location` over the segments; empty ones are passed over.
unfoldable pub decode_source : List Text → Result (List Text) AppError
unfolding percent_decode has_separator
decode_source [] = ok []
decode_source (raw ∷ raws) = elim (is_empty raw) [
  | true ↦ decode_source raws
  | false ↦ do
    decoded ← percent_decode raw
    plain ← refuse (has_separator decoded) source_separator
    rest ← decode_source raws
    ok (decoded ∷ rest)
]

-- `raw.split('?').next()`
unfoldable pub before_version : Text → Text
before_version [] = []
before_version (c ∷ s) = let rest = before_version s in if c == b'?' then [] else c ∷ rest

source_at : List Text → Result Text AppError
unfolding join
source_at (bucket ∷ key ∷ segments) =
    ok (codes "s3://" ++ bucket ++ b'/' ∷ join b'/' (key ∷ segments))
source_at _ = err short_source

-- `copy_source_location` for the value of the header.
source_of : Option Text → Result (Option Text) AppError
unfolding before_version trim strip_slash split_at_char decode_source source_at
source_of none = ok none
source_of (some raw) = do
  segments ← decode_source (split_at_char b'/' (strip_slash (trim (before_version raw))))
  location ← source_at segments
  ok (some location)

unfoldable pub copy_source_location : Headers → Result (Option Text) AppError
unfolding find_source source_of
copy_source_location headers = do found ← find_source none headers; source_of found
