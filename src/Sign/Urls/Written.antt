-- ===== src/Sign/Urls/Written.antt =====
-- src/catalog/v1/sign.rs: the endpoint reads the bucket and the key of a URL that `object_url`
-- wrote.
use mathlib.Core.Path.{subst}
use mathlib.Core.List.{append_cancel_left}
use rustberg.Common.{
  sym, ◌∙◌, ◌≡◌, refl, ℕ, Text, codes, true, false, All, some, List, [], ◌∷◌, ◌++◌, map, ok, ◌==◌,
  ◌||◌, is_empty, split_at_char, ==_iff, arith,
}
use rustberg.Common.Splits.{
  is_empty-append, Lacks, split_once_of_Lacks, split_at_char-join, split_at_char_of_Lacks,
  split_at_char-cons,
}
use rustberg.Common.Joins.{split-join, join-split, split_at_char-Lacks, split_at_char-All}
use rustberg.Common.Percent.{is_unreserved}
use rustberg.Common.Utf8.{is_char}
use rustberg.Sign.{SigningEndpointConfig, Url}
use rustberg.Sign.Urls.{
  encode_path_segment, encode_key, object_at, object_url, write_url, has_separator, decode_segments,
  path_segments, strip_slash, virtual_bucket, take_bucket, split_bucket_and_key,
}
use rustberg.Common.Escapes.{IsText}
use rustberg.Sign.Urls.Escapes.{
  percent_decode-encode_path_segment, encode_path_segment_unreserved, encode_path_segment-Lacks,
}
use rustberg.Sign.Urls.Hosts.{IsInPath, is_virtual_host_lem, virtual_bucket_lem}

-- A key's segment that the endpoint reads: no separator and no NUL.
abbrev pub IsSegment : Text → Type 0
IsSegment s = IsText s × (has_separator s ≡ false)

decode_segments-encode :
    (segments : List Text)
    → All IsSegment segments
    → decode_segments (map encode_path_segment segments) ≡ ok segments
unfolding decode_segments
decode_segments-encode [] h = refl
decode_segments-encode (s ∷ ss) ((k, plain), h) =
    rw (percent_decode-encode_path_segment s k, plain, decode_segments-encode ss h) refl

All-map_encode : (ss : List Text) → All IsText ss → All (Lacks b'/') (map encode_path_segment ss)
All-map_encode [] h = tt
All-map_encode (s ∷ ss) (k, h) = (encode_path_segment-Lacks s k, All-map_encode ss h)

-- The characters of a key: any but a backslash and NUL.
abbrev pub IsKeyChar : ℕ → Type 0
IsKeyChar c = (is_char c ≡ true) × ((c == 0x5c || c == 0) ≡ false)

some-inj : {s t : Text} → some s ≡ some t → s ≡ t
some-inj e = cc

segment-IsSegment : (s : Text) → All IsKeyChar s → Lacks b'/' s → IsSegment s
unfolding has_separator
segment-IsSegment [] h k = (tt, refl)
segment-IsSegment (c ∷ s) ((char, plain), h) (ne, k) =
    let (chars, rest) = segment-IsSegment s h k in ((char, chars), ground (arith, ==_iff c b'/'))

segments-IsSegment :
    (ss : List Text) → All (All IsKeyChar) ss → All (Lacks b'/') ss → All IsSegment ss
segments-IsSegment [] h k = tt
segments-IsSegment (s ∷ ss) (h, hs) (k, ks) = (segment-IsSegment s h k, segments-IsSegment ss hs ks)

All-IsText : (ss : List Text) → All IsSegment ss → All IsText ss
All-IsText [] h = tt
All-IsText (s ∷ ss) ((k, _), h) = (k, All-IsText ss h)

key-IsSegment : (key : Text) → All IsKeyChar key → All IsSegment (split_at_char b'/' key)
key-IsSegment key h =
    segments-IsSegment (split_at_char b'/' key) (split_at_char-All IsKeyChar b'/' key h)
      (split_at_char-Lacks b'/' key)

-- A bucket's name, in characters that need no escape.
abbrev pub IsBucket : Text → Type 0
IsBucket bucket = (is_empty bucket ≡ false) × All (λ c. is_unreserved c ≡ true) bucket

unreserved-IsSegment : (s : Text) → All (λ c. is_unreserved c ≡ true) s → IsSegment s × Lacks b'/' s
unfolding has_separator
unreserved-IsSegment [] h = ((tt, refl), tt)
unreserved-IsSegment (c ∷ s) (k, h) =
    let ((chars, rest), lacks) = unreserved-IsSegment s h in
    (((ground arith, chars), ground arith), (ground arith, lacks))

-- The segments of what is written for a key are its segments, each encoded.
split-encode_key :
    (key : Text)
    → All IsKeyChar key
    → split_at_char b'/' (encode_key key) ≡ map encode_path_segment (split_at_char b'/' key)
unfolding encode_key
split-encode_key key h =
    let (first, others, e) = split_at_char-cons b'/' key in
    let lacks =
      All-map_encode (split_at_char b'/' key)
        (All-IsText (split_at_char b'/' key) (key-IsSegment key h)) in
    let lacks' = subst (λ ss. All (Lacks b'/') (map encode_path_segment ss)) e lacks in
    rw e (split-join b'/' (encode_path_segment first) (map encode_path_segment others) lacks')

decode-path_segments :
    (bucket key : Text)
    → IsBucket bucket
    → All IsKeyChar key
    → decode_segments (path_segments (strip_slash (b'/' ∷ (bucket ++ b'/' ∷ encode_key key))))
      ≡ ok (bucket ∷ split_at_char b'/' key)
unfolding path_segments strip_slash
decode-path_segments bucket key (some_name, plain) h =
    let (inside, lacks) = unreserved-IsSegment bucket plain in
    let cut : split_at_char b'/' (bucket ++ b'/' ∷ encode_key key)
        ≡ map encode_path_segment (bucket ∷ split_at_char b'/' key) =
      split_at_char-join b'/' bucket (encode_key key)
      ∙ rw
          (
            split_at_char_of_Lacks b'/' bucket lacks,
            split-encode_key key h,
            encode_path_segment_unreserved bucket plain,
          )
          refl in
    let some_path = is_empty-append bucket b'/' (encode_key key) in
    rw (some_path, cut)
      (decode_segments-encode (bucket ∷ split_at_char b'/' key) (inside, key-IsSegment key h))

object_url-eq :
    (bucket key host name region : Text) (config : SigningEndpointConfig)
    → IsBucket bucket
    → is_empty key ≡ false
    → config.endpoint_host ≡ some host
    → IsInPath config.url_style host name
    → object_url (codes "s3://" ++ (bucket ++ b'/' ∷ key)) region config
      ≡ some (codes "https://" ++ (host ++ b'/' ∷ (bucket ++ b'/' ∷ encode_key key)))
unfolding object_url object_at write_url
object_url-eq bucket key host name region config (some_name, plain) some_key e style =
    let in_path = is_virtual_host_lem config.url_style host name style in
    let lacks : Lacks b'/' bucket = (unreserved-IsSegment bucket plain).1 in
    rw (object_at, split_once_of_Lacks b'/' bucket key lacks, some_name, some_key, e, in_path) refl

-- With an endpoint of its own, `host` or `host:port`, the server reads back the bucket and the key
-- of the URL that it writes for an object, in path style and, when the endpoint's host is not of
-- AWS, also where no style or `auto` is configured. The key may have any characters but a backslash
-- or NUL, and the bucket's name needs no escape. The URL parser reads some host name in the
-- endpoint, if need be without its port but no longer than the endpoint, and keeps what follows the
-- endpoint as the path.
pub split_bucket_and_key-object_url :
    (bucket key host name region : Text) (config : SigningEndpointConfig) (url : Url)
    → IsBucket bucket
    → is_empty key ≡ false
    → All IsKeyChar key
    → config.endpoint_host ≡ some host
    → IsInPath config.url_style host name
    → url.host_str ≡ some name
    → object_url (codes "s3://" ++ (bucket ++ b'/' ∷ key)) region config
      ≡ some (codes "https://" ++ (host ++ url.path))
    → split_bucket_and_key url config ≡ ok (bucket, key)
unfolding split_bucket_and_key virtual_bucket take_bucket
split_bucket_and_key-object_url bucket key host name region config url b k chars e style at
      written =
    let path : url.path ≡ b'/' ∷ (bucket ++ b'/' ∷ encode_key key) =
      append_cancel_left host url.path (b'/' ∷ (bucket ++ b'/' ∷ encode_key key)) (
        append_cancel_left (codes "https://") (host ++ url.path)
          (host ++ b'/' ∷ (bucket ++ b'/' ∷ encode_key key))
          (some-inj
            (sym written ∙ object_url-eq bucket key host name region config b k e style))) in
    let decoded = decode-path_segments bucket key b chars in
    let in_path = virtual_bucket_lem config.url_style host name style in
    rw (at, path, decoded, e, in_path) (rw (b.0, join-split b'/' key) refl)
