-- ===== src/Sign/Urls/Escapes.antt =====
-- src/catalog/v1/sign.rs: `percent_decode` reads what `encode_path_segment` writes.
use rustberg.Common.{ℕ, ◌≡◌, ◌≢◌, refl, Text, true, All, ok, arith}
use rustberg.Common.Utf8.{from_utf8-as_bytes}
use rustberg.Common.Percent.{is_unreserved}
use rustberg.Common.Splits.{Lacks}
use rustberg.Common.Escapes.{IsText, unescape-escaped, escape_unreserved, escaped-Lacks}
use rustberg.Sign.Urls.{encode_path_segment, percent_decode}

-- A segment that was percent-encoded is decoded to what it was, whatever its characters.
pub percent_decode-encode_path_segment :
    (segment : Text) → IsText segment → percent_decode (encode_path_segment segment) ≡ ok segment
unfolding percent_decode encode_path_segment
percent_decode-encode_path_segment segment h =
    rw (unescape-escaped segment h, from_utf8-as_bytes segment h) refl

-- What needs no escape is written as it is.
pub encode_path_segment_unreserved :
    (s : Text) → All (λ c. is_unreserved c ≡ true) s → encode_path_segment s ≡ s
unfolding encode_path_segment
encode_path_segment_unreserved = escape_unreserved

not_percent : ◌≢◌ {A = ℕ} b'/' b'%'
not_percent e = absurd (ground arith)

-- No segment that was encoded has a slash.
pub encode_path_segment-Lacks : (s : Text) → IsText s → Lacks b'/' (encode_path_segment s)
unfolding encode_path_segment
encode_path_segment-Lacks s h = escaped-Lacks b'/' s refl not_percent h
